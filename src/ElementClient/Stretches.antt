-- ===== src/ElementClient/Stretches.antt =====
-- cliente_nuevo.c: a run of solicitar_elemento for writing, cut where it waits for the name server and for the
-- user, and several clients that take turns.
use so_distribuidos.Prelude.{
  Option, none, some, [], ◌∷◌, List, Bytes, codes, str_eq, c_str, take, ℤ, if◌then◌else◌,
}
use so_distribuidos.Transfer.Loops.{Connection}
use so_distribuidos.Transfer.Files.{FileSystem}
use so_distribuidos.ElementDns.Messages.{pedir_elemento}
use so_distribuidos.ElementClient.Folder.{crear_carpeta_descargas, recibir_archivo, enviar_archivo}
use so_distribuidos.ElementClient.Request.{
  Ubicacion, Respuesta, encontrado, leer_respuesta, pedir_obtener, pedir_actualizar, Entorno,
}

-- Where a client stands: with no request, with an element that it was granted, or with the element downloaded
-- and the user at work on it.
pub data Fase : Type 0 where
  libre : Fase
  concedido : Ubicacion → Fase
  editando : Ubicacion → Fase

pub record Cliente : Type 0 where
  pub archivos : FileSystem
  pub fase : Fase

module _ {R : Type 0} (dns : Bytes → R → Option Bytes × R)
    (conectar : Bytes → ℤ → List Bytes → R → Option Connection × R) (v : Entorno)
    (nombre : Bytes) where
  abbrev pub segun_respuesta : FileSystem → Respuesta → Cliente
  segun_respuesta fs (encontrado u) = record { archivos = fs; fase = concedido u }
  segun_respuesta fs _ = record { archivos = fs; fase = libre }

  abbrev pub tras_pedido : FileSystem → Option Bytes × R → Cliente × R
  tras_pedido fs (none, r) = (record { archivos = fs; fase = libre }, r)
  tras_pedido fs (some b, r) =
      (segun_respuesta fs (leer_respuesta v.ubicacion (c_str (take 1023 b))), r)

  abbrev pub tras_descarga : Ubicacion → FileSystem → Option Connection × R → Cliente × R
  tras_descarga u fs (none, r) = (record { archivos = fs; fase = libre }, r)
  tras_descarga u fs (some s, r) = (
    record {
      archivos = recibir_archivo v.can_open nombre s (crear_carpeta_descargas v.can_mkdir fs);
      fase = editando u;
    },
    r,
  )

  abbrev pub descarga : Ubicacion → FileSystem → R → Cliente × R
  descarga u fs r =
      if str_eq u.tipo_str (codes "ARCHIVO")
      then tras_descarga u fs
          (conectar u.ip_servidor u.puerto_servidor (pedir_obtener nombre ∷ []) r)
      else (
        record { archivos = fs; fase = libre },
        (conectar u.ip_servidor u.puerto_servidor [] r).1,
      )

  -- From one wait to the next.
  unfoldable pub avanzar : FileSystem → Fase → R → Cliente × R
  unfolding leer_respuesta
  avanzar fs libre r = tras_pedido fs (dns (pedir_elemento nombre (codes "ESCRIBIR")) r)
  avanzar fs (concedido u) r = descarga u fs r
  avanzar fs (editando u) r = (
    record { archivos = v.editar fs; fase = libre },
    (conectar u.ip_servidor u.puerto_servidor
        (pedir_actualizar nombre ∷ enviar_archivo v.can_open nombre (v.editar fs)) r).1,
  )
