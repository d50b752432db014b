-- ===== src/ElementClient/Request.antt =====
-- cliente_nuevo.c: solicitar_elemento and main. The name server and the servers of files are functions of
-- what is sent to them and of their state R. `dns` gives the answer's bytes, and none where there is no
-- connection. `conectar` gives what a server at an address and port sends back over one connection, on which
-- the client sends its texts and closes its end, and none where there is no connection.
use so_distribuidos.Prelude.{
  ℕ, Bool, Option, none, some, List, [], ◌∷◌, ◌++◌, Bytes, codes, str_eq, starts_with, strip_prefix,
  c_str, ℤ, if◌then◌else◌, take, scan_word, scan_int,
}
use so_distribuidos.Transfer.Loops.{Connection}
use so_distribuidos.Transfer.Files.{FileSystem}
use so_distribuidos.ElementDns.Messages.{pedir_elemento}
use so_distribuidos.ElementClient.Folder.{
  crear_carpeta_descargas, recibir_archivo, recibir_carpeta, enviar_archivo,
}

-- snprintf(buffer, BUF_SIZE, "OBTENER_ELEMENTO %s", nombre)
unfoldable pub pedir_obtener : Bytes → Bytes
pedir_obtener nombre = take 1023 (codes "OBTENER_ELEMENTO" ++ 32 ∷ nombre)

-- snprintf(buffer, BUF_SIZE, "ACTUALIZAR_ARCHIVO %s", nombre)
unfoldable pub pedir_actualizar : Bytes → Bytes
pedir_actualizar nombre = take 1023 (codes "ACTUALIZAR_ARCHIVO" ++ 32 ∷ nombre)

-- The variables that sscanf fills from the answer of the name server.
pub record Ubicacion : Type 0 where
  pub ip_servidor : Bytes
  pub puerto_servidor : ℤ
  pub tipo_str : Bytes

pub data Respuesta : Type 0 where
  encontrado : Ubicacion → Respuesta
  bloqueado : Respuesta
  no_encontrado : Respuesta
  desconocida : Respuesta

-- One conversion after another. A conversion that fails leaves its variable and those behind it.
abbrev con_tipo : Bytes → ℤ → Ubicacion → Option (Bytes × Bytes) → Ubicacion
con_tipo ip p u none = record { ip_servidor = ip; puerto_servidor = p; tipo_str = u.tipo_str }
con_tipo ip p u (some (t, b)) = record { ip_servidor = ip; puerto_servidor = p; tipo_str = t }

abbrev con_puerto : Bytes → Ubicacion → Option (ℤ × Bytes) → Ubicacion
con_puerto ip u none = record {
  ip_servidor = ip;
  puerto_servidor = u.puerto_servidor;
  tipo_str = u.tipo_str;
}
con_puerto ip u (some (p, b)) = con_tipo ip p u (scan_word b)

abbrev con_ip : Ubicacion → Option (Bytes × Bytes) → Ubicacion
con_ip u none = u
con_ip u (some (ip, b)) = con_puerto ip u (scan_int b)

abbrev leer_ok : Ubicacion → Bytes → Option Bytes → Respuesta
leer_ok u b none =
    if starts_with (codes "BLOQUEADO") b
    then bloqueado
    else if starts_with (codes "NO_ENCONTRADO") b
    then no_encontrado
    else desconocida
leer_ok u b (some r) = encontrado (con_ip u (scan_word r))

-- `u` is what the variables held before.
unfoldable pub leer_respuesta : Ubicacion → Bytes → Respuesta
leer_respuesta u b = leer_ok u b (strip_prefix (codes "OK") b)

-- The client's files and the state of the servers.
pub record Mundo (R : Type 0) : Type 0 where
  pub archivos : FileSystem
  pub remoto : R

-- What the environment gives a run: which calls succeed, what the variables held, and what the user does to
-- the files before pressing Enter.
pub record Entorno : Type 0 where
  pub can_open : Bytes → Bool
  pub can_mkdir : Bytes → Bool
  pub ubicacion : Ubicacion
  pub held : Bytes × ℤ
  pub editar : FileSystem → FileSystem

module _ {R : Type 0} (dns : Bytes → R → Option Bytes × R)
    (conectar : Bytes → ℤ → List Bytes → R → Option Connection × R) (v : Entorno) where
  abbrev pub leer_de : Bytes → Bytes → FileSystem → Option Connection × R → Mundo R
  leer_de nombre tipo_str fs (none, r) = record { archivos = fs; remoto = r }
  leer_de nombre tipo_str fs (some s, r) =
      let fs' = crear_carpeta_descargas v.can_mkdir fs in
      if str_eq tipo_str (codes "ARCHIVO")
      then record { archivos = recibir_archivo v.can_open nombre s fs'; remoto = r }
      else if str_eq tipo_str (codes "CARPETA")
      then record {
        archivos = recibir_carpeta v.can_open v.can_mkdir v.held nombre s fs';
        remoto = r;
      }
      else record { archivos = fs'; remoto = r }

  -- The file is read back after the edit. The result of the second connect is not looked at: without a
  -- connection nothing is sent.
  abbrev devolver : Bytes → Ubicacion → FileSystem → R → Mundo R
  devolver nombre u fs r = record {
    archivos = fs;
    remoto =
        (conectar u.ip_servidor u.puerto_servidor
          (pedir_actualizar nombre ∷ enviar_archivo v.can_open nombre fs) r).1;
  }

  abbrev pub escribir_en : Bytes → Ubicacion → FileSystem → Option Connection × R → Mundo R
  escribir_en nombre u fs (none, r) = record { archivos = fs; remoto = r }
  escribir_en nombre u fs (some s, r) =
      devolver nombre u
        (v.editar (recibir_archivo v.can_open nombre s (crear_carpeta_descargas v.can_mkdir fs))) r

  -- A connection on which nothing is sent.
  abbrev sin_pedido : Ubicacion → FileSystem → R → Mundo R
  sin_pedido u fs r = record {
    archivos = fs;
    remoto = (conectar u.ip_servidor u.puerto_servidor [] r).1;
  }

  abbrev pub con_ubicacion : Bytes → Bytes → Ubicacion → FileSystem → R → Mundo R
  con_ubicacion nombre comando u fs r =
      if str_eq comando (codes "LEER")
      then leer_de nombre u.tipo_str fs
          (conectar u.ip_servidor u.puerto_servidor (pedir_obtener nombre ∷ []) r)
      else if str_eq comando (codes "ESCRIBIR")
      then (if str_eq u.tipo_str (codes "ARCHIVO")
          then escribir_en nombre u fs
              (conectar u.ip_servidor u.puerto_servidor (pedir_obtener nombre ∷ []) r)
          else sin_pedido u fs r)
      else sin_pedido u fs r

  abbrev pub segun : Bytes → Bytes → Respuesta → FileSystem → R → Mundo R
  segun nombre comando (encontrado u) fs r = con_ubicacion nombre comando u fs r
  segun nombre comando _ fs r = record { archivos = fs; remoto = r }

  abbrev pub con_respuesta : Bytes → Bytes → FileSystem → Option Bytes × R → Mundo R
  con_respuesta nombre comando fs (none, r) = record { archivos = fs; remoto = r }
  con_respuesta nombre comando fs (some b, r) =
      segun nombre comando (leer_respuesta v.ubicacion (c_str (take 1023 b))) fs r

  unfoldable pub solicitar_elemento : Bytes → Bytes → Mundo R → Mundo R
  unfolding leer_respuesta
  solicitar_elemento nombre comando m =
      con_respuesta nombre comando m.archivos (dns (pedir_elemento nombre comando) m.remoto)

  -- main, on argv behind the program's name: the exit status.
  unfoldable pub main : List Bytes → Mundo R → ℕ × Mundo R
  unfolding solicitar_elemento
  main (ip_dns ∷ puerto_dns ∷ nombre ∷ comando ∷ []) m =
      if str_eq comando (codes "LEER")
      then (0, solicitar_elemento nombre comando m)
      else if str_eq comando (codes "ESCRIBIR")
      then (0, solicitar_elemento nombre comando m)
      else (1, m)
  main _ m = (1, m)
