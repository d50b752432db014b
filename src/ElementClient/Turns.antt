-- ===== src/ElementClient/Turns.antt =====
-- cliente_nuevo.c: what each stretch of solicitar_elemento for writing does against the name server of
-- servidor_dns_nuevo.c and a daemon of servidor_archivos_nuevo.c.
use so_distribuidos.Prelude.{
  ℕ, ◌≤◌, Bool, true, ◌≡◌, ◌≢◌, ap, ◌∙◌, arith, Option, some, List, [], ◌∷◌, Bytes, codes, str_eq,
  strip_prefix, starts_with, c_str, print_int, ℤ, length, find, modify,
}
use so_distribuidos.Transfer.Loops.{Connection, concat, send_file}
use so_distribuidos.Transfer.Files.{file, FileSystem, write_file}
use so_distribuidos.ElementDns.Service.{
  EntradaElemento, Tabla, nombre_de, set_bloqueado, atender, Locales, solicitar_hallado,
  entrada_nueva, ip_local, tipo_archivo, manejar_cliente,
}
use so_distribuidos.ElementDns.Messages.{IsWord, pedir_elemento}
use so_distribuidos.ElementDns.Exchange.{manejar_cliente-pedir_elemento}
use so_distribuidos.ElementServer.Daemon.{esta_registrado, Marco}
use so_distribuidos.ElementClient.Answer.{respuesta_round_trip}
use so_distribuidos.ElementClient.Request.{Entorno, Ubicacion, leer_respuesta, pedir_actualizar}
use so_distribuidos.ElementClient.Folder.{crear_carpeta_descargas, recibir_archivo}
use so_distribuidos.ElementClient.System.{Sistema, Intacto, dns_de, conectar_de}
use so_distribuidos.ElementClient.Downloads.{path_de, sent}
use so_distribuidos.ElementClient.Stretches.{
  Fase, libre, concedido, editando, Cliente, avanzar, segun_respuesta, tras_pedido, tras_descarga,
}
use so_distribuidos.ElementClient.Session

module _ (l : Locales) (puerto : ℤ) (server_open : Bytes → Bool) (marco : Marco)
    (registrados : List Bytes) (llega : List Bytes → Connection)
    (todo : (s : List Bytes) → concat (llega s) ≡ concat s)
    (aparte : (b : Bytes) (s : List Bytes)
      → b ≢ []
      → length b ≤ 1023
      → (p : Connection) × (llega (b ∷ s) ≡ b ∷ p) × (concat p ≡ concat s))
    (intacto : Intacto l server_open marco registrados) (n : Bytes) (word : IsWord n)
    (short : length n ≤ 255) (port_short : length (print_int puerto) ≤ 900)
    (registered : esta_registrado n registrados ≡ true) (opens : server_open n ≡ true)
    (entorno : ℕ → Entorno) (f : ℕ → Bytes → Bytes)
    (client_open : (i : ℕ) → (entorno i).can_open (path_de n) ≡ true)
    (edits : (i : ℕ) (c : Bytes) (fs : FileSystem)
      → fs (path_de n) ≡ some (file c)
      → (entorno i).editar fs (path_de n) ≡ some (file (f i c))) where
  abbrev pub dns : Bytes → Sistema → Option Bytes × Sistema
  dns = dns_de l

  abbrev pub conectar : Bytes → ℤ → List Bytes → Sistema → Option Connection × Sistema
  conectar = conectar_de l puerto server_open marco registrados llega

  abbrev pub elemento : EntradaElemento
  elemento = entrada_nueva n ip_local puerto tipo_archivo

  abbrev pub ubicacion : Ubicacion
  ubicacion = record {
    ip_servidor = ip_local;
    puerto_servidor = puerto;
    tipo_str = codes "ARCHIVO";
  }

  abbrev pub avance : ℕ → FileSystem → Fase → Sistema → Cliente × Sistema
  avance i = avanzar dns conectar (entorno i) n

  -- The name server's entry is locked or not.
  abbrev pub cerrado : ℕ → Sistema → Sistema
  cerrado b r = record {
    tabla = modify nombre_de n (set_bloqueado b) r.tabla;
    archivos = r.archivos;
  }

  pedido :
      (t : Tabla) (o : Option EntradaElemento)
      → find nombre_de n t ≡ o
      → manejar_cliente l (pedir_elemento n (codes "ESCRIBIR")) t
        ≡ solicitar_hallado o n (codes "ESCRIBIR") t
  unfolding atender
  pedido t o h =
      manejar_cliente-pedir_elemento l n t intacto.escribir word short
      ∙ ap (λ x. solicitar_hallado x n (codes "ESCRIBIR") t) h

  -- What follows the answer of the name server.
  abbrev respondido : ℕ → FileSystem → Sistema → Tabla × Bytes → Cliente × Sistema
  respondido i fs r a =
      tras_pedido dns conectar (entorno i) n fs
        (some a.1, record { tabla = a.0; archivos = r.archivos })

  pub libre_granted :
      (i : ℕ) (fs : FileSystem) (r : Sistema)
      → find nombre_de n r.tabla ≡ some elemento
      → avance i fs libre r ≡ (record { archivos = fs; fase = concedido ubicacion }, cerrado 1 r)
  unfolding avanzar str_eq
  libre_granted i fs r h =
      ap (respondido i fs r) (pedido r.tabla (some elemento) h)
      ∙ ap (λ a. (segun_respuesta dns conectar (entorno i) n fs a, cerrado 1 r))
          (respuesta_round_trip (entorno i).ubicacion elemento (ground arith) (omega arith))

  pub libre_refused :
      (i : ℕ) (fs : FileSystem) (r : Sistema)
      → find nombre_de n r.tabla ≡ some (set_bloqueado 1 elemento)
      → avance i fs libre r ≡ (record { archivos = fs; fase = libre }, r)
  unfolding avanzar leer_respuesta strip_prefix starts_with c_str str_eq
  libre_refused i fs r h =
      ap (respondido i fs r) (pedido r.tabla (some (set_bloqueado 1 elemento)) h)

  pub concedido_lem :
      (i : ℕ) (c : Bytes) (fs : FileSystem) (r : Sistema)
      → r.archivos n ≡ some (file c)
      → avance i fs (concedido ubicacion) r ≡ (
        record {
          archivos =
              recibir_archivo
                (entorno i).can_open
                n
                (llega (send_file c))
                (crear_carpeta_descargas (entorno i).can_mkdir fs);
          fase = editando ubicacion;
        },
        r,
      )
  unfolding avanzar str_eq
  concedido_lem i c fs r h = ap (tras_descarga dns conectar (entorno i) n ubicacion fs) (
      Session.conectar_obtener l puerto server_open marco registrados llega todo aparte intacto n c
        word short registered opens r h)

  pub editando_lem :
      (i : ℕ) (c : Bytes) (fs : FileSystem) (r : Sistema)
      → r.archivos n ≡ some (file c)
      → fs (path_de n) ≡ some (file c)
      → avance i fs (editando ubicacion) r ≡ (
        record { archivos = (entorno i).editar fs; fase = libre },
        record {
          tabla = modify nombre_de n (set_bloqueado 0) r.tabla;
          archivos = write_file server_open n (f i c) r.archivos;
        },
      )
  unfolding avanzar
  editando_lem i c fs r h k =
      ap
        (λ b. (
          record { archivos = (entorno i).editar fs; fase = libre },
          (conectar ip_local puerto (pedir_actualizar n ∷ b) r).1,
        ))
        (sent (entorno i) n (f i c) ((entorno i).editar fs) (client_open i) (edits i c fs k))
      ∙ ap (λ x. (record { archivos = (entorno i).editar fs; fase = libre }, x))
          (Session.conectar_actualizar l puerto server_open marco registrados llega todo aparte
            intacto n c word short registered opens (f i c) r h)
