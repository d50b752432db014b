-- ===== src/ElementServer/Commands.antt =====
-- servidor_archivos_nuevo.c: the registrations with the name server, and the commands of its menu. The
-- name server is a function of the text that is sent and of its state S: it answers with a text, or
-- there is no connection.
pub mod Registered
use so_distribuidos.Prelude.{
  ℕ, Bool, true, false, ◌&&◌, ◌||◌, not, Option, none, some, List, [], ◌∷◌, ◌++◌, ◌>>=◌, map, Bytes,
  codes, str_eq, starts_with, strip_prefix, c_str, ℤ, ltb, if◌then◌else◌, length, take, scan_word,
}
use so_distribuidos.Transfer.Files.{Node, file, folder, special, FileSystem, es_carpeta}
use so_distribuidos.ElementDns.Service.{TipoElemento, tipo_archivo, tipo_carpeta}
use so_distribuidos.ElementDns.Messages.{pedir_registro}

-- elementos_registrados and tipos_registrados, up to contador_registrados.
abbrev pub Registro : Type 0
Registro = List (Bytes × TipoElemento)

-- MAX_FILES
abbrev pub max_registrados : ℕ
max_registrados = 100

-- strstr(b, p) != NULL
unfoldable pub contiene : Bytes → Bytes → Bool
unfolding starts_with
contiene p [] = starts_with p []
contiene p (x ∷ b) = starts_with p (x ∷ b) || contiene p b

-- The loop condition of registrar_todos_archivos_txt.
abbrev pub es_txt : Bytes → Bool
es_txt nombre = contiene (codes ".txt") nombre && ltb 4 (length nombre)

abbrev pub es_archivo : Option Node → Bool
es_archivo (some (file c)) = true
es_archivo _ = false

abbrev es_punto : Bytes → Bool
es_punto nombre = str_eq nombre (codes ".") || str_eq nombre (codes "..")

-- The tests of registrar_todas_carpetas.
abbrev pub es_carpeta_propia : FileSystem → Bytes → Bool
es_carpeta_propia fs nombre =
    not (es_punto nombre)
    && es_carpeta (fs nombre)
    && not (str_eq nombre (codes "descargas_distribuidas"))

-- A line of the menu, without its end.
pub data Orden : Type 0 where
  habilitar : Orden
  subir_archivo : (parametro : Bytes) → Orden
  subir_carpeta : (parametro : Bytes) → Orden
  actualizar_todo : Orden
  salir : Orden
  otra : Orden

-- sscanf(comando, "... %s", parametro)
abbrev palabra_tras : Option Bytes → Option (Bytes × Bytes)
palabra_tras none = none
palabra_tras (some r) = scan_word r

abbrev orden_fija : Bytes → Orden
orden_fija b =
    if str_eq b (codes "actualizar_todo")
    then actualizar_todo
    else if str_eq b (codes "salir")
    then salir
    else otra

abbrev orden_carpeta : Bytes → Option (Bytes × Bytes) → Orden
orden_carpeta b (some (p, r)) = subir_carpeta p
orden_carpeta b none = orden_fija b

abbrev orden_archivo : Bytes → Option (Bytes × Bytes) → Orden
orden_archivo b (some (p, r)) = subir_archivo p
orden_archivo b none = orden_carpeta b (palabra_tras (strip_prefix (codes "subir_carpeta") b))

unfoldable pub leer_orden : Bytes → Orden
leer_orden b =
    if str_eq b (codes "habilitar")
    then habilitar
    else orden_archivo b (palabra_tras (strip_prefix (codes "subir_archivo") b))

abbrev pub es_salir : Orden → Bool
es_salir salir = true
es_salir _ = false

-- The registered elements, the copy of them that the daemon has had since fork, and the state of the
-- name server.
pub record Servidor (S : Type 0) : Type 0 where
  pub registro : Registro
  pub demonio : Option Registro
  pub nombres_dns : S

module _ {S : Type 0} (dns : Bytes → S → Option Bytes × S) (ip_servidor : Bytes)
    (puerto_servidor : ℤ) where
  -- The answer of the name server. C has no test here: behind the last element of
  -- elementos_registrados the write goes past the array, which C leaves undefined, and the model has
  -- no result.
  abbrev pub con_respuesta :
      Bytes → TipoElemento → Servidor S → Option Bytes × S → Option (Servidor S)
  con_respuesta nombre tipo s (none, t) = some (record s { nombres_dns = t })
  con_respuesta nombre tipo s (some b, t) =
      if starts_with (codes "OK") (c_str b)
      then (if ltb (length s.registro) max_registrados
          then some (record s { registro = s.registro ++ (nombre, tipo) ∷ []; nombres_dns = t })
          else none)
      else some (record s { nombres_dns = t })

  unfoldable pub registrar_elemento_dns : Bytes → TipoElemento → Servidor S → Option (Servidor S)
  registrar_elemento_dns nombre tipo s =
      con_respuesta nombre tipo s
        (dns (pedir_registro nombre ip_servidor puerto_servidor tipo) s.nombres_dns)

  -- A loop over readdir that registers the names that a test takes.
  unfoldable pub registrar_todos :
      (Bytes → Bool) → TipoElemento → List Bytes → Servidor S → Option (Servidor S)
  registrar_todos es tipo [] s = some s
  registrar_todos es tipo (n ∷ ns) s = do
    s' ← (if es n then registrar_elemento_dns n tipo s else some s)
    registrar_todos es tipo ns s'

  -- registrar_todos_archivos_txt and registrar_todas_carpetas, over the names in ".".
  unfoldable pub registrar_directorio : FileSystem → List Bytes → Servidor S → Option (Servidor S)
  registrar_directorio fs ns s = do
    s' ← registrar_todos es_txt tipo_archivo ns s
    registrar_todos (es_carpeta_propia fs) tipo_carpeta ns s'

  -- fork: the child serves the elements that are registered now, unless its bind fails since a daemon
  -- has the port.
  abbrev pub iniciar_daemon : Bool → Servidor S → Servidor S
  iniciar_daemon fork_ok s =
      if fork_ok
      then record s { demonio = elim s.demonio [ none ↦ some s.registro | some r ↦ some r ] }
      else s

  -- A command, with the directory as it is.
  unfoldable pub ejecutar :
      FileSystem → List Bytes → Bool → Orden → Servidor S → Option (Servidor S)
  ejecutar fs ns fork_ok habilitar s = do
    s' ← registrar_directorio fs ns s
    some (iniciar_daemon fork_ok s')
  ejecutar fs ns fork_ok (subir_archivo p) s =
      if es_archivo (fs p) then registrar_elemento_dns p tipo_archivo s else some s
  ejecutar fs ns fork_ok (subir_carpeta p) s =
      if es_carpeta (fs p) then registrar_elemento_dns p tipo_carpeta s else some s
  ejecutar fs ns fork_ok actualizar_todo s = registrar_directorio fs ns s
  ejecutar fs ns fork_ok salir s = some s
  ejecutar fs ns fork_ok otra s = some s

  -- The loop of main over its lines, up to `salir`. The directory may change from line to line, and fork
  -- may fail.
  unfoldable pub ejecutar_todas :
      List (FileSystem × List Bytes × Bool × Orden) → Servidor S → Option (Servidor S)
  unfolding ejecutar
  ejecutar_todas [] s = some s
  ejecutar_todas ((fs, ns, fork_ok, o) ∷ ts) s = do
    s' ← ejecutar fs ns fork_ok o s
    (if es_salir o then some s' else ejecutar_todas ts s')
