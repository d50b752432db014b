-- ===== src/FirstServer/Commands.antt =====
-- file_server.c of sistema-archivos-distribuidos: the registrations with the name server of dns.c, and the
-- commands of its menu. The name server is a function of the text that is sent and of its state S: it answers
-- with a text, or there is no connection.
use so_distribuidos.Prelude.{
  Bool, ◌&&◌, ◌||◌, not, Option, none, some, List, [], ◌∷◌, ◌++◌, ◌>>=◌, Bytes, codes, str_eq,
  starts_with, strip_prefix, c_str, ℤ, negsuc, ltb, if◌then◌else◌, length, take, scan_int,
  print_int, ℕ,
}
use so_distribuidos.Transfer.Files.{FileSystem, es_carpeta}
use so_distribuidos.ElementServer.Commands.{
  Orden, habilitar, subir_archivo, subir_carpeta, actualizar_todo, salir, otra, leer_orden,
  es_archivo,
}

-- MAX_FILES
abbrev pub max_registrados : ℕ
max_registrados = 1000

-- elementos_registrados up to contador_registrados, indice_servidor_dns, and the state of the name server.
pub record Servidor (S : Type 0) : Type 0 where
  pub registrados : List Bytes
  pub indice : ℤ
  pub nombres_dns : S

-- snprintf(buffer, BUF_SIZE, "REGISTRAR_SERVIDOR %s %d", ip, puerto)
unfoldable pub pedir_servidor : Bytes → ℤ → Bytes
pedir_servidor ip puerto =
    take 1023 (codes "REGISTRAR_SERVIDOR" ++ (32 ∷ ip ++ 32 ∷ print_int puerto))

-- snprintf(buffer, BUF_SIZE, "REGISTRAR_ARCHIVO_DIRECTORIO %s", nombre)
unfoldable pub pedir_archivo : Bytes → Bytes
pedir_archivo nombre = take 1023 (codes "REGISTRAR_ARCHIVO_DIRECTORIO" ++ 32 ∷ nombre)

-- snprintf(buffer, BUF_SIZE, "REGISTRAR_DIRECTORIO %s", nombre)
unfoldable pub pedir_directorio : Bytes → Bytes
pedir_directorio nombre = take 1023 (codes "REGISTRAR_DIRECTORIO" ++ 32 ∷ nombre)

-- sscanf(buffer, "OK %d", &indice): the index, or -1.
abbrev indice_o_error : Option (ℤ × Bytes) → ℤ
indice_o_error none = negsuc 0
indice_o_error (some (i, b)) = i

abbrev leer_indice_tras : Option Bytes → ℤ
leer_indice_tras none = negsuc 0
leer_indice_tras (some r) = indice_o_error (scan_int r)

unfoldable pub leer_indice : Bytes → ℤ
leer_indice b = leer_indice_tras (strip_prefix (codes "OK") b)

abbrev pub es_punto : Bytes → Bool
es_punto n = str_eq n (codes ".") || str_eq n (codes "..")

module _ {S : Type 0} (dns : Bytes → S → Option Bytes × S) (ip_servidor : Bytes)
    (puerto_servidor : ℤ) where
  abbrev pub con_indice : Servidor S → Option Bytes × S → Servidor S
  con_indice s (none, t) = record s { indice = negsuc 0; nombres_dns = t }
  con_indice s (some b, t) = record s { indice = leer_indice (c_str b); nombres_dns = t }

  unfoldable pub registrar_servidor_dns : Servidor S → Servidor S
  unfolding leer_indice
  registrar_servidor_dns s =
      con_indice s (dns (pedir_servidor ip_servidor puerto_servidor) s.nombres_dns)

  -- The answer of the name server. C has no test here: behind the last place of elementos_registrados
  -- the write goes past the array, which C leaves undefined, and the model has no result.
  abbrev pub con_respuesta : Bytes → Servidor S → Option Bytes × S → Option (Servidor S)
  con_respuesta nombre s (none, t) = some (record s { nombres_dns = t })
  con_respuesta nombre s (some b, t) =
      if starts_with (codes "OK") (c_str b)
      then (if ltb (length s.registrados) max_registrados
          then some (record s { registrados = s.registrados ++ nombre ∷ []; nombres_dns = t })
          else none)
      else some (record s { nombres_dns = t })

  unfoldable pub registrar_archivo_dns : Bytes → Servidor S → Option (Servidor S)
  registrar_archivo_dns nombre s = con_respuesta nombre s (dns (pedir_archivo nombre) s.nombres_dns)

  -- A folder is known to the name server only.
  unfoldable pub registrar_directorio_dns : Bytes → Servidor S → Servidor S
  registrar_directorio_dns nombre s = record s {
    nombres_dns = (dns (pedir_directorio nombre) s.nombres_dns).1;
  }

  -- The loop over readdir on ".".
  unfoldable pub registrar_todos_los_archivos :
      FileSystem → List Bytes → Servidor S → Option (Servidor S)
  registrar_todos_los_archivos fs [] s = some s
  registrar_todos_los_archivos fs (n ∷ ns) s = do
    s' ← (if not (es_punto n) && es_archivo (fs n) then registrar_archivo_dns n s else some s)
    registrar_todos_los_archivos fs ns s'

  -- A command, with the directory as it is.
  unfoldable pub ejecutar : FileSystem → List Bytes → Orden → Servidor S → Option (Servidor S)
  ejecutar fs ns habilitar s = some (registrar_servidor_dns s)
  ejecutar fs ns (subir_archivo p) s =
      if es_archivo (fs p) then registrar_archivo_dns p s else some s
  ejecutar fs ns (subir_carpeta p) s =
      if es_carpeta (fs p) then some (registrar_directorio_dns p s) else some s
  ejecutar fs ns actualizar_todo s = registrar_todos_los_archivos fs ns s
  ejecutar fs ns salir s = some s
  ejecutar fs ns otra s = some s

  -- The loop of main over the lines that fgets gives, without their ends, up to `salir`. The directory may
  -- change from line to line.
  unfoldable pub ejecutar_todas :
      List (Bytes × FileSystem × List Bytes) → Servidor S → Option (Servidor S)
  unfolding leer_orden ejecutar
  ejecutar_todas [] s = some s
  ejecutar_todas ((b, fs, ns) ∷ os) s = do
    s' ← ejecutar fs ns (leer_orden b) s
    (if str_eq b (codes "salir") then some s' else ejecutar_todas os s')
