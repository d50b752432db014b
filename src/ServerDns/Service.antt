-- ===== src/ServerDns/Service.antt =====
-- dns.c: the tables and the handler of one connection. What recv, getpeername and inet_ntop give are
-- arguments. Handlers of the model run one after another.
use so_distribuidos.Prelude.{
  ℕ, zero, suc, Bool, true, false, ◌&&◌, not, Option, none, some, List, [], ◌∷◌, ◌++◌, Bytes, codes,
  str_eq, strip_prefix, c_str, ℤ, eqb_ℤ, ltb, ◌==◌, if◌then◌else◌, length, get_elem?, take,
  scan_word, scan_int, print_nat, find, map_some,
}

pub record ServidorArchivos : Type 0 where
  pub ip : Bytes
  pub puerto : ℤ
  pub disponible : ℕ
  pub indice : ℕ

pub record ArchivoDirectorio : Type 0 where
  pub nombre : Bytes
  pub lock : ℕ
  pub indice_servidor : ℕ
  pub es_directorio : ℕ

-- The first contador_servidores and contador_archivos entries of the tables.
pub record Tablas : Type 0 where
  pub servidores : List ServidorArchivos
  pub archivos : List ArchivoDirectorio

abbrev pub nombre_de : ArchivoDirectorio → Bytes
nombre_de a = a.nombre

abbrev pub max_servers : ℕ
max_servers = 50

abbrev pub max_files : ℕ
max_files = 1000

-- The first server that a test takes.
unfoldable pub primer_servidor : (ServidorArchivos → Bool) → List ServidorArchivos → Option ℕ
primer_servidor es [] = none
primer_servidor es (s ∷ t) =
    let rest = map_some suc (primer_servidor es t) in if es s then some 0 else rest

abbrev pub es_servidor : Bytes → ℤ → ServidorArchivos → Bool
es_servidor ip puerto s = str_eq s.ip ip && eqb_ℤ s.puerto puerto

abbrev pub es_disponible_en : Bytes → ServidorArchivos → Bool
es_disponible_en ip s = str_eq s.ip ip && not (s.disponible == 0)

abbrev pub disponer : ServidorArchivos → ServidorArchivos
disponer s = record { ip = s.ip; puerto = s.puerto; disponible = 1; indice = s.indice }

unfoldable pub marcar_disponible : ℕ → List ServidorArchivos → List ServidorArchivos
marcar_disponible i [] = []
marcar_disponible zero (s ∷ t) = disponer s ∷ t
marcar_disponible (suc i) (s ∷ t) = s ∷ marcar_disponible i t

abbrev pub servidor_nuevo : Bytes → ℤ → ℕ → ServidorArchivos
servidor_nuevo ip puerto indice = record {
  ip = ip;
  puerto = puerto;
  disponible = 1;
  indice = indice;
}

-- The hit of the loop, or what follows it. The result is the index that is returned, none for -1.
abbrev pub registrar_servidor_hallado :
    Option ℕ → Bytes → ℤ → List ServidorArchivos → Option ℕ × List ServidorArchivos
registrar_servidor_hallado (some i) ip puerto t = (some i, marcar_disponible i t)
registrar_servidor_hallado none ip puerto t =
    if ltb (length t) max_servers
    then (some (length t), t ++ servidor_nuevo ip puerto (length t) ∷ [])
    else (none, t)

unfoldable pub registrar_servidor :
    Bytes → ℤ → List ServidorArchivos → Option ℕ × List ServidorArchivos
registrar_servidor ip puerto t =
    registrar_servidor_hallado (primer_servidor (es_servidor ip puerto) t) ip puerto t

abbrev pub archivo_nuevo : Bytes → ℕ → ℕ → ArchivoDirectorio
archivo_nuevo nombre i es_directorio = record {
  nombre = nombre;
  lock = 0;
  indice_servidor = i;
  es_directorio = es_directorio;
}

-- indice_servidor < contador_servidores and the server there is available.
abbrev pub servidor_disponible : Option ServidorArchivos → Bool
servidor_disponible none = false
servidor_disponible (some s) = not (s.disponible == 0)

-- Behind the check of the server: the search for the name.
abbrev pub registrar_archivo_hallado :
    Option ArchivoDirectorio → Bytes → ℕ → ℕ → Tablas → Bool × Tablas
registrar_archivo_hallado (some a) nombre i es_directorio s = (false, s)
registrar_archivo_hallado none nombre i es_directorio s =
    if ltb (length s.archivos) max_files
    then (
      true,
      record {
        servidores = s.servidores;
        archivos = s.archivos ++ archivo_nuevo nombre i es_directorio ∷ [];
      },
    )
    else (false, s)

unfoldable pub registrar_archivo_directorio : Bytes → ℕ → ℕ → Tablas → Bool × Tablas
registrar_archivo_directorio nombre i es_directorio s =
    if servidor_disponible (get_elem? s.servidores i)
    then registrar_archivo_hallado (find nombre_de nombre s.archivos) nombre i es_directorio s
    else (false, s)

-- A request, as sscanf reads it. `cabe` says whether its word fits its array.
pub data Solicitud : Type 0 where
  servidor : (ip : Bytes) (puerto : ℤ) → Solicitud
  archivo : (nombre : Bytes) (es_directorio : ℕ) → Solicitud
  mal_formato : Solicitud
  no_reconocida : Solicitud

abbrev con_puerto : Bytes → Option (ℤ × Bytes) → Solicitud
con_puerto ip none = mal_formato
con_puerto ip (some (p, b)) = servidor ip p

abbrev leer_servidor : Option (Bytes × Bytes) → Solicitud
leer_servidor none = mal_formato
leer_servidor (some (ip, b)) = con_puerto ip (scan_int b)

abbrev leer_nombre : ℕ → Option (Bytes × Bytes) → Solicitud
leer_nombre es_directorio none = mal_formato
leer_nombre es_directorio (some (n, b)) = archivo n es_directorio

abbrev leer_tercera : Option Bytes → Solicitud
leer_tercera none = no_reconocida
leer_tercera (some r) = leer_nombre 1 (scan_word r)

abbrev leer_segunda : Bytes → Option Bytes → Solicitud
leer_segunda b none = leer_tercera (strip_prefix (codes "REGISTRAR_DIRECTORIO") b)
leer_segunda b (some r) = leer_nombre 0 (scan_word r)

abbrev leer_primera : Bytes → Option Bytes → Solicitud
leer_primera b none = leer_segunda b (strip_prefix (codes "REGISTRAR_ARCHIVO_DIRECTORIO") b)
leer_primera b (some r) = leer_servidor (scan_word r)

unfoldable pub leer_solicitud : Bytes → Solicitud
leer_solicitud b = leer_primera b (strip_prefix (codes "REGISTRAR_SERVIDOR") b)

abbrev pub ok_msg : Bytes
ok_msg = codes "OK\n"

abbrev pub respuesta_servidor : Option ℕ → Bytes
respuesta_servidor none = codes "ERROR\n"
respuesta_servidor (some i) = codes "OK " ++ print_nat i ++ codes "\n"

abbrev responder_servidor :
    List ArchivoDirectorio → Option ℕ × List ServidorArchivos → Tablas × Bytes
responder_servidor a (o, t) = (record { servidores = t; archivos = a }, respuesta_servidor o)

abbrev responder_archivo : Bool × Tablas → Tablas × Bytes
responder_archivo (ok, s) = (s, if ok then ok_msg else codes "ERROR\n")

-- The client's address is known; `o` is the index of the first available server at that address.
abbrev pub archivo_de : Option ℕ → Bytes → ℕ → Tablas → Tablas × Bytes
archivo_de none nombre es_directorio s = (s, codes "SERVIDOR_NO_REGISTRADO\n")
archivo_de (some i) nombre es_directorio s =
    responder_archivo (registrar_archivo_directorio nombre i es_directorio s)

abbrev pub archivo_desde : Option Bytes → Bytes → ℕ → Tablas → Tablas × Bytes
archivo_desde none nombre es_directorio s = (s, codes "ERROR_IP\n")
archivo_desde (some ip_cliente) nombre es_directorio s =
    archivo_de (primer_servidor (es_disponible_en ip_cliente) s.servidores) nombre es_directorio s

unfoldable pub atender : Option Bytes → Solicitud → Tablas → Tablas × Bytes
atender peer (servidor ip puerto) s =
    responder_servidor s.archivos (registrar_servidor ip puerto s.servidores)
atender peer (archivo nombre es_directorio) s = archivo_desde peer nombre es_directorio s
atender peer mal_formato s = (s, codes "FORMATO_INCORRECTO\n")
atender peer no_reconocida s = (s, codes "COMANDO_NO_RECONOCIDO\n")

-- ip[MAX_IP] and nombre[MAX_FILENAME], with the zero behind the word.
unfoldable pub cabe : Solicitud → Bool
cabe (servidor ip puerto) = ltb (length ip) 16
cabe (archivo nombre es_directorio) = ltb (length nombre) 256
cabe mal_formato = true
cabe no_reconocida = true

-- What the handler does with a request whose word overruns its array: C leaves it undefined.
abbrev pub Desborde : Type 0
Desborde = Solicitud → Tablas → Tablas × Bytes

unfoldable pub con_solicitud : Desborde → Option Bytes → Solicitud → Tablas → Tablas × Bytes
unfolding atender cabe
con_solicitud desborde peer q s = if cabe q then atender peer q s else desborde q s

unfoldable pub manejar_cliente : Desborde → Option Bytes → Bytes → Tablas → Tablas × Bytes
unfolding leer_solicitud con_solicitud
manejar_cliente desborde peer [] s = (s, [])
manejar_cliente desborde peer (x ∷ b) s =
    con_solicitud desborde peer (leer_solicitud (c_str (take 1023 (x ∷ b)))) s
