-- ===== src/ElementDns/Service.antt =====
-- servidor_dns_nuevo.c: the table and the handler of one connection. The mutex makes each handler's use
-- of the table one critical section. The bytes that recv gives are an argument, none if it fails.
use so_distribuidos.Prelude.{
  ℕ, Bool, true, false, ◌&&◌, Option, none, some, List, [], ◌∷◌, ◌++◌, Bytes, codes, str_eq,
  strip_prefix, c_str, ℤ, eqb_ℤ, ltb, ◌==◌, if◌then◌else◌, length, take, scan_word, scan_int,
  print_int, find, modify,
}

pub data TipoElemento : Type 0 where
  tipo_archivo : TipoElemento
  tipo_carpeta : TipoElemento

pub record EntradaElemento : Type 0 where
  pub nombre : Bytes
  pub ip : Bytes
  pub puerto : ℤ
  pub bloqueado : ℕ
  pub tipo : TipoElemento

-- The first contadorElementos entries of tablaElementos.
abbrev pub Tabla : Type 0
Tabla = List EntradaElemento

abbrev pub nombre_de : EntradaElemento → Bytes
nombre_de e = e.nombre

abbrev pub set_bloqueado : ℕ → EntradaElemento → EntradaElemento
set_bloqueado b e = record {
  nombre = e.nombre;
  ip = e.ip;
  puerto = e.puerto;
  bloqueado = b;
  tipo = e.tipo;
}

-- MAX_FILES
abbrev pub max_files : ℕ
max_files = 100

abbrev pub entrada_nueva : Bytes → Bytes → ℤ → TipoElemento → EntradaElemento
entrada_nueva nombre ip puerto tipo = record {
  nombre = nombre;
  ip = ip;
  puerto = puerto;
  bloqueado = 0;
  tipo = tipo;
}

-- The body of the loop's hit, or what follows the loop. The result is the return value.
abbrev pub registrar_hallado :
    Option EntradaElemento → Bytes → Bytes → ℤ → TipoElemento → Tabla → Bool × Tabla
registrar_hallado (some e) nombre ip puerto tipo t =
    if (e.bloqueado == 0) && str_eq e.ip ip && eqb_ℤ e.puerto puerto then (true, t) else (false, t)
registrar_hallado none nombre ip puerto tipo t =
    if ltb (length t) max_files
    then (true, t ++ entrada_nueva nombre ip puerto tipo ∷ [])
    else (false, t)

unfoldable pub registrar_elemento : Bytes → Bytes → ℤ → TipoElemento → Tabla → Bool × Tabla
registrar_elemento nombre ip puerto tipo t =
    registrar_hallado (find nombre_de nombre t) nombre ip puerto tipo t

abbrev pub is_some : Option EntradaElemento → Bool
is_some none = false
is_some (some e) = true

unfoldable pub desbloquear_elemento : Bytes → Tabla → Bool × Tabla
desbloquear_elemento nombre t =
    (is_some (find nombre_de nombre t), modify nombre_de nombre (set_bloqueado 0) t)

-- A request, as the variables stand after sscanf.
pub data Solicitud : Type 0 where
  registrar : (nombre temp_ip : Bytes) (puerto : ℤ) (tipo_str : Bytes) → Solicitud
  solicitar : (nombre comando : Bytes) → Solicitud
  desbloquear : (nombre : Bytes) → Solicitud
  otra : Solicitud

-- What a handler's local variables hold before sscanf, since a conversion that fails leaves its variable,
-- and what the handler does with a request whose words overrun their arrays: C leaves it undefined.
pub record Locales : Type 0 where
  pub nombre : Bytes
  pub temp_ip : Bytes
  pub puerto : ℤ
  pub tipo_str : Bytes
  pub comando : Bytes
  pub desborde : Solicitud → Tabla → Tabla × Bytes

abbrev pub Palabra : Type 0
Palabra = Option (Bytes × Bytes)

-- One conversion after another, each on the text that is left. `cabe` says whether the words fit.
abbrev con_tipo : Bytes → Bytes → ℤ → Locales → Palabra → Solicitud
con_tipo n ip p l none = registrar n ip p l.tipo_str
con_tipo n ip p l (some (w, b)) = registrar n ip p w

abbrev con_puerto : Bytes → Bytes → Locales → Option (ℤ × Bytes) → Solicitud
con_puerto n ip l none = registrar n ip l.puerto l.tipo_str
con_puerto n ip l (some (p, b)) = con_tipo n ip p l (scan_word b)

abbrev con_ip : Bytes → Locales → Palabra → Solicitud
con_ip n l none = registrar n l.temp_ip l.puerto l.tipo_str
con_ip n l (some (ip, b)) = con_puerto n ip l (scan_int b)

abbrev pub leer_registrar : Locales → Palabra → Solicitud
leer_registrar l none = registrar l.nombre l.temp_ip l.puerto l.tipo_str
leer_registrar l (some (n, b)) = con_ip n l (scan_word b)

abbrev con_comando : Bytes → Locales → Palabra → Solicitud
con_comando n l none = solicitar n l.comando
con_comando n l (some (c, b)) = solicitar n c

abbrev leer_solicitar : Locales → Palabra → Solicitud
leer_solicitar l none = solicitar l.nombre l.comando
leer_solicitar l (some (n, b)) = con_comando n l (scan_word b)

abbrev leer_desbloquear : Locales → Palabra → Solicitud
leer_desbloquear l none = desbloquear l.nombre
leer_desbloquear l (some (n, b)) = desbloquear n

abbrev leer_tercera : Locales → Option Bytes → Solicitud
leer_tercera l none = otra
leer_tercera l (some r) = leer_desbloquear l (scan_word r)

abbrev leer_segunda : Locales → Bytes → Option Bytes → Solicitud
leer_segunda l b none = leer_tercera l (strip_prefix (codes "DESBLOQUEAR_ELEMENTO") b)
leer_segunda l b (some r) = leer_solicitar l (scan_word r)

abbrev leer_primera : Locales → Bytes → Option Bytes → Solicitud
leer_primera l b none = leer_segunda l b (strip_prefix (codes "SOLICITAR_ELEMENTO") b)
leer_primera l b (some r) = leer_registrar l (scan_word r)

unfoldable pub leer_solicitud : Locales → Bytes → Solicitud
leer_solicitud l b = leer_primera l b (strip_prefix (codes "REGISTRAR_ELEMENTO") b)

-- nombre[MAX_FILENAME], temp_ip[MAX_IP], tipo_str[16] and comando[8], with the zero behind each word.
unfoldable pub cabe : Solicitud → Bool
cabe (registrar nombre temp_ip puerto tipo_str) =
    ltb (length nombre) 256 && ltb (length temp_ip) 16 && ltb (length tipo_str) 16
cabe (solicitar nombre comando) = ltb (length nombre) 256 && ltb (length comando) 8
cabe (desbloquear nombre) = ltb (length nombre) 256
cabe otra = true

abbrev pub tipo_de : Bytes → TipoElemento
tipo_de s = if str_eq s (codes "CARPETA") then tipo_carpeta else tipo_archivo

abbrev pub nombre_tipo : TipoElemento → Bytes
nombre_tipo tipo_archivo = codes "ARCHIVO"
nombre_tipo tipo_carpeta = codes "CARPETA"

-- snprintf(respuesta, BUF_SIZE, "OK %s %d %s\n", ...)
unfoldable pub respuesta_ok : EntradaElemento → Bytes
respuesta_ok e =
    codes "OK "
    ++ take 1020 (
        e.ip
        ++ (codes " " ++ (print_int e.puerto ++ (codes " " ++ (nombre_tipo e.tipo ++ codes "\n")))))

abbrev pub bloqueado_msg : Bytes
bloqueado_msg = codes "BLOQUEADO\n"

-- The body of the loop over the table, or what follows it.
abbrev pub solicitar_hallado : Option EntradaElemento → Bytes → Bytes → Tabla → Tabla × Bytes
solicitar_hallado none nombre comando t = (t, codes "NO_ENCONTRADO\n")
solicitar_hallado (some e) nombre comando t =
    if str_eq comando (codes "ESCRIBIR") && (e.bloqueado == 0)
    then (modify nombre_de nombre (set_bloqueado 1) t, respuesta_ok e)
    else if str_eq comando (codes "LEER")
    then (t, respuesta_ok e)
    else (t, bloqueado_msg)

-- The address that is registered for every element, whatever the client sent.
abbrev pub ip_local : Bytes
ip_local = codes "127.0.0.1"

abbrev responder : Bytes → Bytes → Bool × Tabla → Tabla × Bytes
responder yes_msg no_msg (ok, t) = (t, if ok then yes_msg else no_msg)

-- What the handler does with a request, and what it sends back: nothing for `otra`.
unfoldable pub atender : Solicitud → Tabla → Tabla × Bytes
unfolding registrar_elemento desbloquear_elemento
atender (registrar nombre temp_ip puerto tipo_str) t =
    responder (codes "OK\n") (codes "DUPLICADO\n")
      (registrar_elemento nombre ip_local puerto (tipo_de tipo_str) t)
atender (solicitar nombre comando) t = solicitar_hallado (find nombre_de nombre t) nombre comando t
atender (desbloquear nombre) t =
    responder (codes "DESBLOQUEADO\n") (codes "NO_ENCONTRADO\n") (desbloquear_elemento nombre t)
atender otra t = (t, [])

unfoldable pub con_solicitud : Locales → Solicitud → Tabla → Tabla × Bytes
unfolding atender cabe
con_solicitud l s t = if cabe s then atender s t else l.desborde s t

unfoldable pub manejar_cliente : Locales → Bytes → Tabla → Tabla × Bytes
unfolding leer_solicitud con_solicitud
manejar_cliente l [] t = (t, [])
manejar_cliente l (x ∷ b) t = con_solicitud l (leer_solicitud l (c_str (take 1023 (x ∷ b)))) t
