-- ===== src/ElementDns/Messages.antt =====
-- The requests that servidor_archivos_nuevo.c and cliente_nuevo.c send to servidor_dns_nuevo.c, and how
-- the name server reads them.
use so_distribuidos.Prelude.{
  ◌+◌, ◌==◌, length-append, Bool, true, false, some, [], ◌∷◌, ◌++◌, ◌≡◌, ◌≢◌, ◌≤◌, refl, sym, ap,
  ◌∙◌, arith, append-nil, Bytes, Free, All, codes, ℤ, length, take, take-all, c_str, c_str-Free,
  strip_prefix, is_space, skip_spaces, span_word, scan_word, scan_int, scan_int-print_int,
  print_int, print_int-Free, if◌then◌else◌,
}
use so_distribuidos.ElementDns.Service.{
  TipoElemento, tipo_archivo, tipo_carpeta, nombre_tipo, registrar, solicitar, desbloquear, Locales,
  leer_registrar, leer_solicitud,
}

-- A word: not empty, with no white space and no zero.
abbrev pub IsWord : Bytes → Type 0
IsWord [] = ⊥
IsWord (x ∷ w) = All (λ c. (is_space c ≡ false) × (c ≢ 0)) (x ∷ w)

abbrev pub EndsWord : Bytes → Type 0
EndsWord [] = Unit
EndsWord (x ∷ r) = is_space x ≡ true

span_word-append :
    (w r : Bytes)
    → All (λ c. (is_space c ≡ false) × (c ≢ 0)) w
    → EndsWord r
    → span_word (w ++ r) ≡ (w, r)
unfolding span_word
span_word-append [] [] h e = refl
span_word-append [] (x ∷ r) h e = rw e refl
span_word-append (x ∷ w) r h e = rw (h.0.0, span_word-append w r h.1 e) refl

pub scan_word-append : (w r : Bytes) → IsWord w → EndsWord r → scan_word (32 ∷ w ++ r) ≡ some (w, r)
unfolding scan_word skip_spaces
scan_word-append [] r h e = absurd h
scan_word-append (x ∷ w) r h e = rw (h.0.0, span_word-append (x ∷ w) r h e) refl

words-Free : (w : Bytes) → All (λ c. (is_space c ≡ false) × (c ≢ 0)) w → Free 0 w
words-Free [] h = tt
words-Free (x ∷ w) h = (h.0.1, words-Free w h.1)

pub IsWord-Free : (w : Bytes) → IsWord w → Free 0 w
IsWord-Free [] h = tt
IsWord-Free (x ∷ w) h = words-Free (x ∷ w) h

pub append-Free : (a b : Bytes) → Free 0 a → Free 0 b → Free 0 (a ++ b)
append-Free [] b h k = k
append-Free (x ∷ a) b h k = (h.0, append-Free a b h.1 k)

abbrev pub campos : Bytes → Bytes → Bytes → Bytes → Bytes
campos n ip q w = n ++ (32 ∷ ip ++ (32 ∷ q ++ 32 ∷ w))

abbrev pub texto_registro : Bytes → Bytes → ℤ → TipoElemento → Bytes
texto_registro nombre ip puerto tipo =
    codes "REGISTRAR_ELEMENTO" ++ (32 ∷ campos nombre ip (print_int puerto) (nombre_tipo tipo))

abbrev pub texto_elemento : Bytes → Bytes → Bytes
texto_elemento nombre comando = codes "SOLICITAR_ELEMENTO" ++ 32 ∷ nombre ++ 32 ∷ comando

abbrev pub texto_desbloqueo : Bytes → Bytes
texto_desbloqueo nombre = codes "DESBLOQUEAR_ELEMENTO" ++ 32 ∷ nombre

-- snprintf(buffer, BUF_SIZE, "REGISTRAR_ELEMENTO %s %s %d %s", ...)
unfoldable pub pedir_registro : Bytes → Bytes → ℤ → TipoElemento → Bytes
pedir_registro nombre ip puerto tipo = take 1023 (texto_registro nombre ip puerto tipo)

-- snprintf(buffer, BUF_SIZE, "SOLICITAR_ELEMENTO %s %s", nombre, comando)
unfoldable pub pedir_elemento : Bytes → Bytes → Bytes
pedir_elemento nombre comando = take 1023 (texto_elemento nombre comando)

-- snprintf(buffer, BUF_SIZE, "DESBLOQUEAR_ELEMENTO %s", nombre)
unfoldable pub pedir_desbloqueo : Bytes → Bytes
pedir_desbloqueo nombre = take 1023 (texto_desbloqueo nombre)

abbrev pub nonzero : Bytes → Bool
nonzero [] = true
nonzero (x ∷ b) = if x == 0 then false else nonzero b

pub nonzero-Free : (b : Bytes) → nonzero b ≡ true → Free 0 b
nonzero-Free [] h = tt
nonzero-Free (x ∷ b) h = (ground arith, nonzero-Free b (ground arith))

-- What was sent is the C string that was received.
pub received : (b : Bytes) → length b ≤ 1023 → Free 0 b → c_str (take 1023 b) ≡ b
received b h k = rw (take-all 1023 b h, c_str-Free b k) refl

word_end : (c : Bytes) → IsWord c → scan_word (32 ∷ c) ≡ some (c, [])
word_end c k = ap (λ b. scan_word (32 ∷ b)) (sym (append-nil c)) ∙ scan_word-append c [] k tt

number_word :
    (p : ℤ) (t : TipoElemento)
    → scan_int (32 ∷ print_int p ++ 32 ∷ nombre_tipo t) ≡ some (p, 32 ∷ nombre_tipo t)
unfolding scan_int skip_spaces
number_word p t = scan_int-print_int p (32 ∷ nombre_tipo t) refl

tipo_word : (t : TipoElemento) → scan_word (32 ∷ nombre_tipo t) ≡ some (nombre_tipo t, [])
unfolding scan_word skip_spaces span_word
tipo_word tipo_archivo = refl
tipo_word tipo_carpeta = refl

pub tipo-Free : (t : TipoElemento) → Free 0 (nombre_tipo t)
tipo-Free tipo_archivo = nonzero-Free (codes "ARCHIVO") refl
tipo-Free tipo_carpeta = nonzero-Free (codes "CARPETA") refl

tipo_length : (t : TipoElemento) → length (nombre_tipo t) ≡ 7
tipo_length tipo_archivo = refl
tipo_length tipo_carpeta = refl

module _ (l : Locales) where
  leer_solicitar_words :
      (n c : Bytes)
      → IsWord n
      → IsWord c
      → leer_solicitud l (codes "SOLICITAR_ELEMENTO" ++ 32 ∷ n ++ 32 ∷ c) ≡ solicitar n c
  unfolding leer_solicitud strip_prefix
  leer_solicitar_words n c h k = rw (scan_word-append n (32 ∷ c) h refl, word_end c k) refl

  leer_desbloquear_words :
      (n : Bytes)
      → IsWord n
      → leer_solicitud l (codes "DESBLOQUEAR_ELEMENTO" ++ 32 ∷ n) ≡ desbloquear n
  unfolding leer_solicitud strip_prefix
  leer_desbloquear_words n h = rw (word_end n h) refl

  leer_registrar_prefix :
      (r : Bytes)
      → leer_solicitud l (codes "REGISTRAR_ELEMENTO" ++ r) ≡ leer_registrar l (scan_word r)
  unfolding leer_solicitud strip_prefix
  leer_registrar_prefix r = refl

  leer_registrar_words :
      (n ip : Bytes) (p : ℤ) (t : TipoElemento)
      → IsWord n
      → IsWord ip
      → leer_registrar l (scan_word (32 ∷ campos n ip (print_int p) (nombre_tipo t)))
        ≡ registrar n ip p (nombre_tipo t)
  leer_registrar_words n ip p t h k =
      rw
        (
          scan_word-append n (32 ∷ ip ++ (32 ∷ print_int p ++ 32 ∷ nombre_tipo t)) h refl,
          scan_word-append ip (32 ∷ print_int p ++ 32 ∷ nombre_tipo t) k refl,
          number_word p t,
          tipo_word t,
        )
        refl

largo :
    (n ip q w : Bytes) → length (campos n ip q w) ≡ length n + length ip + length q + length w + 3
largo n ip q w = omega (
  arith,
  length-append n (32 ∷ ip ++ (32 ∷ q ++ 32 ∷ w)),
  length-append ip (32 ∷ q ++ 32 ∷ w),
  length-append q (32 ∷ w),
)

-- A request for an element, of a name and a command that are words and that fit the buffer, is read as it
-- was asked.
pub solicitar_round_trip :
    (l : Locales) (nombre comando : Bytes)
    → IsWord nombre
    → IsWord comando
    → length nombre + length comando ≤ 1000
    → leer_solicitud l (c_str (pedir_elemento nombre comando)) ≡ solicitar nombre comando
unfolding pedir_elemento
solicitar_round_trip l n c h k s =
    ap (leer_solicitud l) (
      received (codes "SOLICITAR_ELEMENTO" ++ 32 ∷ n ++ 32 ∷ c)
        (omega (arith, length-append n (32 ∷ c)))
        (append-Free (codes "SOLICITAR_ELEMENTO ") (n ++ 32 ∷ c)
          (nonzero-Free (codes "SOLICITAR_ELEMENTO ") refl)
          (append-Free n (32 ∷ c) (IsWord-Free n h) (omega arith, IsWord-Free c k))))
    ∙ leer_solicitar_words l n c h k

-- A registration, of a name and an address that are words and that fit the buffer with the port, is read
-- as it was asked.
pub registrar_round_trip :
    (l : Locales) (nombre ip : Bytes) (puerto : ℤ) (tipo : TipoElemento)
    → IsWord nombre
    → IsWord ip
    → length nombre + length ip + length (print_int puerto) ≤ 990
    → leer_solicitud l (c_str (pedir_registro nombre ip puerto tipo))
      ≡ registrar nombre ip puerto (nombre_tipo tipo)
unfolding pedir_registro
registrar_round_trip l n ip p t h k s =
    ap (leer_solicitud l) (
      received (codes "REGISTRAR_ELEMENTO" ++ (32 ∷ campos n ip (print_int p) (nombre_tipo t)))
        (omega (arith, largo n ip (print_int p) (nombre_tipo t), tipo_length t))
        (append-Free (codes "REGISTRAR_ELEMENTO ") _
          (nonzero-Free (codes "REGISTRAR_ELEMENTO ") refl)
          (append-Free n _ (IsWord-Free n h) (
            omega arith,
            append-Free ip _ (IsWord-Free ip k) (
              omega arith,
              append-Free (print_int p) _ (print_int-Free 0 p refl (omega arith))
                  (omega arith, tipo-Free t),
            ),
          ))))
    ∙ leer_registrar_prefix l (32 ∷ campos n ip (print_int p) (nombre_tipo t))
    ∙ leer_registrar_words l n ip p t h k

-- A request to unlock a name that is a word and fits the buffer is read as it was asked.
pub desbloquear_round_trip :
    (l : Locales) (nombre : Bytes)
    → IsWord nombre
    → length nombre ≤ 1000
    → leer_solicitud l (c_str (pedir_desbloqueo nombre)) ≡ desbloquear nombre
unfolding pedir_desbloqueo
desbloquear_round_trip l n h s =
    ap (leer_solicitud l) (
      received (codes "DESBLOQUEAR_ELEMENTO" ++ 32 ∷ n) (omega arith) (
        append-Free (codes "DESBLOQUEAR_ELEMENTO ") n
          (nonzero-Free (codes "DESBLOQUEAR_ELEMENTO ") refl) (IsWord-Free n h)))
    ∙ leer_desbloquear_words l n h
