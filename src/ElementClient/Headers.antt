-- ===== src/ElementClient/Headers.antt =====
-- The headers that enviar_carpeta of servidor_archivos_nuevo.c writes, as recibir_carpeta of cliente_nuevo.c
-- reads them.
use so_distribuidos.Prelude.{
  ℕ, ◌≤◌, false, [], ◌∷◌, ◌++◌, ◌≡◌, ◌≢◌, refl, sym, ap, ◌∙◌, arith, inl, inr, append_assoc, Bytes,
  Free, All, codes, starts_with, strip_prefix, split_at-append, c_str, c_str-Free, pos, ℤ, length,
  length-append, take-all, scan_int-print, print_nat, print_int, print_int-Free, is_space, is_digit,
  ◌⊎◌,
}
use so_distribuidos.ElementDns.Messages.{IsWord, append-Free, IsWord-Free, nonzero-Free}
use so_distribuidos.ElementServer.Daemon.{cabecera_archivo, cabecera_carpeta}
use so_distribuidos.ElementClient.Folder.{
  archivo, carpeta, linea, leer_archivo, leer_subcarpeta, leer_mensaje,
}
use so_distribuidos.ElementClient.Serving.{scan_word-start}

-- A name that an entry's header carries: a word of at most NAME_MAX bytes with no colon.
abbrev pub IsNombre : Bytes → Type 0
IsNombre n = IsWord n × Free 58 n × (length n ≤ 255)

words-line : (n : Bytes) → All (λ c. (is_space c ≡ false) × (c ≢ 0)) n → Free 10 n
words-line [] h = tt
words-line (x ∷ n) h = (λ e. absurd (cc (ap is_space e, h.0.0)), words-line n h.1)

word-line : (n : Bytes) → IsWord n → Free 10 n
word-line [] h = tt
word-line (x ∷ n) h = words-line (x ∷ n) h

append-Free_of : (c : ℕ) (a b : Bytes) → Free c a → Free c b → Free c (a ++ b)
append-Free_of c [] b h k = k
append-Free_of c (x ∷ a) b h k = (h.0, append-Free_of c a b h.1 k)

abbrev campos : Bytes → ℕ → Bytes
campos n t = n ++ (58 ∷ print_nat t)

campos-Free : (c : ℕ) (n : Bytes) (t : ℕ) → Free c n → (c ≡ 0) ⊎ (c ≡ 10) → Free c (campos n t)
unfolding print_int
campos-Free c n t h k =
    append-Free_of c n (58 ∷ print_nat t) h
      (omega (arith, k), print_int-Free c (pos t) (digit k) (omega (arith, k)))
  where
    digit : (c ≡ 0) ⊎ (c ≡ 10) → is_digit c ≡ false
    digit (inl e) = rw e refl
    digit (inr e) = rw e refl

leer_archivo-campos :
    (held : Bytes × ℤ) (n : Bytes) (t : ℕ)
    → IsWord n
    → Free 58 n
    → leer_archivo held (campos n t) ≡ (n, pos t)
unfolding leer_archivo print_int
leer_archivo-campos held [] t w f = absurd w
leer_archivo-campos held (x ∷ n) t w f =
    rw (split_at-append 58 (x ∷ n) (print_nat t) f, scan_int-print (pos t)) refl

linea-campos : (n : Bytes) (t : ℕ) → IsWord n → linea (campos n t ++ codes "\n") ≡ campos n t
linea-campos n t w =
    rw (split_at-append 10 (campos n t) [] (campos-Free 10 n t (word-line n w) (inr refl))) refl

abbrev cabecera : Bytes → ℕ → Bytes
cabecera n t = codes "ARCHIVO:" ++ (campos n t ++ codes "\n")

cabecera_archivo-texto :
    (n : Bytes) (t : ℕ)
    → length n ≤ 255
    → length (print_nat t) ≤ 700
    → cabecera_archivo n t ≡ cabecera n t
unfolding cabecera_archivo
cabecera_archivo-texto n t h k =
    take-all 1023 (codes "ARCHIVO:" ++ (n ++ (58 ∷ print_nat t ++ codes "\n"))) (
      omega (
        arith,
        length-append n (58 ∷ print_nat t ++ codes "\n"),
        length-append (print_nat t) (codes "\n"),
      ))
    ∙ ap (λ b. codes "ARCHIVO:" ++ b) (sym (append_assoc n (58 ∷ print_nat t) (codes "\n")))

-- The client reads the header of a file as the daemon wrote it.
pub leer_cabecera :
    (held : Bytes × ℤ) (n : Bytes) (t : ℕ)
    → IsNombre n
    → length (print_nat t) ≤ 700
    → leer_mensaje held (c_str (cabecera_archivo n t)) ≡ archivo n (pos t)
unfolding leer_mensaje starts_with strip_prefix
leer_cabecera held n t (w, f, s) k =
    ap (λ b. leer_mensaje held (c_str b)) (cabecera_archivo-texto n t s k)
    ∙ ap (leer_mensaje held) (
        c_str-Free (cabecera n t) (
          append-Free (codes "ARCHIVO:") (campos n t ++ codes "\n")
            (nonzero-Free (codes "ARCHIVO:") refl)
            (append-Free (campos n t) (codes "\n") (campos-Free 0 n t (IsWord-Free n w) (inl refl))
              (omega arith, tt))))
    ∙ rw (linea-campos n t w, leer_archivo-campos held n t w f) refl

pub leer_cabecera_carpeta :
    (held : Bytes × ℤ) (n : Bytes)
    → IsNombre n
    → leer_mensaje held (c_str (cabecera_carpeta n)) ≡ carpeta n
unfolding leer_mensaje starts_with strip_prefix leer_subcarpeta cabecera_carpeta
leer_cabecera_carpeta held n (w, f, s) =
    ap (λ b. leer_mensaje held (c_str b))
      (take-all 1023 (codes "CARPETA:" ++ (n ++ codes "\n"))
        (omega (arith, length-append n (codes "\n"))))
    ∙ ap (leer_mensaje held) (
        c_str-Free (codes "CARPETA:" ++ (n ++ codes "\n")) (
          append-Free (codes "CARPETA:") (n ++ codes "\n") (nonzero-Free (codes "CARPETA:") refl)
            (append-Free n (codes "\n") (IsWord-Free n w) (omega arith, tt))))
    ∙ rw (scan_word-start n (codes "\n") w refl) refl
