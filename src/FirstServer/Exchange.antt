-- ===== src/FirstServer/Exchange.antt =====
-- The requests of file_server.c, as dns.c reads them.
use so_distribuidos.Prelude.{
  ℕ, true, lt→ltb, Option, some, [], ◌∷◌, ◌++◌, ◌≡◌, ◌≢◌, ◌≤◌, refl, sym, ap, ◌∙◌, arith, Bytes,
  codes, ℤ, length, length-append, length-take, take-all, c_str, strip_prefix, scan_word, scan_int,
  scan_int-print_int, skip_spaces, print_int, print_int-Free, append-nil,
}
use so_distribuidos.ServerDns.Service.{
  Tablas, Solicitud, servidor, archivo, leer_solicitud, atender, cabe, Desborde, con_solicitud,
  manejar_cliente,
}
use so_distribuidos.ElementDns.Messages.{
  IsWord, scan_word-append, IsWord-Free, append-Free, nonzero-Free, received,
}
use so_distribuidos.FirstServer.Commands.{pedir_servidor, pedir_archivo, pedir_directorio}

con_solicitud_lem :
    (desborde : Desborde) (peer : Option Bytes) (q : Solicitud) (t : Tablas)
    → cabe q ≡ true
    → con_solicitud desborde peer q t ≡ atender peer q t
unfolding con_solicitud
con_solicitud_lem desborde peer q t h = rw h refl

cabe_archivo : (n : Bytes) (d : ℕ) → length n ≤ 255 → cabe (archivo n d) ≡ true
unfolding cabe
cabe_archivo n d h = lt→ltb (length n) 256 (omega arith)

cabe_servidor : (ip : Bytes) (p : ℤ) → length ip ≤ 15 → cabe (servidor ip p) ≡ true
unfolding cabe
cabe_servidor ip p h = lt→ltb (length ip) 16 (omega arith)

-- A text of at least a byte that fits the buffer.
leido :
    (desborde : Desborde) (peer : Option Bytes) (b : Bytes) (t : Tablas)
    → b ≢ []
    → length b ≤ 1023
    → manejar_cliente desborde peer b t ≡ con_solicitud desborde peer (leer_solicitud (c_str b)) t
unfolding manejar_cliente
leido desborde peer [] t n h = absurd (n refl)
leido desborde peer (x ∷ b) t n h =
    ap (λ m. con_solicitud desborde peer (leer_solicitud (c_str m)) t) (take-all 1023 (x ∷ b) h)

last_word : (c : Bytes) → IsWord c → scan_word (32 ∷ c) ≡ some (c, [])
last_word c k = ap (λ b. scan_word (32 ∷ b)) (sym (append-nil c)) ∙ scan_word-append c [] k tt

leer_archivo_word :
    (n : Bytes)
    → IsWord n
    → leer_solicitud (codes "REGISTRAR_ARCHIVO_DIRECTORIO" ++ 32 ∷ n) ≡ archivo n 0
unfolding leer_solicitud strip_prefix
leer_archivo_word n h = rw (last_word n h) refl

leer_directorio_word :
    (n : Bytes) → IsWord n → leer_solicitud (codes "REGISTRAR_DIRECTORIO" ++ 32 ∷ n) ≡ archivo n 1
unfolding leer_solicitud strip_prefix
leer_directorio_word n h = rw (last_word n h) refl

last_number : (p : ℤ) → scan_int (32 ∷ print_int p) ≡ some (p, [])
unfolding scan_int skip_spaces
last_number p = ap scan_int (sym (append-nil (print_int p))) ∙ scan_int-print_int p [] tt

leer_servidor_words :
    (ip : Bytes) (p : ℤ)
    → IsWord ip
    → leer_solicitud (codes "REGISTRAR_SERVIDOR" ++ (32 ∷ ip ++ 32 ∷ print_int p)) ≡ servidor ip p
unfolding leer_solicitud strip_prefix
leer_servidor_words ip p h = rw (scan_word-append ip (32 ∷ print_int p) h refl, last_number p) refl

pub manejar_cliente-pedir_archivo :
    (desborde : Desborde) (peer : Option Bytes) (n : Bytes) (t : Tablas)
    → IsWord n
    → length n ≤ 255
    → manejar_cliente desborde peer (pedir_archivo n) t ≡ atender peer (archivo n 0) t
unfolding pedir_archivo
manejar_cliente-pedir_archivo desborde peer n t h s =
    leido desborde peer (pedir_archivo n) t (λ e. absurd (omega (arith, ap length e)))
      (omega (arith, length-take 1023 (codes "REGISTRAR_ARCHIVO_DIRECTORIO" ++ 32 ∷ n)))
    ∙ ap (λ b. con_solicitud desborde peer (leer_solicitud b) t)
        (received (codes "REGISTRAR_ARCHIVO_DIRECTORIO" ++ 32 ∷ n) (omega arith) (
          append-Free (codes "REGISTRAR_ARCHIVO_DIRECTORIO ") n
            (nonzero-Free (codes "REGISTRAR_ARCHIVO_DIRECTORIO ") refl) (IsWord-Free n h)))
    ∙ ap (λ q. con_solicitud desborde peer q t) (leer_archivo_word n h)
    ∙ con_solicitud_lem desborde peer (archivo n 0) t (cabe_archivo n 0 s)

pub manejar_cliente-pedir_directorio :
    (desborde : Desborde) (peer : Option Bytes) (n : Bytes) (t : Tablas)
    → IsWord n
    → length n ≤ 255
    → manejar_cliente desborde peer (pedir_directorio n) t ≡ atender peer (archivo n 1) t
unfolding pedir_directorio
manejar_cliente-pedir_directorio desborde peer n t h s =
    leido desborde peer (pedir_directorio n) t (λ e. absurd (omega (arith, ap length e)))
      (omega (arith, length-take 1023 (codes "REGISTRAR_DIRECTORIO" ++ 32 ∷ n)))
    ∙ ap (λ b. con_solicitud desborde peer (leer_solicitud b) t)
        (received (codes "REGISTRAR_DIRECTORIO" ++ 32 ∷ n) (omega arith) (
          append-Free (codes "REGISTRAR_DIRECTORIO ") n
            (nonzero-Free (codes "REGISTRAR_DIRECTORIO ") refl) (IsWord-Free n h)))
    ∙ ap (λ q. con_solicitud desborde peer q t) (leer_directorio_word n h)
    ∙ con_solicitud_lem desborde peer (archivo n 1) t (cabe_archivo n 1 s)

pub manejar_cliente-pedir_servidor :
    (desborde : Desborde) (peer : Option Bytes) (ip : Bytes) (p : ℤ) (t : Tablas)
    → IsWord ip
    → (length ip ≤ 15) × (length (print_int p) ≤ 900)
    → manejar_cliente desborde peer (pedir_servidor ip p) t ≡ atender peer (servidor ip p) t
unfolding pedir_servidor
manejar_cliente-pedir_servidor desborde peer ip p t h s =
    leido desborde peer (pedir_servidor ip p) t (λ e. absurd (omega (arith, ap length e)))
      (omega
        (arith, length-take 1023 (codes "REGISTRAR_SERVIDOR" ++ (32 ∷ ip ++ 32 ∷ print_int p))))
    ∙ ap (λ b. con_solicitud desborde peer (leer_solicitud b) t)
        (received (codes "REGISTRAR_SERVIDOR" ++ (32 ∷ ip ++ 32 ∷ print_int p))
          (omega (arith, length-append ip (32 ∷ print_int p), s.0, s.1))
          (append-Free (codes "REGISTRAR_SERVIDOR ") (ip ++ 32 ∷ print_int p)
            (nonzero-Free (codes "REGISTRAR_SERVIDOR ") refl)
            (append-Free ip (32 ∷ print_int p) (IsWord-Free ip h)
              (omega arith, print_int-Free 0 p refl (omega arith)))))
    ∙ ap (λ q. con_solicitud desborde peer q t) (leer_servidor_words ip p h)
    ∙ con_solicitud_lem desborde peer (servidor ip p) t (cabe_servidor ip p s.0)
