-- ===== src/ElementDns/Exchange.antt =====
-- What the name server of servidor_dns_nuevo.c does with the texts that its clients send.
use so_distribuidos.Prelude.{
  true, codes, lt→ltb, Bool-cases, inl, inr, ◌≤◌, [], ◌∷◌, ◌≡◌, ◌≢◌, refl, ap, ◌∙◌, arith, Bytes, ℤ,
  length, length-take, take, take-all, c_str, print_int,
}
use so_distribuidos.ElementDns.Service.{
  Solicitud, tipo_archivo, tipo_carpeta, TipoElemento, nombre_tipo, Tabla, registrar, solicitar,
  desbloquear, Locales, leer_solicitud, atender, manejar_cliente, cabe, con_solicitud,
}
use so_distribuidos.ElementDns.Messages.{
  IsWord, texto_registro, texto_elemento, texto_desbloqueo, pedir_registro, pedir_elemento,
  pedir_desbloqueo, registrar_round_trip, solicitar_round_trip, desbloquear_round_trip,
}

-- A text of at least a byte that fits the buffer.
manejar_message :
    (l : Locales) (b : Bytes) (t : Tabla)
    → b ≢ []
    → length b ≤ 1023
    → manejar_cliente l b t ≡ con_solicitud l (leer_solicitud l (c_str b)) t
unfolding manejar_cliente
manejar_message l [] t n h = absurd (n refl)
manejar_message l (x ∷ b) t n h =
    ap (λ m. con_solicitud l (leer_solicitud l (c_str m)) t) (take-all 1023 (x ∷ b) h)

con_solicitud_lem :
    (l : Locales) (s : Solicitud) (t : Tabla) → cabe s ≡ true → con_solicitud l s t ≡ atender s t
unfolding con_solicitud
con_solicitud_lem l s t h = rw h refl

tipo_length : (ty : TipoElemento) → length (nombre_tipo ty) ≡ 7
tipo_length tipo_archivo = refl
tipo_length tipo_carpeta = refl

cabe_registrar :
    (n ip : Bytes) (p : ℤ) (ty : TipoElemento)
    → length n ≤ 255
    → length ip ≤ 15
    → cabe (registrar n ip p (nombre_tipo ty)) ≡ true
unfolding cabe
cabe_registrar n ip p ty h k =
    rw
      (
        lt→ltb (length n) 256 (omega arith),
        lt→ltb (length ip) 16 (omega arith),
        lt→ltb (length (nombre_tipo ty)) 16 (omega (arith, tipo_length ty)),
      )
      refl

cabe_desbloquear : (n : Bytes) → length n ≤ 255 → cabe (desbloquear n) ≡ true
unfolding cabe
cabe_desbloquear n h = lt→ltb (length n) 256 (omega arith)

-- In this build ESCRIBIR, whose zero stands behind comando[8], overruns nothing that the handler reads.
abbrev pub EscribirCabe : Locales → Type 0
EscribirCabe l =
    (n : Bytes) (t : Tabla)
    → length n ≤ 255
    → l.desborde (solicitar n (codes "ESCRIBIR")) t ≡ atender (solicitar n (codes "ESCRIBIR")) t

escribir_lem :
    (l : Locales) (n : Bytes) (t : Tabla)
    → length n ≤ 255
    → EscribirCabe l
    → con_solicitud l (solicitar n (codes "ESCRIBIR")) t
      ≡ atender (solicitar n (codes "ESCRIBIR")) t
unfolding con_solicitud
escribir_lem l n t h k = elim (Bool-cases (cabe (solicitar n (codes "ESCRIBIR")))) [
  | inl b ↦ rw b refl
  | inr b ↦ rw b (k n t h)
]

take_fits : (b : Bytes) → length (take 1023 b) ≤ 1023
take_fits b = omega (arith, length-take 1023 b)

pub manejar_cliente-pedir_registro :
    (l : Locales) (n ip : Bytes) (p : ℤ) (ty : TipoElemento) (t : Tabla)
    → IsWord n
    → IsWord ip
    → (length n ≤ 255) × (length ip ≤ 15) × (length (print_int p) ≤ 700)
    → manejar_cliente l (pedir_registro n ip p ty) t ≡ atender (registrar n ip p (nombre_tipo ty)) t
unfolding pedir_registro
manejar_cliente-pedir_registro l n ip p ty t h k s =
    manejar_message l (pedir_registro n ip p ty) t (λ e. absurd (omega (arith, ap length e)))
      (take_fits (texto_registro n ip p ty))
    ∙ ap (λ r. con_solicitud l r t)
        (registrar_round_trip l n ip p ty h k (omega (arith, s.0, s.1, s.2)))
    ∙ con_solicitud_lem l (registrar n ip p (nombre_tipo ty)) t (cabe_registrar n ip p ty s.0 s.1)

pub manejar_cliente-pedir_elemento :
    (l : Locales) (n : Bytes) (t : Tabla)
    → EscribirCabe l
    → IsWord n
    → length n ≤ 255
    → manejar_cliente l (pedir_elemento n (codes "ESCRIBIR")) t
      ≡ atender (solicitar n (codes "ESCRIBIR")) t
unfolding pedir_elemento
manejar_cliente-pedir_elemento l n t e h s =
    manejar_message l (pedir_elemento n (codes "ESCRIBIR")) t
      (λ e. absurd (omega (arith, ap length e))) (take_fits (texto_elemento n (codes "ESCRIBIR")))
    ∙ ap (λ r. con_solicitud l r t)
        (solicitar_round_trip l n (codes "ESCRIBIR") h (ground arith) (omega arith))
    ∙ escribir_lem l n t s e

pub manejar_cliente-pedir_desbloqueo :
    (l : Locales) (n : Bytes) (t : Tabla)
    → IsWord n
    → length n ≤ 255
    → manejar_cliente l (pedir_desbloqueo n) t ≡ atender (desbloquear n) t
unfolding pedir_desbloqueo
manejar_cliente-pedir_desbloqueo l n t h s =
    manejar_message l (pedir_desbloqueo n) t (λ e. absurd (omega (arith, ap length e)))
      (take_fits (texto_desbloqueo n))
    ∙ ap (λ r. con_solicitud l r t) (desbloquear_round_trip l n h (omega arith))
    ∙ con_solicitud_lem l (desbloquear n) t (cabe_desbloquear n s)
