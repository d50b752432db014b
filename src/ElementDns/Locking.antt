-- ===== src/ElementDns/Locking.antt =====
-- The write lock of each element of servidor_dns_nuevo.c.
use so_distribuidos.Prelude.{
  ◌&&◌, ◌==◌, ℕ, Option, none, some, [], ◌∷◌, ◌≡◌, ◌≢◌, ◌⊎◌, inl, inr, refl, ap, ◌∙◌, arith,
  Bool-cases, Bytes, codes, str_eq, str_eq_iff, ℤ, find, modify, map_some, find-modify_self,
}
use so_distribuidos.Locks.{LockService, released}
use so_distribuidos.ElementDns.Service.{
  registrar_elemento, EntradaElemento, Tabla, nombre_de, set_bloqueado, desbloquear_elemento,
  Solicitud, registrar, solicitar, desbloquear, otra, respuesta_ok, bloqueado_msg,
  solicitar_hallado, atender,
}
use so_distribuidos.ElementDns.Table.{Concerns, atender-find_ne}

abbrev pub escribir : Bytes → Solicitud
escribir n = solicitar n (codes "ESCRIBIR")

-- The lock of a name, if the table has the name.
abbrev pub candado : Bytes → Tabla → Option ℕ
candado n t = map_some (λ e. e.bloqueado) (find nombre_de n t)

first : Bytes → ℕ
first [] = 0
first (x ∷ b) = x

respuesta_ok_ne : (e : EntradaElemento) → respuesta_ok e ≢ bloqueado_msg
unfolding respuesta_ok first
respuesta_ok_ne e h = absurd (omega (arith, ap first h))

candado-find :
    (n : Bytes) (t : Tabla) (k : ℕ)
    → candado n t ≡ some k
    → (e : EntradaElemento) × (find nombre_de n t ≡ some e) × (e.bloqueado ≡ k)
candado-find n t k h = go (find nombre_de n t) refl h
  where
    go :
        (o : Option EntradaElemento)
        → find nombre_de n t ≡ o
        → map_some (λ e. e.bloqueado) o ≡ some k
        → (e : EntradaElemento) × (find nombre_de n t ≡ some e) × (e.bloqueado ≡ k)
    go none q h = cc
    go (some e) q h = (e, q, ground arith)

modify-candado :
    (n : Bytes) (b : ℕ) (t : Tabla) (k : ℕ)
    → candado n t ≡ some k
    → candado n (modify nombre_de n (set_bloqueado b) t) ≡ some b
modify-candado n b t k h =
    let (e, q, l) = candado-find n t k h in
    rw (find-modify_self nombre_de n (set_bloqueado b) t (λ x. refl), q) refl

grant :
    (n : Bytes) (t : Tabla)
    → candado n t ≡ some 0
    → (candado n (atender (escribir n) t).0 ≡ some 1) × ((atender (escribir n) t).1 ≢ bloqueado_msg)
unfolding atender str_eq
grant n t h =
    let (e, q, l) = candado-find n t 0 h in rw (q, l) (modify-candado n 1 t 0 h, respuesta_ok_ne e)

refuse : (n : Bytes) (t : Tabla) → candado n t ≡ some 1 → (atender (escribir n) t).1 ≡ bloqueado_msg
unfolding atender str_eq
refuse n t h = let (e, q, l) = candado-find n t 1 h in rw (q, l) refl

frame :
    (n : Bytes) (s : Solicitud) (t : Tabla)
    → candado n t ≡ some 1
    → ¬ (Concerns n s)
    → candado n (atender s t).0 ≡ some 1
frame n s t h c = ap (map_some (λ e. e.bloqueado)) (atender-find_ne n s t c) ∙ h

same_name : (m n : Bytes) → (m ≡ n) ⊎ (m ≢ n)
same_name m n = elim (Bool-cases (str_eq m n)) [
  | inl e ↦ inl ((str_eq_iff m n).0 e)
  | inr e ↦ inr (λ d. ground (arith, str_eq_iff m n))
]

registrar_kept :
    (n temp_ip : Bytes) (puerto : ℤ) (tipo_str : Bytes) (t : Tabla)
    → candado n t ≡ some 1
    → candado n (atender (registrar n temp_ip puerto tipo_str) t).0 ≡ some 1
unfolding atender registrar_elemento
registrar_kept n temp_ip puerto tipo_str t h = let (e, q, l) = candado-find n t 1 h in rw (q, l) h

solicitar_kept :
    (n c : Bytes) (t : Tabla)
    → candado n t ≡ some 1
    → candado n (atender (solicitar n c) t).0 ≡ some 1
unfolding atender
solicitar_kept n c t h = let (e, q, l) = candado-find n t 1 h in rw q (go e)
  where
    go : (e : EntradaElemento) → candado n (solicitar_hallado (some e) n c t).0 ≡ some 1
    go e = elim (Bool-cases (str_eq c (codes "ESCRIBIR") && (e.bloqueado == 0))) [
      | inl b ↦ rw b (modify-candado n 1 t 1 h)
      | inr b ↦
          rw b (elim (Bool-cases (str_eq c (codes "LEER"))) [ inl d ↦ rw d h | inr d ↦ rw d h ])
    ]

kept :
    (n : Bytes) (s : Solicitud) (t : Tabla)
    → candado n t ≡ some 1
    → ¬ (s ≡ desbloquear n)
    → candado n (atender s t).0 ≡ some 1
kept n (registrar m temp_ip puerto tipo_str) t h u = elim (same_name m n) [
  | inl e ↦ rw e (registrar_kept n temp_ip puerto tipo_str t h)
  | inr d ↦ frame n _ t h d
]
kept n (solicitar m c) t h u = elim (same_name m n) [
  | inl e ↦ rw e (solicitar_kept n c t h)
  | inr d ↦ frame n _ t h d
]
kept n (desbloquear m) t h u = frame n _ t h (λ e. u (ap desbloquear e))
kept n otra t h u = frame n otra t h (λ c. c)

free :
    (n : Bytes) (t : Tabla) (k : ℕ)
    → candado n t ≡ some k
    → candado n (atender (desbloquear n) t).0 ≡ some 0
unfolding atender desbloquear_elemento
free n t k h = modify-candado n 0 t k h

abbrev dns_locks : LockService Tabla Solicitud Bytes
dns_locks = record {
  step = atender;
  lock = candado;
  IsWrite = λ n r. r ≡ escribir n;
  IsUnlock = λ n r. r ≡ desbloquear n;
  refused = bloqueado_msg;
  kept = kept;
  refuse = λ n r t h w. ap (λ r. (atender r t).1) w ∙ refuse n t h;
  grant = λ n r t h w. rw w (grant n t h);
  free = λ n r t k h u. ap (λ r. candado n (atender r t).0) u ∙ free n t k h;
}

-- After a request to unlock an element of the table, whoever sent it, the next write request for it is
-- granted.
desbloquear_escribir :
    (n : Bytes) (t : Tabla) (k : ℕ)
    → candado n t ≡ some k
    → (atender (escribir n) (atender (desbloquear n) t).0).1 ≢ bloqueado_msg
desbloquear_escribir n t k h = released dns_locks n (desbloquear n) (escribir n) t k h refl refl
