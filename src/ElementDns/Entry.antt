-- ===== src/ElementDns/Entry.antt =====
-- What the requests of servidor_dns_nuevo.c other than an unlocking do to one entry of the table.
use so_distribuidos.Prelude.{
  ◌==◌, ◌&&◌, Bool-cases, ◌≡◌, ◌⊎◌, inl, inr, refl, sym, ap, ◌∙◌, some, Bytes, codes, str_eq,
  str_eq_iff, ℤ, eqb_ℤ, find, find-modify_self, map_some,
}
use so_distribuidos.ElementDns.Service.{
  EntradaElemento, Tabla, nombre_de, set_bloqueado, Solicitud, registrar, solicitar, desbloquear,
  otra, registrar_elemento, solicitar_hallado, atender, TipoElemento, tipo_de, ip_local,
}
use so_distribuidos.ElementDns.Table.{atender-find_ne, Concerns}

-- The entry as it was, or locked.
abbrev pub Cerrada : Bytes → EntradaElemento → Tabla → Type 0
Cerrada n e t = (find nombre_de n t ≡ some e) ⊎ (find nombre_de n t ≡ some (set_bloqueado 1 e))

registrar-kept :
    (n ip : Bytes) (puerto : ℤ) (tipo : TipoElemento) (t : Tabla) (e : EntradaElemento)
    → find nombre_de n t ≡ some e
    → (registrar_elemento n ip puerto tipo t).1 ≡ t
unfolding registrar_elemento
registrar-kept n ip puerto tipo t e h =
    rw h (elim (Bool-cases ((e.bloqueado == 0) && str_eq e.ip ip && eqb_ℤ e.puerto puerto)) [
      | inl b ↦ rw b refl
      | inr b ↦ rw b refl
    ])

solicitar-Cerrada :
    (n c : Bytes) (t : Tabla) (e : EntradaElemento)
    → find nombre_de n t ≡ some e
    → Cerrada n e (solicitar_hallado (some e) n c t).0
solicitar-Cerrada n c t e h =
    elim (Bool-cases (str_eq c (codes "ESCRIBIR") && (e.bloqueado == 0))) [
      | inl b ↦ rw b (
          inr (
            find-modify_self nombre_de n (set_bloqueado 1) t (λ x. refl)
            ∙ ap (map_some (set_bloqueado 1)) h))
      | inr b ↦ rw b (elim (Bool-cases (str_eq c (codes "LEER"))) [
        | inl d ↦ rw d (inl h)
        | inr d ↦ rw d (inl h)
      ])
    ]

-- A request for the name itself, other than its unlocking.
mismo-Cerrada :
    (s : Solicitud) (n : Bytes) (t : Tabla) (e : EntradaElemento)
    → Concerns n s
    → ¬ (s ≡ desbloquear n)
    → find nombre_de n t ≡ some e
    → Cerrada n e (atender s t).0
unfolding atender
mismo-Cerrada (registrar m temp_ip puerto tipo_str) n t e c d h =
    inl
      (ap (find nombre_de n) (registrar-kept m ip_local puerto (tipo_de tipo_str) t e (rw c h)) ∙ h)
mismo-Cerrada (solicitar m comando) n t e c d h = rw (c, h) (solicitar-Cerrada n comando t e h)
mismo-Cerrada (desbloquear m) n t e c d h = absurd (d (ap desbloquear c))
mismo-Cerrada otra n t e c d h = inl h

names_cases : (n m : Bytes) → (m ≡ n) ⊎ (¬ (m ≡ n))
names_cases n m = elim (Bool-cases (str_eq m n)) [
  | inl b ↦ inl ((str_eq_iff m n).0 b)
  | inr b ↦ inr (λ d. cc (sym b ∙ (str_eq_iff m n).1 d))
]

Concerns-cases : (n : Bytes) (s : Solicitud) → Concerns n s ⊎ (¬ (Concerns n s))
Concerns-cases n (registrar m temp_ip puerto tipo_str) = names_cases n m
Concerns-cases n (solicitar m comando) = names_cases n m
Concerns-cases n (desbloquear m) = names_cases n m
Concerns-cases n otra = inr (λ d. d)

-- A request other than the unlocking of the name leaves its entry as it was, or locks it.
pub atender-Cerrada :
    (n : Bytes) (s : Solicitud) (t : Tabla) (e : EntradaElemento)
    → ¬ (s ≡ desbloquear n)
    → find nombre_de n t ≡ some e
    → Cerrada n e (atender s t).0
atender-Cerrada n s t e d h = elim (Concerns-cases n s) [
  | inl c ↦ mismo-Cerrada s n t e c d h
  | inr c ↦ inl (atender-find_ne n s t c ∙ h)
]
