-- ===== src/ElementDns/Table.antt =====
-- What the requests of servidor_dns_nuevo.c do to its table.
use so_distribuidos.Prelude.{
  ◌⊎◌, subst, All, true, c_str, take, ℕ, ◌&&◌, Option, none, some, List, [], ◌∷◌, ◌≡◌, ◌≢◌, ◌≤◌,
  ◌<◌, lt→ltb, inl, inr, refl, sym, ap, ◌∙◌, arith, Bool-cases, Bytes, codes, str_eq, str_eq_iff, ℤ,
  eqb_ℤ, ltb, ltb→lt, ◌==◌, length, length-append, find, modify, Unique, map_some, find-modify_self,
  find-modify_ne, find-snoc_self, find-snoc_ne, Unique-snoc, Unique-modify, length-modify,
}
use so_distribuidos.Locks.{run}
use so_distribuidos.ElementDns.Service.{
  entrada_nueva, TipoElemento, EntradaElemento, Tabla, nombre_de, set_bloqueado, max_files,
  registrar_hallado, registrar_elemento, desbloquear_elemento, Solicitud, registrar, solicitar,
  desbloquear, otra, Locales, leer_solicitud, tipo_de, respuesta_ok, solicitar_hallado, ip_local,
  atender, manejar_cliente, cabe, con_solicitud,
}

-- No name twice, and no more entries than the array holds.
pub record IsTabla (t : Tabla) : Type 0 where
  pub unique : Unique nombre_de t
  pub bounded : length t ≤ max_files

registrar-IsTabla :
    (nombre ip : Bytes) (puerto : ℤ) (tipo : TipoElemento) (t : Tabla)
    → IsTabla t
    → IsTabla (registrar_elemento nombre ip puerto tipo t).1
unfolding registrar_elemento
registrar-IsTabla nombre ip puerto tipo t h = go (find nombre_de nombre t) refl
  where
    go :
        (o : Option EntradaElemento)
        → find nombre_de nombre t ≡ o
        → IsTabla (registrar_hallado o nombre ip puerto tipo t).1
    go (some e) k =
        elim (Bool-cases ((e.bloqueado == 0) && str_eq e.ip ip && eqb_ℤ e.puerto puerto)) [
          | inl b ↦ rw b h
          | inr b ↦ rw b h
        ]
    go none k = elim (Bool-cases (ltb (length t) max_files)) [
      | inl b ↦ rw b (record {
        unique = Unique-snoc nombre_de t _ k h.unique;
        bounded = omega (
          arith,
          ltb→lt (length t) max_files b,
          length-append t (
              record { nombre = nombre; ip = ip; puerto = puerto; bloqueado = 0; tipo = tipo }
              ∷ []),
        );
      })
      | inr b ↦ rw b h
    ]

bloqueado-IsTabla :
    (n : Bytes) (b : ℕ) (t : Tabla) → IsTabla t → IsTabla (modify nombre_de n (set_bloqueado b) t)
bloqueado-IsTabla n b t h = record {
  unique = Unique-modify nombre_de n (set_bloqueado b) t (λ x. refl) h.unique;
  bounded = omega (arith, length-modify nombre_de n (set_bloqueado b) t, h.bounded);
}

solicitar-IsTabla :
    (o : Option EntradaElemento) (n c : Bytes) (t : Tabla)
    → IsTabla t
    → IsTabla (solicitar_hallado o n c t).0
solicitar-IsTabla none n c t h = h
solicitar-IsTabla (some e) n c t h =
    elim (Bool-cases (str_eq c (codes "ESCRIBIR") && (e.bloqueado == 0))) [
      | inl b ↦ rw b (bloqueado-IsTabla n 1 t h)
      | inr b ↦
          rw b (elim (Bool-cases (str_eq c (codes "LEER"))) [ inl d ↦ rw d h | inr d ↦ rw d h ])
    ]

atender-IsTabla : (s : Solicitud) (t : Tabla) → IsTabla t → IsTabla (atender s t).0
unfolding atender desbloquear_elemento
atender-IsTabla (registrar nombre temp_ip puerto tipo_str) t h =
    registrar-IsTabla nombre ip_local puerto (tipo_de tipo_str) t h
atender-IsTabla (solicitar nombre comando) t h =
    solicitar-IsTabla (find nombre_de nombre t) nombre comando t h
atender-IsTabla (desbloquear nombre) t h = bloqueado-IsTabla nombre 0 t h
atender-IsTabla otra t h = h

-- A connection: what the handler's variables held, and the bytes it received.
abbrev pub Conexion : Type 0
Conexion = Locales × Bytes

abbrev pub paso : Conexion → Tabla → Tabla × Bytes
paso (l, b) t = manejar_cliente l b t

-- No word of the request overruns its array.
abbrev pub Cabe : Conexion → Type 0
Cabe (l, []) = Unit
Cabe (l, x ∷ b) = cabe (leer_solicitud l (c_str (take 1023 (x ∷ b)))) ≡ true

con_solicitud_lem :
    (l : Locales) (s : Solicitud) (t : Tabla) → cabe s ≡ true → con_solicitud l s t ≡ atender s t
unfolding con_solicitud
con_solicitud_lem l s t h = rw h refl

-- A connection that sends no request at all leaves the table alone; any other one, whatever bytes
-- arrive as long as no word of the request overruns its array, is a request of the table.
pub paso_lem :
    (c : Conexion) (t : Tabla)
    → Cabe c
    → ((paso c t).0 ≡ t) ⊎ ((s : Solicitud) × ((paso c t).0 ≡ (atender s t).0))
unfolding manejar_cliente
paso_lem (l, []) t h = inl refl
paso_lem (l, x ∷ b) t h = inr (
  leer_solicitud l (c_str (take 1023 (x ∷ b))),
  ap (λ r. r.0) (con_solicitud_lem l (leer_solicitud l (c_str (take 1023 (x ∷ b)))) t h),
)

-- Whatever bytes arrive, as long as no word of the request overruns its array in the handler, the
-- handler keeps the names of the table distinct and their number within MAX_FILES.
pub manejar_cliente-IsTabla :
    (l : Locales) (b : Bytes) (t : Tabla)
    → Cabe (l, b)
    → IsTabla t
    → IsTabla (manejar_cliente l b t).0
manejar_cliente-IsTabla l b t k h = elim (paso_lem (l, b) t k) [
  | inl e ↦ subst IsTabla (sym e) h
  | inr (s, e) ↦ subst IsTabla (sym e) (atender-IsTabla s t h)
]

-- The name that a request is about.
abbrev pub Concerns : Bytes → Solicitud → Type 0
Concerns n (registrar m temp_ip puerto tipo_str) = m ≡ n
Concerns n (solicitar m comando) = m ≡ n
Concerns n (desbloquear m) = m ≡ n
Concerns n otra = ⊥

-- An entry that is another one but for its lock.
abbrev pub SameBut : EntradaElemento → EntradaElemento → Type 0
SameBut e f = (e.nombre ≡ f.nombre) × (e.ip ≡ f.ip) × (e.puerto ≡ f.puerto) × (e.tipo ≡ f.tipo)

solicitar-find_ne :
    (o : Option EntradaElemento) (n m c : Bytes) (t : Tabla)
    → m ≢ n
    → find nombre_de n (solicitar_hallado o m c t).0 ≡ find nombre_de n t
solicitar-find_ne none n m c t d = refl
solicitar-find_ne (some e) n m c t d =
    ground (arith, find-modify_ne nombre_de m n (set_bloqueado 1) t (λ x. refl) d)

registrar-find_ne :
    (o : Option EntradaElemento) (n m ip : Bytes) (puerto : ℤ) (tipo : TipoElemento) (t : Tabla)
    → m ≢ n
    → find nombre_de n (registrar_hallado o m ip puerto tipo t).1 ≡ find nombre_de n t
registrar-find_ne none n m ip puerto tipo t d = elim (Bool-cases (ltb (length t) max_files)) [
  | inl b ↦ rw b (find-snoc_ne nombre_de n t _ d)
  | inr b ↦ rw b refl
]
registrar-find_ne (some e) n m ip puerto tipo t d = ground arith

-- A request changes no entry but the one it names.
pub atender-find_ne :
    (n : Bytes) (s : Solicitud) (t : Tabla)
    → ¬ (Concerns n s)
    → find nombre_de n (atender s t).0 ≡ find nombre_de n t
unfolding atender registrar_elemento desbloquear_elemento
atender-find_ne n (registrar m temp_ip puerto tipo_str) t h =
    registrar-find_ne (find nombre_de m t) n m ip_local puerto (tipo_de tipo_str) t h
atender-find_ne n (solicitar m comando) t h = solicitar-find_ne (find nombre_de m t) n m comando t h
atender-find_ne n (desbloquear m) t h =
    find-modify_ne nombre_de m n (set_bloqueado 0) t (λ x. refl) h
atender-find_ne n otra t h = refl

-- The entry of a name is still there, but for its lock.
abbrev pub EstaEn : Bytes → EntradaElemento → Tabla → Type 0
EstaEn n e t = (f : EntradaElemento) × (find nombre_de n t ≡ some f) × SameBut e f

modify-EstaEn :
    (n m : Bytes) (b : ℕ) (e : EntradaElemento) (t : Tabla)
    → EstaEn n e t
    → EstaEn n e (modify nombre_de m (set_bloqueado b) t)
modify-EstaEn n m b e t (f, h, s) = elim (Bool-cases (str_eq m n)) [
  | inl q ↦ (set_bloqueado b f, at_name ((str_eq_iff m n).0 q), s)
  | inr q ↦ (
    f,
    find-modify_ne nombre_de m n (set_bloqueado b) t (λ x. refl)
          (λ d. ground (arith, str_eq_iff m n))
        ∙ h,
    s,
  )
]
  where
    at_name :
        m ≡ n → find nombre_de n (modify nombre_de m (set_bloqueado b) t) ≡ some (set_bloqueado b f)
    at_name d = rw d (
        find-modify_self nombre_de n (set_bloqueado b) t (λ x. refl)
        ∙ ap (map_some (set_bloqueado b)) h)

registrar-EstaEn :
    (o : Option EntradaElemento) (n m ip : Bytes) (puerto : ℤ) (tipo : TipoElemento)
    (e : EntradaElemento) (t : Tabla)
    → find nombre_de m t ≡ o
    → EstaEn n e t
    → EstaEn n e (registrar_hallado o m ip puerto tipo t).1
registrar-EstaEn none n m ip puerto tipo e t k (f, h, s) =
    (f, registrar-find_ne none n m ip puerto tipo t (λ d. absurd (clash d)) ∙ h, s)
  where
    clash : m ≡ n → ⊥
    clash d = cc (sym k ∙ ap (λ x. find nombre_de x t) d ∙ h)
registrar-EstaEn (some g) n m ip puerto tipo e t k p =
    elim (Bool-cases ((g.bloqueado == 0) && str_eq g.ip ip && eqb_ℤ g.puerto puerto)) [
      | inl b ↦ rw b p
      | inr b ↦ rw b p
    ]

solicitar-EstaEn :
    (o : Option EntradaElemento) (n m c : Bytes) (e : EntradaElemento) (t : Tabla)
    → EstaEn n e t
    → EstaEn n e (solicitar_hallado o m c t).0
solicitar-EstaEn none n m c e t p = p
solicitar-EstaEn (some g) n m c e t p =
    elim (Bool-cases (str_eq c (codes "ESCRIBIR") && (g.bloqueado == 0))) [
      | inl b ↦ rw b (modify-EstaEn n m 1 e t p)
      | inr b ↦
          rw b (elim (Bool-cases (str_eq c (codes "LEER"))) [ inl d ↦ rw d p | inr d ↦ rw d p ])
    ]

pub atender-EstaEn :
    (n : Bytes) (s : Solicitud) (e : EntradaElemento) (t : Tabla)
    → EstaEn n e t
    → EstaEn n e (atender s t).0
unfolding atender registrar_elemento desbloquear_elemento
atender-EstaEn n (registrar m temp_ip puerto tipo_str) e t p =
    registrar-EstaEn (find nombre_de m t) n m ip_local puerto (tipo_de tipo_str) e t refl p
atender-EstaEn n (solicitar m comando) e t p =
    solicitar-EstaEn (find nombre_de m t) n m comando e t p
atender-EstaEn n (desbloquear m) e t p = modify-EstaEn n m 0 e t p
atender-EstaEn n otra e t p = p

paso-EstaEn :
    (n : Bytes) (c : Conexion) (e : EntradaElemento) (t : Tabla)
    → Cabe c
    → EstaEn n e t
    → EstaEn n e (paso c t).0
paso-EstaEn n c e t k p = elim (paso_lem c t k) [
  | inl q ↦ subst (EstaEn n e) (sym q) p
  | inr (s, q) ↦ subst (EstaEn n e) (sym q) (atender-EstaEn n s e t p)
]

run-EstaEn :
    (n : Bytes) (cs : List Conexion) (e : EntradaElemento) (t : Tabla)
    → All Cabe cs
    → EstaEn n e t
    → EstaEn n e (run paso cs t)
run-EstaEn n [] e t k p = p
run-EstaEn n (c ∷ cs) e t k p = run-EstaEn n cs e (paso c t).0 k.1 (paso-EstaEn n c e t k.0 p)

-- After any further connections, whatever bytes they send as long as no word of a request overruns its
-- array in the handler, the entry that a name has in the table is still found under it with the same
-- address, port and type.
pub elemento_permanece :
    (n : Bytes) (cs : List Conexion) (t : Tabla) (e : EntradaElemento)
    → All Cabe cs
    → find nombre_de n t ≡ some e
    → EstaEn n e (run paso cs t)
elemento_permanece n cs t e k h = run-EstaEn n cs e t k (e, h, (refl, refl, refl, refl))

-- A new name that is registered while the table has room is answered OK, and a read request for it
-- then gets the local address, the port and the type of the registration.
registrar_leer :
    (n temp_ip : Bytes) (puerto : ℤ) (tipo_str : Bytes) (t : Tabla)
    → find nombre_de n t ≡ none
    → length t < max_files
    → let r = atender (registrar n temp_ip puerto tipo_str) t in
      (r.1 ≡ codes "OK\n")
      × (atender (solicitar n (codes "LEER")) r.0
          ≡ (r.0, respuesta_ok (entrada_nueva n ip_local puerto (tipo_de tipo_str))))
unfolding atender registrar_elemento str_eq
registrar_leer n temp_ip puerto tipo_str t h l =
    rw
      (
        h,
        lt→ltb (length t) max_files l,
        find-snoc_self nombre_de t (entrada_nueva n ip_local puerto (tipo_de tipo_str)) h,
      )
      (refl, refl)
