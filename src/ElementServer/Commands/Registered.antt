-- ===== src/ElementServer/Commands/Registered.antt =====
-- What the file server believes to be registered, against what the name server of servidor_dns_nuevo.c has.
use so_distribuidos.Prelude.{
  some_inj, bind_inv, guarded, subst, Bool, true, false, ◌&&◌, Option, none, some, List, [], ◌∷◌,
  ◌++◌, ◌≡◌, ℕ, ◌+◌, ◌<◌, lt→ltb, ◌≤◌, ◌⊎◌, inl, inr, refl, sym, ◌∙◌, arith, Bool-cases, All, Bytes,
  codes, str_eq, str_eq_iff, starts_with, strip_prefix, c_str, ℤ, eqb_ℤ, eqb_ℤ_iff, ltb, ◌==◌,
  if◌then◌else◌, length, length-append, print_int, find, find-snoc_self,
}
use so_distribuidos.ElementDns.Service.{
  Solicitud, registrar, TipoElemento, tipo_archivo, tipo_carpeta, nombre_tipo, EntradaElemento,
  Tabla, nombre_de, entrada_nueva, max_files, registrar_hallado, registrar_elemento, Locales,
  tipo_de, ip_local, atender, manejar_cliente,
}
use so_distribuidos.ElementDns.Messages.{IsWord, pedir_registro}
use so_distribuidos.ElementDns.Exchange.{manejar_cliente-pedir_registro}
use so_distribuidos.ElementDns.Table.{atender-EstaEn}
use so_distribuidos.ElementServer.Commands.{
  Registro, es_txt, es_carpeta_propia, es_archivo, max_registrados, Orden, habilitar, subir_archivo,
  subir_carpeta, actualizar_todo, salir, otra, Servidor, registrar_elemento_dns, registrar_todos,
  registrar_directorio, iniciar_daemon, ejecutar, es_salir, ejecutar_todas,
}
use so_distribuidos.Transfer.Files.{FileSystem, es_carpeta}

-- The name server, with what its handler's variables held before.
abbrev pub dns_de : Locales → Bytes → Tabla → Option Bytes × Tabla
dns_de l b t = let r = manejar_cliente l b t in (some r.1, r.0)

-- The name server sends requests for this name to this host and port.
abbrev pub EnDns : ℤ → Tabla → Bytes × TipoElemento → Type 0
EnDns puerto t (n, tipo) =
    (e : EntradaElemento) × (find nombre_de n t ≡ some e) × (e.ip ≡ ip_local) × (e.puerto ≡ puerto)

abbrev pub demonio_o_nada : Option Registro → Registro
demonio_o_nada none = []
demonio_o_nada (some r) = r

-- Every element that the server or its daemon takes for registered is at this server for the name server.
pub record Coherente (puerto : ℤ) (s : Servidor Tabla) : Type 0 where
  pub registrados : All (EnDns puerto s.nombres_dns) s.registro
  pub servidos : All (EnDns puerto s.nombres_dns) (demonio_o_nada s.demonio)

-- A name that fits a request and the arrays of the name server, as the address and the port do: a word of
-- at most 255 bytes.
abbrev pub Nombrable : Bytes → ℤ → Bytes → Type 0
Nombrable ip puerto n =
    IsWord n × (length n ≤ 255) × (length ip ≤ 15) × (length (print_int puerto) ≤ 700)

EnDns-kept :
    (puerto : ℤ) (q : Solicitud) (t : Tabla) (e : Bytes × TipoElemento)
    → EnDns puerto t e
    → EnDns puerto (atender q t).0 e
EnDns-kept puerto q t (n, tipo) (e, h, i, p) =
    let (f, k, (a, x, y, z)) = atender-EstaEn n q e t (e, h, (refl, refl, refl, refl)) in
    (f, k, sym x ∙ i, sym y ∙ p)

All-kept :
    (puerto : ℤ) (q : Solicitud) (t : Tabla) (r : Registro)
    → All (EnDns puerto t) r
    → All (EnDns puerto (atender q t).0) r
All-kept puerto q t [] h = tt
All-kept puerto q t (e ∷ r) h = (EnDns-kept puerto q t e h.0, All-kept puerto q t r h.1)

All-snoc :
    (P : Bytes × TipoElemento → Type 0) (r : Registro) (e : Bytes × TipoElemento)
    → All P r
    → P e
    → All P (r ++ e ∷ [])
All-snoc P [] e h k = (k, tt)
All-snoc P (x ∷ r) e h k = (h.0, All-snoc P r e h.1 k)

answered_ok :
    (ok : Bool)
    → starts_with (codes "OK") (c_str (if ok then codes "OK\n" else codes "DUPLICADO\n")) ≡ true
    → ok ≡ true
unfolding starts_with strip_prefix c_str
answered_ok true h = refl
answered_ok false h = h

hallado-EnDns :
    (o : Option EntradaElemento) (n : Bytes) (p : ℤ) (ty tipo : TipoElemento) (t : Tabla)
    → find nombre_de n t ≡ o
    → (registrar_hallado o n ip_local p tipo t).0 ≡ true
    → EnDns p (registrar_hallado o n ip_local p tipo t).1 (n, ty)
hallado-EnDns (some e) n p ty tipo t h =
    go (Bool-cases ((e.bloqueado == 0) && str_eq e.ip ip_local && eqb_ℤ e.puerto p))
  where
    go :
        (((e.bloqueado == 0) && str_eq e.ip ip_local && eqb_ℤ e.puerto p) ≡ true)
          ⊎ (((e.bloqueado == 0) && str_eq e.ip ip_local && eqb_ℤ e.puerto p) ≡ false)
        → (registrar_hallado (some e) n ip_local p tipo t).0 ≡ true
        → EnDns p (registrar_hallado (some e) n ip_local p tipo t).1 (n, ty)
    go (inl b) = rw b (λ _. (
      e,
      h,
      (str_eq_iff e.ip ip_local).0 (ground arith),
      (eqb_ℤ_iff e.puerto p).0 (ground arith),
    ))
    go (inr b) = rw b (λ k. absurd (cc k))
hallado-EnDns none n p ty tipo t h = elim (Bool-cases (ltb (length t) max_files)) [
  | inl b ↦ rw b (λ _. (
    entrada_nueva n ip_local p tipo,
    find-snoc_self nombre_de t (entrada_nueva n ip_local p tipo) h,
    refl,
    refl,
  ))
  | inr b ↦ rw b (λ k. absurd (cc k))
]

module _ (l : Locales) (ip : Bytes) (puerto : ℤ) (ip_word : IsWord ip) where
  -- An answer OK to a registration means that the name is at this server.
  ok-EnDns :
      (n : Bytes) (tipo : TipoElemento) (t : Tabla)
      → Nombrable ip puerto n
      → let r = manejar_cliente l (pedir_registro n ip puerto tipo) t in
        starts_with (codes "OK") (c_str r.1) ≡ true → EnDns puerto r.0 (n, tipo)
  unfolding atender registrar_elemento
  ok-EnDns n tipo t w =
      rw (manejar_cliente-pedir_registro l n ip puerto tipo t w.0 ip_word (w.1, w.2, w.3)) (λ h.
        hallado-EnDns (find nombre_de n t) n puerto tipo (tipo_de (nombre_tipo tipo)) t refl
          (answered_ok _ h))

  Coherente-registrar :
      (n : Bytes) (tipo : TipoElemento) (s s' : Servidor Tabla)
      → Nombrable ip puerto n
      → Coherente puerto s
      → registrar_elemento_dns (dns_de l) ip puerto n tipo s ≡ some s'
      → Coherente puerto s'
  unfolding registrar_elemento_dns
  Coherente-registrar n tipo s s' w c = elim (Bool-cases (starts_with (codes "OK") (c_str r.1))) [
    | inl a ↦ rw a (elim (Bool-cases (ltb (length s.registro) max_registrados)) [
      | inl b ↦
          rw b
            (λ e. subst (Coherente puerto) (some_inj e) (added (ok-EnDns n tipo s.nombres_dns w a)))
      | inr b ↦ rw b (λ e. absurd (cc e))
    ])
    | inr a ↦ rw a (λ e. subst (Coherente puerto) (some_inj e) same)
  ]
    where
      r : Tabla × Bytes
      r = manejar_cliente l (pedir_registro n ip puerto tipo) s.nombres_dns

      same : Coherente puerto (record s { nombres_dns = r.0 })
      same = record {
        registrados =
            subst (λ a. All (EnDns puerto a.0) s.registro) (sym asked)
              (All-kept puerto q s.nombres_dns s.registro c.registrados);
        servidos =
            subst (λ a. All (EnDns puerto a.0) (demonio_o_nada s.demonio)) (sym asked)
              (All-kept puerto q s.nombres_dns (demonio_o_nada s.demonio) c.servidos);
      }
        where
          q : Solicitud
          q = registrar n ip puerto (nombre_tipo tipo)

          asked : r ≡ atender q s.nombres_dns
          asked =
              manejar_cliente-pedir_registro l n ip puerto tipo s.nombres_dns w.0 ip_word
                (w.1, w.2, w.3)

      added :
          EnDns puerto r.0 (n, tipo)
          → Coherente puerto
              (record s { registro = s.registro ++ (n, tipo) ∷ []; nombres_dns = r.0 })
      added k = record {
        registrados = All-snoc (EnDns puerto r.0) s.registro (n, tipo) same.registrados k;
        servidos = same.servidos;
      }

  Coherente-registrar_todos :
      (es : Bytes → Bool) (tipo : TipoElemento) (ns : List Bytes) (s s' : Servidor Tabla)
      → All (Nombrable ip puerto) ns
      → Coherente puerto s
      → registrar_todos (dns_de l) ip puerto es tipo ns s ≡ some s'
      → Coherente puerto s'
  unfolding registrar_todos
  Coherente-registrar_todos es tipo [] s s' w c e = subst (Coherente puerto) (some_inj e) c
  Coherente-registrar_todos es tipo (n ∷ ns) s s' w c e =
      let (u, f, g) =
        bind_inv (if es n then registrar_elemento_dns (dns_de l) ip puerto n tipo s else some s) _
          e in
      Coherente-registrar_todos es tipo ns u s' w.1 (one u (es n) f) g
    where
      one :
          (u : Servidor Tabla) (b : Bool)
          → (if b then registrar_elemento_dns (dns_de l) ip puerto n tipo s else some s) ≡ some u
          → Coherente puerto u
      one u true f = Coherente-registrar n tipo s u w.0 c f
      one u false f = subst (Coherente puerto) (some_inj f) c

  Coherente-registrar_directorio :
      (fs : FileSystem) (ns : List Bytes) (s s' : Servidor Tabla)
      → All (Nombrable ip puerto) ns
      → Coherente puerto s
      → registrar_directorio (dns_de l) ip puerto fs ns s ≡ some s'
      → Coherente puerto s'
  unfolding registrar_directorio
  Coherente-registrar_directorio fs ns s s' w c e =
      let (u, f, g) =
        bind_inv (registrar_todos (dns_de l) ip puerto es_txt tipo_archivo ns s) _ e in
      Coherente-registrar_todos (es_carpeta_propia fs) tipo_carpeta ns u s' w
        (Coherente-registrar_todos es_txt tipo_archivo ns s u w c f) g

  Coherente-iniciar :
      (fork_ok : Bool) (d : Option Registro) (r : Registro) (t : Tabla)
      → Coherente puerto (record { registro = r; demonio = d; nombres_dns = t })
      → Coherente puerto (
          iniciar_daemon
            (dns_de l)
            ip
            puerto
            fork_ok
            (record { registro = r; demonio = d; nombres_dns = t }))
  Coherente-iniciar false d r t c = c
  Coherente-iniciar true none r t c = record {
    registrados = c.registrados;
    servidos = c.registrados;
  }
  Coherente-iniciar true (some x) r t c = c

  -- The names that a command may register, of the directory and of its parameter.
  abbrev pub Nombra : List Bytes → Orden → Type 0
  Nombra ns habilitar = All (Nombrable ip puerto) ns
  Nombra ns (subir_archivo p) = Nombrable ip puerto p
  Nombra ns (subir_carpeta p) = Nombrable ip puerto p
  Nombra ns actualizar_todo = All (Nombrable ip puerto) ns
  Nombra ns salir = Unit
  Nombra ns otra = Unit

  Coherente-ejecutar :
      (fs : FileSystem) (ns : List Bytes) (fork_ok : Bool) (o : Orden) (s s' : Servidor Tabla)
      → Nombra ns o
      → Coherente puerto s
      → ejecutar (dns_de l) ip puerto fs ns fork_ok o s ≡ some s'
      → Coherente puerto s'
  unfolding ejecutar
  Coherente-ejecutar fs ns fork_ok habilitar s s' w c e =
      let (u, f, g) = bind_inv (registrar_directorio (dns_de l) ip puerto fs ns s) _ e in
      subst (Coherente puerto) (some_inj g) (
        Coherente-iniciar fork_ok u.demonio u.registro u.nombres_dns
          (Coherente-registrar_directorio fs ns s u w c f))
  Coherente-ejecutar fs ns fork_ok (subir_archivo p) s s' w c e =
      elim (guarded (es_archivo (fs p)) e) [
        | inl f ↦ Coherente-registrar p tipo_archivo s s' w c f
        | inr f ↦ subst (Coherente puerto) (some_inj f) c
      ]
  Coherente-ejecutar fs ns fork_ok (subir_carpeta p) s s' w c e =
      elim (guarded (es_carpeta (fs p)) e) [
        | inl f ↦ Coherente-registrar p tipo_carpeta s s' w c f
        | inr f ↦ subst (Coherente puerto) (some_inj f) c
      ]
  Coherente-ejecutar fs ns fork_ok actualizar_todo s s' w c e =
      Coherente-registrar_directorio fs ns s s' w c e
  Coherente-ejecutar fs ns fork_ok salir s s' w c e = subst (Coherente puerto) (some_inj e) c
  Coherente-ejecutar fs ns fork_ok otra s s' w c e = subst (Coherente puerto) (some_inj e) c

  -- One registration, where elementos_registrados has room.
  registrar-some :
      (n : Bytes) (tipo : TipoElemento) (s : Servidor Tabla)
      → length s.registro < max_registrados
      → (u : Servidor Tabla) × (registrar_elemento_dns (dns_de l) ip puerto n tipo s ≡ some u)
        × (length u.registro ≤ length s.registro + 1)
  unfolding registrar_elemento_dns
  registrar-some n tipo s h = elim (Bool-cases (starts_with (codes "OK") (c_str r.1))) [
    | inl a ↦
        rw (a, lt→ltb (length s.registro) max_registrados h)
          (
            record s { registro = s.registro ++ (n, tipo) ∷ []; nombres_dns = r.0 },
            refl,
            omega (arith, length-append s.registro ((n, tipo) ∷ [])),
          )
    | inr a ↦ rw a (record s { nombres_dns = r.0 }, refl, omega arith)
  ]
    where
      r : Tabla × Bytes
      r = manejar_cliente l (pedir_registro n ip puerto tipo) s.nombres_dns

  registrar_todos-some :
      (es : Bytes → Bool) (tipo : TipoElemento) (ns : List Bytes) (s : Servidor Tabla)
      → length s.registro + length ns ≤ max_registrados
      → (u : Servidor Tabla) × (registrar_todos (dns_de l) ip puerto es tipo ns s ≡ some u)
        × (length u.registro ≤ length s.registro + length ns)
  unfolding registrar_todos
  registrar_todos-some es tipo [] s h = (s, refl, omega arith)
  registrar_todos-some es tipo (n ∷ ns) s h = elim (Bool-cases (es n)) [
    | inl b ↦
        let (u, e, k) = registrar-some n tipo s (omega arith) in
        let (w, f, m) = registrar_todos-some es tipo ns u (omega arith) in
        rw (b, e) (w, f, omega arith)
    | inr b ↦
        let (w, f, m) = registrar_todos-some es tipo ns s (omega arith) in rw b (w, f, omega arith)
  ]

  registrar_directorio-some :
      (fs : FileSystem) (ns : List Bytes) (s : Servidor Tabla)
      → length s.registro + length ns + length ns ≤ max_registrados
      → (u : Servidor Tabla) × (registrar_directorio (dns_de l) ip puerto fs ns s ≡ some u)
  unfolding registrar_directorio
  registrar_directorio-some fs ns s h =
      let (u, e, k) = registrar_todos-some es_txt tipo_archivo ns s (omega arith) in
      let (w, f, m) = registrar_todos-some (es_carpeta_propia fs) tipo_carpeta ns u (omega arith) in
      rw e (w, f)

  -- How many elements a command registers at most.
  abbrev pub hasta : List Bytes → Orden → ℕ
  hasta ns habilitar = length ns + length ns
  hasta ns (subir_archivo p) = 1
  hasta ns (subir_carpeta p) = 1
  hasta ns actualizar_todo = length ns + length ns
  hasta ns salir = 0
  hasta ns otra = 0

  ejecutar-some :
      (fs : FileSystem) (ns : List Bytes) (fork_ok : Bool) (o : Orden) (s : Servidor Tabla)
      → length s.registro + hasta ns o ≤ max_registrados
      → (u : Servidor Tabla) × (ejecutar (dns_de l) ip puerto fs ns fork_ok o s ≡ some u)
  unfolding ejecutar
  ejecutar-some fs ns fork_ok habilitar s h =
      let (u, e) = registrar_directorio-some fs ns s (omega arith) in
      rw e (iniciar_daemon (dns_de l) ip puerto fork_ok u, refl)
  ejecutar-some fs ns fork_ok (subir_archivo p) s h = elim (Bool-cases (es_archivo (fs p))) [
    | inl b ↦ let (u, e, k) = registrar-some p tipo_archivo s (omega arith) in rw b (u, e)
    | inr b ↦ rw b (s, refl)
  ]
  ejecutar-some fs ns fork_ok (subir_carpeta p) s h = elim (Bool-cases (es_carpeta (fs p))) [
    | inl b ↦ let (u, e, k) = registrar-some p tipo_carpeta s (omega arith) in rw b (u, e)
    | inr b ↦ rw b (s, refl)
  ]
  ejecutar-some fs ns fork_ok actualizar_todo s h = registrar_directorio-some fs ns s (omega arith)
  ejecutar-some fs ns fork_ok salir s h = (s, refl)
  ejecutar-some fs ns fork_ok otra s h = (s, refl)

  -- From a coherent state, a command on names that are words of at most 255 bytes, at a server whose
  -- address is a word of at most 15 bytes and whose port has at most 700 digits, when elementos_registrados has room for every name that the command may register
  -- (each name of the directory twice, or the one of its parameter): the command ends with a result,
  -- and keeps the file server coherent with the name server, which directs to this port of the local
  -- host for whatever the list of registered elements and the daemon's copy of it hold.
  pub ejecutar-Coherente :
      (fs : FileSystem) (ns : List Bytes) (fork_ok : Bool) (o : Orden) (s : Servidor Tabla)
      → Nombra ns o
      → length s.registro + hasta ns o ≤ max_registrados
      → Coherente puerto s
      → (s' : Servidor Tabla) × (ejecutar (dns_de l) ip puerto fs ns fork_ok o s ≡ some s')
        × Coherente puerto s'
  ejecutar-Coherente fs ns fork_ok o s w h c =
      let (u, e) = ejecutar-some fs ns fork_ok o s h in
      (u, e, Coherente-ejecutar fs ns fork_ok o s u w c e)

  abbrev pub Nombran : List (FileSystem × List Bytes × Bool × Orden) → Type 0
  Nombran [] = Unit {0}
  Nombran ((fs, ns, fork_ok, o) ∷ ts) = Nombra ns o × Nombran ts

  -- What a run of the menu leaves is coherent, where it does not overrun the array.
  ejecutar_todas-Coherente :
      (ts : List (FileSystem × List Bytes × Bool × Orden)) (s s' : Servidor Tabla)
      → Nombran ts
      → Coherente puerto s
      → ejecutar_todas (dns_de l) ip puerto ts s ≡ some s'
      → Coherente puerto s'
  unfolding ejecutar_todas
  ejecutar_todas-Coherente [] s s' w c e = subst (Coherente puerto) (some_inj e) c
  ejecutar_todas-Coherente ((fs, ns, fork_ok, o) ∷ ts) s s' w c e =
      let (u, f, g) = bind_inv (ejecutar (dns_de l) ip puerto fs ns fork_ok o s) _ e in
      let d = Coherente-ejecutar fs ns fork_ok o s u w.0 c f in
      elim (guarded (es_salir o) g) [
        | inl k ↦ subst (Coherente puerto) (some_inj k) d
        | inr k ↦ ejecutar_todas-Coherente ts u s' w.1 d k
      ]
