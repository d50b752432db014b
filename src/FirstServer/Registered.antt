-- ===== src/FirstServer/Registered.antt =====
-- What file_server.c takes for registered, against what the name server of dns.c has.
use so_distribuidos.Prelude.{
  ◌++◌, str_eq, sym, print_int, ℕ, some_inj, bind_inv, guarded, subst, Bool, true, false, ◌&&◌, not,
  Option, none, some, List, [], ◌∷◌, ◌≡◌, ◌≤◌, inl, inr, refl, arith, Bool-cases, All, Bytes, codes,
  starts_with, strip_prefix, c_str, ℤ, ltb, ltb→lt, if◌then◌else◌, length, length-append,
}
use so_distribuidos.Transfer.Files.{FileSystem, es_carpeta}
use so_distribuidos.ServerDns.Service.{
  Tablas, Solicitud, servidor, archivo, Desborde, atender, manejar_cliente, ok_msg, archivo_de,
  primer_servidor, es_disponible_en, registrar_archivo_directorio,
}
use so_distribuidos.ServerDns.Tables.{EstaEn, archivo_en_servidor}
use so_distribuidos.ServerDns.Kept.{atender-EstaEn}
use so_distribuidos.ElementDns.Messages.{IsWord}
use so_distribuidos.ElementServer.Commands.{
  Orden, habilitar, subir_archivo, subir_carpeta, actualizar_todo, salir, otra, es_archivo,
  leer_orden,
}
use so_distribuidos.FirstServer.Commands.{
  max_registrados, Servidor, pedir_archivo, pedir_directorio, es_punto, registrar_servidor_dns,
  registrar_archivo_dns, registrar_directorio_dns, registrar_todos_los_archivos, ejecutar,
  ejecutar_todas,
}
use so_distribuidos.FirstServer.Exchange.{
  manejar_cliente-pedir_archivo, manejar_cliente-pedir_directorio, manejar_cliente-pedir_servidor,
}

-- The name server, to which this server's connections come from the address `peer`.
abbrev pub dns_de : Desborde → Bytes → Bytes → Tablas → Option Bytes × Tablas
dns_de desborde peer b t = let r = manejar_cliente desborde (some peer) b t in (some r.1, r.0)

-- Every file that the server has registered is at a server of its address for the name server, and
-- the names fit their array.
pub record Coherente (peer : Bytes) (s : Servidor Tablas) : Type 0 where
  pub registered : All (λ n. EstaEn n peer 0 s.nombres_dns) s.registrados
  pub fits : length s.registrados ≤ max_registrados

-- A name that fits the name server's array.
abbrev pub Nombrable : Bytes → Type 0
Nombrable n = IsWord n × (length n ≤ 255)

-- An address and a port that fit the name server's array and the request.
abbrev pub Direccion : Bytes → ℤ → Type 0
Direccion ip puerto = IsWord ip × (length ip ≤ 15) × (length (print_int puerto) ≤ 900)

All-kept :
    (peer : Bytes) (q : Solicitud) (t : Tablas) (r : List Bytes)
    → All (λ n. EstaEn n peer 0 t) r
    → All (λ n. EstaEn n peer 0 (atender (some peer) q t).0) r
All-kept peer q t [] h = tt
All-kept peer q t (n ∷ r) h = (atender-EstaEn (some peer) q n peer 0 t h.0, All-kept peer q t r h.1)

All-snoc : (P : Bytes → Type 0) (r : List Bytes) (n : Bytes) → All P r → P n → All P (r ++ n ∷ [])
All-snoc P [] n h k = (k, tt)
All-snoc P (x ∷ r) n h k = (h.0, All-snoc P r n h.1 k)

-- An answer that begins with OK is OK.
answered_ok :
    (o : Option ℕ) (n : Bytes) (d : ℕ) (t : Tablas)
    → starts_with (codes "OK") (c_str (archivo_de o n d t).1) ≡ true
    → (archivo_de o n d t).1 ≡ ok_msg
unfolding starts_with strip_prefix c_str
answered_ok none n d t h = absurd (cc h)
answered_ok (some i) n d t h = said (registrar_archivo_directorio n i d t).0 h
  where
    said :
        (b : Bool)
        → starts_with (codes "OK") (c_str (if b then ok_msg else codes "ERROR\n")) ≡ true
        → (if b then ok_msg else codes "ERROR\n") ≡ ok_msg
    said true h = refl
    said false h = absurd (cc h)

module _ (desborde : Desborde) (peer ip : Bytes) (puerto : ℤ) where
  ok-EstaEn :
      (n : Bytes) (t : Tablas)
      → Nombrable n
      → let r = manejar_cliente desborde (some peer) (pedir_archivo n) t in
        starts_with (codes "OK") (c_str r.1) ≡ true → EstaEn n peer 0 r.0
  unfolding atender
  ok-EstaEn n t (w, s) = rw (manejar_cliente-pedir_archivo desborde (some peer) n t w s) (λ h.
      archivo_en_servidor peer n 0 t
        (answered_ok (primer_servidor (es_disponible_en peer) t.servidores) n 0 t h))

  Coherente-dns :
      (b : Bytes) (q : Solicitud) (s : Servidor Tablas)
      → manejar_cliente desborde (some peer) b s.nombres_dns ≡ atender (some peer) q s.nombres_dns
      → Coherente peer s
      → Coherente peer
          (record s { nombres_dns = (manejar_cliente desborde (some peer) b s.nombres_dns).0 })
  Coherente-dns b q s e c = record {
    registered =
        subst (λ a. All (λ n. EstaEn n peer 0 a.0) s.registrados) (sym e)
          (All-kept peer q s.nombres_dns s.registrados c.registered);
    fits = c.fits;
  }

  Coherente-archivo :
      (n : Bytes) (s s' : Servidor Tablas)
      → Nombrable n
      → Coherente peer s
      → registrar_archivo_dns (dns_de desborde peer) ip puerto n s ≡ some s'
      → Coherente peer s'
  unfolding registrar_archivo_dns
  Coherente-archivo n s s' w c = elim (Bool-cases (starts_with (codes "OK") (c_str r.1))) [
    | inl a ↦ rw a (elim (Bool-cases (ltb (length s.registrados) max_registrados)) [
      | inl b ↦
          rw b (λ e. subst (Coherente peer) (some_inj e) (added (ok-EstaEn n s.nombres_dns w a) b))
      | inr b ↦ rw b (λ e. absurd (cc e))
    ])
    | inr a ↦ rw a (λ e. subst (Coherente peer) (some_inj e) same)
  ]
    where
      r : Tablas × Bytes
      r = manejar_cliente desborde (some peer) (pedir_archivo n) s.nombres_dns

      same : Coherente peer (record s { nombres_dns = r.0 })
      same =
          Coherente-dns (pedir_archivo n) (archivo n 0) s
            (manejar_cliente-pedir_archivo desborde (some peer) n s.nombres_dns w.0 w.1) c

      added :
          EstaEn n peer 0 r.0
          → ltb (length s.registrados) max_registrados ≡ true
          → Coherente peer (record s { registrados = s.registrados ++ n ∷ []; nombres_dns = r.0 })
      added k b = record {
        registered = All-snoc (λ m. EstaEn m peer 0 r.0) s.registrados n same.registered k;
        fits = omega (
          arith,
          ltb→lt (length s.registrados) max_registrados b,
          length-append s.registrados (n ∷ []),
        );
      }

  Coherente-todos :
      (fs : FileSystem) (ns : List Bytes) (s s' : Servidor Tablas)
      → All Nombrable ns
      → Coherente peer s
      → registrar_todos_los_archivos (dns_de desborde peer) ip puerto fs ns s ≡ some s'
      → Coherente peer s'
  unfolding registrar_todos_los_archivos
  Coherente-todos fs [] s s' w c e = subst (Coherente peer) (some_inj e) c
  Coherente-todos fs (n ∷ ns) s s' w c e =
      let (u, f, g) =
        bind_inv
          (if not (es_punto n) && es_archivo (fs n)
            then registrar_archivo_dns (dns_de desborde peer) ip puerto n s
            else some s)
          _ e in
      Coherente-todos fs ns u s' w.1 (one u (not (es_punto n) && es_archivo (fs n)) f) g
    where
      one :
          (u : Servidor Tablas) (b : Bool)
          → (if b then registrar_archivo_dns (dns_de desborde peer) ip puerto n s else some s)
            ≡ some u
          → Coherente peer u
      one u true f = Coherente-archivo n s u w.0 c f
      one u false f = subst (Coherente peer) (some_inj f) c

  -- The names that a command may register, of the directory and of its parameter, and the address.
  abbrev pub Nombra : List Bytes → Orden → Type 0
  Nombra ns habilitar = Direccion ip puerto
  Nombra ns (subir_archivo p) = Nombrable p
  Nombra ns (subir_carpeta p) = Nombrable p
  Nombra ns actualizar_todo = All Nombrable ns
  Nombra ns _ = Unit {0}

  ejecutar-Coherente :
      (fs : FileSystem) (ns : List Bytes) (o : Orden) (s s' : Servidor Tablas)
      → Nombra ns o
      → Coherente peer s
      → ejecutar (dns_de desborde peer) ip puerto fs ns o s ≡ some s'
      → Coherente peer s'
  unfolding ejecutar registrar_servidor_dns registrar_directorio_dns
  ejecutar-Coherente fs ns habilitar s s' w c e = subst (Coherente peer) (some_inj e) (record {
    registered =
        subst (λ a. All (λ n. EstaEn n peer 0 a.0) s.registrados)
          (sym (
            manejar_cliente-pedir_servidor desborde (some peer) ip puerto s.nombres_dns w.0
              (w.1, w.2)))
          (All-kept peer (servidor ip puerto) s.nombres_dns s.registrados c.registered);
    fits = c.fits;
  })
  ejecutar-Coherente fs ns (subir_archivo p) s s' w c e = elim (guarded (es_archivo (fs p)) e) [
    | inl f ↦ Coherente-archivo p s s' w c f
    | inr f ↦ subst (Coherente peer) (some_inj f) c
  ]
  ejecutar-Coherente fs ns (subir_carpeta p) s s' w c e = elim (guarded (es_carpeta (fs p)) e) [
    | inl f ↦ subst (Coherente peer) (some_inj f) (
        Coherente-dns (pedir_directorio p) (archivo p 1) s
          (manejar_cliente-pedir_directorio desborde (some peer) p s.nombres_dns w.0 w.1) c)
    | inr f ↦ subst (Coherente peer) (some_inj f) c
  ]
  ejecutar-Coherente fs ns actualizar_todo s s' w c e = Coherente-todos fs ns s s' w c e
  ejecutar-Coherente fs ns salir s s' w c e = subst (Coherente peer) (some_inj e) c
  ejecutar-Coherente fs ns otra s s' w c e = subst (Coherente peer) (some_inj e) c

  -- The lines of a run, each with the directory as it is then.
  abbrev pub Nombran : List (Bytes × FileSystem × List Bytes) → Type 0
  Nombran [] = Unit {0}
  Nombran ((b, fs, ns) ∷ os) = Nombra ns (leer_orden b) × Nombran os

  pub ejecutar_todas-Coherente :
      (os : List (Bytes × FileSystem × List Bytes)) (s s' : Servidor Tablas)
      → Nombran os
      → Coherente peer s
      → ejecutar_todas (dns_de desborde peer) ip puerto os s ≡ some s'
      → Coherente peer s'
  unfolding ejecutar_todas
  ejecutar_todas-Coherente [] s s' w c e = subst (Coherente peer) (some_inj e) c
  ejecutar_todas-Coherente ((b, fs, ns) ∷ os) s s' w c e =
      let (u, f, g) =
        bind_inv (ejecutar (dns_de desborde peer) ip puerto fs ns (leer_orden b) s) _ e in
      let d = ejecutar-Coherente fs ns (leer_orden b) s u w.0 c f in
      elim (guarded (str_eq b (codes "salir")) g) [
        | inl k ↦ subst (Coherente peer) (some_inj k) d
        | inr k ↦ ejecutar_todas-Coherente os u s' w.1 d k
      ]
