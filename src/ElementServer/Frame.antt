-- ===== src/ElementServer/Frame.antt =====
-- Which files a connection of the daemon of servidor_archivos_nuevo.c can change.
use so_distribuidos.Prelude.{
  ◌≤◌, length, Bool, true, ◌&&◌, not, Option, none, some, List, [], ◌∷◌, ◌≡◌, ◌⊎◌, inl, inr, refl,
  sym, ap, ◌∙◌, subst, Bytes, codes, str_eq, str_eq_iff, c_str, Bool-cases,
}
use so_distribuidos.Transfer.Loops.{Connection, recv}
use so_distribuidos.Transfer.Files.{Node, file, folder, special, FileSystem, write_file_ne}
use so_distribuidos.ElementServer.Daemon.{
  esta_registrado, Atencion, es_vacio, obtener, actualizar, leer_comando, atender_comando,
  con_mensaje, manejar_cliente_daemon, recibir_archivo, Marco, OrdenesCaben, con_palabras_lem,
}

-- The path q is as it was, or it is a registered regular file.
abbrev pub Permitido : List Bytes → FileSystem → Bytes → Atencion → Type 0
Permitido reg fs q a =
    (a.archivos q ≡ fs q) ⊎ ((esta_registrado q reg ≡ true) × (c : Bytes) × (fs q ≡ some (file c)))

obtener-archivos :
    (can_open : Bytes → Bool) (n : Bytes) (o : Option Node) (fs : FileSystem)
    → (obtener can_open n o fs).archivos ≡ fs
obtener-archivos can_open n none fs = refl
obtener-archivos can_open n (some (file c)) fs = refl
obtener-archivos can_open n (some (folder ns)) fs = refl
obtener-archivos can_open n (some special) fs = refl

module _ (can_open : Bytes → Bool) (reg : List Bytes) (fs : FileSystem) (q : Bytes) where
  Permitido-actualizar :
      (n : Bytes) (o : Option Node) (s : Connection)
      → fs n ≡ o
      → esta_registrado n reg ≡ true
      → Permitido reg fs q (actualizar can_open n o s fs)
  unfolding recibir_archivo
  Permitido-actualizar n none s h r = inl refl
  Permitido-actualizar n (some (folder ns)) s h r = inl refl
  Permitido-actualizar n (some special) s h r = inl refl
  Permitido-actualizar n (some (file c)) s h r = elim (Bool-cases (str_eq n q)) [
    | inl e ↦
        subst (λ x. Permitido reg fs x (actualizar can_open n (some (file c)) s fs))
          ((str_eq_iff n q).0 e) (inr (r, c, h))
    | inr e ↦
        inl (write_file_ne can_open n q _ fs (λ d. absurd (cc (sym e ∙ (str_eq_iff n q).1 d))))
  ]

  Permitido-atender :
      (m : Bytes × Bytes) (s : Connection)
      → Permitido reg fs q (atender_comando can_open reg m s fs)
  unfolding atender_comando
  Permitido-atender (c, n) s =
      elim (Bool-cases (str_eq c (codes "OBTENER_ELEMENTO") && not (es_vacio n))) [
        | inl a ↦ rw a (elim (Bool-cases (esta_registrado n reg)) [
          | inl r ↦ rw r (inl (ap (λ g. g q) (obtener-archivos can_open n (fs n) fs)))
          | inr r ↦ rw r (inl refl)
        ])
        | inr a ↦
            rw a (elim (Bool-cases (str_eq c (codes "ACTUALIZAR_ARCHIVO") && not (es_vacio n))) [
              | inl b ↦ rw b (elim (Bool-cases (esta_registrado n reg)) [
                | inl r ↦ rw r (Permitido-actualizar n (fs n) s refl r)
                | inr r ↦ rw r (inl refl)
              ])
              | inr b ↦ rw b (inl refl)
            ])
      ]

-- Whatever command and name arrive on a connection of the daemon, as long as they have at most 18 and 255
-- bytes and the daemon is built so that such words overrun nothing it reads, every path is left as it was,
-- but for a regular file that is registered.
pub manejar_cliente_daemon-frame :
    (can_open : Bytes → Bool) (marco : Marco) (reg : List Bytes) (s : Connection) (fs : FileSystem)
    (q : Bytes)
    → OrdenesCaben can_open marco reg
    → let m = leer_comando marco.comando (c_str (recv 1024 s).0) in
      length m.0 ≤ 18
      → length m.1 ≤ 255
      → ((manejar_cliente_daemon can_open marco reg s fs).archivos q ≡ fs q)
        ⊎ ((esta_registrado q reg ≡ true) × (c : Bytes) × (fs q ≡ some (file c)))
unfolding manejar_cliente_daemon
manejar_cliente_daemon-frame can_open marco reg s fs q w = go (recv 1024 s)
  where
    go :
        (r : Bytes × Connection)
        → length (leer_comando marco.comando (c_str r.0)).0 ≤ 18
        → length (leer_comando marco.comando (c_str r.0)).1 ≤ 255
        → Permitido reg fs q (con_mensaje can_open marco reg r fs)
    go ([], s') h k = inl refl
    go (x ∷ b, s') h k =
        subst (Permitido reg fs q)
          (sym (
            con_palabras_lem can_open marco reg (leer_comando marco.comando (c_str (x ∷ b))) s' fs w
              h k))
          (Permitido-atender can_open reg fs q (leer_comando marco.comando (c_str (x ∷ b))) s')
