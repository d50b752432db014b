-- ===== src/ClockSync/Threads.antt =====
-- tp-cristian/daemon.c: what the threads of the slots do to the descriptors.
use so_distribuidos.Prelude.{
  ℕ, ◌==◌, ◌<◌, Bool, true, false, Bool-cases, ◌≡◌, ◌≢◌, inl, inr, refl, sym, ap, ◌∙◌, subst, arith,
  update, update_lem, update-ne,
}
use so_distribuidos.ClockSync.Daemon.{
  Hilo, ninguno, en_lazo, leyendo, cerrando, soltando, Ranura, Principal, aceptando, revisando,
  cancelando, terminado, Estado, max_clients, con_hilo, pasa, cerrar, soltar,
}

-- A thread that has its socket still open, and one that has not returned.
abbrev pub Tiene : Hilo → Type 0
Tiene en_lazo = Unit {0}
Tiene leyendo = Unit {0}
Tiene cerrando = Unit {0}
Tiene _ = ⊥

abbrev pub Vive : Hilo → Type 0
Vive ninguno = ⊥
Vive _ = Unit {0}

pub Tiene-Vive : (h : Hilo) → Tiene h → Vive h
Tiene-Vive ninguno t = t
Tiene-Vive en_lazo t = tt
Tiene-Vive leyendo t = tt
Tiene-Vive cerrando t = tt
Tiene-Vive soltando t = tt

-- The threads of the slots below n have ended.
abbrev pub Hechos : ℕ → (ℕ → Ranura) → Type 0
Hechos n c = (j : ℕ) → j < n → (c j).hilo ≡ ninguno

abbrev pub Etapa : Principal → (ℕ → Ranura) → (ℕ → Bool) → Type 0
Etapa aceptando c a =
    ((j : ℕ) → Tiene (c j).hilo → a (c j).socket ≡ true)
    × ((j : ℕ) → (c j).active ≡ true → Vive (c j).hilo)
Etapa (revisando n) c a = Hechos n c
Etapa (cancelando n) c a = Hechos n c × (a (c n).socket ≡ false)
Etapa terminado c a = Hechos max_clients c

pub record IsEstado (s : Estado) : Type 0 where
  pub activo : (j : ℕ) → Vive (s.clients j).hilo → (s.clients j).active ≡ true
  pub owner :
      (k : ℕ)
      → s.abiertos k ≡ true
      → (j : ℕ) × (j < max_clients) × Tiene (s.clients j).hilo × ((s.clients j).socket ≡ k)
  pub distinct :
      (i j : ℕ)
      → Tiene (s.clients i).hilo
      → Tiene (s.clients j).hilo
      → (s.clients i).socket ≡ (s.clients j).socket
      → i ≡ j
  pub etapa : Etapa s.principal s.clients s.abiertos

-- The sockets of the threads stay distinct when no thread gets another one.
pub distinct_lem :
    (c d : ℕ → Ranura)
    → ((i j : ℕ) → Tiene (c i).hilo → Tiene (c j).hilo → (c i).socket ≡ (c j).socket → i ≡ j)
    → ((j : ℕ) → Tiene (d j).hilo → Tiene (c j).hilo × ((d j).socket ≡ (c j).socket))
    → (i j : ℕ) → Tiene (d i).hilo
    → Tiene (d j).hilo
    → (d i).socket ≡ (d j).socket
    → i ≡ j
distinct_lem c d h w i j p q e = h i j (w i p).0 (w j q).0 (sym (w i p).1 ∙ e ∙ (w j q).1)

closed_more : (a : ℕ → Bool) (k m : ℕ) → a m ≡ false → update a k false m ≡ false
closed_more a k m e = ground (arith, e)

pub opened : (a : ℕ → Bool) (m k : ℕ) → update a m false k ≡ true → (m ≢ k) × (a k ≡ true)
opened a m k e = elim (Bool-cases (m == k)) [
  | inl b ↦ absurd (ground (arith, b, e))
  | inr b ↦ ((λ q. ground (arith, b, q)), ground (arith, b, e))
]

-- The thread of slot i, which holds its socket, moves on.
module _ (c : ℕ → Ranura) (i : ℕ) (h : Hilo) (held : Tiene (c i).hilo) where
  abbrev movido : ℕ → Ranura
  movido = update c i (con_hilo (c i) h)

  movido-old :
      (j : ℕ) → Tiene (movido j).hilo → Tiene (c j).hilo × ((movido j).socket ≡ (c j).socket)
  movido-old =
      update_lem c i (λ j r. Tiene r.hilo → Tiene (c j).hilo × (r.socket ≡ (c j).socket)) _
        (λ t. (held, refl)) (λ j d t. (t, refl))

  movido-activo :
      ((j : ℕ) → Vive (c j).hilo → (c j).active ≡ true)
      → (j : ℕ) → Vive (movido j).hilo
      → (movido j).active ≡ true
  movido-activo v =
      update_lem c i (λ j r. Vive r.hilo → r.active ≡ true) _
        (λ t. v i (Tiene-Vive (c i).hilo held)) (λ j d. v j)

  movido-Vive :
      Vive h
      → ((j : ℕ) → (c j).active ≡ true → Vive (c j).hilo)
      → (j : ℕ) → (movido j).active ≡ true
      → Vive (movido j).hilo
  movido-Vive vh v = update_lem c i (λ j r. r.active ≡ true → Vive r.hilo) _ (λ e. vh) (λ j d. v j)

  movido-Hechos : (n : ℕ) → Hechos n c → Hechos n movido
  movido-Hechos n z =
      update_lem c i (λ j r. j < n → r.hilo ≡ ninguno) _ (λ l. absurd (subst Tiene (z i l) held))
        (λ j d. z j)

  movido-closed : (a : ℕ → Bool) (n : ℕ) → a (c n).socket ≡ false → a (movido n).socket ≡ false
  movido-closed a n =
      update_lem c i (λ j r. a (c j).socket ≡ false → a r.socket ≡ false) _ (λ e. e) (λ j d e. e) n

  pasa-Etapa : (p : Principal) (a : ℕ → Bool) → Tiene h → Etapa p c a → Etapa p movido a
  pasa-Etapa aceptando a t (o, v) = (
    update_lem c i (λ j r. Tiene r.hilo → a r.socket ≡ true) _ (λ x. o i held) (λ j d. o j),
    movido-Vive (Tiene-Vive h t) v,
  )
  pasa-Etapa (revisando n) a t z = movido-Hechos n z
  pasa-Etapa (cancelando n) a t (z, e) = (movido-Hechos n z, movido-closed a n e)
  pasa-Etapa terminado a t z = movido-Hechos max_clients z

  -- The thread closes its socket.
  cierra-Etapa :
      (p : Principal) (a : ℕ → Bool)
      → h ≡ soltando
      → ((j : ℕ) → Tiene (c j).hilo → (c i).socket ≡ (c j).socket → i ≡ j)
      → Etapa p c a
      → Etapa p movido (update a (c i).socket false)
  cierra-Etapa aceptando a e d (o, v) = (
    update_lem c i (λ j r. Tiene r.hilo → update a (c i).socket false r.socket ≡ true) _
        (λ t. absurd (subst Tiene e t))
        (λ j n t. update-ne a (c i).socket (c j).socket false (λ q. n (d j t q)) ∙ o j t),
    movido-Vive (subst Vive (sym e) tt) v,
  )
  cierra-Etapa (revisando n) a e d z = movido-Hechos n z
  cierra-Etapa (cancelando n) a e d (z, q) =
      (movido-Hechos n z, closed_more a (c i).socket (movido n).socket (movido-closed a n q))
  cierra-Etapa terminado a e d z = movido-Hechos max_clients z

  movido-kept :
      Tiene h
      → (j : ℕ) → Tiene (c j).hilo
      → Tiene (movido j).hilo × ((movido j).socket ≡ (c j).socket)
  movido-kept th =
      update_lem c i (λ j r. Tiene (c j).hilo → Tiene r.hilo × (r.socket ≡ (c j).socket)) _
        (λ t. (th, refl)) (λ j d t. (t, refl))

pub pasa-IsEstado :
    (s : Estado) (i : ℕ) (h : Hilo)
    → Tiene (s.clients i).hilo
    → Tiene h
    → IsEstado s
    → IsEstado (pasa s i h)
pasa-IsEstado s i h held t v = record {
  activo = movido-activo s.clients i h held v.activo;
  owner = λ k o.
      let (j, l, w, e) = v.owner k o in
      let (w', e') = movido-kept s.clients i h held t j w in (j, l, w', e' ∙ e);
  distinct =
      distinct_lem s.clients (movido s.clients i h held) v.distinct (movido-old s.clients i h held);
  etapa = pasa-Etapa s.clients i h held s.principal s.abiertos t v.etapa;
}

-- A slot whose thread does not hold its socket is written, and none of the others.
pub others :
    (c : ℕ → Ranura) (i : ℕ) (r : Ranura) (j : ℕ)
    → i ≢ j
    → Tiene (c j).hilo
    → Tiene (update c i r j).hilo × ((update c i r j).socket ≡ (c j).socket)
others c i r j d t =
    subst (λ x. Tiene x.hilo × (x.socket ≡ (c j).socket)) (sym (update-ne c i j r d)) (t, refl)

pub cerrar-IsEstado :
    (s : Estado) (i : ℕ) → Tiene (s.clients i).hilo → IsEstado s → IsEstado (cerrar s i soltando)
cerrar-IsEstado s i held v = record {
  activo = movido-activo s.clients i soltando held v.activo;
  owner = λ k o.
      let (d, o') = opened s.abiertos (s.clients i).socket k o in
      let (j, l, w, e) = v.owner k o' in
      let (w', e') =
        others s.clients i (con_hilo (s.clients i) soltando) j
          (λ q. d (ap (λ x. (s.clients x).socket) q ∙ e)) w in
      (j, l, w', e' ∙ e);
  distinct =
      distinct_lem s.clients (movido s.clients i soltando held) v.distinct
        (movido-old s.clients i soltando held);
  etapa =
      cierra-Etapa s.clients i soltando held s.principal s.abiertos refl (λ j. v.distinct i j held)
        v.etapa;
}

-- A slot gets a record whose thread has ended or never was.
module _ (c : ℕ → Ranura) (i : ℕ) (k : ℕ) (b : Bool) where
  abbrev pub vaciada : ℕ → Ranura
  vaciada = update c i (record { socket = k; active = b; hilo = ninguno })

  pub vaciada-old :
      (j : ℕ) → Tiene (vaciada j).hilo → Tiene (c j).hilo × ((vaciada j).socket ≡ (c j).socket)
  vaciada-old =
      update_lem c i (λ j r. Tiene r.hilo → Tiene (c j).hilo × (r.socket ≡ (c j).socket)) _
        (λ t. absurd t) (λ j d t. (t, refl))

  pub vaciada-activo :
      ((j : ℕ) → Vive (c j).hilo → (c j).active ≡ true)
      → (j : ℕ) → Vive (vaciada j).hilo
      → (vaciada j).active ≡ true
  vaciada-activo v =
      update_lem c i (λ j r. Vive r.hilo → r.active ≡ true) _ (λ t. absurd t) (λ j d. v j)

  pub vaciada-Hechos : (n : ℕ) → ((j : ℕ) → i ≢ j → j < n → (c j).hilo ≡ ninguno) → Hechos n vaciada
  vaciada-Hechos n z = update_lem c i (λ j r. j < n → r.hilo ≡ ninguno) _ (λ l. refl) (λ j d. z j d)

  pub vaciada-aceptando :
      (a : ℕ → Bool) → b ≡ false → Etapa aceptando c a → Etapa aceptando vaciada a
  vaciada-aceptando a e (o, v) = (
    update_lem c i (λ j r. Tiene r.hilo → a r.socket ≡ true) _ (λ t. absurd t) (λ j d. o j),
    update_lem c i (λ j r. r.active ≡ true → Vive r.hilo) _ (λ t. cc (sym e ∙ t)) (λ j d. v j),
  )

vaciada-closed :
    (c : ℕ → Ranura) (i : ℕ) (b : Bool) (a : ℕ → Bool) (n : ℕ)
    → a (c n).socket ≡ false
    → a (vaciada c i (c i).socket b n).socket ≡ false
vaciada-closed c i b a n =
    update_lem c i (λ j r. a (c j).socket ≡ false → a r.socket ≡ false) _ (λ e. e) (λ j d e. e) n

soltar-Etapa :
    (c : ℕ → Ranura) (i : ℕ) (p : Principal) (a : ℕ → Bool)
    → Etapa p c a
    → Etapa p (vaciada c i (c i).socket false) a
soltar-Etapa c i aceptando a z = vaciada-aceptando c i (c i).socket false a refl z
soltar-Etapa c i (revisando n) a z = vaciada-Hechos c i (c i).socket false n (λ j d. z j)
soltar-Etapa c i (cancelando n) a (z, q) =
    (vaciada-Hechos c i (c i).socket false n (λ j d. z j), vaciada-closed c i false a n q)
soltar-Etapa c i terminado a z = vaciada-Hechos c i (c i).socket false max_clients (λ j d. z j)

pub soltar-IsEstado :
    (s : Estado) (i : ℕ) → (s.clients i).hilo ≡ soltando → IsEstado s → IsEstado (soltar s i)
soltar-IsEstado s i held v = record {
  activo = vaciada-activo s.clients i (s.clients i).socket false v.activo;
  owner = λ k o.
      let (j, l, w, e) = v.owner k o in
      let (w', e') =
        others s.clients i
          (record { socket = (s.clients i).socket; active = false; hilo = ninguno }) j
          (λ q. subst Tiene (ap (λ x. (s.clients x).hilo) (sym q) ∙ held) w) w in
      (j, l, w', e' ∙ e);
  distinct =
      distinct_lem s.clients (vaciada s.clients i (s.clients i).socket false) v.distinct
        (vaciada-old s.clients i (s.clients i).socket false);
  etapa = soltar-Etapa s.clients i s.principal s.abiertos v.etapa;
}
