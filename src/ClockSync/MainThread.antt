-- ===== src/ClockSync/MainThread.antt =====
-- tp-cristian/daemon.c: what the main thread does to the slots and the descriptors.
use so_distribuidos.Prelude.{
  ℕ, zero, suc, ◌==◌, ◌<◌, ◌+◌, Bool, true, false, Bool-cases, Option, none, some, ◌≡◌, ◌≢◌, inl,
  inr, refl, sym, ap, ◌∙◌, subst, arith, some_inj, if◌then◌else◌, update, update_lem, update_self,
}
use so_distribuidos.ClockSync.Daemon.{
  Hilo, ninguno, en_lazo, leyendo, cerrando, soltando, Ranura, aceptando, revisando, cancelando,
  Estado, max_clients, primera_libre, con_hilo, aceptado, aceptar, siguiente, revisar, unir,
}
use so_distribuidos.ClockSync.Threads.{
  Tiene, Vive, Hechos, Etapa, IsEstado, Tiene-Vive, distinct_lem, opened, others, vaciada,
  vaciada-old, vaciada-activo, vaciada-Hechos, vaciada-aceptando,
}

siguiente-Etapa :
    (n : ℕ) (c : ℕ → Ranura) (a : ℕ → Bool) → Hechos (suc n) c → Etapa (siguiente n) c a
siguiente-Etapa n c a z = elim (Bool-cases (suc n == max_clients)) [
  | inl e ↦ rw e (λ j l. z j (ground (arith, e, l)))
  | inr e ↦ rw e z
]

pub unir-IsEstado :
    (s : Estado) (i : ℕ) → s.principal ≡ cancelando i → IsEstado s → IsEstado (unir s i)
unir-IsEstado s i p v = record {
  activo = vaciada-activo s.clients i (s.clients i).socket (s.clients i).active v.activo;
  owner = λ k o.
      let (j, l, w, e) = v.owner k o in
      let (w', e') =
        others s.clients i (con_hilo (s.clients i) ninguno) j
          (λ q. cc (sym o ∙ ap s.abiertos (sym (ap (λ x. (s.clients x).socket) q ∙ e)) ∙ stage.1))
          w in
      (j, l, w', e' ∙ e);
  distinct =
      distinct_lem s.clients (vaciada s.clients i (s.clients i).socket (s.clients i).active)
        v.distinct (vaciada-old s.clients i (s.clients i).socket (s.clients i).active);
  etapa =
      siguiente-Etapa i (vaciada s.clients i (s.clients i).socket (s.clients i).active) s.abiertos (
        vaciada-Hechos s.clients i (s.clients i).socket (s.clients i).active (suc i)
          (λ j d l. stage.0 j (omega (arith, d))));
}
  where
    stage : Etapa (cancelando i) s.clients s.abiertos
    stage = subst (λ q. Etapa q s.clients s.abiertos) p v.etapa

ended : (h : Hilo) → (Vive h → ⊥) → h ≡ ninguno
ended ninguno n = refl
ended en_lazo n = absurd (n tt)
ended leyendo n = absurd (n tt)
ended cerrando n = absurd (n tt)
ended soltando n = absurd (n tt)

-- A slot that is not active has no thread.
inactive :
    (s : Estado) (i : ℕ) → IsEstado s → (s.clients i).active ≡ false → (s.clients i).hilo ≡ ninguno
inactive s i v e = ended (s.clients i).hilo (λ w. cc (sym e ∙ v.activo i w))

Hechos-suc : (n : ℕ) (c : ℕ → Ranura) → Hechos n c → (c n).hilo ≡ ninguno → Hechos (suc n) c
Hechos-suc n c z e j l = elim (Bool-cases (j == n)) [
  | inl b ↦ ap (λ x. (c x).hilo) (ground (arith, b)) ∙ e
  | inr b ↦ z j (ground (arith, b, l))
]

pub revisar-IsEstado :
    (s : Estado) (i : ℕ) → s.principal ≡ revisando i → IsEstado s → IsEstado (revisar s i)
revisar-IsEstado s i p v = elim (Bool-cases (s.clients i).active) [
  | inl b ↦ rw b (record {
    activo = v.activo;
    owner = λ k o. v.owner k (opened s.abiertos (s.clients i).socket k o).1;
    distinct = v.distinct;
    etapa = (stage, update_self s.abiertos (s.clients i).socket false);
  })
  | inr b ↦ rw b (record {
    activo = v.activo;
    owner = v.owner;
    distinct = v.distinct;
    etapa =
        siguiente-Etapa i s.clients s.abiertos (Hechos-suc i s.clients stage (inactive s i v b));
  })
]
  where
    stage : Hechos i s.clients
    stage = subst (λ q. Etapa q s.clients s.abiertos) p v.etapa

primera_libre_lem :
    (k m i : ℕ) (c : ℕ → Ranura)
    → primera_libre k m c ≡ some i
    → ((c i).active ≡ false) × (i < m + k)
unfolding primera_libre
primera_libre_lem zero m i c e = absurd (cc e)
primera_libre_lem (suc k) m i c e = elim (Bool-cases (c m).active) [
  | inl b ↦
      let (f, l) =
        primera_libre_lem k (suc m) i c
          (subst (λ x. (if x then primera_libre k (suc m) c else some m) ≡ some i) b e) in
      (f, omega arith)
  | inr b ↦
      taken (some_inj (subst (λ x. (if x then primera_libre k (suc m) c else some m) ≡ some i) b e))
        b
]
  where
    taken : m ≡ i → (c m).active ≡ false → ((c i).active ≡ false) × (i < m + suc k)
    taken q b = (ap (λ x. (c x).active) (sym q) ∙ b, omega (arith, q))

-- Slot i, which is not active, gets the connection k and a thread.
module _ (s : Estado) (k i : ℕ) (v : IsEstado s) (free : (s.clients i).active ≡ false)
    (low : i < max_clients) (unused : s.abiertos k ≡ false) where
  not_held : (j : ℕ) → Tiene (s.clients j).hilo → i ≢ j
  not_held j t q =
      cc
        (sym free ∙ ap (λ x. (s.clients x).active) q ∙ v.activo j (Tiene-Vive (s.clients j).hilo t))

  abbrev nueva : ℕ → Ranura
  nueva = update s.clients i (record { socket = k; active = true; hilo = en_lazo })

  nueva-open :
      Etapa aceptando s.clients s.abiertos
      → (j : ℕ) → Tiene (s.clients j).hilo
      → update s.abiertos k true (s.clients j).socket ≡ true
  nueva-open (o, w) j t = ground (arith, o j t)

  nueva-distinct :
      Etapa aceptando s.clients s.abiertos
      → (a b : ℕ) → Tiene (nueva a).hilo
      → Tiene (nueva b).hilo
      → (nueva a).socket ≡ (nueva b).socket
      → a ≡ b
  nueva-distinct (o, w) a b = elim (Bool-cases (i == a)) [
    | inl p ↦ elim (Bool-cases (i == b)) [
      | inl q ↦ λ x y e. ground (arith, p, q)
      | inr q ↦ rw (p, q) (λ x y e. absurd (clash b y e))
    ]
    | inr p ↦ elim (Bool-cases (i == b)) [
      | inl q ↦ rw (p, q) (λ x y e. absurd (clash a x (sym e)))
      | inr q ↦ rw (p, q) (v.distinct a b)
    ]
  ]
    where
      clash : (j : ℕ) → Tiene (s.clients j).hilo → k ≡ (s.clients j).socket → ⊥
      clash j t e = cc (sym (o j t) ∙ ap s.abiertos (sym e) ∙ unused)

  acepta-IsEstado : s.principal ≡ aceptando → IsEstado (aceptado s k true (some i))
  acepta-IsEstado p = record {
    activo =
        update_lem s.clients i (λ j r. Vive r.hilo → r.active ≡ true) _ (λ t. refl)
          (λ j d. v.activo j);
    owner = λ m o. elim (Bool-cases (k == m)) [
      | inl b ↦ let (w, e) = own m (ground (arith, b)) in (i, low, w, e)
      | inr b ↦ kept m (v.owner m (ground (arith, o, b)))
    ];
    distinct = nueva-distinct stage;
    etapa =
        subst (λ q. Etapa q nueva (update s.abiertos k true)) (sym p)
          (
            update_lem s.clients i (λ j r. Tiene r.hilo → update s.abiertos k true r.socket ≡ true)
                _ (λ t. update_self s.abiertos k true) (λ j d. nueva-open stage j),
            update_lem s.clients i (λ j r. r.active ≡ true → Vive r.hilo) _ (λ t. tt)
                (λ j d. stage.1 j),
          );
  }
    where
      stage : Etapa aceptando s.clients s.abiertos
      stage = subst (λ q. Etapa q s.clients s.abiertos) p v.etapa

      own : (m : ℕ) → k ≡ m → Tiene (nueva i).hilo × ((nueva i).socket ≡ m)
      own m e =
          subst (λ x. Tiene x.hilo × (x.socket ≡ m))
            (sym (update_self s.clients i (record { socket = k; active = true; hilo = en_lazo })))
            (tt, e)

      kept :
          (m : ℕ)
          → ((j : ℕ) × (j < max_clients) × Tiene (s.clients j).hilo × ((s.clients j).socket ≡ m))
          → (j : ℕ) × (j < max_clients) × Tiene (nueva j).hilo × ((nueva j).socket ≡ m)
      kept m (j, l, w, e) =
          let (w', e') =
            others s.clients i (record { socket = k; active = true; hilo = en_lazo }) j
              (not_held j w) w in
          (j, l, w', e' ∙ e)

  sin_hilo-IsEstado : s.principal ≡ aceptando → IsEstado (aceptado s k false (some i))
  sin_hilo-IsEstado p = record {
    activo = vaciada-activo s.clients i k false v.activo;
    owner = λ m o.
        let (j, l, w, e) = v.owner m o in
        let (w', e') =
          others s.clients i (record { socket = k; active = false; hilo = ninguno }) j
            (not_held j w) w in
        (j, l, w', e' ∙ e);
    distinct =
        distinct_lem s.clients (vaciada s.clients i k false) v.distinct
          (vaciada-old s.clients i k false);
    etapa =
        subst (λ q. Etapa q (vaciada s.clients i k false) s.abiertos) (sym p)
          (vaciada-aceptando s.clients i k false s.abiertos refl
            (subst (λ q. Etapa q s.clients s.abiertos) p v.etapa));
  }

pub aceptar-IsEstado :
    (s : Estado) (k : ℕ) (hay_hilo : Bool)
    → s.principal ≡ aceptando
    → s.abiertos k ≡ false
    → IsEstado s
    → IsEstado (aceptar s k hay_hilo)
unfolding aceptar
aceptar-IsEstado s k hay_hilo p u v = go hay_hilo (primera_libre max_clients 0 s.clients) refl
  where
    go :
        (b : Bool) (o : Option ℕ)
        → primera_libre max_clients 0 s.clients ≡ o
        → IsEstado (aceptado s k b o)
    go b none e = v
    go true (some i) e =
        let (f, l) = primera_libre_lem max_clients 0 i s.clients e in
        acepta-IsEstado s k i v f l u p
    go false (some i) e =
        let (f, l) = primera_libre_lem max_clients 0 i s.clients e in
        sin_hilo-IsEstado s k i v f l u p
