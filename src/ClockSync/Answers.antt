-- ===== src/ClockSync/Answers.antt =====
-- tp6-algoritmo-de-berkeley: the clients at the other end of the daemon's sockets, in a round. A client goes by
-- its socket.
use so_distribuidos.Prelude.{
  get_elem?, ℕ, zero, suc, ◌≤◌, ◌<◌, Bool, true, false, Option, none, some, List, [], ◌∷◌, ◌≡◌, inl,
  inr, refl, sym, ap, ◌∙◌, subst, arith, Bool-cases, Bytes, codes, ℤ, pos, negsuc, eqb_ℤ,
  if◌then◌else◌, length, print_int, All, some_inj, update, update_self, update_lem,
}
use so_distribuidos.ClockSync.Slots.{Client}
use so_distribuidos.ClockSync.Berkeley.{
  Reply, request_client_time, asked, get_times, send_time_sync, to_active,
}
use so_distribuidos.ClockSync.Average.{
  Between, handler_mensajes, Handled, time_request_round_trip, time_sync_round_trip,
}

-- What the client's handler sends back to a request.
abbrev pub contestado : Option Bytes → Reply
contestado none = record { sent = true; received = [] }
contestado (some b) = record { sent = true; received = b }

module _ (stale : ℕ → Bytes) (vivo : ℕ → Bool) where
  -- A client that is not there answers nothing.
  abbrev pub red : (ℕ → ℤ) → ℕ → Reply
  red relojes k =
      if vivo k
      then contestado
          (handler_mensajes true true (stale k) (codes "TIME_REQUEST") (relojes k)).reply
      else record { sent = true; received = [] }

  -- The clocks after the messages.
  abbrev pub entregar : List (ℕ × Bytes) → (ℕ → ℤ) → ℕ → ℤ
  entregar [] relojes = relojes
  entregar ((k, m) ∷ ms) relojes =
      entregar ms (update relojes k (handler_mensajes true true (stale k) m (relojes k)).clock)

  module _ (lo hi : ℕ) (relojes : ℕ → ℤ) (between : (k : ℕ) → Between lo hi (relojes k))
      (short : (k : ℕ) → length (print_int (relojes k)) ≤ 1013) where
    pedido : (k : ℕ) → vivo k ≡ true → request_client_time (red relojes k) ≡ relojes k
    pedido k e =
        let (b, r, t, c) = time_request_round_trip true (stale k) (relojes k) (short k) in
        rw (e, r) t

    callado : (k : ℕ) → vivo k ≡ false → request_client_time (red relojes k) ≡ negsuc 0
    unfolding request_client_time
    callado k e = rw e refl

    -- A time that is kept is a clock's, and stands within the bounds.
    asked-Between :
        (c : Client) (z : ℤ) (r : List ℤ × List Client)
        → Between lo hi z
        → All (Between lo hi) r.0
        → All (Between lo hi) (asked z c r).0
    asked-Between c z (ts, cs) h a = elim (Bool-cases c.active) [
      | inl e ↦
          rw e (elim (Bool-cases (eqb_ℤ z (negsuc 0))) [ inl q ↦ rw q a | inr q ↦ rw q (h, a) ])
      | inr e ↦ rw e a
    ]

    ausente-Between :
        (c : Client) (r : List ℤ × List Client)
        → All (Between lo hi) r.0
        → All (Between lo hi) (asked (negsuc 0) c r).0
    ausente-Between c (ts, cs) a = elim (Bool-cases c.active) [ inl e ↦ rw e a | inr e ↦ rw e a ]

    pub get_times-Between :
        (n : ℕ) (cs : List Client) → All (Between lo hi) (get_times (red relojes) n cs).0
    unfolding get_times
    get_times-Between zero cs = tt
    get_times-Between (suc n) [] = tt
    get_times-Between (suc n) (c ∷ cs) =
        let rest = get_times-Between n cs in
        elim (Bool-cases (vivo c.socket)) [
          | inl e ↦
              subst (λ z. All (Between lo hi) (asked z c (get_times (red relojes) n cs)).0)
                (sym (pedido c.socket e))
                (asked-Between c (relojes c.socket) (get_times (red relojes) n cs)
                  (between c.socket) rest)
          | inr e ↦
              subst (λ z. All (Between lo hi) (asked z c (get_times (red relojes) n cs)).0)
                (sym (callado c.socket e)) (ausente-Between c (get_times (red relojes) n cs) rest)
        ]

    -- A client that answers stays active.
    asked-kept :
        (c : Client) (t : ℕ) (r : List ℤ × List Client)
        → c.active ≡ true
        → get_elem? (asked (pos t) c r).1 0 ≡ some c
    asked-kept c t (ts, cs) e = ground arith

    asked-tail :
        (c : Client) (z : ℤ) (r : List ℤ × List Client) (i : ℕ)
        → get_elem? (asked z c r).1 (suc i) ≡ get_elem? r.1 i
    asked-tail c z (ts, cs) i = elim (Bool-cases c.active) [
      | inl e ↦
          rw e (elim (Bool-cases (eqb_ℤ z (negsuc 0))) [ inl q ↦ rw q refl | inr q ↦ rw q refl ])
      | inr e ↦ rw e refl
    ]

    pub get_times-kept :
        (n : ℕ) (cs : List Client) (i : ℕ) (c : Client)
        → get_elem? cs i ≡ some c
        → c.active ≡ true
        → vivo c.socket ≡ true
        → get_elem? (get_times (red relojes) n cs).1 i ≡ some c
    unfolding get_times
    get_times-kept zero cs i c h a w = h
    get_times-kept (suc n) [] i c h a w = h
    get_times-kept (suc n) (d ∷ cs) zero c h a w =
        subst
          (λ x.
            get_elem?
              (asked (request_client_time (red relojes x.socket)) x
                (get_times (red relojes) n cs)).1
              0
            ≡ some c)
          (sym (some_inj h))
          (subst (λ z. get_elem? (asked z c (get_times (red relojes) n cs)).1 0 ≡ some c)
            (sym (pedido c.socket w ∙ (between c.socket).1))
            (asked-kept c (between c.socket).0 (get_times (red relojes) n cs) a))
    get_times-kept (suc n) (d ∷ cs) (suc i) c h a w =
        asked-tail d (request_client_time (red relojes d.socket)) (get_times (red relojes) n cs) i
        ∙ get_times-kept n cs i c h a w

  -- All who get the correction have the time that it says.
  module _ (t : ℕ) (fits : length (print_int (pos t)) ≤ 1013) where
    abbrev corregido : ℕ → ℤ → ℤ
    corregido k z = (handler_mensajes true true (stale k) (send_time_sync (pos t)) z).clock

    corregido_lem : (k : ℕ) (z : ℤ) → corregido k z ≡ pos t
    corregido_lem k z =
        ap (λ (h : Handled). h.clock) (time_sync_round_trip true (stale k) (pos t) z fits)

    entregado :
        (n : ℕ) (cs : List Client) (f : ℕ → ℤ) (k : ℕ)
        → f k ≡ pos t
        → entregar (to_active (send_time_sync (pos t)) n cs) f k ≡ pos t
    unfolding to_active
    entregado zero cs f k h = h
    entregado (suc n) [] f k h = h
    entregado (suc n) (c ∷ cs) f k h = elim (Bool-cases c.active) [
      | inl e ↦ rw e (
          entregado n cs (update f c.socket (corregido c.socket (f c.socket))) k (
            update_lem f c.socket (λ j z. f j ≡ pos t → z ≡ pos t) _
              (λ q. corregido_lem c.socket (f c.socket)) (λ j d q. q) k h))
      | inr e ↦ rw e (entregado n cs f k h)
    ]

    pub entregado-active :
        (n : ℕ) (cs : List Client) (f : ℕ → ℤ) (i : ℕ) (c : Client)
        → get_elem? cs i ≡ some c
        → c.active ≡ true
        → i < n
        → entregar (to_active (send_time_sync (pos t)) n cs) f c.socket ≡ pos t
    unfolding to_active
    entregado-active zero cs f i c h a l = absurd (omega arith)
    entregado-active (suc n) [] f i c h a l = absurd (cc h)
    entregado-active (suc n) (d ∷ cs) f zero c h a l =
        subst
          (λ x.
            entregar
              (if x.active
                then (x.socket, send_time_sync (pos t)) ∷ to_active (send_time_sync (pos t)) n cs
                else to_active (send_time_sync (pos t)) n cs)
              f c.socket
            ≡ pos t)
          (sym (some_inj h))
          (rw a (
            entregado n cs (update f c.socket (corregido c.socket (f c.socket))) c.socket (
              update_self f c.socket (corregido c.socket (f c.socket))
              ∙ corregido_lem c.socket (f c.socket))))
    entregado-active (suc n) (d ∷ cs) f (suc i) c h a l = elim (Bool-cases d.active) [
      | inl e ↦ rw e (
          entregado-active n cs (update f d.socket (corregido d.socket (f d.socket))) i c h a
            (omega arith))
      | inr e ↦ rw e (entregado-active n cs f i c h a (omega arith))
    ]
