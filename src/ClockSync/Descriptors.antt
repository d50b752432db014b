-- ===== src/ClockSync/Descriptors.antt =====
-- tp-cristian/daemon.c: which descriptors are open, and which threads use them, while it serves and behind
-- its end.
use so_distribuidos.Prelude.{
  ℕ, ◌<◌, Bool, true, false, Bool-cases, ◌≡◌, inl, inr, sym, subst, arith, ◌↔◌, if◌then◌else◌,
}
use so_distribuidos.ClockSync.Cristian.{handle_client}
use so_distribuidos.ClockSync.Daemon.{
  ninguno, en_lazo, leyendo, cerrando, aceptando, terminado, Estado, max_clients, Paso, acepta,
  prueba, recibe, cierra, suelta, interrumpe, acaba, revisa, une, Alcanza, inicio, luego,
}
use so_distribuidos.ClockSync.Threads.{
  Tiene, Vive, Hechos, Etapa, IsEstado, pasa-IsEstado, cerrar-IsEstado, soltar-IsEstado,
}
use so_distribuidos.ClockSync.MainThread.{unir-IsEstado, revisar-IsEstado, aceptar-IsEstado}

Paso-IsEstado : {s t : Estado} → Paso s t → IsEstado s → IsEstado t
Paso-IsEstado {s} (acepta k b p u) v = aceptar-IsEstado s k b p u v
Paso-IsEstado {s} (prueba i h) v =
    pasa-IsEstado s i _ (subst Tiene (sym h) tt) (tested s.running (s.clients i).active) v
  where
    tested : (r a : Bool) → Tiene (if r then (if a then leyendo else cerrando) else cerrando)
    tested true true = tt
    tested true false = tt
    tested false a = tt
Paso-IsEstado {s} (recibe i ok b time h) v =
    pasa-IsEstado s i _ (subst Tiene (sym h) tt) (goes_on (handle_client ok b time).1) v
  where
    goes_on : (r : Bool) → Tiene (if r then en_lazo else cerrando)
    goes_on true = tt
    goes_on false = tt
Paso-IsEstado {s} (cierra i h) v = cerrar-IsEstado s i (subst Tiene (sym h) tt) v
Paso-IsEstado {s} (suelta i h) v = soltar-IsEstado s i h v
Paso-IsEstado interrumpe v = record {
  activo = v.activo;
  owner = v.owner;
  distinct = v.distinct;
  etapa = v.etapa;
}
Paso-IsEstado (acaba p r) v = record {
  activo = v.activo;
  owner = v.owner;
  distinct = v.distinct;
  etapa = λ j l. absurd (omega arith);
}
Paso-IsEstado {s} (revisa i p) v = revisar-IsEstado s i p v
Paso-IsEstado {s} (une i p) v = unir-IsEstado s i p v

Alcanza-IsEstado : {s : Estado} → Alcanza s → IsEstado s
Alcanza-IsEstado inicio = record {
  activo = λ j t. absurd t;
  owner = λ k e. absurd (cc e);
  distinct = λ i j t u e. absurd t;
  etapa = (λ j t. absurd t, λ j e. absurd (cc e));
}
Alcanza-IsEstado (luego r p) = Paso-IsEstado p (Alcanza-IsEstado r)

-- While the daemon accepts connections, whatever it has done: every open descriptor is the socket
-- of a slot of the array whose thread is before its close; such threads have descriptors that are
-- open and all different, so that none reads or closes the connection of another; and a slot is
-- active exactly while its thread has not returned, so that no slot is lost and none is given away
-- under a thread.
pub descriptores :
    (s : Estado)
    → Alcanza s
    → s.principal ≡ aceptando
    → ((k : ℕ)
        → s.abiertos k ≡ true
        → (i : ℕ) × (i < max_clients) × Tiene (s.clients i).hilo × ((s.clients i).socket ≡ k))
      × ((i : ℕ) → Tiene (s.clients i).hilo → s.abiertos (s.clients i).socket ≡ true)
      × ((i j : ℕ)
          → Tiene (s.clients i).hilo
          → Tiene (s.clients j).hilo
          → (s.clients i).socket ≡ (s.clients j).socket
          → i ≡ j)
      × ((i : ℕ) → ((s.clients i).active ≡ true) ↔ Vive (s.clients i).hilo)
descriptores s r p =
    let v = Alcanza-IsEstado r in
    let z = subst (λ q. Etapa q s.clients s.abiertos) p v.etapa in
    (v.owner, z.0, v.distinct, λ i. (z.1 i, v.activo i))

-- When the daemon has ended, after any run, no descriptor of a client is open and the thread of
-- every slot of the array has ended.
pub sin_fugas :
    (s : Estado)
    → Alcanza s
    → s.principal ≡ terminado
    → ((k : ℕ) → s.abiertos k ≡ false) × ((i : ℕ) → i < max_clients → (s.clients i).hilo ≡ ninguno)
sin_fugas s r p = (
  λ k. elim (Bool-cases (s.abiertos k)) [
    | inl b ↦ let (j, l, w, e) = v.owner k b in absurd (subst Tiene (z j l) w)
    | inr b ↦ b
  ],
  z,
)
  where
    v : IsEstado s
    v = Alcanza-IsEstado r

    z : Hechos max_clients s.clients
    z = subst (λ q. Etapa q s.clients s.abiertos) p v.etapa
