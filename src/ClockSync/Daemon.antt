-- ===== src/ClockSync/Daemon.antt =====
-- tp-cristian/daemon.c: the slots of its clients, the thread of each slot and the main thread, interleaved in
-- any order. Descriptors are numbers.
use so_distribuidos.Prelude.{
  ℕ, zero, suc, ◌==◌, Bool, true, false, Option, none, some, ◌≡◌, Bytes, ℤ, if◌then◌else◌, update,
}
use so_distribuidos.ClockSync.Cristian.{handle_client}

-- Where the thread of a slot stands in handle_client: before the loop's test, before recv, behind the loop,
-- and behind close. A slot without a thread, or whose thread has returned, has none.
pub data Hilo : Type 0 where
  ninguno : Hilo
  en_lazo : Hilo
  leyendo : Hilo
  cerrando : Hilo
  soltando : Hilo

-- client_info_t.
pub record Ranura : Type 0 where
  pub socket : ℕ
  pub active : Bool
  pub hilo : Hilo

-- Where main stands: in the accept loop, at slot i of the loop that closes, in that loop behind close for
-- slot i, and behind it.
pub data Principal : Type 0 where
  aceptando : Principal
  revisando : (i : ℕ) → Principal
  cancelando : (i : ℕ) → Principal
  terminado : Principal

-- server_state, with the descriptors of clients that are open.
pub record Estado : Type 0 where
  pub clients : ℕ → Ranura
  pub running : Bool
  pub abiertos : ℕ → Bool
  pub principal : Principal

-- MAX_CLIENTS
abbrev pub max_clients : ℕ
max_clients = 10

-- The first of `k` slots from `i` that is not active.
unfoldable pub primera_libre : ℕ → ℕ → (ℕ → Ranura) → Option ℕ
primera_libre zero i r = none
primera_libre (suc k) i r =
    let rest = primera_libre k (suc i) r in if (r i).active then rest else some i

abbrev pub con_hilo : Ranura → Hilo → Ranura
con_hilo r h = record { socket = r.socket; active = r.active; hilo = h }

abbrev pub pasa : Estado → ℕ → Hilo → Estado
pasa s i h = record s { clients = update s.clients i (con_hilo (s.clients i) h) }

-- An accepted connection: it is closed at once if there is no slot or no thread for it.
abbrev pub aceptado : Estado → ℕ → Bool → Option ℕ → Estado
aceptado s k hay_hilo none = s
aceptado s k hay_hilo (some i) =
    if hay_hilo
    then record s {
      clients = update s.clients i (record { socket = k; active = true; hilo = en_lazo });
      abiertos = update s.abiertos k true;
    }
    else record s {
      clients = update s.clients i (record { socket = k; active = false; hilo = ninguno });
    }

unfoldable pub aceptar : Estado → ℕ → Bool → Estado
unfolding primera_libre
aceptar s k hay_hilo = aceptado s k hay_hilo (primera_libre max_clients 0 s.clients)

-- The loop's test.
abbrev pub probar : Estado → ℕ → Estado
probar s i =
    pasa s i (if s.running then (if (s.clients i).active then leyendo else cerrando) else cerrando)

-- What recv gave has been handled, and the loop goes on or not.
abbrev pub tras_mensaje : Estado → ℕ → Bool → Estado
tras_mensaje s i sigue = pasa s i (if sigue then en_lazo else cerrando)

abbrev pub cerrar : Estado → ℕ → Hilo → Estado
cerrar s i h = record s {
  clients = update s.clients i (con_hilo (s.clients i) h);
  abiertos = update s.abiertos (s.clients i).socket false;
}

abbrev pub soltar : Estado → ℕ → Estado
soltar s i = record s {
  clients =
      update s.clients i (record { socket = (s.clients i).socket; active = false; hilo = ninguno });
}

-- main at slot i of its last loop.
abbrev pub siguiente : ℕ → Principal
siguiente i = if suc i == max_clients then terminado else revisando (suc i)

abbrev pub revisar : Estado → ℕ → Estado
revisar s i =
    if (s.clients i).active
    then record s {
      abiertos = update s.abiertos (s.clients i).socket false;
      principal = cancelando i;
    }
    else record s { principal = siguiente i }

-- The thread is cancelled and has ended, when pthread_join returns.
abbrev pub unir : Estado → ℕ → Estado
unir s i = record s {
  clients = update s.clients i (con_hilo (s.clients i) ninguno);
  principal = siguiente i;
}

-- accept gives a descriptor that is not in use. The mutex makes what main does with it one step, and the
-- handler of a signal is another.
pub data Paso (s : Estado) : Estado → Type 0 where
  acepta :
      (k : ℕ) (hay_hilo : Bool)
      → s.principal ≡ aceptando
      → s.abiertos k ≡ false
      → Paso s (aceptar s k hay_hilo)
  prueba : (i : ℕ) → (s.clients i).hilo ≡ en_lazo → Paso s (probar s i)
  recibe :
      (i : ℕ) (send_ok : Bool) (b : Bytes) (time : ℤ)
      → (s.clients i).hilo ≡ leyendo
      → Paso s (tras_mensaje s i (handle_client send_ok b time).1)
  cierra : (i : ℕ) → (s.clients i).hilo ≡ cerrando → Paso s (cerrar s i soltando)
  suelta : (i : ℕ) → (s.clients i).hilo ≡ soltando → Paso s (soltar s i)
  interrumpe : Paso s (record s { running = false })
  acaba :
      s.principal ≡ aceptando → s.running ≡ false → Paso s (record s { principal = revisando 0 })
  revisa : (i : ℕ) → s.principal ≡ revisando i → Paso s (revisar s i)
  une : (i : ℕ) → s.principal ≡ cancelando i → Paso s (unir s i)

abbrev pub inicial : Estado
inicial = record {
  clients = λ i. record { socket = 0; active = false; hilo = ninguno };
  running = true;
  abiertos = λ k. false;
  principal = aceptando;
}

pub data Alcanza : Estado → Type 0 where
  inicio : Alcanza inicial
  luego : {s t : Estado} → Alcanza s → Paso s t → Alcanza t
