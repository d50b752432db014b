-- ===== src/ElementClient/Interleaving.antt =====
-- Clients of cliente_nuevo.c that run solicitar_elemento for writing at the same time, with other users of the
-- name server of servidor_dns_nuevo.c. The name server's handlers are critical sections, and the daemon of
-- servidor_archivos_nuevo.c takes one connection after another, so what happens is a sequence of stretches
-- and requests. Each client has a folder of downloads of its own.
use so_distribuidos.Prelude.{
  update, update_same, ℕ, ◌≡◌, refl, sym, ap, ◌∙◌, Option, List, [], ◌∷◌, ◌++◌, Bytes, ℤ,
}
use so_distribuidos.Transfer.Loops.{Connection}
use so_distribuidos.ElementDns.Service.{Solicitud, atender}
use so_distribuidos.ElementClient.Request.{Entorno}
use so_distribuidos.ElementClient.Stretches.{Fase, libre, editando, Cliente, avanzar}
use so_distribuidos.ElementClient.System.{Sistema}

-- The servers and the clients.
pub record Red : Type 0 where
  pub remoto : Sistema
  pub clientes : ℕ → Cliente

-- A client runs its next stretch, or the name server handles a request of another program.
pub data Suceso : Type 0 where
  turno : (i : ℕ) → Suceso
  peticion : (s : Solicitud) → Suceso

-- A client whose turn changes nothing.
pub update-libre :
    (i : ℕ) (g : ℕ → Cliente)
    → (g i).fase ≡ libre
    → update g i (record { archivos = (g i).archivos; fase = libre }) ≡ g
update-libre i g z =
    ap (λ p. update g i (record { archivos = (g i).archivos; fase = p })) (sym z) ∙ update_same g i

-- The clients whose edits arrive, by the phase in which the turn finds them.
abbrev pub devuelta_en : ℕ → Fase → List ℕ
devuelta_en i (editando u) = i ∷ []
devuelta_en i _ = []

abbrev pub devuelta : Suceso → Red → List ℕ
devuelta (turno i) x = devuelta_en i (x.clientes i).fase
devuelta (peticion s) x = []

-- A content after the edits of these clients, the first one first.
abbrev pub contenido : (ℕ → Bytes → Bytes) → List ℕ → Bytes → Bytes
contenido f [] c = c
contenido f (i ∷ is) c = contenido f is (f i c)

pub contenido-append :
    (f : ℕ → Bytes → Bytes) (is js : List ℕ) (c : Bytes)
    → contenido f (is ++ js) c ≡ contenido f js (contenido f is c)
contenido-append f [] js c = refl
contenido-append f (i ∷ is) js c = contenido-append f is js (f i c)

module _ (dns : Bytes → Sistema → Option Bytes × Sistema)
    (conectar : Bytes → ℤ → List Bytes → Sistema → Option Connection × Sistema)
    (entorno : ℕ → Entorno) (n : Bytes) where
  abbrev pub tras_turno : ℕ → Red → Cliente × Sistema → Red
  tras_turno i x (c, r) = record { remoto = r; clientes = update x.clientes i c }

  unfoldable pub suceder : Suceso → Red → Red
  unfolding avanzar atender
  suceder (turno i) x =
      tras_turno i x
        (avanzar dns conectar (entorno i) n (x.clientes i).archivos (x.clientes i).fase x.remoto)
  suceder (peticion s) x = record {
    remoto = record { tabla = (atender s x.remoto.tabla).0; archivos = x.remoto.archivos };
    clientes = x.clientes;
  }

  abbrev pub corre : List Suceso → Red → Red
  corre [] x = x
  corre (s ∷ ss) x = corre ss (suceder s x)

  -- The clients whose edits arrive, in their order.
  abbrev pub devueltas : List Suceso → Red → List ℕ
  devueltas [] x = []
  devueltas (s ∷ ss) x = devuelta s x ++ devueltas ss (suceder s x)
