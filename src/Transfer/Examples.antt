-- ===== src/Transfer/Examples.antt =====
-- A short file, sent and received in pieces.
use so_distribuidos.Prelude.{some, List, [], ◌∷◌, ◌≡◌, refl, arith, Bytes, codes, All}
use so_distribuidos.Transfer.Loops.{Connection, concat, recv_loop, send_loop, IsChunk, transfer}

abbrev hola : Bytes
hola = codes "hola"

-- The same bytes, in two pieces with nothing between them.
abbrev pieces : Connection
pieces = codes "ho" ∷ [] ∷ codes "la" ∷ []

transfer_example :
    (chunks : List Bytes) × (send_loop 1024 5 hola ≡ some chunks)
    × (concat chunks ≡ hola)
    × All (IsChunk 1024) chunks
    × (recv_loop 1024 5 pieces ≡ some hola)
unfolding concat
transfer_example = transfer hola pieces 5 (omega arith) refl
