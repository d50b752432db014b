-- ===== src/ElementClient/Pieces.antt =====
-- The loop of recibir_carpeta of cliente_nuevo.c that reads a file of a known size.
use so_distribuidos.Prelude.{
  ℕ, zero, suc, ◌+◌, ◌-◌, ◌≤◌, List, [], ◌∷◌, ◌++◌, ◌≡◌, refl, ap, arith, inl, inr, Bytes, All, ltb,
  if◌then◌else◌, Bool-cases, length, length-append,
}
use so_distribuidos.Transfer.Loops.{concat, IsChunk}
use so_distribuidos.ElementClient.Folder.{recv_exact}
use so_distribuidos.ElementClient.Serving.{recv_piece}

pub length-concat_append :
    (a b : List Bytes) → length (concat (a ++ b)) ≡ length (concat a) + length (concat b)
unfolding concat
length-concat_append [] b = omega arith
length-concat_append (x ∷ a) b =
    omega (
      arith,
      length-append x (concat (a ++ b)),
      length-append x (concat a),
      length-concat_append a b,
    )

room : (m a : ℕ) → m ≤ 1024 → m ≤ a → m ≤ (if ltb 1024 a then 1024 else a)
room m a h k = elim (Bool-cases (ltb 1024 a)) [ inl e ↦ rw e h | inr e ↦ rw e k ]

-- The loop that reads a file of a known size reads just its chunks.
pub recv_exact-chunks :
    (chunks rest : List Bytes) (fuel : ℕ)
    → All (IsChunk 1024) chunks
    → length (concat chunks) ≤ fuel
    → recv_exact fuel (length (concat chunks)) (chunks ++ rest) ≡ (concat chunks, rest)
unfolding recv_exact concat
recv_exact-chunks [] rest zero h k = refl
recv_exact-chunks [] rest (suc fuel) h k = refl
recv_exact-chunks ([] ∷ chunks) rest fuel h k = absurd (omega (arith, h.0.0))
recv_exact-chunks ((x ∷ b) ∷ chunks) rest zero h k = absurd (omega arith)
recv_exact-chunks ((x ∷ b) ∷ chunks) rest (suc fuel) h k =
    rw
      (
        recv_piece
            (if ltb 1024 (suc (length (b ++ concat chunks)))
              then 1024
              else suc (length (b ++ concat chunks)))
            (x ∷ b) (chunks ++ rest) (λ e. absurd (omega (arith, ap length e)))
            (room (suc (length b)) (suc (length (b ++ concat chunks))) h.0.1
              (omega (arith, length-append b (concat chunks)))),
        left,
        recv_exact-chunks chunks rest fuel h.1 (omega (arith, length-append b (concat chunks))),
      )
      refl
  where
    left : suc (length (b ++ concat chunks)) - suc (length b) ≡ length (concat chunks)
    left = omega (arith, length-append b (concat chunks))
