-- ===== src/National/WorkingSet/Requests.antt =====
-- src/national-radar/NationalHistoryWorkingSetController.ts: the indices that are requested, over all requests.
use mistr.Prelude.{
  length, take, drop, take-append-drop, length-drop, ℕ, zero, suc, ◌≤◌, ◌≡◌, refl, ap, ◌∙◌, List,
  [], ◌∷◌, ◌++◌, arith,
}
use mistr.National.Staging.{batches, singles}
use mistr.PackedGrid.Chunk.{PackedGridChunk}

-- The indices of all requests, in order.
abbrev pub flatten : List (List ℕ) → List ℕ
flatten [] = []
flatten (indices ∷ items) = indices ++ flatten items

abbrev pub chunk_indices : List PackedGridChunk → List ℕ
chunk_indices [] = []
chunk_indices (chunk ∷ chunks) = chunk.descriptor.index ∷ chunk_indices chunks

pub chunk_indices-append :
    (left right : List PackedGridChunk)
    → chunk_indices (left ++ right) ≡ chunk_indices left ++ chunk_indices right
chunk_indices-append [] right = refl
chunk_indices-append (chunk ∷ left) right =
    ap (λ xs. chunk.descriptor.index ∷ xs) (chunk_indices-append left right)

-- The batches of 16 leave none out.
pub flatten-batches :
    (rounds : ℕ) (indices : List ℕ)
    → length indices ≤ rounds
    → flatten (batches rounds indices) ≡ indices
unfolding batches
flatten-batches zero [] h = refl
flatten-batches zero (i ∷ indices) h = absurd (omega (arith, h))
flatten-batches (suc rounds) [] h = refl
flatten-batches (suc rounds) (i ∷ indices) h =
    let all = i ∷ indices in
    let shorter : length (drop 16 all) ≤ rounds = omega (arith, h, length-drop 16 all) in
    ap (λ xs. take 16 all ++ xs) (flatten-batches rounds (drop 16 all) shorter)
    ∙ take-append-drop 16 all

pub flatten-singles : (indices : List ℕ) → flatten (singles indices) ≡ indices
flatten-singles [] = refl
flatten-singles (i ∷ indices) = ap (λ xs. i ∷ xs) (flatten-singles indices)
