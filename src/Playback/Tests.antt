-- ===== src/Playback/Tests.antt =====
-- A concrete history: each theorem on src/playback/playheadCarry.ts applied to it.
use mistr.Prelude.{ℕ, zero, suc, ◌≡◌, true, false, some, List, [], ◌∷◌, arith}
use mistr.Playback.Playhead.{nearest_frame_index, CarriedPlayhead}
use mistr.Playback.Playhead.Nearest.{IsAscending, nearest_frame_index-IsNearest, IsNearest}

abbrev times_here : List ℕ
times_here = 100 ∷ 200 ∷ 300 ∷ 400 ∷ []

abbrev playing_here : CarriedPlayhead
playing_here = record { observed_at_unix_ms = 250; playing = true; at_newest = false }

times_here-IsAscending : IsAscending times_here
times_here-IsAscending zero (suc zero) h k = omega arith
times_here-IsAscending zero (suc (suc zero)) h k = omega arith
times_here-IsAscending zero (suc (suc (suc zero))) h k = omega arith
times_here-IsAscending (suc zero) (suc (suc zero)) h k = omega arith
times_here-IsAscending (suc zero) (suc (suc (suc zero))) h k = omega arith
times_here-IsAscending (suc (suc zero)) (suc (suc (suc zero))) h k = omega arith
times_here-IsAscending i j h k = absurd (omega arith)

nearest_frame_index-IsNearest_example :
    (i : ℕ) × (nearest_frame_index times_here 250 ≡ some i) × IsNearest times_here 250 i
nearest_frame_index-IsNearest_example =
    nearest_frame_index-IsNearest 100 (200 ∷ 300 ∷ 400 ∷ []) 250 times_here-IsAscending
