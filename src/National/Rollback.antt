-- ===== src/National/Rollback.antt =====
-- src/national-radar/NationalRollbackLoop.ts: `snapshotProvesNationalHistoryRollback`.
use mistr.Prelude.{
  ◌==◌, any, All, ℕ, ◌≡◌, Bool, true, false, not, ◌&&◌, Option, none, some, List, [], ◌∷◌, arith,
}
use mistr.PackedGrid.Bytes.{equal_bytes}
use mistr.National.Staging.{NationalHistoryObservation}

-- What the function reads of the backend's snapshot.
pub record NationalHistorySnapshot : Type 0 where
  pub generation : ℕ
  pub staged : Option NationalHistoryObservation
  pub staged_backend_bytes : ℕ
  pub mutation_reversible : Bool
  pub reversible_commit_bytes : ℕ
  pub retained : List NationalHistoryObservation

unfoldable pub is_retained : NationalHistoryObservation → NationalHistoryObservation → Bool
is_retained observation retained =
    retained.generation == observation.generation
    && retained.observation_time_unix_ms == observation.observation_time_unix_ms
    && equal_bytes retained.content_sha256 observation.content_sha256
    && equal_bytes retained.object_key observation.object_key

unfoldable pub is_null : Option NationalHistoryObservation → Bool
is_null none = true
is_null (some observation) = false

unfoldable pub snapshot_proves_national_history_rollback :
    NationalHistorySnapshot → NationalHistoryObservation → Bool
unfolding is_retained is_null
snapshot_proves_national_history_rollback s observation =
    s.generation == observation.generation
    && is_null s.staged
    && s.staged_backend_bytes == 0
    && not s.mutation_reversible
    && s.reversible_commit_bytes == 0
    && not (any (λ r. is_retained observation r) s.retained)

none_retained :
    (observation : NationalHistoryObservation) (retained : List NationalHistoryObservation)
    → any (λ r. is_retained observation r) retained ≡ false
    → All (λ r. is_retained observation r ≡ false) retained
none_retained observation [] h = tt
none_retained observation (r ∷ rs) h =
    let rest = none_retained observation rs in ground (arith, h, rest)

-- A snapshot that proves the rollback holds nothing of the mutation: nothing is staged, no bytes are held for it,
-- and the observation is not among those retained.
rollback_leaves_nothing :
    (s : NationalHistorySnapshot) (observation : NationalHistoryObservation)
    → snapshot_proves_national_history_rollback s observation ≡ true
    → (s.staged ≡ none)
      × (s.staged_backend_bytes ≡ 0)
      × (s.reversible_commit_bytes ≡ 0)
      × All (λ r. is_retained observation r ≡ false) s.retained
unfolding snapshot_proves_national_history_rollback is_null
rollback_leaves_nothing s observation h = ground (arith, h, none_retained observation s.retained)
