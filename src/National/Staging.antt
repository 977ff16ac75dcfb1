-- ===== src/National/Staging.antt =====
-- src/national-radar/NationalHistoryWorkingSetController.ts: the data of a staging operation, and the calls that it
-- is made of. Of a call the result is kept, and the actions that took place, in order: a lease that was released, or
-- a rollback, even if that call failed.
use mistr.Prelude.{
  Result, ok, err, take, drop, ℕ, zero, suc, ◌+◌, ◌*◌, Bool, true, false, List, [], ◌∷◌, ◌++◌,
}
use mistr.PackedGrid.Descriptor.{PackedGridChunkDescriptor}
use mistr.Transfer.Pipeline.{Action}
use mistr.National.Coverage.{CoverageError}
use mistr.PackedGrid.Manifest.{PackedGridManifest}
use mistr.PackedGrid.Chunk.{PackedGridChunk}
use mistr.PackedGrid.Bytes.{PackedGridErrorCode}

pub record NationalHistoryObservation : Type 0 where
  pub generation : ℕ
  pub object_key : List ℕ
  pub observation_time_unix_ms : ℕ
  pub content_sha256 : List ℕ

pub record NationalPaintReceipt : Type 0 where
  pub generation : ℕ
  pub observation_time_unix_ms : ℕ
  pub content_sha256 : List ℕ
  pub presentation_factor : ℕ
  pub coverage_version : ℕ
  pub required_chunk_count : ℕ

pub data Checkpoint : Type 0 where
  at_start after_prepare after_manifest after_quiescence : Checkpoint
  before_request : List ℕ → Checkpoint
  before_upload after_upload : ℕ → Checkpoint
  after_transfer after_before_commit after_commit : Checkpoint

pub record Lease : Type 0 where
  pub chunks : List PackedGridChunk
  pub wire_bytes : ℕ

pub record ManifestLease : Type 0 where
  pub packed : PackedGridManifest
  pub wire_bytes : ℕ

pub data StageError (E : Type 0) : Type 0 where
  callback : E → StageError E
  coverage_error : CoverageError → StageError E
  chunk_error : PackedGridErrorCode → StageError E
  manifest_mismatch exceeds_ceiling receipt_mismatch stale_receipt : StageError E

pub data StageAction : Type 0 where
  acquired_manifest released_manifest began : StageAction
  transferred : List (Action (List ℕ) Lease) → StageAction
  committed rolled_back_staging rolled_back_mutation : StageAction

-- A call that may throw, with the actions that took place.
abbrev pub Staged : Type 0 → Type 0 → Type 0
Staged E A = Result (StageError E) A × List StageAction

abbrev pub and_then : {E A B : Type 0} → Staged E A → (A → Staged E B) → Staged E B
and_then (ok a, actions) f = let (r, more) = f a in (r, actions ++ more)
and_then (err e, actions) f = (err e, actions)

-- A callback that nothing is recorded of.
abbrev pub asks : {E A : Type 0} → Result E A → Staged E A
asks (ok a) = (ok a, [])
asks (err e) = (err (callback e), [])

-- A callback that, if it returns, has taken place.
abbrev pub does : {E A : Type 0} → StageAction → Result E A → Staged E A
does action (ok a) = (ok a, action ∷ [])
does action (err e) = (err (callback e), [])

-- `if (!test) throw error`.
abbrev pub expects : {E : Type 0} → Bool → StageError E → Staged E (Unit {0})
expects true e = (ok tt, [])
expects false e = (err e, [])

-- `try { body } finally { release }`, where a failing release has the last word.
abbrev pub and_finally :
    {E : Type 0} → Staged E (Unit {0}) → StageAction → Result E (Unit {0}) → Staged E (Unit {0})
and_finally (r, actions) action (ok u) = (r, actions ++ action ∷ [])
and_finally (r, actions) action (err e) = (err (callback e), actions ++ action ∷ [])

abbrev pub as_coverage : {E A : Type 0} → Result CoverageError A → Staged E A
as_coverage (ok a) = (ok a, [])
as_coverage (err e) = (err (coverage_error e), [])

abbrev pub as_callback : {E A : Type 0} → Result E A → Result (StageError E) A
as_callback (ok a) = ok a
as_callback (err e) = err (callback e)

abbrev pub as_chunk : {E A : Type 0} → Result PackedGridErrorCode A → Result (StageError E) A
as_chunk (ok a) = ok a
as_chunk (err e) = err (chunk_error e)

-- GRID_TRANSFER_BATCH_SIZE indices at a time; `rounds` is at least the number of the indices.
unfoldable pub batches : ℕ → List ℕ → List (List ℕ)
batches zero indices = []
batches (suc rounds) [] = []
batches (suc rounds) (i ∷ indices) = take 16 (i ∷ indices) ∷ batches rounds (drop 16 (i ∷ indices))

abbrev pub singles : List ℕ → List (List ℕ)
singles [] = []
singles (i ∷ indices) = (i ∷ []) ∷ singles indices

unfoldable pub projected_gpu_bytes : List PackedGridChunkDescriptor → ℕ
projected_gpu_bytes [] = 0
projected_gpu_bytes (d ∷ ds) = d.halo_width * d.halo_height * 2 + projected_gpu_bytes ds

abbrev pub gpu_hard_ceiling : ℕ
gpu_hard_ceiling = 268_435_456
