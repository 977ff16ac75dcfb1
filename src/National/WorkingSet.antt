-- ===== src/National/WorkingSet.antt =====
-- src/national-radar/NationalHistoryWorkingSetController.ts: how an observation of the history is staged on the
-- renderer. The client, the renderer and the session are callbacks, whose answers are arguments. The ownership
-- check is asked at each checkpoint of the code, once.
pub mod Laws
pub mod Requests
pub mod Uploads
pub mod Presents
mod Tests
use mistr.Prelude.{
  leb, ◌==◌, if◌then◌else◌, ◌>>=◌, ◌>>◌, require, increment, Result, ok, err, length, ℕ, Bool, true,
  false, ◌&&◌, Option, none, some, List, [], ◌∷◌, ◌++◌,
}
use mistr.PackedGrid.Descriptor.{PackedGridChunkDescriptor}
use mistr.Transfer.Pipeline.{consume_pipelined_leases}
use mistr.National.Coverage.{
  indices_of, complete_domain_coverage, viewport_coverage, assert_coverage_matches_manifest,
  Doubles, CoverageError, GeographicBounds, NationalViewportCoverage,
}
use mistr.National.Staging.{
  Staged, and_then, asks, does, expects, and_finally, as_coverage, as_callback, as_chunk, batches,
  singles, projected_gpu_bytes, gpu_hard_ceiling, NationalHistoryObservation, NationalPaintReceipt,
  Checkpoint, Lease, ManifestLease, StageError, StageAction, at_start, after_prepare,
  after_manifest, after_quiescence, before_request, before_upload, after_upload, after_transfer,
  after_before_commit, after_commit, manifest_mismatch, exceeds_ceiling, receipt_mismatch,
  stale_receipt, acquired_manifest, released_manifest, began, transferred, committed,
  rolled_back_staging, rolled_back_mutation,
}
use mistr.PackedGrid.Manifest.{PackedGridManifest}
use mistr.PackedGrid.Match.{assert_chunk_matches_manifest}
use mistr.PackedGrid.Chunk.{PackedGridChunk}
use mistr.PackedGrid.Bytes.{equal_bytes}

module _ (doubles : Doubles) where
  -- The method that was called: `stageInitialOverview`, `stageHistoryOverview`, `stageSelectedDetail` of a view
  -- or of the complete domain, and `prefetchDetail`; the detail has its presentation factor.
  pub data Mutation : Type 0 where
    initial_overview history_overview : Mutation
    selected_detail : Option (GeographicBounds doubles) → ℕ → Mutation
    prefetch_detail : GeographicBounds doubles → ℕ → Mutation

  unfoldable pub presentation_factor : Mutation → ℕ
  presentation_factor initial_overview = 1
  presentation_factor history_overview = 1
  presentation_factor (selected_detail bounds factor) = factor
  presentation_factor (prefetch_detail bounds factor) = factor

  unfoldable pub coverage_for_manifest :
      Mutation → PackedGridManifest → ℕ → Result CoverageError (NationalViewportCoverage doubles)
  coverage_for_manifest (selected_detail (some bounds) factor) manifest version =
      viewport_coverage doubles manifest bounds version
  coverage_for_manifest (prefetch_detail bounds factor) manifest version =
      viewport_coverage doubles manifest bounds version
  coverage_for_manifest _ manifest version = complete_domain_coverage doubles manifest version

  unfoldable pub receipt_must_match_staged : Mutation → Bool
  receipt_must_match_staged initial_overview = true
  receipt_must_match_staged (selected_detail bounds factor) = true
  receipt_must_match_staged _ = false

  unfoldable pub defer_external_commit : Mutation → Bool
  defer_external_commit initial_overview = true
  defer_external_commit history_overview = true
  defer_external_commit _ = false

  -- What a method is given and what the client, the renderer and the session answer; a client without
  -- batches answers with one chunk. `to_number` is the platform's conversion of a bigint.
  pub record StageOptions (E : Type 0) : Type 0 where
    pub observation : NationalHistoryObservation
    pub mutation : Mutation
    pub to_number : ℕ → ℕ
    pub ownership_check : Checkpoint → Result E (Unit {0})
    pub prepare_presentation : Result E (Unit {0})
    pub request_manifest : Result E ManifestLease
    pub release_manifest : Result E (Unit {0})
    pub wait_for_paint_quiescence : Result E (Unit {0})
    pub begin_staging : PackedGridManifest → NationalViewportCoverage doubles → Result E (Unit {0})
    pub has_batches : Bool
    pub request_chunks : List ℕ → Result E Lease
    pub release_chunks : Lease → Result E (Unit {0})
    pub upload_staged_chunk : PackedGridChunk → Result E (Unit {0})
    pub before_commit : Result E (Unit {0})
    pub commit : Result E (Option NationalPaintReceipt)

  pub record WorkingSetResult : Type 0 where
    pub manifest : PackedGridManifest
    pub coverage : NationalViewportCoverage doubles
    pub receipt : Option NationalPaintReceipt
    pub chunk_count : ℕ
    pub projected : ℕ

  module _ {E : Type 0} (o : StageOptions E) where
    -- The condition of `assertManifestIdentity`, negated.
    unfoldable pub is_observed : PackedGridManifest → Bool
    is_observed manifest =
        o.to_number manifest.generation == o.observation.generation
        && o.to_number manifest.observation_time_unix_ms == o.observation.observation_time_unix_ms
        && equal_bytes manifest.content_sha256 o.observation.content_sha256
        && equal_bytes manifest.object_key o.observation.object_key
        && manifest.presentation_factor == presentation_factor o.mutation

    -- The condition of `assertReceipt`, negated.
    unfoldable pub is_receipt_of :
        PackedGridManifest → NationalViewportCoverage doubles → ℕ → NationalPaintReceipt → Bool
    is_receipt_of manifest coverage count receipt =
        receipt.generation == o.to_number manifest.generation
        && receipt.observation_time_unix_ms == o.to_number manifest.observation_time_unix_ms
        && equal_bytes receipt.content_sha256 manifest.content_sha256
        && receipt.presentation_factor == manifest.presentation_factor
        && receipt.coverage_version == coverage.version
        && receipt.required_chunk_count == count

    -- The function `upload` of the code, over the chunks of a lease.
    unfoldable pub upload_chunks :
        PackedGridManifest → List PackedGridChunk → Result (StageError E) (Unit {0})
    upload_chunks manifest [] = ok tt
    upload_chunks manifest (chunk ∷ chunks) = do
      as_chunk (assert_chunk_matches_manifest manifest chunk)
      as_callback (o.ownership_check (before_upload chunk.descriptor.index))
      as_callback (o.upload_staged_chunk chunk)
      as_callback (o.ownership_check (after_upload chunk.descriptor.index))
      upload_chunks manifest chunks

    unfoldable pub request_item : List ℕ → Result (StageError E) Lease
    request_item indices = do
      as_callback (o.ownership_check (before_request indices))
      as_callback (o.request_chunks indices)

    abbrev pub items_of : List PackedGridChunkDescriptor → List (List ℕ)
    items_of descriptors =
        let indices = indices_of descriptors in
        if o.has_batches then batches (length indices) indices else singles indices

    -- `consumePipelinedLeases` over the chunks that the coverage needs.
    unfoldable pub transfer :
        PackedGridManifest → List PackedGridChunkDescriptor → Staged E (Unit {0})
    unfolding request_item upload_chunks
    transfer manifest descriptors =
        let (r, actions) =
          consume_pipelined_leases request_item (λ lease. upload_chunks manifest lease.chunks)
            (λ lease. as_callback (o.release_chunks lease)) (items_of descriptors) in
        (r, transferred actions ∷ [])

    -- The manifest, whose lease is released whatever the checks say.
    unfoldable pub fetch_manifest : Staged E PackedGridManifest
    unfolding is_observed
    fetch_manifest = and_then (does acquired_manifest o.request_manifest) (λ lease.
        and_then
          (and_finally
            (and_then (expects (is_observed lease.packed) manifest_mismatch)
              (λ _. asks (o.ownership_check after_manifest)))
            released_manifest o.release_manifest)
          (λ _. (ok lease.packed, [])))

    abbrev pub StagePlan : Type 0
    StagePlan =
        PackedGridManifest × NationalViewportCoverage doubles × List PackedGridChunkDescriptor

    -- Up to the release of the manifest's lease.
    unfoldable pub fetch : Staged E PackedGridManifest
    unfolding fetch_manifest presentation_factor
    fetch = and_then (asks (o.ownership_check at_start)) (λ _.
        and_then
          (if presentation_factor o.mutation == 2
            then and_then (asks o.prepare_presentation)
                (λ _. asks (o.ownership_check after_prepare))
            else (ok tt, []))
          (λ _. fetch_manifest))

    -- From there to `beginStaging`, with the version that the coverage gets.
    unfoldable pub plan : ℕ → PackedGridManifest → Staged E StagePlan
    unfolding projected_gpu_bytes coverage_for_manifest
    plan version manifest =
        and_then (as_coverage (coverage_for_manifest o.mutation manifest version)) (λ coverage.
          and_then (as_coverage (assert_coverage_matches_manifest doubles manifest coverage)) (λ ds.
            and_then (expects (leb (projected_gpu_bytes ds) gpu_hard_ceiling) exceeds_ceiling) (λ _.
              and_then (asks o.wait_for_paint_quiescence) (λ _.
                and_then (asks (o.ownership_check after_quiescence)) (λ _.
                  and_then (does began (o.begin_staging manifest coverage))
                    (λ _. (ok (manifest, coverage, ds), [])))))))

    -- The `try` block up to the commit.
    unfoldable pub present : StagePlan → Staged E (Option NationalPaintReceipt)
    unfolding transfer
    present (manifest, coverage, ds) = and_then (transfer manifest ds) (λ _.
        and_then (asks (o.ownership_check after_transfer)) (λ _.
          and_then (asks o.before_commit) (λ _.
            and_then (asks (o.ownership_check after_before_commit))
              (λ _. does committed o.commit))))

    -- The tests of the receipt that the commit gave.
    unfoldable pub accept_receipt :
        StagePlan → Option NationalPaintReceipt → Result (StageError E) (Unit {0})
    unfolding is_receipt_of
    accept_receipt (manifest, coverage, ds) none = as_callback (o.ownership_check after_commit)
    accept_receipt (manifest, coverage, ds) (some receipt) = do
      as_callback (o.ownership_check after_commit)
      if receipt_must_match_staged o.mutation
          then require (is_receipt_of manifest coverage (length ds) receipt) receipt_mismatch
          else require (receipt.generation == o.observation.generation) stale_receipt

    -- The `catch` block: a receipt whose commit was deferred takes the mutation back, whatever that call does.
    unfoldable pub rollback : Option NationalPaintReceipt → StageAction
    rollback none = rolled_back_staging
    rollback (some receipt) =
        if defer_external_commit o.mutation then rolled_back_mutation else rolled_back_staging

    unfoldable pub conclude : StagePlan → Staged E WorkingSetResult
    unfolding present accept_receipt rollback projected_gpu_bytes
    conclude (manifest, coverage, ds) =
        let (r, actions) = present (manifest, coverage, ds) in
        elim r [
          | err e ↦ (err e, actions ++ rolled_back_staging ∷ [])
          | ok receipt ↦ elim (accept_receipt (manifest, coverage, ds) receipt) [
            | err e ↦ (err e, actions ++ rollback receipt ∷ [])
            | ok _ ↦ (
              ok (record {
                manifest = manifest;
                coverage = coverage;
                receipt = receipt;
                chunk_count = length ds;
                projected = projected_gpu_bytes ds;
              }),
              actions,
            )
          ]
        ]

    unfoldable pub stage : ℕ → Staged E WorkingSetResult
    unfolding fetch plan conclude
    stage version = and_then fetch (λ manifest. and_then (plan version manifest) conclude)

-- The controller: the version of its last coverage, and whether an operation runs.
pub record NationalHistoryWorkingSetController : Type 0 where
  pub coverage_version : ℕ
  pub operation : Bool

pub data RunError (E : Type 0) : Type 0 where
  busy : RunError E
  staged_error : StageError E → RunError E

abbrev pub is_ok : {X A : Type 0} → Result X A → Bool
is_ok (ok a) = true
is_ok (err e) = false

abbrev pub as_run : {E A : Type 0} → Result (StageError E) A → Result (RunError E) A
as_run (ok a) = ok a
as_run (err e) = err (staged_error e)

module _ (doubles : Doubles) {E : Type 0} where
  -- A method is called: what it comes to, what took place, and the controller while the operation runs.
  unfoldable pub run :
      NationalHistoryWorkingSetController
      → StageOptions doubles E
      → Result (RunError E) (WorkingSetResult doubles)
        × List StageAction
        × NationalHistoryWorkingSetController
  unfolding stage fetch
  run c o =
      let version = increment c.coverage_version in
      let (r, actions) = stage doubles o version in
      if c.operation then (err busy, [], c) else (
        as_run r,
        actions,
        record {
          coverage_version = if is_ok (fetch doubles o).0 then version else c.coverage_version;
          operation = true;
        },
      )

-- The callback of `operation.finally`.
unfoldable pub settle_operation :
    NationalHistoryWorkingSetController → NationalHistoryWorkingSetController
settle_operation c = record c { operation = false }
