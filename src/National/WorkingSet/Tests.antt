-- ===== src/National/WorkingSet/Tests.antt =====
-- The first observation of a history, of two chunks: the theorems on
-- src/national-radar/NationalHistoryWorkingSetController.ts applied to it. Errors are numbers.
use mistr.Prelude.{
  ◌==◌, if◌then◌else◌, ok-injective, ok, err, ℕ, ◌≡◌, refl, ap, subst, Bool, true, false, none,
  some, List, [], ◌∷◌, map,
}
use mistr.PackedGrid.Tests.{manifest_here, chunk_here, zero_digest}
use mistr.PackedGrid.Chunk.{PackedGridChunk}
use mistr.National.Coverage.{
  domain_bounds, complete_domain, assert_coverage_version, are_bounds, complete_domain_coverage,
  assert_coverage_matches_manifest,
}
use mistr.National.Coverage.Tests.{halves}
use mistr.National.Staging.{NationalPaintReceipt, Checkpoint, after_commit, batches, Lease}
use mistr.National.WorkingSet.{
  stage, StageOptions, WorkingSetResult, selected_detail, receipt_must_match_staged,
}
use mistr.National.WorkingSet.Laws.{Settles, stage-Settles}
use mistr.National.WorkingSet.Uploads.{AnswersRequests}
use mistr.National.WorkingSet.Presents.{stage-IsPresented, IsPresented}
use mistr.PackedGrid.Descriptor.{expected_geometry, same_geometry}
use mistr.PackedGrid.Match.{same_descriptor, assert_chunk_matches_manifest}
use mistr.PackedGrid.Bytes.{equal_bytes}
use mistr.Transfer.Pipeline.{consume_pipelined_leases}
use mistr.National.WorkingSet.Requests.{chunk_indices}

abbrev staged_chunk : ℕ → PackedGridChunk
staged_chunk index = record {
  generation = 7;
  observation_time_unix_ms = 20_250_102_030_405;
  content_sha256 = zero_digest;
  width = 438;
  height = 219;
  presentation_factor = 16;
  descriptor = chunk_here index (if index == 0 then 112_742 else 80_330);
  raw_codes = [];
}

abbrev paint_receipt : NationalPaintReceipt
paint_receipt = record {
  generation = 7;
  observation_time_unix_ms = 20_250_102_030_405;
  content_sha256 = zero_digest;
  presentation_factor = 16;
  coverage_version = 3;
  required_chunk_count = 2;
}

-- The session is lost at the checkpoint `lost_at`, if any.
abbrev two_chunks : (Checkpoint → Bool) → StageOptions halves ℕ
two_chunks lost_at = record {
  observation = record {
    generation = 7;
    object_key = manifest_here.object_key;
    observation_time_unix_ms = 20_250_102_030_405;
    content_sha256 = zero_digest;
  };
  mutation = selected_detail none 16;
  to_number = λ n. n;
  ownership_check = λ c. if lost_at c then err 1 else ok tt;
  prepare_presentation = ok tt;
  request_manifest = ok (record { packed = manifest_here; wire_bytes = 504 });
  release_manifest = ok tt;
  wait_for_paint_quiescence = ok tt;
  begin_staging = λ m c. ok tt;
  has_batches = true;
  request_chunks = λ indices. ok (record { chunks = map staged_chunk indices; wire_bytes = 9 });
  release_chunks = λ lease. ok tt;
  upload_staged_chunk = λ chunk. ok tt;
  before_commit = ok tt;
  commit = ok (some paint_receipt);
}

abbrev never : Checkpoint → Bool
never c = false

abbrev is_after_commit : Checkpoint → Bool
is_after_commit after_commit = true
is_after_commit _ = false

abbrev two_chunks_result : WorkingSetResult halves
two_chunks_result = record {
  manifest = manifest_here;
  coverage = record {
    bounds = domain_bounds halves manifest_here;
    version = 3;
    kind = complete_domain;
    required_chunk_indices = 0 ∷ 1 ∷ [];
  };
  receipt = some paint_receipt;
  chunk_count = 2;
  projected = 192_720;
}

two_chunks_staged : (stage halves (two_chunks never) 3).0 ≡ ok two_chunks_result
unfolding stage equal_bytes complete_domain_coverage assert_coverage_version
    assert_coverage_matches_manifest are_bounds domain_bounds expected_geometry
    consume_pipelined_leases batches assert_chunk_matches_manifest same_descriptor same_geometry
    receipt_must_match_staged
two_chunks_staged = refl

staged_indices : (indices : List ℕ) → chunk_indices (map staged_chunk indices) ≡ indices
unfolding expected_geometry
staged_indices [] = refl
staged_indices (i ∷ indices) = ap (λ xs. i ∷ xs) (staged_indices indices)

two_chunks_answer : AnswersRequests halves (two_chunks never)
two_chunks_answer indices lease h =
    subst (λ (l : Lease). chunk_indices l.chunks ≡ indices) (ok-injective h)
      (staged_indices indices)

stage-IsPresented_example : IsPresented halves (two_chunks never) 3 two_chunks_result
stage-IsPresented_example =
    stage-IsPresented halves (two_chunks never) 3 two_chunks_result two_chunks_answer
      two_chunks_staged

-- The session is lost behind the commit.
stage-Settles_example :
    Settles halves (two_chunks is_after_commit) (stage halves (two_chunks is_after_commit) 3)
stage-Settles_example = stage-Settles halves (two_chunks is_after_commit) 3
