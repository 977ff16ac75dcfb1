-- ===== src/National/WorkingSet/Presents.antt =====
-- src/national-radar/NationalHistoryWorkingSetController.ts: what an operation that returned has put on the renderer.
use mistr.Prelude.{
  Result, ok, err, length, All, All-map, ℕ, ◌≤◌, ◌≡◌, refl, sym, ◌∙◌, subst, Bool, true, false,
  Option, List, arith,
}
use mistr.PackedGrid.Descriptor.{PackedGridChunkDescriptor}
use mistr.National.Coverage.{
  assert_coverage_matches_manifest, Doubles, CoverageError, NationalViewportCoverage, indices_of,
}
use mistr.National.Staging.{
  Staged, and_then, asks, does, expects, as_coverage, as_callback, projected_gpu_bytes, Lease,
  StageError, StageAction, NationalPaintReceipt, after_transfer, after_before_commit, committed,
}
use mistr.National.WorkingSet.Uploads.{
  upload_chunks-AllMatch, IsTransferred, AnswersRequests, AreUploaded, transferred-AreUploaded,
  flatten-items_of,
}
use mistr.National.WorkingSet.{
  coverage_for_manifest, is_observed, upload_chunks, request_item, items_of, transfer,
  fetch_manifest, fetch, accept_receipt, StageOptions, WorkingSetResult, StagePlan, plan, present,
  conclude, stage,
}
use mistr.Transfer.Pipeline.Served.{consume_pipelined_leases_serves}
use mistr.PackedGrid.Manifest.{PackedGridManifest}
use mistr.Transfer.Pipeline.Credits.{IsServed}

and_then-ok :
    {E A B : Type 0} (m : Staged E A) (k : A → Staged E B) (b : B)
    → (and_then m k).0 ≡ ok b
    → (a : A) × (m.0 ≡ ok a) × ((k a).0 ≡ ok b)
and_then-ok (ok a, actions) k b h = (a, refl, h)
and_then-ok (err e, actions) k b h = absurd (ground (arith, h))

asks-ok : {E A : Type 0} (r : Result E A) (a : A) → (asks r).0 ≡ ok a → r ≡ ok a
asks-ok (ok x) a h = ground (arith, h)
asks-ok (err e) a h = absurd (ground (arith, h))

does-ok : {E A : Type 0} (x : StageAction) (r : Result E A) (a : A) → (does x r).0 ≡ ok a → r ≡ ok a
does-ok x (ok b) a h = ground (arith, h)
does-ok x (err e) a h = absurd (ground (arith, h))

expects-ok :
    {E : Type 0} (b : Bool) (e : StageError E) (u : Unit {0}) → (expects b e).0 ≡ ok u → b ≡ true
expects-ok true e u h = refl
expects-ok false e u h = absurd (ground (arith, h))

as_coverage-ok :
    {E A : Type 0} (r : Result CoverageError A) (a : A)
    → ◌≡◌ {A = Result (StageError E) A} (as_coverage r).0 (ok a)
    → r ≡ ok a
as_coverage-ok (ok x) a h = ground (arith, h)
as_coverage-ok (err e) a h = absurd (ground (arith, h))

as_callback-ok : {E A : Type 0} (r : Result E A) (a : A) → as_callback r ≡ ok a → r ≡ ok a
as_callback-ok (ok x) a h = ground (arith, h)
as_callback-ok (err e) a h = absurd (ground (arith, h))

module _ (doubles : Doubles) {E : Type 0} (o : StageOptions doubles E) where
  -- What is promised of the result of an operation.
  pub record IsPresented (version : ℕ) (res : WorkingSetResult doubles) : Type 0 where
    pub descriptors : List PackedGridChunkDescriptor
    pub observed : is_observed doubles o res.manifest ≡ true
    pub covers : coverage_for_manifest doubles o.mutation res.manifest version ≡ ok res.coverage
    pub matched :
        assert_coverage_matches_manifest doubles res.manifest res.coverage ≡ ok descriptors
    pub counted : res.chunk_count ≡ length descriptors
    pub bounded : projected_gpu_bytes descriptors ≤ 268_435_456
    pub transferred :
        All
          (λ indices. IsTransferred doubles o res.manifest indices)
          (items_of doubles o descriptors)
    pub uploaded : AreUploaded doubles o res.manifest (indices_of descriptors)
    pub receipted : o.commit ≡ ok res.receipt
    pub accepted :
        accept_receipt doubles o (res.manifest, res.coverage, descriptors) res.receipt ≡ ok tt

  request_item-ok :
      (indices : List ℕ) (lease : Lease)
      → request_item doubles o indices ≡ ok lease
      → o.request_chunks indices ≡ ok lease
  unfolding request_item
  request_item-ok indices lease h = ground (arith, h)

  served-IsTransferred :
      (manifest : PackedGridManifest) (indices : List ℕ)
      → IsServed
          (request_item doubles o)
          (λ lease. upload_chunks doubles o manifest lease.chunks)
          (λ lease. as_callback (o.release_chunks lease))
          indices
      → IsTransferred doubles o manifest indices
  served-IsTransferred manifest indices s = (
    s.lease,
    request_item-ok indices s.lease s.got,
    upload_chunks-AllMatch doubles o manifest s.lease.chunks s.uploaded,
    as_callback-ok (o.release_chunks s.lease) tt s.let_go,
  )

  transfer-IsTransferred :
      (manifest : PackedGridManifest) (ds : List PackedGridChunkDescriptor) (u : Unit {0})
      → (transfer doubles o manifest ds).0 ≡ ok u
      → All (λ indices. IsTransferred doubles o manifest indices) (items_of doubles o ds)
  unfolding transfer
  transfer-IsTransferred manifest ds u h =
      All-map (served-IsTransferred manifest) (items_of doubles o ds) (
        consume_pipelined_leases_serves (request_item doubles o)
          (λ lease. upload_chunks doubles o manifest lease.chunks)
          (λ lease. as_callback (o.release_chunks lease)) (items_of doubles o ds) h)

  fetch-is_observed :
      (manifest : PackedGridManifest)
      → (fetch doubles o).0 ≡ ok manifest
      → is_observed doubles o manifest ≡ true
  unfolding fetch fetch_manifest
  fetch-is_observed manifest h = ground (arith, h)

  present-ok :
      (p : StagePlan doubles o) (receipt : Option NationalPaintReceipt)
      → (present doubles o p).0 ≡ ok receipt
      → ((transfer doubles o p.0 p.2).0 ≡ ok tt) × (o.commit ≡ ok receipt)
  unfolding present
  present-ok (manifest, coverage, ds) receipt h =
      let (u, sent, a) = and_then-ok (transfer doubles o manifest ds) _ receipt h in
      let (v, c, b) = and_then-ok (asks (o.ownership_check after_transfer)) _ receipt a in
      let (w, d, e) = and_then-ok (asks o.before_commit) _ receipt b in
      let (x, f, g) = and_then-ok (asks (o.ownership_check after_before_commit)) _ receipt e in
      (sent, does-ok committed o.commit receipt g)

  conclude-ok :
      (manifest : PackedGridManifest) (coverage : NationalViewportCoverage doubles)
      (ds : List PackedGridChunkDescriptor) (res : WorkingSetResult doubles)
      → (conclude doubles o (manifest, coverage, ds)).0 ≡ ok res
      → (res.manifest ≡ manifest)
        × (res.coverage ≡ coverage)
        × (res.chunk_count ≡ length ds)
        × ((present doubles o (manifest, coverage, ds)).0 ≡ ok res.receipt)
        × (accept_receipt doubles o (manifest, coverage, ds) res.receipt ≡ ok tt)
  unfolding conclude
  conclude-ok manifest coverage ds res h = ground (arith, h)

  plan-ok :
      (version : ℕ) (manifest : PackedGridManifest) (p : StagePlan doubles o)
      → (plan doubles o version manifest).0 ≡ ok p
      → (p.0 ≡ manifest)
        × (coverage_for_manifest doubles o.mutation manifest version ≡ ok p.1)
        × (assert_coverage_matches_manifest doubles manifest p.1 ≡ ok p.2)
        × (projected_gpu_bytes p.2 ≤ 268_435_456)
  unfolding plan
  plan-ok version manifest p h = ground (arith, h)

  -- If the client answers each request with the chunks of the indices that it names, an operation that
  -- returns has presented the observation that it was asked for: the manifest is the observation's, its
  -- coverage is the method's and matches the manifest, within the GPU ceiling; for every chunk that the
  -- coverage calls for, in order, a chunk of its index came, matched the manifest and was uploaded, and the
  -- leases were released; and the commit gave the receipt, which passed the tests of the method.
  pub stage-IsPresented :
      (version : ℕ) (res : WorkingSetResult doubles)
      → AnswersRequests doubles o
      → (stage doubles o version).0 ≡ ok res
      → IsPresented version res
  unfolding stage
  stage-IsPresented version res answers h =
      let (manifest, fetched, a) = and_then-ok (fetch doubles o) _ res h in
      let (p, planned, b) = and_then-ok (plan doubles o version manifest) _ res a in
      let (m, covers, matched, bounded) = plan-ok version manifest p planned in
      let (m', c, counted, presented, accepted) = conclude-ok p.0 p.1 p.2 res b in
      let (sent, receipt) = present-ok p res.receipt presented in
      let same : res.manifest ≡ manifest = m' ∙ m in
      let came = transfer-IsTransferred p.0 p.2 tt sent in
      let uploaded = transferred-AreUploaded doubles o p.0 (items_of doubles o p.2) answers came in
      record {
        descriptors = p.2;
        observed =
            subst (λ x. is_observed doubles o x ≡ true) (sym same)
              (fetch-is_observed manifest fetched);
        covers = rw (same, c) covers;
        matched = rw (same, c) matched;
        counted = counted;
        bounded = bounded;
        transferred = rw m' came;
        uploaded =
            rw m' (subst (AreUploaded doubles o p.0) (flatten-items_of doubles o p.2) uploaded);
        receipted = receipt;
        accepted = rw (m', c) accepted;
      }
