-- ===== src/National/WorkingSet/Uploads.antt =====
-- src/national-radar/NationalHistoryWorkingSetController.ts: the chunks that an operation uploads.
use mistr.Prelude.{
  Bool-cases, ok, length, All, All-append, ℕ, ◌≡◌, refl, ap, ◌∙◌, inl, inr, List, [], ◌∷◌, ◌++◌,
  arith,
}
use mistr.National.WorkingSet.{upload_chunks, items_of, StageOptions}
use mistr.National.Staging.{Lease}
use mistr.National.Coverage.{indices_of, Doubles}
use mistr.National.WorkingSet.Requests.{
  flatten, chunk_indices, chunk_indices-append, flatten-batches, flatten-singles,
}
use mistr.PackedGrid.Descriptor.{PackedGridChunkDescriptor}
use mistr.PackedGrid.Match.{assert_chunk_matches_manifest}
use mistr.PackedGrid.Manifest.{PackedGridManifest}
use mistr.PackedGrid.Chunk.{PackedGridChunk}

module _ (doubles : Doubles) {E : Type 0} (o : StageOptions doubles E) where
  abbrev pub AllMatch : PackedGridManifest → List PackedGridChunk → Type 0
  AllMatch manifest chunks =
      All
        (λ chunk.
          (assert_chunk_matches_manifest manifest chunk ≡ ok tt)
          × (o.upload_staged_chunk chunk ≡ ok tt))
        chunks

  pub upload_chunks-AllMatch :
      (manifest : PackedGridManifest) (chunks : List PackedGridChunk)
      → upload_chunks doubles o manifest chunks ≡ ok tt
      → AllMatch manifest chunks
  unfolding upload_chunks
  upload_chunks-AllMatch manifest [] h = tt
  upload_chunks-AllMatch manifest (chunk ∷ chunks) h =
      ground (arith, h, upload_chunks-AllMatch manifest chunks)

  -- The chunks of these indices came, match the manifest and were uploaded, and their lease is released.
  abbrev pub IsTransferred : PackedGridManifest → List ℕ → Type 0
  IsTransferred manifest indices =
      (lease : Lease) × (o.request_chunks indices ≡ ok lease)
      × AllMatch manifest lease.chunks
      × (o.release_chunks lease ≡ ok tt)

  -- What the client answers a request with: the chunks of these indices, in order. Of a batch
  -- `parseGridChunkBatch` sees to it; of a single chunk it is what the command that is invoked is for.
  abbrev pub AnswersRequests : Type 0
  AnswersRequests =
      (indices : List ℕ) (lease : Lease)
      → o.request_chunks indices ≡ ok lease
      → chunk_indices lease.chunks ≡ indices

  -- There are chunks with these indices, in order, that match the manifest and were uploaded.
  abbrev pub AreUploaded : PackedGridManifest → List ℕ → Type 0
  AreUploaded manifest indices =
      (chunks : List PackedGridChunk) × (chunk_indices chunks ≡ indices) × AllMatch manifest chunks

  pub transferred-AreUploaded :
      (manifest : PackedGridManifest) (items : List (List ℕ))
      → AnswersRequests
      → All (λ indices. IsTransferred manifest indices) items
      → AreUploaded manifest (flatten items)
  transferred-AreUploaded manifest [] answers h = ([], refl, tt)
  transferred-AreUploaded manifest (indices ∷ items) answers ((lease, got, fit, freed), h) =
      let (chunks, indexed, rest) = transferred-AreUploaded manifest items answers h in
      (
        lease.chunks ++ chunks,
        chunk_indices-append lease.chunks chunks
            ∙ ap (λ xs. xs ++ chunk_indices chunks) (answers indices lease got)
            ∙ ap (λ xs. indices ++ xs) indexed,
        All-append _ lease.chunks chunks fit rest,
      )

  pub flatten-items_of :
      (ds : List PackedGridChunkDescriptor) → flatten (items_of doubles o ds) ≡ indices_of ds
  flatten-items_of ds = elim (Bool-cases o.has_batches) [
    | inl b ↦ rw b (flatten-batches (length (indices_of ds)) (indices_of ds) (omega arith))
    | inr b ↦ rw b (flatten-singles (indices_of ds))
  ]
