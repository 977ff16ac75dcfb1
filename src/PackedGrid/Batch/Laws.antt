-- ===== src/PackedGrid/Batch/Laws.antt =====
-- src/packed-grid/chunkBatch.ts: a batch that the parser accepts is made of the chunks that were asked for.
use mistr.Prelude.{
  ltb, ◌==◌, require, throw_if, bind_ok, ok-injective, Result, ok, length, All, ℕ, ◌+◌, ◌≤◌, ◌≡◌,
  refl, subst, not, ◌&&◌, ◌||◌, Option, none, some, List, [], ◌∷◌, arith,
}
use mistr.PackedGrid.Bytes.{get_uint32, subarray, PackedGridErrorCode}
use mistr.PackedGrid.Chunk.{PackedGridChunk}
use mistr.PackedGrid.Batch.{
  or_first, read_frame, read_frames, generation_of, read_batch, PackedGridBatch, identity_mismatch,
  grid_transfer_batch_size, same_generation, BatchError, invalid_header, invalid_count,
  trailing_bytes,
}

module _ (parse : List ℕ → Result PackedGridErrorCode PackedGridChunk) where
  -- From `offset` to `end`, the buffer holds frames behind one another, one for each index in order, each with a
  -- chunk of that index, which `parse` reads off the bytes of the frame.
  abbrev pub Framed : List ℕ → ℕ → List ℕ → List PackedGridChunk → ℕ → Type 0
  Framed bytes offset [] [] end = offset ≡ end
  Framed bytes offset (index ∷ indices) (chunk ∷ chunks) end =
      let next = offset + 4 + get_uint32 bytes offset in
      (parse (subarray bytes (offset + 4) next) ≡ ok chunk)
      × (chunk.descriptor.geometry.index ≡ index)
      × (next ≤ length bytes)
      × Framed bytes next indices chunks end
  Framed bytes offset _ _ end = ⊥

  read_frame_ok :
      (bytes : List ℕ) (offset : ℕ) (chunk : PackedGridChunk)
      → read_frame parse bytes offset ≡ ok chunk
      → (parse (subarray bytes (offset + 4) (offset + 4 + get_uint32 bytes offset)) ≡ ok chunk)
        × (offset + 4 + get_uint32 bytes offset ≤ length bytes)
  unfolding read_frame
  read_frame_ok bytes offset chunk h = ground arith

  -- The frames, with all generations that of the first chunk.
  abbrev pub Read : List ℕ → ℕ → List ℕ → Option ℕ → List PackedGridChunk × ℕ → Type 0
  Read bytes offset indices first (chunks, end) =
      Framed bytes offset indices chunks end
      × All (λ c. c.generation ≡ or_first first (generation_of parse chunks)) chunks

  fits_ok :
      (index : ℕ) (first : Option ℕ) (chunk : PackedGridChunk)
      → require {E = BatchError}
          (chunk.descriptor.geometry.index == index && same_generation first chunk.generation)
          identity_mismatch
        ≡ ok tt
      → (chunk.descriptor.geometry.index ≡ index)
        × (chunk.generation ≡ or_first first chunk.generation)
  fits_ok index none chunk h = ground arith
  fits_ok index (some g) chunk h = ground arith

  read_frames-Read :
      (bytes indices : List ℕ) (offset : ℕ) (first : Option ℕ) (r : List PackedGridChunk × ℕ)
      → read_frames parse bytes indices offset first ≡ ok r
      → Read bytes offset indices first r
  unfolding read_frames
  read_frames-Read bytes [] offset first r h =
      subst (Read bytes offset [] first) (ok-injective h) (refl, tt)
  read_frames-Read bytes (index ∷ indices) offset first r h =
      let next = offset + 4 + get_uint32 bytes offset in
      let (chunk, e, h1) = bind_ok (read_frame parse bytes offset) _ h in
      let g = or_first first chunk.generation in
      let (_, fits, h2) =
        bind_ok
          (require
            (chunk.descriptor.geometry.index == index && same_generation first chunk.generation)
            identity_mismatch)
          _ h1 in
      let (rest, e2, h3) = bind_ok (read_frames parse bytes indices next (some g)) _ h2 in
      let (read, inside) = read_frame_ok bytes offset chunk e in
      let (indexed, generated) = fits_ok index first chunk fits in
      let (framed, same) = read_frames-Read bytes indices next (some g) rest e2 in
      subst (Read bytes offset (index ∷ indices) first) {x = (chunk ∷ rest.0, rest.1)}
        (ok-injective h3) ((read, indexed, inside, framed), (generated, same))

  -- Whatever the chunk parser, `parsePackedGridChunk` among them: a batch that is accepted holds 1 to 16
  -- chunks, one for each index that was asked for, in order; each is what the parser reads off its frame; the
  -- frames follow one another from behind the header to the end of the buffer; and all chunks have the batch's
  -- generation.
  pub read_batch-Framed :
      (bytes indices : List ℕ) (b : PackedGridBatch)
      → read_batch parse bytes indices ≡ ok b
      → Framed bytes 8 indices b.chunks (length bytes)
        × All (λ c. c.generation ≡ b.generation) b.chunks
        × (1 ≤ length indices)
        × (length indices ≤ 16)
  unfolding read_batch
  read_batch-Framed bytes indices b h =
      let (_, _, h1) =
        bind_ok
          (throw_if (ltb (length bytes) 8 || not (get_uint32 bytes 0 == 0x4d47_4231))
            invalid_header)
          _ h in
      let (_, counted, h2) =
        bind_ok
          (throw_if
            (ltb (get_uint32 bytes 4) 1
              || ltb grid_transfer_batch_size (get_uint32 bytes 4)
              || not (get_uint32 bytes 4 == length indices))
            invalid_count)
          _ h1 in
      let ((chunks, end), e, h3) = bind_ok (read_frames parse bytes indices 8 none) _ h2 in
      let (_, whole, h4) = bind_ok (require (end == length bytes) trailing_bytes) _ h3 in
      let (framed, same) = read_frames-Read bytes indices 8 none (chunks, end) e in
      let ends : end ≡ length bytes = ground arith in
      subst
        (λ (b : PackedGridBatch).
          Framed bytes 8 indices b.chunks (length bytes)
          × All (λ c. c.generation ≡ b.generation) b.chunks
          × (1 ≤ length indices)
          × (length indices ≤ 16))
        (ok-injective h4)
        (subst (Framed bytes 8 indices chunks) ends framed, same, ground arith, ground arith)
