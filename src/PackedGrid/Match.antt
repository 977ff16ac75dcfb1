-- ===== src/PackedGrid/Match.antt =====
-- src/packed-grid/packedGrid.ts: `assertChunkMatchesManifest`.
use mistr.Prelude.{
  ◌==◌, Option-cases, require, Result, ok, err, length, get_elem?, ℕ, zero, suc, ◌<◌, ◌≡◌, ap, ◌∙◌,
  inl, inr, Bool, true, false, not, ◌&&◌, Option, none, some, List, [], ◌∷◌, arith,
}
use mistr.PackedGrid.Bytes.{equal_bytes, PackedGridErrorCode, invalid_chunk_bounds}
use mistr.PackedGrid.Descriptor.{expected_geometry, same_geometry, PackedGridChunkDescriptor}
use mistr.PackedGrid.Chunk.{PackedGridChunk}
use mistr.PackedGrid.Manifest.{PackedGridManifest}
use mistr.PackedGrid.Descriptor.Valid.{same_geometry→eq}
use mistr.PackedGrid.Manifest.Laws.{chunk_at, IsManifest}

abbrev pub same_flag : Bool → Bool → Bool
same_flag true b = b
same_flag false b = not b

-- `JSON.stringify(left) === JSON.stringify(right)`: the fields agree.
unfoldable pub same_descriptor : PackedGridChunkDescriptor → PackedGridChunkDescriptor → Bool
same_descriptor left right =
    same_geometry left.geometry right.geometry
    && left.encoded_length == right.encoded_length
    && equal_bytes left.payload_sha256 right.payload_sha256
    && same_flag left.draws_nothing right.draws_nothing

unfoldable pub assert_chunk_matches_manifest :
    PackedGridManifest → PackedGridChunk → Result PackedGridErrorCode (Unit {0})
assert_chunk_matches_manifest manifest chunk =
    elim (get_elem? manifest.chunks chunk.descriptor.geometry.index) [
      | none ↦ err invalid_chunk_bounds
      | some expected ↦
          require
            (chunk.generation == manifest.generation
              && chunk.observation_time_unix_ms == manifest.observation_time_unix_ms
              && equal_bytes chunk.content_sha256 manifest.content_sha256
              && chunk.width == manifest.width
              && chunk.height == manifest.height
              && chunk.presentation_factor == manifest.presentation_factor
              && same_descriptor chunk.descriptor expected)
            invalid_chunk_bounds
    ]

-- The chunk belongs to the manifest: it is of the same grid and observation, and it is the chunk of its index
-- there, placed where the grid's tiling has it.
pub record BelongsTo (manifest : PackedGridManifest) (chunk : PackedGridChunk) : Type 0 where
  pub generation : chunk.generation ≡ manifest.generation
  pub time : chunk.observation_time_unix_ms ≡ manifest.observation_time_unix_ms
  pub width : chunk.width ≡ manifest.width
  pub height : chunk.height ≡ manifest.height
  pub factor : chunk.presentation_factor ≡ manifest.presentation_factor
  pub counted : chunk.descriptor.geometry.index < length manifest.chunks
  pub placed :
      chunk.descriptor.geometry
      ≡ expected_geometry chunk.descriptor.geometry.index manifest.width manifest.height

get_elem?-lt :
    (ds : List PackedGridChunkDescriptor) (k : ℕ) (d : PackedGridChunkDescriptor)
    → get_elem? ds k ≡ some d
    → k < length ds
get_elem?-lt [] k d h = ground arith
get_elem?-lt (x ∷ ds) zero d h = omega arith
get_elem?-lt (x ∷ ds) (suc k) d h = omega (arith, get_elem?-lt ds k d h)

matched :
    (m : PackedGridManifest) (c : PackedGridChunk) (d : PackedGridChunkDescriptor)
    → get_elem? m.chunks c.descriptor.geometry.index ≡ some d
    → assert_chunk_matches_manifest m c ≡ ok tt
    → (c.generation ≡ m.generation)
      × (c.observation_time_unix_ms ≡ m.observation_time_unix_ms)
      × (c.width ≡ m.width)
      × (c.height ≡ m.height)
      × (c.presentation_factor ≡ m.presentation_factor)
      × (same_geometry c.descriptor.geometry d.geometry ≡ true)
unfolding assert_chunk_matches_manifest same_descriptor
matched m c d found e = ground arith

-- A chunk that `assertChunkMatchesManifest` lets pass, for a manifest with what the parser promises of those
-- that it accepts, belongs to it: same generation, time, grid and level, an index among its chunks, and the
-- place that the grid's tiling gives that index.
pub assert_chunk_matches_manifest-BelongsTo :
    (object_time : List ℕ → Option ℕ) (m : PackedGridManifest) (c : PackedGridChunk)
    → IsManifest object_time m
    → assert_chunk_matches_manifest m c ≡ ok tt
    → BelongsTo m c
unfolding assert_chunk_matches_manifest
assert_chunk_matches_manifest-BelongsTo object_time m c h e =
    elim (Option-cases (get_elem? m.chunks c.descriptor.geometry.index)) [
      | inl missing ↦ ground arith
      | inr (d, found) ↦
          let index = c.descriptor.geometry.index in
          let inside = get_elem?-lt m.chunks index d found in
          let (d', found', placed) = chunk_at object_time m index h inside in
          let q = matched m c d found e in
          let same : d ≡ d' = cc in
          record {
            generation = q.0;
            time = q.1;
            width = q.2;
            height = q.3;
            factor = q.4;
            counted = inside;
            placed =
                same_geometry→eq c.descriptor.geometry d.geometry q.5
                ∙ ap (λ (x : PackedGridChunkDescriptor). x.geometry) same
                ∙ placed;
          }
    ]
