-- ===== src/PackedGrid/Manifest/Laws.antt =====
-- src/packed-grid/packedGrid.ts: what `parsePackedGridManifest` promises of a manifest that it accepts.
use mistr.Prelude.{
  Ensures, ok, length, get_elem?, ℕ, zero, suc, ◌+◌, ◌*◌, ◌<◌, ◌≡◌, refl, sym, ap, ◌∙◌, subst, true,
  Option, some, List, [], ◌∷◌, arith,
}
use mistr.PackedGrid.Descriptor.{
  packed_grid_descriptor_bytes, read_descriptor, PackedGridChunkDescriptor, chunks_across,
  expected_geometry,
}
use mistr.PackedGrid.Descriptor.Valid.{validate_descriptor-IsChunk, IsChunk}
use mistr.PackedGrid.Manifest.{
  read_descriptors, is_grid, is_descriptor_section, ends_at, check_manifest, is_source, read_source,
  parse_packed_grid_manifest, PackedGridManifest,
}
use mistr.PackedGrid.Bytes.{get_uint16, get_uint32, get_uint64}
use mistr.PackedGrid.Descriptor.Tiling.{Owns, owner, chunks_tile}
use mistr.PackedGrid.Header.{assert_common_header, is_level}

-- The descriptors are those of the chunks from `index` on, in order.
abbrev pub AreChunks : ℕ → ℕ → ℕ → List PackedGridChunkDescriptor → Type 0
AreChunks width height index [] = Unit {0}
AreChunks width height index (d ∷ ds) =
    IsChunk d index width height × AreChunks width height (index + 1) ds

read_descriptors-AreChunks :
    (bytes : List ℕ) (offset width height index count : ℕ)
    → Ensures
        (λ ds. (length ds ≡ count) × AreChunks width height index ds)
        (read_descriptors bytes offset width height index count)
unfolding read_descriptors
read_descriptors-AreChunks bytes offset width height index zero = (refl, tt)
read_descriptors-AreChunks bytes offset width height index (suc count) = ground (
  arith,
  read_descriptors-AreChunks bytes offset width height (index + 1) count,
  validate_descriptor-IsChunk
      (read_descriptor bytes (offset + index * packed_grid_descriptor_bytes)) index width height,
)

pub AreChunks-get :
    (width height index k : ℕ) (ds : List PackedGridChunkDescriptor)
    → AreChunks width height index ds
    → k < length ds
    → (d : PackedGridChunkDescriptor) × (get_elem? ds k ≡ some d)
      × IsChunk d (index + k) width height
AreChunks-get width height index k [] h p = absurd (omega arith)
AreChunks-get width height index zero (d ∷ ds) h p =
    let e : index + zero ≡ index = omega arith in (d, refl, rw e h.0)
AreChunks-get width height index (suc k) (d ∷ ds) h p =
    let (c, e, chunk) = AreChunks-get width height (index + 1) k ds h.1 (omega arith) in
    let f : index + suc k ≡ index + 1 + k = omega arith in (c, e, rw f chunk)

-- What the caller of the parser may rely on.
pub record IsManifest (object_time : List ℕ → Option ℕ) (m : PackedGridManifest) : Type 0 where
  pub level : is_level m.presentation_factor m.width m.height ≡ true
  pub stepped : m.level_step_e6 ≡ 10_000 * m.presentation_factor
  pub counted : length m.chunks ≡ chunks_across m.width * chunks_across m.height
  pub placed : AreChunks m.width m.height 0 m.chunks
  pub generated : 0 < m.generation
  pub timed : 0 < m.observation_time_unix_ms
  pub keyed : ends_at m.observation_time_unix_ms (object_time m.object_key) ≡ true

record IsChecked (bytes : List ℕ) : Type 0 where
  level : is_level (get_uint16 bytes 80) (get_uint32 bytes 32) (get_uint32 bytes 36) ≡ true
  stepped : get_uint32 bytes 56 ≡ 10_000 * get_uint16 bytes 80
  counted :
      get_uint32 bytes 84
      ≡ chunks_across (get_uint32 bytes 32) * chunks_across (get_uint32 bytes 36)
  generated : 0 < get_uint64 bytes 16
  timed : 0 < get_uint64 bytes 24

check_manifest-IsChecked : (bytes : List ℕ) → check_manifest bytes ≡ ok tt → IsChecked bytes
unfolding check_manifest assert_common_header is_grid is_descriptor_section
check_manifest-IsChecked bytes h = ground arith

module _ (decode : List ℕ → Option (List ℕ)) (object_time : List ℕ → Option ℕ) where
  read_source_keyed :
      (bytes : List ℕ) (limit : ℕ)
      → Ensures
          (λ key. ends_at (get_uint64 bytes 24) (object_time key) ≡ true)
          (read_source decode object_time bytes limit)
  unfolding read_source is_source
  read_source_keyed bytes limit = ground arith

  -- A manifest that the parser accepts is of a known level; its descriptors are those of all the chunks of the
  -- grid, in order, each in its place; its generation and time are positive, and its object key tells that time.
  pub parse_packed_grid_manifest-IsManifest :
      (bytes : List ℕ) (m : PackedGridManifest)
      → parse_packed_grid_manifest decode object_time bytes ≡ ok m
      → IsManifest object_time m
  unfolding parse_packed_grid_manifest
  parse_packed_grid_manifest-IsManifest bytes m h = ground (
    arith,
    check_manifest-IsChecked bytes,
    read_source_keyed bytes (get_uint32 bytes 152),
    read_descriptors-AreChunks bytes (get_uint32 bytes 152) (get_uint32 bytes 32)
        (get_uint32 bytes 36) 0 (get_uint32 bytes 84),
  )

pub chunk_at :
    (object_time : List ℕ → Option ℕ) (m : PackedGridManifest) (k : ℕ)
    → IsManifest object_time m
    → k < length m.chunks
    → (d : PackedGridChunkDescriptor) × (get_elem? m.chunks k ≡ some d)
      × (d.geometry ≡ expected_geometry k m.width m.height)
chunk_at object_time m k h p =
    let (d, e, chunk) = AreChunks-get m.width m.height 0 k m.chunks h.placed p in
    let f : 0 + k ≡ k = omega arith in
    (d, e, chunk.placed ∙ ap (λ i. expected_geometry i m.width m.height) f)

-- In a manifest with what the parser promises of those that it accepts, each cell of the grid lies in
-- exactly one chunk: the one at the index `owner`, and no other chunk of the manifest owns it.
pub manifest-Owns_cell :
    (object_time : List ℕ → Option ℕ) (m : PackedGridManifest) (x y : ℕ)
    → IsManifest object_time m
    → x < m.width
    → y < m.height
    → (d : PackedGridChunkDescriptor) × (get_elem? m.chunks (owner m.width x y) ≡ some d)
      × Owns d.geometry x y
      × ((k : ℕ) (other : PackedGridChunkDescriptor)
          → get_elem? m.chunks k ≡ some other
          → k < length m.chunks
          → Owns other.geometry x y
          → k ≡ owner m.width x y)
manifest-Owns_cell object_time m x y h p q =
    let tile = chunks_tile m.width m.height (owner m.width x y) x y p q in
    let (d, e, placed) = chunk_at object_time m (owner m.width x y) h (rw h.counted tile.0) in
    (
      d,
      e,
      subst (λ g. Owns g x y) (sym placed) tile.1,
      λ k other e' inside owns.
          let (d', e'', placed') = chunk_at object_time m k h inside in
          let same : other ≡ d' = cc in
          (chunks_tile m.width m.height k x y p q).2 (
            subst (λ g. Owns g x y)
              (ap (λ (c : PackedGridChunkDescriptor). c.geometry) same ∙ placed') owns),
    )
