-- ===== src/PackedGrid/Descriptor.antt =====
-- src/packed-grid/packedGrid.ts: chunk descriptors, `readDescriptor` and `validateDescriptor`.
pub mod Valid
pub mod Tiling
use mistr.Prelude.{ltb, ◌==◌, require, Result, ℕ, ◌+◌, ◌-◌, ◌*◌, ◌/◌, ◌%◌, min, Bool, ◌&&◌, List}
use mistr.PackedGrid.Bytes.{
  byte_at, get_uint16, get_uint32, subarray, to_hex, is_hash_text, PackedGridErrorCode,
  invalid_chunk_bounds,
}

-- Where a chunk lies in the grid: the cells that it owns, and those it carries, one more on each side.
pub record Geometry : Type 0 where
  pub index : ℕ
  pub chunk_x : ℕ
  pub chunk_y : ℕ
  pub interior_x : ℕ
  pub interior_y : ℕ
  pub interior_width : ℕ
  pub interior_height : ℕ
  pub halo_x : ℕ
  pub halo_y : ℕ
  pub halo_width : ℕ
  pub halo_height : ℕ

pub record PackedGridChunkDescriptor : Type 0 where
  pub geometry : Geometry
  pub open geometry use *
  pub encoded_length : ℕ
  pub payload_sha256 : List ℕ
  pub draws_nothing : Bool

abbrev pub packed_grid_header_bytes : ℕ
packed_grid_header_bytes = 176

abbrev pub packed_grid_descriptor_bytes : ℕ
packed_grid_descriptor_bytes = 72

abbrev pub chunk_interior : ℕ
chunk_interior = 256

-- `Math.ceil(n / CHUNK_INTERIOR)`.
abbrev pub chunks_across : ℕ → ℕ
chunks_across n = (n + 255) / 256

unfoldable pub expected_interior : ℕ → ℕ → ℕ
expected_interior samples start = min chunk_interior (samples - start)

unfoldable pub expected_halo : ℕ → ℕ → ℕ
unfolding expected_interior
expected_halo samples start =
    min samples (start + expected_interior samples start + 1) - (start - 1)

-- The constants that `validateDescriptor` computes from the index.
unfoldable pub expected_geometry : ℕ → ℕ → ℕ → Geometry
unfolding expected_interior expected_halo
expected_geometry index width height =
    let chunk_x = index % chunks_across width in
    let chunk_y = index / chunks_across width in
    let x = chunk_x * chunk_interior in
    let y = chunk_y * chunk_interior in
    record {
      index = index;
      chunk_x = chunk_x;
      chunk_y = chunk_y;
      interior_x = x;
      interior_y = y;
      interior_width = expected_interior width x;
      interior_height = expected_interior height y;
      halo_x = x - 1;
      halo_y = y - 1;
      halo_width = expected_halo width x;
      halo_height = expected_halo height y;
    }

unfoldable pub same_geometry : Geometry → Geometry → Bool
same_geometry a b =
    a.index == b.index
    && a.chunk_x == b.chunk_x
    && a.chunk_y == b.chunk_y
    && a.interior_x == b.interior_x
    && a.interior_y == b.interior_y
    && a.interior_width == b.interior_width
    && a.interior_height == b.interior_height
    && a.halo_x == b.halo_x
    && a.halo_y == b.halo_y
    && a.halo_width == b.halo_width
    && a.halo_height == b.halo_height

abbrev pub halo_cells : Geometry → ℕ
halo_cells g = g.halo_width * g.halo_height

-- The long condition of `validateDescriptor`, negated.
unfoldable pub is_valid_descriptor : PackedGridChunkDescriptor → Geometry → ℕ → ℕ → Bool
is_valid_descriptor d e width height =
    same_geometry d.geometry e
    && ltb e.interior_x width
    && ltb e.interior_y height
    && d.encoded_length == packed_grid_header_bytes + halo_cells e * 2
    && is_hash_text d.payload_sha256

unfoldable pub validate_descriptor :
    PackedGridChunkDescriptor → ℕ → ℕ → ℕ → Result PackedGridErrorCode (Unit {0})
validate_descriptor d index width height =
    require (is_valid_descriptor d (expected_geometry index width height) width height)
      invalid_chunk_bounds

-- `readDescriptor`, of a descriptor in the manifest.
unfoldable pub read_descriptor : List ℕ → ℕ → PackedGridChunkDescriptor
read_descriptor bytes base = record {
  geometry = record {
    index = get_uint32 bytes base;
    chunk_x = get_uint16 bytes (base + 4);
    chunk_y = get_uint16 bytes (base + 6);
    interior_x = get_uint32 bytes (base + 8);
    interior_y = get_uint32 bytes (base + 12);
    interior_width = get_uint16 bytes (base + 16);
    interior_height = get_uint16 bytes (base + 18);
    halo_x = get_uint32 bytes (base + 20);
    halo_y = get_uint32 bytes (base + 24);
    halo_width = get_uint16 bytes (base + 28);
    halo_height = get_uint16 bytes (base + 30);
  };
  encoded_length = get_uint32 bytes (base + 32);
  payload_sha256 = to_hex (subarray bytes (base + 36) (base + 68));
  draws_nothing = byte_at bytes (base + 68) == 1;
}
