-- ===== src/PackedGrid/Chunk.antt =====
-- src/packed-grid/packedGrid.ts: `parsePackedGridChunk`. `sha256` is the platform's `crypto.subtle.digest`. The
-- fields of a chunk whose types hold one value are left out.
pub mod Laws
use mistr.Prelude.{
  ◌==◌, ◌>>=◌, ◌>>◌, require, throw_if, Result, ok, length, drop, any, ℕ, ◌+◌, ◌*◌, ◌/◌, ◌%◌, Bool,
  not, ◌&&◌, List, [], ◌∷◌,
}
use mistr.PackedGrid.Bytes.{
  byte_at, get_uint16, get_uint32, get_uint64, subarray, equal_bytes, assert_zero,
  assert_chunk_flags, to_hex, read_words, PackedGridErrorCode, invalid_record_kind, invalid_source,
  invalid_grid, invalid_encoding, invalid_chunk_bounds, hash_mismatch,
}
use mistr.PackedGrid.Descriptor.{
  packed_grid_header_bytes, chunk_interior, halo_cells, validate_descriptor, Geometry,
  PackedGridChunkDescriptor,
}
use mistr.PackedGrid.Header.{assert_common_header, is_level, is_encoding}

pub record PackedGridChunk : Type 0 where
  pub generation : ℕ
  pub observation_time_unix_ms : ℕ
  pub content_sha256 : List ℕ
  pub width : ℕ
  pub height : ℕ
  pub presentation_factor : ℕ
  pub descriptor : PackedGridChunkDescriptor
  pub raw_codes : List ℕ

abbrev pub packed_grid_chunk_limit : ℕ
packed_grid_chunk_limit = 524_288

-- "MGCK".
abbrev pub chunk_magic : List ℕ
chunk_magic = 77 ∷ 71 ∷ 67 ∷ 75 ∷ []

unfoldable pub chunk_geometry : List ℕ → Geometry
chunk_geometry bytes = record {
  index = get_uint32 bytes 80;
  chunk_x = get_uint16 bytes 84;
  chunk_y = get_uint16 bytes 86;
  interior_x = get_uint32 bytes 88;
  interior_y = get_uint32 bytes 92;
  interior_width = get_uint16 bytes 96;
  interior_height = get_uint16 bytes 98;
  halo_x = get_uint32 bytes 100;
  halo_y = get_uint32 bytes 104;
  halo_width = get_uint16 bytes 108;
  halo_height = get_uint16 bytes 110;
}

-- The descriptor that the header gives, before the digest of the payload is known.
unfoldable pub chunk_descriptor : List ℕ → PackedGridChunkDescriptor
chunk_descriptor bytes = record {
  geometry = chunk_geometry bytes;
  encoded_length = length bytes;
  payload_sha256 = [];
  draws_nothing = byte_at bytes 113 == 1;
}

-- `payloadOffset` and `payloadLength`.
unfoldable pub is_payload_range : List ℕ → Bool
is_payload_range bytes =
    get_uint32 bytes 128 == packed_grid_header_bytes
    && get_uint32 bytes 132 % 2 == 0
    && get_uint32 bytes 128 + get_uint32 bytes 132 == length bytes

-- The checks before the payload is read.
unfoldable pub check_chunk : List ℕ → Result PackedGridErrorCode (Unit {0})
check_chunk bytes = do
  assert_common_header bytes chunk_magic 2 packed_grid_chunk_limit
  require
      (byte_at bytes 64 == 1
        && byte_at bytes 65 == 1
        && byte_at bytes 66 == 1
        && byte_at bytes 67 == 1)
      invalid_source
  require
      (is_level (get_uint16 bytes 76) (get_uint32 bytes 68) (get_uint32 bytes 72)
        && get_uint16 bytes 78 == chunk_interior)
      invalid_grid
  require (is_encoding bytes 112 116) invalid_encoding
  require (is_payload_range bytes) invalid_chunk_bounds
  assert_chunk_flags (byte_at bytes 113) invalid_record_kind
  assert_zero bytes 114 116 invalid_record_kind
  assert_zero bytes 168 packed_grid_header_bytes invalid_record_kind
  validate_descriptor (chunk_descriptor bytes) (get_uint32 bytes 80) (get_uint32 bytes 68)
      (get_uint32 bytes 72)
  require (halo_cells (chunk_geometry bytes) * 2 == get_uint32 bytes 132) invalid_chunk_bounds

-- `raw !== 9000 && raw !== 0`.
abbrev pub is_measured : ℕ → Bool
is_measured raw = not (raw == 9000) && not (raw == 0)

module _ (sha256 : List ℕ → List ℕ) where
  unfoldable pub read_chunk : List ℕ → Result PackedGridErrorCode PackedGridChunk
  read_chunk bytes = do
    let payload = drop (get_uint32 bytes 128) bytes
    let raw_codes = read_words bytes (get_uint32 bytes 128) (get_uint32 bytes 132 / 2)
    require (equal_bytes (sha256 payload) (subarray bytes 136 168)) hash_mismatch
    throw_if ((chunk_descriptor bytes).draws_nothing && any is_measured raw_codes) invalid_encoding
    ok (record {
      generation = get_uint64 bytes 16;
      observation_time_unix_ms = get_uint64 bytes 24;
      content_sha256 = to_hex (subarray bytes 32 64);
      width = get_uint32 bytes 68;
      height = get_uint32 bytes 72;
      presentation_factor = get_uint16 bytes 76;
      descriptor = record (chunk_descriptor bytes) { payload_sha256 = to_hex (sha256 payload) };
      raw_codes = raw_codes;
    })

  unfoldable pub parse_packed_grid_chunk : List ℕ → Result PackedGridErrorCode PackedGridChunk
  parse_packed_grid_chunk bytes = check_chunk bytes >> read_chunk bytes
