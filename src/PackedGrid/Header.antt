-- ===== src/PackedGrid/Header.antt =====
-- src/packed-grid/packedGrid.ts: `assertCommonHeader` and the checks of the grid's shape.
use Prim.Native.Nat.{bit_and}
use mistr.Prelude.{
  ltb, leb, ◌==◌, ◌>>◌, require, throw_if, Result, length, ℕ, ◌+◌, ◌-◌, ◌/◌, Bool, not, ◌&&◌, ◌||◌,
  List,
}
use mistr.PackedGrid.Bytes.{
  byte_at, get_uint16, get_uint32, get_uint64, has_magic, PackedGridErrorCode, truncated_header,
  payload_too_large, invalid_magic, unsupported_version, invalid_record_kind, invalid_header_length,
  total_length_mismatch, invalid_source,
}
use mistr.PackedGrid.Descriptor.{packed_grid_header_bytes}

-- `getBigInt64(24) <= 0n`: a signed word of 64 bits.
abbrev pub is_positive_int64 : ℕ → Bool
is_positive_int64 word = ltb 0 word && ltb word 9_223_372_036_854_775_808

unfoldable pub assert_common_header :
    List ℕ → List ℕ → ℕ → ℕ → Result PackedGridErrorCode (Unit {0})
assert_common_header bytes magic kind limit = do
  throw_if (ltb (length bytes) packed_grid_header_bytes) truncated_header
  throw_if (ltb limit (length bytes)) payload_too_large
  require (has_magic bytes 0 magic) invalid_magic
  require (get_uint16 bytes 4 == 1) unsupported_version
  require (get_uint16 bytes 6 == kind) invalid_record_kind
  require (get_uint32 bytes 8 == packed_grid_header_bytes) invalid_header_length
  require (get_uint32 bytes 12 == length bytes) total_length_mismatch
  throw_if (get_uint64 bytes 16 == 0 || not (is_positive_int64 (get_uint64 bytes 24)))
      invalid_source

abbrev pub is_power_of_two : ℕ → Bool
is_power_of_two value = bit_and value (value - 1) == 0

-- `Math.ceil(n / factor)`.
abbrev pub ceil_div : ℕ → ℕ → ℕ
ceil_div n factor = (n + factor - 1) / factor

-- The part of the grid check that manifests and chunks share.
unfoldable pub is_level : ℕ → ℕ → ℕ → Bool
is_level factor width height =
    leb 1 factor
    && leb factor 16
    && is_power_of_two factor
    && width == ceil_div 7000 factor
    && height == ceil_div 3500 factor

-- The word at `offset` of the reference value, a float32 of -9990: its only encoding.
abbrev pub reference_value_word : ℕ
reference_value_word = 0xc61c_1800

-- The encoding of the samples, from the byte of the bit depth and from the reference value on.
unfoldable pub is_encoding : List ℕ → ℕ → ℕ → Bool
is_encoding bytes depth reference =
    byte_at bytes depth == 16
    && get_uint32 bytes reference == reference_value_word
    && get_uint16 bytes (reference + 4) == 0
    && get_uint16 bytes (reference + 6) == 1
    && get_uint16 bytes (reference + 8) == 9000
    && get_uint16 bytes (reference + 10) == 0
