-- ===== src/PackedSweep/Wire.antt =====
-- src/packed-sweep/packedSweep.ts: reading bytes, little-endian, and the floats that the platform gives. A
-- buffer is the list of its bytes; the length is checked before the reads, so that none lies outside.
use mistr.Prelude.{
  ltb, ◌==◌, ◌>>◌, require, throw_if, Result, length, get_or, take, drop, ℕ, zero, suc, ◌+◌, ◌-◌,
  ◌*◌, ◌%◌, Bool, true, false, ◌&&◌, ◌||◌, List, [], ◌∷◌,
}

pub data PackedSweepErrorCode : Type 0 where
  input_alignment truncated_header payload_too_large invalid_magic : PackedSweepErrorCode
  invalid_endian_marker unsupported_version invalid_header_length : PackedSweepErrorCode
  total_length_mismatch invalid_flags invalid_product invalid_source_kind : PackedSweepErrorCode
  invalid_encoding nonzero_reserved invalid_site invalid_dimensions : PackedSweepErrorCode
  invalid_metadata invalid_section observation_id_mismatch hash_mismatch : PackedSweepErrorCode
  invalid_radial invalid_gate : PackedSweepErrorCode

-- The doubles of the platform, with what the parser uses of them. `of_word` is `getFloat32` on a word.
pub record Floats : Type 1 where
  pub F : Type 0
  pub of_word : ℕ → F
  pub of_nat : ℕ → F
  pub negate : F → F
  pub is_finite : F → Bool
  pub less : F → F → Bool
  pub at_most : F → F → Bool
  pub object_is : F → F → Bool
  pub subtract : F → F → F
  pub divide : F → F → F
  pub fround : F → F

unfoldable pub byte_at : List ℕ → ℕ → ℕ
byte_at bytes i = get_or bytes i 0

unfoldable pub get_uint16 : List ℕ → ℕ → ℕ
get_uint16 bytes i = byte_at bytes i + byte_at bytes (i + 1) * 256

unfoldable pub get_uint32 : List ℕ → ℕ → ℕ
get_uint32 bytes i = get_uint16 bytes i + get_uint16 bytes (i + 2) * 65_536

unfoldable pub get_uint64 : List ℕ → ℕ → ℕ
get_uint64 bytes i = get_uint32 bytes i + get_uint32 bytes (i + 4) * 4_294_967_296

-- `getBigInt64`, shifted up by 2^63: an order-preserving code of the signed word.
abbrev pub int64_rank : ℕ → ℕ
int64_rank word = (word + 9_223_372_036_854_775_808) % 18_446_744_073_709_551_616

unfoldable pub subarray : List ℕ → ℕ → ℕ → List ℕ
subarray bytes start end = take (end - start) (drop start bytes)

unfoldable pub equal_bytes : List ℕ → List ℕ → Bool
equal_bytes [] [] = true
equal_bytes (a ∷ left) (b ∷ right) = a == b && equal_bytes left right
equal_bytes _ _ = false

-- The loop of `assertZero`, over `n` bytes from `start` on.
unfoldable pub is_zero : List ℕ → ℕ → ℕ → Bool
is_zero bytes start zero = true
is_zero bytes start (suc n) = byte_at bytes start == 0 && is_zero bytes (start + 1) n

unfoldable pub assert_zero : List ℕ → ℕ → ℕ → Result PackedSweepErrorCode (Unit {0})
assert_zero bytes start end = do
  throw_if (ltb end start || ltb (length bytes) end) invalid_section
  require (is_zero bytes start (end - start)) nonzero_reserved

unfoldable pub has_magic : List ℕ → ℕ → List ℕ → Bool
has_magic bytes i [] = true
has_magic bytes i (m ∷ ms) = byte_at bytes i == m && has_magic bytes (i + 1) ms

abbrev pub packed_sweep_header_bytes : ℕ
packed_sweep_header_bytes = 320

abbrev pub packed_sweep_max_bytes : ℕ
packed_sweep_max_bytes = 33_554_432

abbrev pub radial_bytes : ℕ
radial_bytes = 24
