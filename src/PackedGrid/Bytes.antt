-- ===== src/PackedGrid/Bytes.antt =====
-- src/packed-grid/packedGrid.ts: reading bytes. A buffer is the list of its bytes. `DataView` reads big-endian
-- here; the callers check the length before they read, so that a read outside, 0 here, does not occur.
pub mod Words
use mistr.Prelude.{
  ltb, leb, ◌==◌, if◌then◌else◌, require, throw_if, Result, length, get_or, take, drop, all, ℕ,
  zero, suc, ◌+◌, ◌-◌, ◌*◌, ◌/◌, ◌%◌, Bool, true, false, not, ◌&&◌, ◌||◌, List, [], ◌∷◌,
}

pub data PackedGridErrorCode : Type 0 where
  truncated_header payload_too_large invalid_magic unsupported_version : PackedGridErrorCode
  invalid_record_kind invalid_header_length total_length_mismatch : PackedGridErrorCode
  invalid_source invalid_grid invalid_encoding invalid_string_section : PackedGridErrorCode
  invalid_descriptor_section invalid_chunk_bounds hash_mismatch : PackedGridErrorCode

unfoldable pub byte_at : List ℕ → ℕ → ℕ
byte_at bytes i = get_or bytes i 0

unfoldable pub get_uint16 : List ℕ → ℕ → ℕ
get_uint16 bytes i = byte_at bytes i * 256 + byte_at bytes (i + 1)

unfoldable pub get_uint32 : List ℕ → ℕ → ℕ
get_uint32 bytes i = get_uint16 bytes i * 65_536 + get_uint16 bytes (i + 2)

unfoldable pub get_uint64 : List ℕ → ℕ → ℕ
get_uint64 bytes i = get_uint32 bytes i * 4_294_967_296 + get_uint32 bytes (i + 4)

-- `bytes.subarray(start, end)`.
unfoldable pub subarray : List ℕ → ℕ → ℕ → List ℕ
subarray bytes start end = take (end - start) (drop start bytes)

unfoldable pub equal_bytes : List ℕ → List ℕ → Bool
equal_bytes [] [] = true
equal_bytes (a ∷ as_) (b ∷ bs) = a == b && equal_bytes as_ bs
equal_bytes _ _ = false

-- The loop of `assertZero` over `n` bytes from `start` on.
unfoldable pub is_zero : List ℕ → ℕ → ℕ → Bool
is_zero bytes start zero = true
is_zero bytes start (suc n) = byte_at bytes start == 0 && is_zero bytes (start + 1) n

unfoldable pub assert_zero :
    List ℕ → ℕ → ℕ → PackedGridErrorCode → Result PackedGridErrorCode (Unit {0})
assert_zero bytes start end code = require (is_zero bytes start (end - start)) code

-- `(flags & ~1) !== 0`.
unfoldable pub assert_chunk_flags : ℕ → PackedGridErrorCode → Result PackedGridErrorCode (Unit {0})
assert_chunk_flags flags code = throw_if (not (flags - flags % 2 == 0)) code

-- `value.toString(16).padStart(2, "0")` of each byte, as ASCII codes.
abbrev pub hex_digit : ℕ → ℕ
hex_digit n = if ltb n 10 then 48 + n else 87 + n

unfoldable pub to_hex : List ℕ → List ℕ
to_hex [] = []
to_hex (b ∷ bs) = hex_digit (b / 16) ∷ hex_digit (b % 16) ∷ to_hex bs

abbrev pub is_hex_digit : ℕ → Bool
is_hex_digit c = (leb 48 c && leb c 57) || (leb 97 c && leb c 102)

-- `/^[0-9a-f]{64}$/.test(text || "0".repeat(64))`.
unfoldable pub is_hash_text : List ℕ → Bool
is_hash_text [] = true
is_hash_text text = length text == 64 && all is_hex_digit text

-- The big-endian words that the `n` pairs of bytes from `offset` on hold.
unfoldable pub read_words : List ℕ → ℕ → ℕ → List ℕ
read_words bytes offset zero = []
read_words bytes offset (suc n) = get_uint16 bytes offset ∷ read_words bytes (offset + 2) n

-- The loop of `assertCommonHeader` over `magic`.
unfoldable pub has_magic : List ℕ → ℕ → List ℕ → Bool
has_magic bytes i [] = true
has_magic bytes i (m ∷ ms) = byte_at bytes i == m && has_magic bytes (i + 1) ms
