-- ===== src/PackedSweep/Sections.antt =====
-- src/packed-sweep/packedSweep.ts: the four sections behind the header.
pub mod Layout
use mistr.Prelude.{
  ltb, ◌==◌, ◌>>=◌, ◌>>◌, require, throw_if, Result, ok, length, ℕ, ◌+◌, ◌*◌, ◌/◌, ◌%◌, List,
}
use mistr.PackedSweep.Wire.{
  get_uint32, assert_zero, packed_sweep_header_bytes, packed_sweep_max_bytes, radial_bytes,
  PackedSweepErrorCode, invalid_section,
}

pub record Section : Type 0 where
  pub offset : ℕ
  pub length : ℕ

unfoldable pub read_section : List ℕ → ℕ → Section
read_section bytes offset = record {
  offset = get_uint32 bytes offset;
  length = get_uint32 bytes (offset + 4);
}

unfoldable pub validate_section : Section → ℕ → ℕ → Result PackedSweepErrorCode (Unit {0})
validate_section section expected_offset expected_length = do
  require (section.offset % 8 == 0) invalid_section
  require (section.offset == expected_offset) invalid_section
  require (section.length == expected_length) invalid_section

unfoldable pub end_of : Section → Result PackedSweepErrorCode ℕ
end_of section = do
  throw_if (ltb packed_sweep_max_bytes (section.offset + section.length)) invalid_section
  ok (section.offset + section.length)

-- `Math.ceil(value / 8) * 8`.
unfoldable pub align8 : ℕ → Result PackedSweepErrorCode ℕ
align8 value = do
  throw_if (ltb packed_sweep_max_bytes ((value + 7) / 8 * 8)) invalid_section
  ok ((value + 7) / 8 * 8)

-- `align8(endOf(section))`.
unfoldable pub aligned_end : Section → Result PackedSweepErrorCode ℕ
unfolding end_of align8
aligned_end section = end_of section >>= align8

pub record Sections : Type 0 where
  pub radials : Section
  pub values : Section
  pub statuses : Section
  pub raw : Section

unfoldable pub read_sections : List ℕ → Sections
unfolding read_section
read_sections bytes = record {
  radials = read_section bytes 240;
  values = read_section bytes 248;
  statuses = read_section bytes 256;
  raw = read_section bytes 264;
}

-- The checks of the four sections and of the padding between them.
unfoldable pub check_sections :
    List ℕ
    → Sections
    → (radial_count cell_count raw_width : ℕ) → Result PackedSweepErrorCode (Unit {0})
unfolding validate_section aligned_end
check_sections bytes s radial_count cell_count raw_width = do
  validate_section s.radials packed_sweep_header_bytes (radial_count * radial_bytes)
  after_radials ← aligned_end s.radials
  validate_section s.values after_radials (cell_count * 4)
  after_values ← aligned_end s.values
  validate_section s.statuses after_values cell_count
  after_statuses ← aligned_end s.statuses
  validate_section s.raw after_statuses (cell_count * raw_width)
  total ← aligned_end s.raw
  require (total == length bytes) invalid_section
  assert_zero bytes (s.radials.offset + s.radials.length) s.values.offset
  assert_zero bytes (s.values.offset + s.values.length) s.statuses.offset
  assert_zero bytes (s.statuses.offset + s.statuses.length) s.raw.offset
  assert_zero bytes (s.raw.offset + s.raw.length) (length bytes)
