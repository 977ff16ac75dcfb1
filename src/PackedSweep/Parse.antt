-- ===== src/PackedSweep/Parse.antt =====
-- src/packed-sweep/packedSweep.ts: `parsePackedSweep`, its checks in the source's order. `sha256` is the
-- platform's digest; `host` tells what the parser asks of the platform and of the view that it was handed.
pub mod Laws
pub mod Cells
use mistr.Prelude.{
  ltb, leb, ◌==◌, if◌then◌else◌, ◌>>=◌, ◌>>◌, require, throw_if, Result, ok, err, codes, length,
  take, drop, all, ℕ, zero, suc, ◌+◌, ◌*◌, ◌/◌, ◌%◌, Bool, true, false, not, ◌&&◌, ◌||◌, Option,
  none, some, List, [], ◌∷◌, ◌++◌,
}
use mistr.PackedSweep.Wire.{
  byte_at, get_uint16, get_uint32, get_uint64, int64_rank, subarray, equal_bytes, assert_zero,
  has_magic, packed_sweep_header_bytes, packed_sweep_max_bytes, PackedSweepErrorCode, Floats,
  input_alignment, truncated_header, payload_too_large, invalid_magic, invalid_endian_marker,
  unsupported_version, invalid_header_length, total_length_mismatch, invalid_flags, invalid_product,
  invalid_source_kind, invalid_encoding, invalid_site, invalid_dimensions, invalid_metadata,
  observation_id_mismatch, hash_mismatch,
}
use mistr.PackedSweep.Sections.{read_sections, check_sections, Sections}
use mistr.PackedSweep.Gates.{
  validate_gates, is_beam_elevation, validate_radials, Product, Gate, reflectivity, base_velocity,
  storm_relative_velocity,
}

-- `bytes.buffer instanceof ArrayBuffer`, `bytes.byteOffset` and `isLittleEndian()`.
pub record Host : Type 0 where
  pub array_buffer : Bool
  pub byte_offset : ℕ
  pub little_endian : Bool

pub data SourceKind : Type 0 where
  nexrad_level2_archive_ii mistr_phase2_synthetic nexrad_level2_chunks nexrad_level3_n0s :
      SourceKind

unfoldable pub product_of : ℕ → Option Product
product_of code =
    if code == 1
    then some reflectivity
    else if code == 2
    then some base_velocity
    else if code == 3
    then some storm_relative_velocity
    else none

unfoldable pub source_kind_of : ℕ → Option SourceKind
source_kind_of code =
    if code == 1
    then some nexrad_level2_archive_ii
    else if code == 2
    then some mistr_phase2_synthetic
    else if code == 3
    then some nexrad_level2_chunks
    else if code == 4
    then some nexrad_level3_n0s
    else none

-- `(product === "storm_relative_velocity") === (sourceKind === "nexrad_level3_n0s")`.
abbrev pub is_combination : Product → SourceKind → Bool
is_combination storm_relative_velocity nexrad_level3_n0s = true
is_combination storm_relative_velocity _ = false
is_combination _ nexrad_level3_n0s = false
is_combination _ _ = true

abbrev pub or_throw : {A : Type 0} → Option A → PackedSweepErrorCode → Result PackedSweepErrorCode A
or_throw none code = err code
or_throw (some a) code = ok a

-- Up to the total length.
unfoldable pub check_prefix : Host → List ℕ → Result PackedSweepErrorCode (Unit {0})
check_prefix host bytes = do
  require (host.array_buffer && host.byte_offset % 8 == 0) input_alignment
  throw_if (ltb (length bytes) packed_sweep_header_bytes) truncated_header
  throw_if (ltb packed_sweep_max_bytes (length bytes)) payload_too_large
  require host.little_endian invalid_endian_marker
  require (has_magic bytes 0 (codes "MSTRSWP1")) invalid_magic
  require (get_uint32 bytes 8 == 0x0102_0304) invalid_endian_marker
  require (get_uint16 bytes 12 == 1) unsupported_version
  require (get_uint16 bytes 14 == packed_sweep_header_bytes) invalid_header_length
  require (get_uint32 bytes 16 == length bytes) total_length_mismatch

-- The word size in bits, where it fits the flags.
unfoldable pub check_flags : List ℕ → Result PackedSweepErrorCode (Unit {0})
check_flags bytes = require (get_uint32 bytes 20 == 1 || get_uint32 bytes 20 == 2) invalid_flags

unfoldable pub check_kinds : List ℕ → Result PackedSweepErrorCode (Product × SourceKind)
check_kinds bytes = do
  product ← or_throw (product_of (get_uint16 bytes 24)) invalid_product
  source_kind ← or_throw (source_kind_of (get_uint16 bytes 26)) invalid_source_kind
  require (is_combination product source_kind) invalid_metadata
  assert_zero bytes 28 32
  assert_zero bytes 66 68
  assert_zero bytes 272 packed_sweep_header_bytes
  ok (product, source_kind)

-- `/^[A-Z0-9]{4}$/` on each of the four bytes.
abbrev pub is_site_character : ℕ → Bool
is_site_character c = (leb 65 c && leb c 90) || (leb 48 c && leb c 57)

unfoldable pub check_encoding : List ℕ → Result PackedSweepErrorCode (Unit {0})
check_encoding bytes = do
  throw_if
      (not (byte_at bytes 62 == 1)
        || not (byte_at bytes 63 == 1)
        || (get_uint32 bytes 20 == 1 && not (byte_at bytes 61 == 8))
        || (get_uint32 bytes 20 == 2 && not (byte_at bytes 61 == 16)))
      invalid_encoding
  require (all is_site_character (subarray bytes 56 60)) invalid_site

unfoldable pub check_dimensions : List ℕ → Result PackedSweepErrorCode (Unit {0})
check_dimensions bytes = do
  require (leb 1 (get_uint32 bytes 68) && leb (get_uint32 bytes 68) 2048) invalid_dimensions
  require (leb 1 (get_uint32 bytes 72) && leb (get_uint32 bytes 72) 4096) invalid_dimensions
  require
      (get_uint32 bytes 68 * get_uint32 bytes 72 == get_uint32 bytes 76
        && leb (get_uint32 bytes 76) 4_194_304)
      invalid_dimensions

module _ (floats : Floats) where
  open floats use {F, of_word, of_nat, negate, is_finite, at_most}

  abbrev pub is_within : F → ℕ → Bool
  is_within degrees bound =
      is_finite degrees && at_most (negate (of_nat bound)) degrees && at_most degrees (of_nat bound)

  unfoldable pub check_metadata : List ℕ → Result PackedSweepErrorCode (Unit {0})
  check_metadata bytes = do
    throw_if (get_uint32 bytes 80 == 0) invalid_metadata
    require (is_within (of_word (get_uint32 bytes 88)) 90) invalid_metadata
    require (is_within (of_word (get_uint32 bytes 92)) 180) invalid_metadata
    require (is_beam_elevation floats (of_word (get_uint32 bytes 100))) invalid_metadata
    require
        (is_finite (of_word (get_uint32 bytes 104)) && is_finite (of_word (get_uint32 bytes 108)))
        invalid_metadata
    require (leb (int64_rank (get_uint64 bytes 112)) (int64_rank (get_uint64 bytes 120)))
        invalid_metadata
    require (leb (int64_rank (get_uint64 bytes 128)) (int64_rank (get_uint64 bytes 136)))
        invalid_metadata
    require (equal_bytes (subarray bytes 40 56) (take 16 (subarray bytes 176 208)))
        observation_id_mismatch

  -- The metadata; the digests are held as bytes, the times as words of an int64, and the altitude as a word of
  -- an int16. `units`, a function of the product, is left out.
  pub record PackedSweepMetadata : Type 0 where
    pub generation : ℕ
    pub observation_id : List ℕ
    pub site_icao : List ℕ
    pub product : Product
    pub source_kind : SourceKind
    pub elevation_number : ℕ
    pub data_word_size_bits : ℕ
    pub vcp : ℕ
    pub radial_count : ℕ
    pub gate_count : ℕ
    pub cell_count : ℕ
    pub gate_spacing_m : ℕ
    pub first_gate_center_m : ℕ
    pub radar_latitude_degrees : F
    pub radar_longitude_degrees : F
    pub elevation_degrees : F
    pub scale : F
    pub offset : F
    pub site_altitude_m : ℕ
    pub tower_height_m : ℕ
    pub volume_started_at_unix_ms : ℕ
    pub volume_ended_at_unix_ms : ℕ
    pub sweep_started_at_unix_ms : ℕ
    pub sweep_ended_at_unix_ms : ℕ
    pub source_sha256 : List ℕ
    pub normalized_sha256 : List ℕ
    pub wire_sha256 : List ℕ
    pub total_bytes : ℕ

  pub record PackedSweep : Type 0 where
    pub metadata : PackedSweepMetadata
    pub sections : Sections
    pub gates : List (Gate floats)

  -- The three typed arrays, cell by cell: `n` cells from `i` on.
  unfoldable pub read_gates : List ℕ → Sections → ℕ → ℕ → ℕ → List (Gate floats)
  read_gates bytes s raw_width i zero = []
  read_gates bytes s raw_width i (suc n) =
      record {
        value = of_word (get_uint32 bytes (s.values.offset + i * 4));
        status = byte_at bytes (s.statuses.offset + i);
        raw =
            if raw_width == 1
            then byte_at bytes (s.raw.offset + i)
            else get_uint16 bytes (s.raw.offset + i * 2);
      }
      ∷ read_gates bytes s raw_width (i + 1) n

  unfoldable pub read_metadata : List ℕ → Product → SourceKind → PackedSweepMetadata
  read_metadata bytes product source_kind = record {
    generation = get_uint64 bytes 32;
    observation_id = subarray bytes 40 56;
    site_icao = subarray bytes 56 60;
    product = product;
    source_kind = source_kind;
    elevation_number = byte_at bytes 60;
    data_word_size_bits = byte_at bytes 61;
    vcp = get_uint16 bytes 64;
    radial_count = get_uint32 bytes 68;
    gate_count = get_uint32 bytes 72;
    cell_count = get_uint32 bytes 76;
    gate_spacing_m = get_uint32 bytes 80;
    first_gate_center_m = get_uint32 bytes 84;
    radar_latitude_degrees = of_word (get_uint32 bytes 88);
    radar_longitude_degrees = of_word (get_uint32 bytes 92);
    elevation_degrees = of_word (get_uint32 bytes 100);
    scale = of_word (get_uint32 bytes 104);
    offset = of_word (get_uint32 bytes 108);
    site_altitude_m = get_uint16 bytes 96;
    tower_height_m = get_uint16 bytes 98;
    volume_started_at_unix_ms = get_uint64 bytes 112;
    volume_ended_at_unix_ms = get_uint64 bytes 120;
    sweep_started_at_unix_ms = get_uint64 bytes 128;
    sweep_ended_at_unix_ms = get_uint64 bytes 136;
    source_sha256 = subarray bytes 144 176;
    normalized_sha256 = subarray bytes 176 208;
    wire_sha256 = subarray bytes 208 240;
    total_bytes = get_uint32 bytes 16;
  }

  module _ (sha256 : List ℕ → List ℕ) where
    -- `calculateWireHash`: the digest of all bytes but the digest's own.
    unfoldable pub calculate_wire_hash : List ℕ → List ℕ
    calculate_wire_hash bytes = sha256 (take 208 bytes ++ drop 240 bytes)

    -- The payload, behind the checks of the header.
    unfoldable pub read_sweep :
        List ℕ → Product → SourceKind → Result PackedSweepErrorCode PackedSweep
    unfolding calculate_wire_hash
    read_sweep bytes product source_kind = do
      let m = read_metadata bytes product source_kind
      let s = read_sections bytes
      let raw_width = m.data_word_size_bits / 8
      let gates = read_gates bytes s raw_width 0 m.cell_count
      check_sections bytes s m.radial_count m.cell_count raw_width
      require (equal_bytes (subarray bytes 208 240) (calculate_wire_hash bytes)) hash_mismatch
      validate_radials floats bytes s.radials.offset m.radial_count
      validate_gates floats product m.scale m.offset gates
      ok (record { metadata = m; sections = s; gates = gates })

    unfoldable pub parse_packed_sweep : Host → List ℕ → Result PackedSweepErrorCode PackedSweep
    parse_packed_sweep host bytes = do
      check_prefix host bytes
      check_flags bytes
      (product, source_kind) ← check_kinds bytes
      check_encoding bytes
      check_dimensions bytes
      check_metadata bytes
      read_sweep bytes product source_kind
