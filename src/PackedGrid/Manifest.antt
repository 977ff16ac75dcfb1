-- ===== src/PackedGrid/Manifest.antt =====
-- src/packed-grid/packedGrid.ts: `parsePackedGridManifest`. Latitudes and longitudes are held in millionths of
-- a degree, as on the wire. `decode` is the platform's `TextDecoder` with `fatal`, `none` where it throws, and
-- `object_time` is `object_observation_time` over the platform's calendar.
pub mod Laws
use mistr.Prelude.{
  ltb, leb, ◌==◌, if◌then◌else◌, ◌>>=◌, ◌>>◌, require, Result, ok, err, codes, length, ℕ, zero, suc,
  ◌+◌, ◌-◌, ◌*◌, ◌/◌, Bool, true, false, not, ◌&&◌, ◌||◌, Option, none, some, List, [], ◌∷◌,
}
use mistr.Prelude.Int.{ℤ, pos, negsuc, pos_part, neg_part, sub_ℕ, leb_ℤ}
use mistr.PackedGrid.Bytes.{
  byte_at, get_uint16, get_uint32, get_uint64, subarray, equal_bytes, assert_zero,
  assert_chunk_flags, to_hex, PackedGridErrorCode, invalid_record_kind, invalid_source,
  invalid_grid, invalid_encoding, invalid_string_section, invalid_descriptor_section,
}
use mistr.PackedGrid.Descriptor.{
  packed_grid_header_bytes, packed_grid_descriptor_bytes, chunk_interior, chunks_across,
  validate_descriptor, read_descriptor, PackedGridChunkDescriptor,
}
use mistr.PackedGrid.Header.{assert_common_header, is_level, is_encoding}

pub record PackedGridManifest : Type 0 where
  pub generation : ℕ
  pub object_key : List ℕ
  pub observation_time_unix_ms : ℕ
  pub content_sha256 : List ℕ
  pub width : ℕ
  pub height : ℕ
  pub first_latitude_e6 : ℤ
  pub first_longitude_e6 : ℤ
  pub last_latitude_e6 : ℤ
  pub last_longitude_e6 : ℤ
  pub level_step_e6 : ℕ
  pub presentation_factor : ℕ
  pub chunks : List PackedGridChunkDescriptor

abbrev pub packed_grid_manifest_limit : ℕ
packed_grid_manifest_limit = 1_048_576

-- "MGRD".
abbrev pub manifest_magic : List ℕ
manifest_magic = codes "MGRD"

-- The integer that a word of 32 bits stands for.
unfoldable pub int32 : ℕ → ℤ
int32 word = if ltb word 2_147_483_648 then pos word else sub_ℕ word 4_294_967_296

abbrev pub same_ℤ : ℤ → ℤ → Bool
same_ℤ a b = leb_ℤ a b && leb_ℤ b a

abbrev pub level_step : ℕ → ℕ
level_step factor = 10_000 * factor

-- `MRMS_BASE_STEP_E6 * (factor - 1) / 2`, a whole number.
abbrev pub footprint_offset : ℕ → ℕ
footprint_offset factor = 10_000 * (factor - 1) / 2

abbrev pub first_latitude : ℕ → ℤ
first_latitude factor = sub_ℕ 54_995_000 (footprint_offset factor)

abbrev pub first_longitude : ℕ → ℤ
first_longitude factor = sub_ℕ (footprint_offset factor) 129_995_000

-- `regularGridLastE6`, of at least one sample, with the bounds of an int32.
unfoldable pub regular_grid_last : ℤ → ℕ → ℕ → Bool → Option ℤ
regular_grid_last first step samples increasing =
    let delta = step * (samples - 1) in
    let last_ =
      if increasing
      then sub_ℕ (pos_part first + delta) (neg_part first)
      else sub_ℕ (pos_part first) (neg_part first + delta) in
    if not (leb 1 samples)
    then none
    else if leb_ℤ (negsuc 2_147_483_647) last_ && leb_ℤ last_ (pos 2_147_483_647)
    then some last_
    else none

abbrev pub is_value : ℤ → Option ℤ → Bool
is_value v none = false
is_value v (some w) = same_ℤ v w

-- The condition of `invalid_grid`, negated.
unfoldable pub is_grid : List ℕ → ℕ → ℕ → ℕ → Bool
is_grid bytes factor width height =
    is_level factor width height
    && same_ℤ (int32 (get_uint32 bytes 40)) (first_latitude factor)
    && same_ℤ (int32 (get_uint32 bytes 44)) (first_longitude factor)
    && is_value (int32 (get_uint32 bytes 48))
        (regular_grid_last (first_latitude factor) (level_step factor) height false)
    && is_value (int32 (get_uint32 bytes 52))
        (regular_grid_last (first_longitude factor) (level_step factor) width true)
    && get_uint32 bytes 56 == level_step factor
    && get_uint32 bytes 60 == level_step factor
    && byte_at bytes 64 == 1

-- The condition of `invalid_descriptor_section`, negated.
unfoldable pub is_descriptor_section : List ℕ → ℕ → ℕ → Bool
is_descriptor_section bytes width height =
    get_uint16 bytes 156 == packed_grid_descriptor_bytes
    && get_uint32 bytes 84 == chunks_across width * chunks_across height
    && leb packed_grid_header_bytes (get_uint32 bytes 152)
    && get_uint32 bytes 152 + get_uint32 bytes 84 * get_uint16 bytes 156 == length bytes

pub record StringRange : Type 0 where
  pub start : ℕ
  pub end : ℕ
  pub value : List ℕ

-- `[...ranges].sort((left, right) => left.start - right.start)`, which is stable.
unfoldable pub insert_range : StringRange → List StringRange → List StringRange
insert_range r [] = r ∷ []
insert_range r (s ∷ ranges) =
    let rest = insert_range r ranges in if leb r.start s.start then r ∷ s ∷ ranges else s ∷ rest

unfoldable pub sort_ranges : List StringRange → List StringRange
unfolding insert_range
sort_ranges [] = []
sort_ranges (r ∷ ranges) = insert_range r (sort_ranges ranges)

-- The loop over the sorted ranges: where the last ends, if each begins where the one before ends.
unfoldable pub contiguous : ℕ → List StringRange → Option ℕ
contiguous cursor [] = some cursor
contiguous cursor (r ∷ ranges) =
    let rest = contiguous r.end ranges in if r.start == cursor then rest else none

unfoldable pub ends_at : ℕ → Option ℕ → Bool
ends_at limit none = false
ends_at limit (some end) = end == limit

-- The loop over the descriptors, `count` of them from `index` on.
unfoldable pub read_descriptors :
    List ℕ → ℕ → ℕ → ℕ → ℕ → ℕ → Result PackedGridErrorCode (List PackedGridChunkDescriptor)
read_descriptors bytes offset width height index zero = ok []
read_descriptors bytes offset width height index (suc count) = do
  let base = offset + index * packed_grid_descriptor_bytes
  assert_chunk_flags (byte_at bytes (base + 68)) invalid_descriptor_section
  assert_zero bytes (base + 69) (base + packed_grid_descriptor_bytes) invalid_descriptor_section
  validate_descriptor (read_descriptor bytes base) index width height
  rest ← read_descriptors bytes offset width height (index + 1) count
  ok (read_descriptor bytes base ∷ rest)

unfoldable pub check_manifest : List ℕ → Result PackedGridErrorCode (Unit {0})
check_manifest bytes = do
  assert_common_header bytes manifest_magic 1 packed_grid_manifest_limit
  require (is_grid bytes (get_uint16 bytes 80) (get_uint32 bytes 32) (get_uint32 bytes 36))
      invalid_grid
  require (is_encoding bytes 65 68 && get_uint16 bytes 82 == chunk_interior) invalid_encoding
  require (is_descriptor_section bytes (get_uint32 bytes 32) (get_uint32 bytes 36))
      invalid_descriptor_section
  assert_zero bytes 66 68 invalid_record_kind
  assert_zero bytes 158 160 invalid_record_kind
  assert_zero bytes 168 packed_grid_header_bytes invalid_record_kind

module _ (decode : List ℕ → Option (List ℕ)) (object_time : List ℕ → Option ℕ) where
  unfoldable pub read_string_range : List ℕ → ℕ → ℕ → Result PackedGridErrorCode StringRange
  read_string_range bytes offset limit =
      let start = get_uint32 bytes offset in
      let count = get_uint32 bytes (offset + 4) in
      if ltb count 1
        || ltb 256 count
        || ltb start packed_grid_header_bytes
        || ltb limit (start + count)
      then err invalid_string_section
      else elim (decode (subarray bytes start (start + count))) [
        | none ↦ err invalid_string_section
        | some value ↦ ok (record { start = start; end = start + count; value = value })
      ]

  -- The condition of `invalid_source`, negated.
  unfoldable pub is_source : (kind domain product provider key : List ℕ) → ℕ → Bool
  is_source kind domain product provider key time =
      equal_bytes kind (codes "national_mrms")
      && equal_bytes domain (codes "conus")
      && equal_bytes product (codes "MergedBaseReflectivityQC_00.50")
      && equal_bytes provider (codes "noaa-mrms-pds.s3.amazonaws.com")
      && ends_at time (object_time key)

  -- The string section: the object key, if the five strings name the source and fill the section.
  unfoldable pub read_source : List ℕ → ℕ → Result PackedGridErrorCode (List ℕ)
  read_source bytes limit = do
    kind ← read_string_range bytes 88 limit
    domain ← read_string_range bytes 96 limit
    product ← read_string_range bytes 104 limit
    provider ← read_string_range bytes 112 limit
    key ← read_string_range bytes 160 limit
    require
        (is_source kind.value domain.value product.value provider.value key.value
          (get_uint64 bytes 24))
        invalid_source
    require
        (ends_at limit (
          contiguous packed_grid_header_bytes
            (sort_ranges (kind ∷ domain ∷ product ∷ provider ∷ key ∷ []))))
        invalid_string_section
    ok key.value

  unfoldable pub parse_packed_grid_manifest : List ℕ → Result PackedGridErrorCode PackedGridManifest
  parse_packed_grid_manifest bytes = do
    check_manifest bytes
    key ← read_source bytes (get_uint32 bytes 152)
    chunks ←
        read_descriptors bytes (get_uint32 bytes 152) (get_uint32 bytes 32) (get_uint32 bytes 36) 0
          (get_uint32 bytes 84)
    ok (record {
      generation = get_uint64 bytes 16;
      object_key = key;
      observation_time_unix_ms = get_uint64 bytes 24;
      content_sha256 = to_hex (subarray bytes 120 152);
      width = get_uint32 bytes 32;
      height = get_uint32 bytes 36;
      first_latitude_e6 = int32 (get_uint32 bytes 40);
      first_longitude_e6 = int32 (get_uint32 bytes 44);
      last_latitude_e6 = int32 (get_uint32 bytes 48);
      last_longitude_e6 = int32 (get_uint32 bytes 52);
      level_step_e6 = get_uint32 bytes 56;
      presentation_factor = get_uint16 bytes 80;
      chunks = chunks;
    })
