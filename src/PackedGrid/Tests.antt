-- ===== src/PackedGrid/Tests.antt =====
-- A concrete grid at level 16, which has two chunks: the theorems on src/packed-grid/packedGrid.ts applied to
-- it. The time of an object key is here its calendar fields, each of two digits, as one number.
use mistr.Prelude.{
  Result, ok, codes, length, get_elem?, get_or, All, ℕ, ◌+◌, ◌*◌, ◌/◌, ◌%◌, ◌≤◌, ◌<◌, ◌≡◌, refl,
  false, Option, some, List, [], ◌∷◌, arith,
}
use mistr.Prelude.Int.{pos, negsuc}
use mistr.PackedGrid.Bytes.{
  PackedGridErrorCode, byte_at, get_uint16, get_uint32, get_uint64, subarray, equal_bytes, is_zero,
  assert_zero, assert_chunk_flags, to_hex, is_hash_text, read_words, has_magic,
}
use mistr.PackedGrid.Descriptor.{
  expected_interior, expected_halo, expected_geometry, same_geometry, is_valid_descriptor,
  validate_descriptor, read_descriptor, PackedGridChunkDescriptor,
}
use mistr.PackedGrid.Header.{assert_common_header, is_level, is_encoding}
use mistr.PackedGrid.ObjectKey.{
  strip, take_digits, number_of, match_key, calendar_of, same_calendar, object_observation_time,
  Calendar,
}
use mistr.PackedGrid.Batch.{PackedGridBatch, read_batch, read_frames, read_frame}
use mistr.PackedGrid.Batch.Laws.{Framed, read_batch-Framed}
use mistr.PackedGrid.Manifest.{
  int32, regular_grid_last, is_grid, is_descriptor_section, insert_range, sort_ranges, contiguous,
  ends_at, read_descriptors, check_manifest, read_string_range, is_source, read_source,
  parse_packed_grid_manifest, PackedGridManifest,
}
use mistr.PackedGrid.Descriptor.Tiling.{Owns, Carries, owner, halo-Carries_neighbours}
use mistr.PackedGrid.Manifest.Laws.{
  parse_packed_grid_manifest-IsManifest, manifest-Owns_cell, IsManifest,
}
use mistr.PackedGrid.Chunk.{PackedGridChunk}
use mistr.PackedGrid.Match.{
  same_descriptor, assert_chunk_matches_manifest, assert_chunk_matches_manifest-BelongsTo,
  BelongsTo,
}

abbrev object_key_here : List ℕ
object_key_here =
    codes
      "CONUS/MergedBaseReflectivityQC_00.50/20250102/MRMS_MergedBaseReflectivityQC_00.50_20250102-030405.grib2.gz"

abbrev stamp : Calendar → Option ℕ
stamp c =
    some (
      ((((c.year * 100 + c.month) * 100 + c.day) * 100 + c.hour) * 100 + c.minute) * 100 + c.second)

abbrev stamp_fields : ℕ → Calendar
stamp_fields n = record {
  year = n / 10_000_000_000;
  month = n / 100_000_000 % 100;
  day = n / 1_000_000 % 100;
  hour = n / 10_000 % 100;
  minute = n / 100 % 100;
  second = n % 100;
}

abbrev manifest_bytes : List ℕ
manifest_bytes =
    77 ∷ 71 ∷ 82 ∷ 68 ∷ 0 ∷ 1 ∷ 0 ∷ 1 ∷ 0 ∷ 0 ∷ 0 ∷ 176 ∷ 0 ∷ 0 ∷ 1 ∷ 248 ∷ 0 ∷ 0 ∷ 0 ∷ 0 ∷ 0 ∷ 0
    ∷ 0 ∷ 7 ∷ 0 ∷ 0 ∷ 18 ∷ 106 ∷ 216 ∷ 35 ∷ 96 ∷ 69 ∷ 0 ∷ 0 ∷ 1 ∷ 182 ∷ 0 ∷ 0 ∷ 0 ∷ 219 ∷ 3 ∷ 70 ∷ 3
    ∷ 64 ∷ 248 ∷ 65 ∷ 148 ∷ 0 ∷ 1 ∷ 49 ∷ 201 ∷ 64 ∷ 252 ∷ 108 ∷ 121 ∷ 0 ∷ 0 ∷ 2 ∷ 113 ∷ 0 ∷ 0 ∷ 2
    ∷ 113 ∷ 0 ∷ 1 ∷ 16 ∷ 0 ∷ 0 ∷ 198 ∷ 28 ∷ 24 ∷ 0 ∷ 0 ∷ 0 ∷ 0 ∷ 1 ∷ 35 ∷ 40 ∷ 0 ∷ 0 ∷ 0 ∷ 16 ∷ 1
    ∷ 0 ∷ 0 ∷ 0 ∷ 0 ∷ 2 ∷ 0 ∷ 0 ∷ 0 ∷ 176 ∷ 0 ∷ 0 ∷ 0 ∷ 13 ∷ 0 ∷ 0 ∷ 0 ∷ 189 ∷ 0 ∷ 0 ∷ 0 ∷ 5 ∷ 0 ∷ 0
    ∷ 0 ∷ 194 ∷ 0 ∷ 0 ∷ 0 ∷ 30 ∷ 0 ∷ 0 ∷ 0 ∷ 224 ∷ 0 ∷ 0 ∷ 0 ∷ 30 ∷ 0 ∷ 0 ∷ 0 ∷ 0 ∷ 0 ∷ 0 ∷ 0 ∷ 0
    ∷ 0 ∷ 0 ∷ 0 ∷ 0 ∷ 0 ∷ 0 ∷ 0 ∷ 0 ∷ 0 ∷ 0 ∷ 0 ∷ 0 ∷ 0 ∷ 0 ∷ 0 ∷ 0 ∷ 0 ∷ 0 ∷ 0 ∷ 0 ∷ 0 ∷ 0 ∷ 0 ∷ 0
    ∷ 0 ∷ 0 ∷ 1 ∷ 104 ∷ 0 ∷ 72 ∷ 0 ∷ 0 ∷ 0 ∷ 0 ∷ 0 ∷ 254 ∷ 0 ∷ 0 ∷ 0 ∷ 106 ∷ 0 ∷ 0 ∷ 0 ∷ 0 ∷ 0 ∷ 0
    ∷ 0 ∷ 0 ∷ 110 ∷ 97 ∷ 116 ∷ 105 ∷ 111 ∷ 110 ∷ 97 ∷ 108 ∷ 95 ∷ 109 ∷ 114 ∷ 109 ∷ 115 ∷ 99 ∷ 111
    ∷ 110 ∷ 117 ∷ 115 ∷ 77 ∷ 101 ∷ 114 ∷ 103 ∷ 101 ∷ 100 ∷ 66 ∷ 97 ∷ 115 ∷ 101 ∷ 82 ∷ 101 ∷ 102
    ∷ 108 ∷ 101 ∷ 99 ∷ 116 ∷ 105 ∷ 118 ∷ 105 ∷ 116 ∷ 121 ∷ 81 ∷ 67 ∷ 95 ∷ 48 ∷ 48 ∷ 46 ∷ 53 ∷ 48
    ∷ 110 ∷ 111 ∷ 97 ∷ 97 ∷ 45 ∷ 109 ∷ 114 ∷ 109 ∷ 115 ∷ 45 ∷ 112 ∷ 100 ∷ 115 ∷ 46 ∷ 115 ∷ 51 ∷ 46
    ∷ 97 ∷ 109 ∷ 97 ∷ 122 ∷ 111 ∷ 110 ∷ 97 ∷ 119 ∷ 115 ∷ 46 ∷ 99 ∷ 111 ∷ 109 ∷ 67 ∷ 79 ∷ 78 ∷ 85
    ∷ 83 ∷ 47 ∷ 77 ∷ 101 ∷ 114 ∷ 103 ∷ 101 ∷ 100 ∷ 66 ∷ 97 ∷ 115 ∷ 101 ∷ 82 ∷ 101 ∷ 102 ∷ 108 ∷ 101
    ∷ 99 ∷ 116 ∷ 105 ∷ 118 ∷ 105 ∷ 116 ∷ 121 ∷ 81 ∷ 67 ∷ 95 ∷ 48 ∷ 48 ∷ 46 ∷ 53 ∷ 48 ∷ 47 ∷ 50 ∷ 48
    ∷ 50 ∷ 53 ∷ 48 ∷ 49 ∷ 48 ∷ 50 ∷ 47 ∷ 77 ∷ 82 ∷ 77 ∷ 83 ∷ 95 ∷ 77 ∷ 101 ∷ 114 ∷ 103 ∷ 101 ∷ 100
    ∷ 66 ∷ 97 ∷ 115 ∷ 101 ∷ 82 ∷ 101 ∷ 102 ∷ 108 ∷ 101 ∷ 99 ∷ 116 ∷ 105 ∷ 118 ∷ 105 ∷ 116 ∷ 121 ∷ 81
    ∷ 67 ∷ 95 ∷ 48 ∷ 48 ∷ 46 ∷ 53 ∷ 48 ∷ 95 ∷ 50 ∷ 48 ∷ 50 ∷ 53 ∷ 48 ∷ 49 ∷ 48 ∷ 50 ∷ 45 ∷ 48 ∷ 51
    ∷ 48 ∷ 52 ∷ 48 ∷ 53 ∷ 46 ∷ 103 ∷ 114 ∷ 105 ∷ 98 ∷ 50 ∷ 46 ∷ 103 ∷ 122 ∷ 0 ∷ 0 ∷ 0 ∷ 0 ∷ 0 ∷ 0
    ∷ 0 ∷ 0 ∷ 0 ∷ 0 ∷ 0 ∷ 0 ∷ 0 ∷ 0 ∷ 0 ∷ 0 ∷ 1 ∷ 0 ∷ 0 ∷ 219 ∷ 0 ∷ 0 ∷ 0 ∷ 0 ∷ 0 ∷ 0 ∷ 0 ∷ 0 ∷ 1
    ∷ 1 ∷ 0 ∷ 219 ∷ 0 ∷ 1 ∷ 184 ∷ 102 ∷ 0 ∷ 0 ∷ 0 ∷ 0 ∷ 0 ∷ 0 ∷ 0 ∷ 0 ∷ 0 ∷ 0 ∷ 0 ∷ 0 ∷ 0 ∷ 0 ∷ 0
    ∷ 0 ∷ 0 ∷ 0 ∷ 0 ∷ 0 ∷ 0 ∷ 0 ∷ 0 ∷ 0 ∷ 0 ∷ 0 ∷ 0 ∷ 0 ∷ 0 ∷ 0 ∷ 0 ∷ 0 ∷ 0 ∷ 0 ∷ 0 ∷ 0 ∷ 0 ∷ 0 ∷ 0
    ∷ 1 ∷ 0 ∷ 1 ∷ 0 ∷ 0 ∷ 0 ∷ 0 ∷ 1 ∷ 0 ∷ 0 ∷ 0 ∷ 0 ∷ 0 ∷ 0 ∷ 182 ∷ 0 ∷ 219 ∷ 0 ∷ 0 ∷ 0 ∷ 255 ∷ 0
    ∷ 0 ∷ 0 ∷ 0 ∷ 0 ∷ 183 ∷ 0 ∷ 219 ∷ 0 ∷ 1 ∷ 57 ∷ 202 ∷ 0 ∷ 0 ∷ 0 ∷ 0 ∷ 0 ∷ 0 ∷ 0 ∷ 0 ∷ 0 ∷ 0 ∷ 0
    ∷ 0 ∷ 0 ∷ 0 ∷ 0 ∷ 0 ∷ 0 ∷ 0 ∷ 0 ∷ 0 ∷ 0 ∷ 0 ∷ 0 ∷ 0 ∷ 0 ∷ 0 ∷ 0 ∷ 0 ∷ 0 ∷ 0 ∷ 0 ∷ 0 ∷ 0 ∷ 0 ∷ 0
    ∷ 0 ∷ []

abbrev pub zero_digest : List ℕ
zero_digest = codes "0000000000000000000000000000000000000000000000000000000000000000"

abbrev pub chunk_here : ℕ → ℕ → PackedGridChunkDescriptor
chunk_here index encoded_length = record {
  geometry = expected_geometry index 438 219;
  encoded_length = encoded_length;
  payload_sha256 = zero_digest;
  draws_nothing = false;
}

abbrev pub manifest_here : PackedGridManifest
manifest_here = record {
  generation = 7;
  object_key = object_key_here;
  observation_time_unix_ms = 20_250_102_030_405;
  content_sha256 = zero_digest;
  width = 438;
  height = 219;
  first_latitude_e6 = pos 54_920_000;
  first_longitude_e6 = negsuc 129_919_999;
  last_latitude_e6 = pos 20_040_000;
  last_longitude_e6 = negsuc 59_999_999;
  level_step_e6 = 160_000;
  presentation_factor = 16;
  chunks = chunk_here 0 112_742 ∷ chunk_here 1 80_330 ∷ [];
}

manifest_parses :
    parse_packed_grid_manifest some (object_observation_time stamp stamp_fields) manifest_bytes
    ≡ ok manifest_here
unfolding byte_at get_uint16 get_uint32 get_uint64 subarray equal_bytes is_zero assert_zero
    assert_chunk_flags to_hex is_hash_text read_words has_magic expected_interior expected_halo
    expected_geometry same_geometry is_valid_descriptor validate_descriptor read_descriptor
    assert_common_header is_level is_encoding strip take_digits number_of match_key calendar_of
    same_calendar object_observation_time int32 regular_grid_last is_grid is_descriptor_section
    insert_range sort_ranges contiguous ends_at read_descriptors check_manifest read_string_range
    is_source read_source parse_packed_grid_manifest
manifest_parses = refl

abbrev pub time_here : List ℕ → Option ℕ
time_here = object_observation_time stamp stamp_fields

pub manifest_here-IsManifest : IsManifest time_here manifest_here
manifest_here-IsManifest =
    parse_packed_grid_manifest-IsManifest some time_here manifest_bytes manifest_here
      manifest_parses

parse_packed_grid_manifest-IsManifest_example :
    IsManifest (object_observation_time stamp stamp_fields) manifest_here
parse_packed_grid_manifest-IsManifest_example =
    parse_packed_grid_manifest-IsManifest some (object_observation_time stamp stamp_fields)
      manifest_bytes manifest_here manifest_parses

manifest-Owns_cell_example :
    (d : PackedGridChunkDescriptor) × (get_elem? manifest_here.chunks (owner 438 300 10) ≡ some d)
    × Owns d.geometry 300 10
    × ((k : ℕ) (other : PackedGridChunkDescriptor)
        → get_elem? manifest_here.chunks k ≡ some other
        → k < length manifest_here.chunks
        → Owns other.geometry 300 10
        → k ≡ owner 438 300 10)
manifest-Owns_cell_example =
    manifest-Owns_cell (object_observation_time stamp stamp_fields) manifest_here 300 10
      (parse_packed_grid_manifest-IsManifest some (object_observation_time stamp stamp_fields)
        manifest_bytes manifest_here manifest_parses)
      (omega arith) (omega arith)

halo-Carries_neighbours_example : Carries (expected_geometry 1 438 219) 255 11
unfolding expected_geometry
halo-Carries_neighbours_example =
    halo-Carries_neighbours 438 219 1 256 10 255 11
      (omega arith, omega arith, omega arith, omega arith) (omega arith) (omega arith)
      (omega arith, omega arith) (omega arith, omega arith)

abbrev six_bytes : List ℕ
six_bytes = 9 ∷ 9 ∷ 35 ∷ 40 ∷ 0 ∷ 1 ∷ []

abbrev grid_chunk_here : PackedGridChunk
grid_chunk_here = record {
  generation = 7;
  observation_time_unix_ms = 20_250_102_030_405;
  content_sha256 = zero_digest;
  width = 438;
  height = 219;
  presentation_factor = 16;
  descriptor = chunk_here 1 80_330;
  raw_codes = [];
}

assert_chunk_matches_manifest-BelongsTo_example : BelongsTo manifest_here grid_chunk_here
unfolding assert_chunk_matches_manifest same_descriptor same_geometry expected_geometry equal_bytes
assert_chunk_matches_manifest-BelongsTo_example =
    assert_chunk_matches_manifest-BelongsTo (object_observation_time stamp stamp_fields)
      manifest_here grid_chunk_here
      (parse_packed_grid_manifest-IsManifest some (object_observation_time stamp stamp_fields)
        manifest_bytes manifest_here manifest_parses)
      refl

-- A parser that reads the index of a chunk off the first byte.
abbrev index_parser : List ℕ → Result PackedGridErrorCode PackedGridChunk
index_parser bytes =
    ok (record grid_chunk_here { descriptor = chunk_here (get_or bytes 0 0) 80_330 })

abbrev batch_bytes : List ℕ
batch_bytes =
    77 ∷ 71 ∷ 66 ∷ 49 ∷ 0 ∷ 0 ∷ 0 ∷ 2 ∷ 0 ∷ 0 ∷ 0 ∷ 3 ∷ 1 ∷ 9 ∷ 9 ∷ 0 ∷ 0 ∷ 0 ∷ 2 ∷ 0 ∷ 9 ∷ []

abbrev batch_here : PackedGridBatch
batch_here = record {
  generation = 7;
  chunks = grid_chunk_here ∷ record grid_chunk_here { descriptor = chunk_here 0 80_330 } ∷ [];
}

read_batch-Framed_example :
    Framed index_parser batch_bytes 8 (1 ∷ 0 ∷ []) batch_here.chunks (length batch_bytes)
    × All (λ c. c.generation ≡ 7) batch_here.chunks
    × (1 ≤ length {A = ℕ} (1 ∷ 0 ∷ []))
    × (length {A = ℕ} (1 ∷ 0 ∷ []) ≤ 16)
unfolding read_batch read_frames read_frame get_uint32 get_uint16 byte_at subarray expected_geometry
read_batch-Framed_example = read_batch-Framed index_parser batch_bytes (1 ∷ 0 ∷ []) batch_here refl
