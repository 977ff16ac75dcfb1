-- ===== src/PackedSweep/Tests.antt =====
-- A concrete sweep of one radial with two gates: the theorems on src/packed-sweep/packedSweep.ts applied to
-- it. The floats are integers here, and the digest of a text is its first 32 bytes.
use mistr.Prelude.{
  ◌==◌, ok, codes, length, take, ℕ, zero, suc, ◌+◌, ◌/◌, ◌≡◌, refl, Bool, true, false, not, Option,
  List, [], ◌∷◌, arith,
}
use mistr.Prelude.Int.{ℤ, pos, negsuc, leb_ℤ, sub_ℕ, pos_part, neg_part}
use mistr.PackedSweep.Wire.{
  Floats, byte_at, is_zero, assert_zero, has_magic, get_uint16, get_uint32, get_uint64, subarray,
  equal_bytes,
}
use mistr.PackedSweep.Sections.{
  Sections, check_sections, align8, aligned_end, end_of, read_section, read_sections,
  validate_section,
}
use mistr.PackedSweep.Sections.Layout.{check_sections-IsLayout, IsLayout}
use mistr.PackedSweep.Gates.{
  Gate, reflectivity, category_value, n0s_status, validate_n0s_gate, validate_n0s_gates,
  validate_gates, is_beam_elevation, check_radial, expected_gate, read_radial, validate_gate,
  validate_plain_gates, validate_radial, validate_radials,
}
use mistr.PackedSweep.Gates.Laws.{Tabulates, n0s_gates_tabulated}
use mistr.PackedSweep.Parse.{
  Host, PackedSweep, nexrad_level2_archive_ii, parse_packed_sweep, check_prefix, check_flags,
  check_kinds, product_of, source_kind_of, check_encoding, check_dimensions, check_metadata,
  calculate_wire_hash, read_gates, read_metadata, read_sweep,
}
use mistr.PackedSweep.Parse.Laws.{parse_packed_sweep-IsSweep, IsSweep}

abbrev negate_ℤ : ℤ → ℤ
negate_ℤ (pos zero) = pos 0
negate_ℤ (pos (suc n)) = negsuc n
negate_ℤ (negsuc n) = pos (suc n)

abbrev same_ℤ : ℤ → ℤ → Bool
same_ℤ (pos a) (pos b) = a == b
same_ℤ (negsuc a) (negsuc b) = a == b
same_ℤ _ _ = false

abbrev divide_ℤ : ℤ → ℤ → ℤ
divide_ℤ (pos a) (pos b) = pos (a / b)
divide_ℤ a b = a

abbrev integers : Floats
integers = record {
  F = ℤ;
  of_word = pos;
  of_nat = pos;
  negate = negate_ℤ;
  is_finite = λ a. true;
  less = λ a b. not (leb_ℤ b a);
  at_most = leb_ℤ;
  object_is = same_ℤ;
  subtract = λ a b. sub_ℕ (pos_part a + neg_part b) (pos_part b + neg_part a);
  divide = divide_ℤ;
  fround = λ a. a;
}

abbrev first_bytes : List ℕ → List ℕ
first_bytes bytes = take 32 bytes

abbrev sweep_bytes : List ℕ
sweep_bytes =
    77 ∷ 83 ∷ 84 ∷ 82 ∷ 83 ∷ 87 ∷ 80 ∷ 49 ∷ 4 ∷ 3 ∷ 2 ∷ 1 ∷ 1 ∷ 0 ∷ 64 ∷ 1 ∷ 112 ∷ 1 ∷ 0 ∷ 0 ∷ 1 ∷ 0
    ∷ 0 ∷ 0 ∷ 1 ∷ 0 ∷ 1 ∷ 0 ∷ 0 ∷ 0 ∷ 0 ∷ 0 ∷ 7 ∷ 0 ∷ 0 ∷ 0 ∷ 0 ∷ 0 ∷ 0 ∷ 0 ∷ 1 ∷ 2 ∷ 3 ∷ 4 ∷ 5 ∷ 6
    ∷ 7 ∷ 8 ∷ 9 ∷ 10 ∷ 11 ∷ 12 ∷ 13 ∷ 14 ∷ 15 ∷ 16 ∷ 75 ∷ 84 ∷ 76 ∷ 88 ∷ 1 ∷ 8 ∷ 1 ∷ 1 ∷ 212 ∷ 0 ∷ 0
    ∷ 0 ∷ 1 ∷ 0 ∷ 0 ∷ 0 ∷ 2 ∷ 0 ∷ 0 ∷ 0 ∷ 2 ∷ 0 ∷ 0 ∷ 0 ∷ 250 ∷ 0 ∷ 0 ∷ 0 ∷ 125 ∷ 0 ∷ 0 ∷ 0 ∷ 35 ∷ 0
    ∷ 0 ∷ 0 ∷ 97 ∷ 0 ∷ 0 ∷ 0 ∷ 0 ∷ 0 ∷ 0 ∷ 0 ∷ 1 ∷ 0 ∷ 0 ∷ 0 ∷ 2 ∷ 0 ∷ 0 ∷ 0 ∷ 66 ∷ 0 ∷ 0 ∷ 0 ∷ 232
    ∷ 3 ∷ 0 ∷ 0 ∷ 0 ∷ 0 ∷ 0 ∷ 0 ∷ 208 ∷ 7 ∷ 0 ∷ 0 ∷ 0 ∷ 0 ∷ 0 ∷ 0 ∷ 232 ∷ 3 ∷ 0 ∷ 0 ∷ 0 ∷ 0 ∷ 0 ∷ 0
    ∷ 208 ∷ 7 ∷ 0 ∷ 0 ∷ 0 ∷ 0 ∷ 0 ∷ 0 ∷ 0 ∷ 0 ∷ 0 ∷ 0 ∷ 0 ∷ 0 ∷ 0 ∷ 0 ∷ 0 ∷ 0 ∷ 0 ∷ 0 ∷ 0 ∷ 0 ∷ 0
    ∷ 0 ∷ 0 ∷ 0 ∷ 0 ∷ 0 ∷ 0 ∷ 0 ∷ 0 ∷ 0 ∷ 0 ∷ 0 ∷ 0 ∷ 0 ∷ 0 ∷ 0 ∷ 0 ∷ 0 ∷ 1 ∷ 2 ∷ 3 ∷ 4 ∷ 5 ∷ 6 ∷ 7
    ∷ 8 ∷ 9 ∷ 10 ∷ 11 ∷ 12 ∷ 13 ∷ 14 ∷ 15 ∷ 16 ∷ 17 ∷ 18 ∷ 19 ∷ 20 ∷ 21 ∷ 22 ∷ 23 ∷ 24 ∷ 25 ∷ 26
    ∷ 27 ∷ 28 ∷ 29 ∷ 30 ∷ 31 ∷ 32 ∷ 77 ∷ 83 ∷ 84 ∷ 82 ∷ 83 ∷ 87 ∷ 80 ∷ 49 ∷ 4 ∷ 3 ∷ 2 ∷ 1 ∷ 1 ∷ 0
    ∷ 64 ∷ 1 ∷ 112 ∷ 1 ∷ 0 ∷ 0 ∷ 1 ∷ 0 ∷ 0 ∷ 0 ∷ 1 ∷ 0 ∷ 1 ∷ 0 ∷ 0 ∷ 0 ∷ 0 ∷ 0 ∷ 64 ∷ 1 ∷ 0 ∷ 0 ∷ 24
    ∷ 0 ∷ 0 ∷ 0 ∷ 88 ∷ 1 ∷ 0 ∷ 0 ∷ 8 ∷ 0 ∷ 0 ∷ 0 ∷ 96 ∷ 1 ∷ 0 ∷ 0 ∷ 2 ∷ 0 ∷ 0 ∷ 0 ∷ 104 ∷ 1 ∷ 0 ∷ 0
    ∷ 2 ∷ 0 ∷ 0 ∷ 0 ∷ 0 ∷ 0 ∷ 0 ∷ 0 ∷ 0 ∷ 0 ∷ 0 ∷ 0 ∷ 0 ∷ 0 ∷ 0 ∷ 0 ∷ 0 ∷ 0 ∷ 0 ∷ 0 ∷ 0 ∷ 0 ∷ 0 ∷ 0
    ∷ 0 ∷ 0 ∷ 0 ∷ 0 ∷ 0 ∷ 0 ∷ 0 ∷ 0 ∷ 0 ∷ 0 ∷ 0 ∷ 0 ∷ 0 ∷ 0 ∷ 0 ∷ 0 ∷ 0 ∷ 0 ∷ 0 ∷ 0 ∷ 0 ∷ 0 ∷ 0 ∷ 0
    ∷ 0 ∷ 0 ∷ 0 ∷ 0 ∷ 1 ∷ 0 ∷ 0 ∷ 0 ∷ 10 ∷ 0 ∷ 0 ∷ 0 ∷ 1 ∷ 0 ∷ 0 ∷ 0 ∷ 1 ∷ 0 ∷ 0 ∷ 0 ∷ 220 ∷ 5 ∷ 0
    ∷ 0 ∷ 0 ∷ 0 ∷ 0 ∷ 0 ∷ 2 ∷ 0 ∷ 0 ∷ 0 ∷ 0 ∷ 0 ∷ 0 ∷ 0 ∷ 0 ∷ 1 ∷ 0 ∷ 0 ∷ 0 ∷ 0 ∷ 0 ∷ 0 ∷ 70 ∷ 0 ∷ 0
    ∷ 0 ∷ 0 ∷ 0 ∷ 0 ∷ 0 ∷ []

abbrev aligned_host : Host
aligned_host = record { array_buffer = true; byte_offset = 0; little_endian = true }

abbrev sections_here : Sections
sections_here = record {
  radials = record { offset = 320; length = 24 };
  values = record { offset = 344; length = 8 };
  statuses = record { offset = 352; length = 2 };
  raw = record { offset = 360; length = 2 };
}

abbrev sweep_here : PackedSweep integers
sweep_here = record {
  metadata = record {
    generation = 7;
    observation_id = 1 ∷ 2 ∷ 3 ∷ 4 ∷ 5 ∷ 6 ∷ 7 ∷ 8 ∷ 9 ∷ 10 ∷ 11 ∷ 12 ∷ 13 ∷ 14 ∷ 15 ∷ 16 ∷ [];
    site_icao = codes "KTLX";
    product = reflectivity;
    source_kind = nexrad_level2_archive_ii;
    elevation_number = 1;
    data_word_size_bits = 8;
    vcp = 212;
    radial_count = 1;
    gate_count = 2;
    cell_count = 2;
    gate_spacing_m = 250;
    first_gate_center_m = 125;
    radar_latitude_degrees = pos 35;
    radar_longitude_degrees = pos 97;
    elevation_degrees = pos 1;
    scale = pos 2;
    offset = pos 66;
    site_altitude_m = 0;
    tower_height_m = 0;
    volume_started_at_unix_ms = 1000;
    volume_ended_at_unix_ms = 2000;
    sweep_started_at_unix_ms = 1000;
    sweep_ended_at_unix_ms = 2000;
    source_sha256 = subarray sweep_bytes 144 176;
    normalized_sha256 = subarray sweep_bytes 176 208;
    wire_sha256 = take 32 sweep_bytes;
    total_bytes = 368;
  };
  sections = sections_here;
  gates =
      record { value = pos 2; status = 0; raw = 70 }
      ∷ record { value = pos 0; status = 1; raw = 0 }
      ∷ [];
}

sweep_parses : parse_packed_sweep integers first_bytes aligned_host sweep_bytes ≡ ok sweep_here
unfolding parse_packed_sweep check_prefix has_magic byte_at get_uint16 get_uint32 get_uint64
    check_flags check_kinds product_of source_kind_of assert_zero is_zero check_encoding subarray
    check_dimensions check_metadata is_beam_elevation check_radial expected_gate read_radial
    validate_gate validate_gates validate_plain_gates validate_radial validate_radials
    calculate_wire_hash read_gates read_metadata read_sweep align8 aligned_end check_sections end_of
    read_section read_sections validate_section equal_bytes
sweep_parses = refl

parse_packed_sweep-IsSweep_example : IsSweep integers first_bytes sweep_bytes sweep_here
parse_packed_sweep-IsSweep_example =
    parse_packed_sweep-IsSweep integers first_bytes aligned_host sweep_bytes sweep_here sweep_parses

check_sections-IsLayout_example : IsLayout (length sweep_bytes) sections_here 1 2 1
unfolding check_sections assert_zero is_zero byte_at
check_sections-IsLayout_example = check_sections-IsLayout sweep_bytes sections_here 1 2 1 refl

same_ℤ→eq : (a b : ℤ) → same_ℤ a b ≡ true → a ≡ b
same_ℤ→eq a b h = ground arith

abbrev n0s_gates : List (Gate integers)
n0s_gates =
    record { value = pos 5; status = 0; raw = 3 }
    ∷ record { value = pos 0; status = 2; raw = 15 }
    ∷ record { value = pos 5; status = 0; raw = 3 }
    ∷ []

n0s_gates_tabulated_example : (table : ℕ → Option ℤ) × Tabulates integers same_ℤ→eq table n0s_gates
unfolding validate_gates validate_n0s_gates validate_n0s_gate n0s_status category_value
n0s_gates_tabulated_example = n0s_gates_tabulated integers same_ℤ→eq (pos 0) (pos 0) n0s_gates refl
