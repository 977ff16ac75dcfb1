-- ===== src/PackedSweep/Sections/Layout.antt =====
-- src/packed-sweep/packedSweep.ts: sections that pass the checks lie apart inside the buffer.
use mistr.Prelude.{◌==◌, require, bind_ok, ok, length, ℕ, ◌+◌, ◌*◌, ◌%◌, ◌≤◌, ◌<◌, ◌≡◌, List, arith}
use mistr.PackedSweep.Wire.{packed_sweep_max_bytes, invalid_section}
use mistr.PackedSweep.Sections.{validate_section, aligned_end, check_sections, Section, Sections}

-- `b` follows `a` at the next multiple of 8.
abbrev pub Follows : Section → Section → Type 0
Follows a b =
    (a.offset + a.length ≤ b.offset) × (b.offset < a.offset + a.length + 8) × (b.offset % 8 ≡ 0)

pub record IsLayout (size : ℕ) (s : Sections) (radial_count cell_count raw_width : ℕ) : Type 0 where
  pub begins : s.radials.offset ≡ 320
  pub radials_sized : s.radials.length ≡ radial_count * 24
  pub values_sized : s.values.length ≡ cell_count * 4
  pub statuses_sized : s.statuses.length ≡ cell_count
  pub raw_sized : s.raw.length ≡ cell_count * raw_width
  pub values_follow : Follows s.radials s.values
  pub statuses_follow : Follows s.values s.statuses
  pub raw_follows : Follows s.statuses s.raw
  pub ends : (s.raw.offset + s.raw.length ≤ size) × (size < s.raw.offset + s.raw.length + 8)
  pub bounded : size ≤ packed_sweep_max_bytes

validate_section_ok :
    (s : Section) (expected_offset expected_length : ℕ)
    → validate_section s expected_offset expected_length ≡ ok tt
    → (s.offset ≡ expected_offset) × (s.length ≡ expected_length) × (s.offset % 8 ≡ 0)
unfolding validate_section
validate_section_ok s expected_offset expected_length h = ground arith

aligned_end_ok :
    (s : Section) (n : ℕ)
    → aligned_end s ≡ ok n
    → (s.offset + s.length ≤ n) × (n < s.offset + s.length + 8) × (n ≤ packed_sweep_max_bytes)
unfolding aligned_end
aligned_end_ok s n h = ground arith

abbrev Placed : Section → ℕ → ℕ → Type 0
Placed s offset size = (s.offset ≡ offset) × (s.length ≡ size) × (s.offset % 8 ≡ 0)

abbrev EndsBy : Section → ℕ → Type 0
EndsBy s n =
    (s.offset + s.length ≤ n) × (n < s.offset + s.length + 8) × (n ≤ packed_sweep_max_bytes)

layout :
    (size : ℕ) (s : Sections) (radial_count cell_count raw_width a b c total : ℕ)
    → Placed s.radials 320 (radial_count * 24)
      × Placed s.values a (cell_count * 4)
      × Placed s.statuses b cell_count
      × Placed s.raw c (cell_count * raw_width)
    → EndsBy s.radials a × EndsBy s.values b × EndsBy s.statuses c × EndsBy s.raw total
    → total ≡ size
    → IsLayout size s radial_count cell_count raw_width
layout size s radial_count cell_count raw_width a b c total p e whole = omega (arith, p, e)

-- Sections that pass the checks have the sizes that the counts call for, each begins where the one before it
-- ends, rounded up to 8, and the last ends with the buffer: no two overlap and none leaves it.
pub check_sections-IsLayout :
    (bytes : List ℕ) (s : Sections) (radial_count cell_count raw_width : ℕ)
    → check_sections bytes s radial_count cell_count raw_width ≡ ok tt
    → IsLayout (length bytes) s radial_count cell_count raw_width
unfolding check_sections
check_sections-IsLayout bytes s radial_count cell_count raw_width h =
    let (_, v0, h0) = bind_ok (validate_section s.radials _ _) _ h in
    let (after_radials, e0, k0) = bind_ok (aligned_end s.radials) _ h0 in
    let (_, v1, h1) = bind_ok (validate_section s.values _ _) _ k0 in
    let (after_values, e1, k1) = bind_ok (aligned_end s.values) _ h1 in
    let (_, v2, h2) = bind_ok (validate_section s.statuses _ _) _ k1 in
    let (after_statuses, e2, k2) = bind_ok (aligned_end s.statuses) _ h2 in
    let (_, v3, h3) = bind_ok (validate_section s.raw _ _) _ k2 in
    let (total, e3, k3) = bind_ok (aligned_end s.raw) _ h3 in
    let (_, whole, _) = bind_ok (require (total == length bytes) invalid_section) _ k3 in
    layout (length bytes) s radial_count cell_count raw_width after_radials after_values
      after_statuses total
      (
        validate_section_ok s.radials _ _ v0,
        validate_section_ok s.values _ _ v1,
        validate_section_ok s.statuses _ _ v2,
        validate_section_ok s.raw _ _ v3,
      )
      (
        aligned_end_ok s.radials _ e0,
        aligned_end_ok s.values _ e1,
        aligned_end_ok s.statuses _ e2,
        aligned_end_ok s.raw _ e3,
      )
      (ground arith)
