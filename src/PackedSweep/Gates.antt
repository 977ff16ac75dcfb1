-- ===== src/PackedSweep/Gates.antt =====
-- src/packed-sweep/packedSweep.ts: `validateGates` and `validateRadial`, over the platform's doubles.
pub mod Laws
pub mod Decoded
use mistr.Prelude.{
  leb, ◌==◌, if◌then◌else◌, ◌>>=◌, ◌>>◌, require, throw_if, Result, ok, ℕ, zero, suc, ◌+◌, Bool,
  true, false, not, ◌&&◌, ◌||◌, Option, none, some, List, [], ◌∷◌,
}
use mistr.PackedSweep.Wire.{
  get_uint16, get_uint32, get_uint64, radial_bytes, PackedSweepErrorCode, Floats, invalid_radial,
  invalid_gate,
}

pub data Product : Type 0 where
  reflectivity base_velocity storm_relative_velocity : Product

module _ (floats : Floats) where
  open floats use {
    F, of_word, of_nat, negate, is_finite, less, at_most, object_is, subtract, divide, fround,
  }

  pub record Gate : Type 0 where
    pub value : F
    pub status : ℕ
    pub raw : ℕ

  -- `n0sCategoryValues`, a `Map` from raw codes.
  unfoldable pub category_value : List (ℕ × F) → ℕ → Option F
  category_value [] raw = none
  category_value ((k, v) ∷ values) raw =
      let rest = category_value values raw in if k == raw then some v else rest

  -- The status that a raw code of the N0S product calls for.
  unfoldable pub n0s_status : ℕ → Option ℕ
  n0s_status raw =
      if raw == 0 then some 1 else if raw == 15 then some 2 else if leb raw 14 then some 0 else none

  abbrev pub is_status : Option ℕ → ℕ → Bool
  is_status none status = false
  is_status (some expected) status = status == expected

  abbrev pub agrees : Option F → F → Bool
  agrees none value = true
  agrees (some prior) value = object_is prior value

  -- A round of the loop for an N0S gate; the new value is set over the old.
  unfoldable pub validate_n0s_gate :
      Gate → List (ℕ × F) → Result PackedSweepErrorCode (List (ℕ × F))
  validate_n0s_gate g values = do
    require (is_finite g.value) invalid_gate
    require (is_status (n0s_status g.raw) g.status) invalid_gate
    throw_if (not (g.status == 0) && not (object_is g.value (of_nat 0))) invalid_gate
    throw_if (g.status == 0 && not (agrees (category_value values g.raw) g.value)) invalid_gate
    ok (if g.status == 0 then (g.raw, g.value) ∷ values else values)

  -- The status and the value that a raw code of the other products calls for.
  unfoldable pub expected_gate : F → F → ℕ → ℕ × F
  expected_gate scale offset raw =
      if object_is scale (of_nat 0) || object_is scale (negate (of_nat 0))
      then (0, of_nat raw)
      else if raw == 0
      then (1, of_nat 0)
      else if raw == 1
      then (2, of_nat 0)
      else (0, fround (divide (fround (subtract (of_nat raw) offset)) scale))

  unfoldable pub validate_gate : F → F → Gate → Result PackedSweepErrorCode (Unit {0})
  validate_gate scale offset g = do
    require (is_finite g.value) invalid_gate
    require (g.status == (expected_gate scale offset g.raw).0) invalid_gate
    require (object_is g.value (expected_gate scale offset g.raw).1) invalid_gate

  unfoldable pub validate_n0s_gates :
      List Gate → List (ℕ × F) → Result PackedSweepErrorCode (Unit {0})
  validate_n0s_gates [] values = ok tt
  validate_n0s_gates (g ∷ gates) values = do
    next ← validate_n0s_gate g values
    validate_n0s_gates gates next

  unfoldable pub validate_plain_gates : F → F → List Gate → Result PackedSweepErrorCode (Unit {0})
  validate_plain_gates scale offset [] = ok tt
  validate_plain_gates scale offset (g ∷ gates) = do
    validate_gate scale offset g
    validate_plain_gates scale offset gates

  -- `validateGates`: the test of the product does not change over the loop.
  unfoldable pub validate_gates :
      Product → F → F → List Gate → Result PackedSweepErrorCode (Unit {0})
  validate_gates storm_relative_velocity scale offset gates = validate_n0s_gates gates []
  validate_gates _ scale offset gates = validate_plain_gates scale offset gates

  unfoldable pub is_beam_elevation : F → Bool
  is_beam_elevation degrees =
      is_finite degrees && at_most (negate (of_nat 2)) degrees && at_most degrees (of_nat 90)

  pub record PackedRadial : Type 0 where
    pub source_azimuth_number : ℕ
    pub azimuth_degrees : F
    pub beam_width_degrees : F
    pub elevation_degrees : F
    pub collected_at_unix_ms : ℕ

  -- The collection time is the word of an int64.
  unfoldable pub read_radial : List ℕ → ℕ → PackedRadial
  read_radial bytes offset = record {
    source_azimuth_number = get_uint16 bytes offset;
    azimuth_degrees = of_word (get_uint32 bytes (offset + 4));
    beam_width_degrees = of_word (get_uint32 bytes (offset + 8));
    elevation_degrees = of_word (get_uint32 bytes (offset + 12));
    collected_at_unix_ms = get_uint64 bytes (offset + 16);
  }

  unfoldable pub check_radial : PackedRadial → Bool
  check_radial r =
      (is_finite r.azimuth_degrees
        && not (less r.azimuth_degrees (of_nat 0))
        && less r.azimuth_degrees (of_nat 360))
      && (is_finite r.beam_width_degrees
          && less (of_nat 0) r.beam_width_degrees
          && at_most r.beam_width_degrees (of_nat 360))
      && is_beam_elevation r.elevation_degrees

  unfoldable pub validate_radial : List ℕ → ℕ → Result PackedSweepErrorCode (Unit {0})
  validate_radial bytes offset = do
    require (get_uint16 bytes (offset + 2) == 0) invalid_radial
    require (check_radial (read_radial bytes offset)) invalid_radial

  -- The loop over `count` radials from `offset` on.
  unfoldable pub validate_radials : List ℕ → ℕ → ℕ → Result PackedSweepErrorCode (Unit {0})
  validate_radials bytes offset zero = ok tt
  validate_radials bytes offset (suc count) = do
    validate_radial bytes offset
    validate_radials bytes (offset + radial_bytes) count
