-- ===== src/PackedSweep/Gates/Decoded.antt =====
-- src/packed-sweep/packedSweep.ts: how each gate that passes `validateGates` follows from its raw code.
use mistr.Prelude.{
  ◌==◌, Bool-cases, bind_ok, ok, All, ℕ, ◌≤◌, ◌≡◌, inl, inr, true, false, ◌||◌, List, [], ◌∷◌,
  arith,
}
use mistr.PackedSweep.Gates.{
  n0s_status, validate_n0s_gate, expected_gate, validate_gate, validate_n0s_gates,
  validate_plain_gates, validate_gates, Product, Gate, reflectivity, base_velocity,
  storm_relative_velocity,
}
use mistr.PackedSweep.Wire.{Floats}

module _ (floats : Floats) where
  open floats use {F, of_nat, negate, is_finite, object_is, subtract, divide, fround}

  abbrev pub IsZero : F → Type 0
  IsZero scale = (object_is scale (of_nat 0) || object_is scale (negate (of_nat 0))) ≡ true

  abbrev pub IsNonZero : F → Type 0
  IsNonZero scale = (object_is scale (of_nat 0) || object_is scale (negate (of_nat 0))) ≡ false

  -- A gate of reflectivity or base velocity: without a scale its value is the raw code; with one, the raw codes
  -- 0 and 1 are the statuses 1 and 2 and have the value 0, and any other is measured, its value scaled in
  -- single precision.
  pub data Decodes (scale offset : F) (g : Gate floats) : Type 0 where
    unscaled :
        IsZero scale
        → g.status ≡ 0
        → object_is g.value (of_nat g.raw) ≡ true
        → Decodes scale offset g
    below_threshold :
        IsNonZero scale
        → g.raw ≡ 0
        → g.status ≡ 1
        → object_is g.value (of_nat 0) ≡ true
        → Decodes scale offset g
    range_folded :
        IsNonZero scale
        → g.raw ≡ 1
        → g.status ≡ 2
        → object_is g.value (of_nat 0) ≡ true
        → Decodes scale offset g
    measured :
        IsNonZero scale
        → 2 ≤ g.raw
        → g.status ≡ 0
        → object_is g.value (fround (divide (fround (subtract (of_nat g.raw) offset)) scale)) ≡ true
        → Decodes scale offset g

  -- A gate of storm-relative velocity: its status by its raw code, 0 to 15, and no value but 0 where it has none.
  pub data Categorizes (g : Gate floats) : Type 0 where
    no_data : g.raw ≡ 0 → g.status ≡ 1 → object_is g.value (of_nat 0) ≡ true → Categorizes g
    folded : g.raw ≡ 15 → g.status ≡ 2 → object_is g.value (of_nat 0) ≡ true → Categorizes g
    category : 1 ≤ g.raw → g.raw ≤ 14 → g.status ≡ 0 → Categorizes g

  abbrev pub AreDecoded : Product → F → F → List (Gate floats) → Type 0
  AreDecoded storm_relative_velocity scale offset gates =
      All (λ g. (is_finite g.value ≡ true) × Categorizes g) gates
  AreDecoded reflectivity scale offset gates =
      All (λ g. (is_finite g.value ≡ true) × Decodes scale offset g) gates
  AreDecoded base_velocity scale offset gates =
      All (λ g. (is_finite g.value ≡ true) × Decodes scale offset g) gates

  validate_gate-Decodes :
      (scale offset : F) (g : Gate floats)
      → validate_gate floats scale offset g ≡ ok tt
      → (is_finite g.value ≡ true) × Decodes scale offset g
  unfolding validate_gate expected_gate
  validate_gate-Decodes scale offset g h =
      let finite : is_finite g.value ≡ true = ground (arith, h) in
      (
        finite,
        elim (Bool-cases (object_is scale (of_nat 0) || object_is scale (negate (of_nat 0)))) [
          | inl z ↦ unscaled z (ground (arith, h, z)) (ground (arith, h, z))
          | inr z ↦ elim (Bool-cases (g.raw == 0)) [
            | inl r ↦
                below_threshold z (ground (arith, r)) (ground (arith, h, z, r))
                  (ground (arith, h, z, r))
            | inr r ↦ elim (Bool-cases (g.raw == 1)) [
              | inl k ↦
                  range_folded z (ground (arith, k)) (ground (arith, h, z, r, k))
                    (ground (arith, h, z, r, k))
              | inr k ↦
                  measured z (ground (arith, r, k)) (ground (arith, h, z, r, k))
                    (ground (arith, h, z, r, k))
            ]
          ]
        ],
      )

  validate_n0s_gate-Categorizes :
      (g : Gate floats) (values next : List (ℕ × F))
      → validate_n0s_gate floats g values ≡ ok next
      → (is_finite g.value ≡ true) × Categorizes g
  unfolding validate_n0s_gate n0s_status
  validate_n0s_gate-Categorizes g values next h =
      let finite : is_finite g.value ≡ true = ground (arith, h) in
      (
        finite,
        elim (Bool-cases (g.raw == 0)) [
          | inl r ↦ no_data (ground (arith, r)) (ground (arith, h, r)) (ground (arith, h, r))
          | inr r ↦ elim (Bool-cases (g.raw == 15)) [
            | inl k ↦ folded (ground (arith, k)) (ground (arith, h, r, k)) (ground (arith, h, r, k))
            | inr k ↦
                category (ground (arith, r)) (ground (arith, h, r, k)) (ground (arith, h, r, k))
          ]
        ],
      )

  plain_decoded :
      (scale offset : F) (gates : List (Gate floats))
      → validate_plain_gates floats scale offset gates ≡ ok tt
      → All (λ g. (is_finite g.value ≡ true) × Decodes scale offset g) gates
  unfolding validate_plain_gates
  plain_decoded scale offset [] h = tt
  plain_decoded scale offset (g ∷ gates) h =
      let (_, e, rest) = bind_ok (validate_gate floats scale offset g) _ h in
      (validate_gate-Decodes scale offset g e, plain_decoded scale offset gates rest)

  n0s_categorized :
      (gates : List (Gate floats)) (values : List (ℕ × F))
      → validate_n0s_gates floats gates values ≡ ok tt
      → All (λ g. (is_finite g.value ≡ true) × Categorizes g) gates
  unfolding validate_n0s_gates
  n0s_categorized [] values h = tt
  n0s_categorized (g ∷ gates) values h =
      let (next, e, rest) = bind_ok (validate_n0s_gate floats g values) _ h in
      (validate_n0s_gate-Categorizes g values next e, n0s_categorized gates next rest)

  pub validate_gates-AreDecoded :
      (product : Product) (scale offset : F) (gates : List (Gate floats))
      → validate_gates floats product scale offset gates ≡ ok tt
      → AreDecoded product scale offset gates
  unfolding validate_gates
  validate_gates-AreDecoded storm_relative_velocity scale offset gates h =
      n0s_categorized gates [] h
  validate_gates-AreDecoded reflectivity scale offset gates h = plain_decoded scale offset gates h
  validate_gates-AreDecoded base_velocity scale offset gates h = plain_decoded scale offset gates h
