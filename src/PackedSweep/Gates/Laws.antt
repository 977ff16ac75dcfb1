-- ===== src/PackedSweep/Gates/Laws.antt =====
-- src/packed-sweep/packedSweep.ts: what N0S gates that pass `validateGates` are.
use mistr.Prelude.{bind_ok, ok, All, ℕ, ◌≡◌, true, Option, some, List, [], ◌∷◌, arith}
use mistr.PackedSweep.Wire.{Floats}
use mistr.PackedSweep.Gates.{
  category_value, validate_n0s_gate, validate_n0s_gates, validate_gates, Gate,
  storm_relative_velocity,
}

module _ (floats : Floats) (same : (a b : floats.F) → floats.object_is a b ≡ true → a ≡ b) where
  open floats use {F}

  -- The table gives each gate that has a value its value, by its raw code alone.
  abbrev pub Tabulates : (ℕ → Option F) → List (Gate floats) → Type 0
  Tabulates table = All (λ g. g.status ≡ 0 → table g.raw ≡ some g.value)

  abbrev Extends : (ℕ → Option F) → List (ℕ × F) → Type 0
  Extends table values =
      (r : ℕ) (v : F) → category_value floats values r ≡ some v → table r ≡ some v

  next_value :
      (g : Gate floats) (values next : List (ℕ × F))
      → validate_n0s_gate floats g values ≡ ok next
      → g.status ≡ 0
      → category_value floats next g.raw ≡ some g.value
  unfolding validate_n0s_gate category_value
  next_value g values next h z = ground arith

  next_keeps :
      (g : Gate floats) (values next : List (ℕ × F)) (r : ℕ) (v : F)
      → validate_n0s_gate floats g values ≡ ok next
      → category_value floats values r ≡ some v
      → category_value floats next r ≡ some v
  unfolding validate_n0s_gate category_value
  next_keeps g values next r v h e = ground (arith, same v g.value)

  n0s_table :
      (gates : List (Gate floats)) (values : List (ℕ × F))
      → validate_n0s_gates floats gates values ≡ ok tt
      → (table : ℕ → Option F) × Extends table values × Tabulates table gates
  unfolding validate_n0s_gates
  n0s_table [] values h = (category_value floats values, (λ r v e. e), tt)
  n0s_table (g ∷ gates) values h =
      let (next, e, k) = bind_ok (validate_n0s_gate floats g values) _ h in
      let (table, extends, rest) = n0s_table gates next k in
      (
        table,
        (λ r v p. extends r v (next_keeps g values next r v e p)),
        ((λ z. extends g.raw g.value (next_value g values next e z)), rest),
      )

  -- In a sweep of storm-relative velocity that passes, the gates of one category have one value, where
  -- `Object.is` is the equality of doubles: a table from raw codes gives the value of every gate that has
  -- one.
  pub n0s_gates_tabulated :
      (scale offset : F) (gates : List (Gate floats))
      → validate_gates floats storm_relative_velocity scale offset gates ≡ ok tt
      → (table : ℕ → Option F) × Tabulates table gates
  unfolding validate_gates
  n0s_gates_tabulated scale offset gates h = let (table, _, t) = n0s_table gates [] h in (table, t)
