-- ===== src/National/Coverage.antt =====
-- src/national-radar/coverage.ts: which chunks of a manifest a view needs. The platform's doubles are the
-- argument `doubles`; a manifest holds its degrees in millionths, and `of_e6` divides.
pub mod Laws
pub mod Tests
use mistr.Prelude.{
  ltb, ◌==◌, if◌then◌else◌, ◌>>=◌, ◌>>◌, require, throw_if, is_safe_integer, Result, ok, err,
  get_elem?, any, ℕ, ◌+◌, ◌-◌, ◌*◌, Bool, not, ◌&&◌, ◌||◌, none, some, List, [], ◌∷◌,
}
use mistr.Prelude.Int.{ℤ, pos}
use mistr.PackedGrid.Descriptor.{PackedGridChunkDescriptor}
use mistr.PackedGrid.Manifest.{PackedGridManifest, first_latitude, first_longitude}

pub record Doubles : Type 1 where
  pub F : Type 0
  pub of_e6 : ℤ → F
  pub of_nat : ℕ → F
  pub negate : F → F
  pub add : F → F → F
  pub subtract : F → F → F
  pub multiply : F → F → F
  pub halve : F → F
  pub larger : F → F → F
  pub smaller : F → F → F
  pub at_most : F → F → Bool
  pub is_finite : F → Bool

pub data CoverageKind : Type 0 where
  complete_domain : CoverageKind
  viewport : CoverageKind

pub data CoverageError : Type 0 where
  invalid_version invalid_bounds duplicate_index : CoverageError
  unavailable_chunk : ℕ → CoverageError

-- `list.filter(test)`.
abbrev pub filter : {A : Type 0} → (A → Bool) → List A → List A
filter test [] = []
filter test (x ∷ xs) = if test x then x ∷ filter test xs else filter test xs

abbrev pub indices_of : List PackedGridChunkDescriptor → List ℕ
indices_of [] = []
indices_of (d ∷ ds) = d.index ∷ indices_of ds

unfoldable pub assert_coverage_version : ℕ → Result CoverageError (Unit {0})
assert_coverage_version version =
    throw_if (not (is_safe_integer version) || ltb version 1) invalid_version

-- A round of the loop over the required indices, with those that were seen.
unfoldable pub match_chunk :
    List PackedGridChunkDescriptor → List ℕ → ℕ → Result CoverageError PackedGridChunkDescriptor
match_chunk chunks seen index = do
  throw_if (not (is_safe_integer index) || any (λ i. i == index) seen) duplicate_index
  elim (get_elem? chunks index) [
    | none ↦ err (unavailable_chunk index)
    | some d ↦ if d.index == index then ok d else err (unavailable_chunk index)
  ]

unfoldable pub match_chunks :
    List PackedGridChunkDescriptor
    → List ℕ
    → List ℕ
    → Result CoverageError (List PackedGridChunkDescriptor)
match_chunks chunks seen [] = ok []
match_chunks chunks seen (index ∷ indices) = do
  d ← match_chunk chunks seen index
  ds ← match_chunks chunks (index ∷ seen) indices
  ok (d ∷ ds)

module _ (doubles : Doubles) where
  open doubles use {
    F, of_e6, of_nat, negate, add, subtract, multiply, halve, larger, smaller, at_most, is_finite,
  }

  pub record GeographicBounds : Type 0 where
    pub west : F
    pub south : F
    pub east : F
    pub north : F

  pub record NationalViewportCoverage : Type 0 where
    pub bounds : GeographicBounds
    pub open bounds use *
    pub version : ℕ
    pub kind : CoverageKind
    pub required_chunk_indices : List ℕ

  -- The condition of `assertBounds`, negated.
  unfoldable pub are_bounds : GeographicBounds → Bool
  are_bounds b =
      is_finite b.west
      && is_finite b.south
      && is_finite b.east
      && is_finite b.north
      && at_most (negate (of_nat 180)) b.west
      && at_most b.east (of_nat 180)
      && at_most (negate (of_nat 90)) b.south
      && at_most b.north (of_nat 90)
      && at_most b.west b.east
      && at_most b.south b.north

  unfoldable pub assert_bounds : GeographicBounds → Result CoverageError (Unit {0})
  assert_bounds b = require (are_bounds b) invalid_bounds

  abbrev pub step : PackedGridManifest → F
  step manifest = of_e6 (pos manifest.level_step_e6)

  unfoldable pub domain_bounds : PackedGridManifest → GeographicBounds
  domain_bounds manifest = record {
    west = subtract (of_e6 manifest.first_longitude_e6) (halve (step manifest));
    south = subtract (of_e6 manifest.last_latitude_e6) (halve (step manifest));
    east = add (of_e6 manifest.last_longitude_e6) (halve (step manifest));
    north = add (of_e6 manifest.first_latitude_e6) (halve (step manifest));
  }

  unfoldable pub complete_domain_coverage :
      PackedGridManifest → ℕ → Result CoverageError NationalViewportCoverage
  complete_domain_coverage manifest version = do
    assert_coverage_version version
    ok (record {
      bounds = domain_bounds manifest;
      version = version;
      kind = complete_domain;
      required_chunk_indices = indices_of (filter (λ c. not c.draws_nothing) manifest.chunks);
    })

  unfoldable pub chunk_intersects_bounds :
      PackedGridManifest → PackedGridChunkDescriptor → GeographicBounds → Bool
  chunk_intersects_bounds manifest chunk bounds =
      let first_longitude = of_e6 manifest.first_longitude_e6 in
      let first_latitude = of_e6 manifest.first_latitude_e6 in
      let s = step manifest in
      let west = subtract (add first_longitude (multiply (of_nat chunk.interior_x) s)) (halve s) in
      let last_x = chunk.interior_x + chunk.interior_width - 1 in
      let last_y = chunk.interior_y + chunk.interior_height - 1 in
      let east = add (add first_longitude (multiply (of_nat last_x) s)) (halve s) in
      let north = add (subtract first_latitude (multiply (of_nat chunk.interior_y) s)) (halve s) in
      let south = subtract (subtract first_latitude (multiply (of_nat last_y) s)) (halve s) in
      at_most bounds.west east
      && at_most west bounds.east
      && at_most bounds.south north
      && at_most south bounds.north

  unfoldable pub clip : GeographicBounds → GeographicBounds → GeographicBounds
  clip bounds domain = record {
    west = larger bounds.west domain.west;
    south = larger bounds.south domain.south;
    east = smaller bounds.east domain.east;
    north = smaller bounds.north domain.north;
  }

  unfoldable pub viewport_coverage :
      PackedGridManifest → GeographicBounds → ℕ → Result CoverageError NationalViewportCoverage
  viewport_coverage manifest bounds version = do
    assert_coverage_version version
    assert_bounds bounds
    let clipped = clip bounds (domain_bounds manifest) in
        ok (record {
          bounds = clipped;
          version = version;
          kind = viewport;
          required_chunk_indices =
              if at_most clipped.west clipped.east && at_most clipped.south clipped.north
              then indices_of (
                  filter (λ c. not c.draws_nothing && chunk_intersects_bounds manifest c clipped)
                    manifest.chunks)
              else [];
        })

  unfoldable pub assert_coverage_matches_manifest :
      PackedGridManifest
      → NationalViewportCoverage
      → Result CoverageError (List PackedGridChunkDescriptor)
  unfolding match_chunks match_chunk assert_coverage_version assert_bounds
  assert_coverage_matches_manifest manifest coverage = do
    assert_coverage_version coverage.version
    assert_bounds coverage.bounds
    match_chunks manifest.chunks [] coverage.required_chunk_indices
