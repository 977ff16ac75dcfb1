-- ===== src/National/Coverage/Tests.antt =====
-- A grid of two chunks and a view of the second: the theorems on src/national-radar/coverage.ts applied to them.
-- The numbers are whole multiples of half a millionth, in which the sums here are exact.
use mistr.Prelude.{
  if◌then◌else◌, ◌>>=◌, ok, err, ◌+◌, ◌*◌, ◌/◌, ◌≡◌, refl, true, not, ◌&&◌, [], ◌∷◌,
}
use mistr.Prelude.Int.{ℤ, pos, pos_part, neg_part, sub_ℕ, leb_ℤ}
use mistr.PackedGrid.Tests.{manifest_here, time_here, manifest_here-IsManifest}
use mistr.National.Coverage.{
  domain_bounds, complete_domain_coverage, chunk_intersects_bounds, viewport_coverage,
  assert_coverage_matches_manifest, Doubles, GeographicBounds, NationalViewportCoverage,
  complete_domain, viewport, assert_coverage_version, are_bounds, assert_bounds, clip,
  invalid_bounds, filter,
}
use mistr.National.Coverage.Laws.{viewport_coverage-Matches, meets, seen}
use mistr.PackedGrid.Descriptor.{expected_geometry}

abbrev add_ℤ : ℤ → ℤ → ℤ
add_ℤ a b = sub_ℕ (pos_part a + pos_part b) (neg_part a + neg_part b)

abbrev sub_ℤ : ℤ → ℤ → ℤ
sub_ℤ a b = sub_ℕ (pos_part a + neg_part b) (neg_part a + pos_part b)

abbrev mul_ℤ : ℤ → ℤ → ℤ
mul_ℤ a b =
    sub_ℕ ((pos_part a * pos_part b + neg_part a * neg_part b) / 2_000_000)
      ((pos_part a * neg_part b + neg_part a * pos_part b) / 2_000_000)

abbrev pub halves : Doubles
halves = record {
  F = ℤ;
  of_e6 = λ z. add_ℤ z z;
  of_nat = λ n. pos (2_000_000 * n);
  negate = λ z. sub_ℤ (pos 0) z;
  add = add_ℤ;
  subtract = sub_ℤ;
  multiply = mul_ℤ;
  halve = λ z. sub_ℕ (pos_part z / 2) (neg_part z / 2);
  larger = λ a b. if leb_ℤ a b then b else a;
  smaller = λ a b. if leb_ℤ a b then a else b;
  at_most = leb_ℤ;
  is_finite = λ z. true;
}

abbrev east_view : GeographicBounds halves
east_view = record {
  west = sub_ℤ (pos 0) (pos 170_000_000);
  south = pos 60_000_000;
  east = sub_ℤ (pos 0) (pos 140_000_000);
  north = pos 80_000_000;
}

abbrev east_coverage : NationalViewportCoverage halves
east_coverage = record {
  bounds = east_view;
  version = 2;
  kind = viewport;
  required_chunk_indices = 1 ∷ [];
}

east_covers : viewport_coverage halves manifest_here east_view 2 ≡ ok east_coverage
unfolding viewport_coverage assert_coverage_version assert_bounds are_bounds clip domain_bounds
    chunk_intersects_bounds expected_geometry
east_covers = refl

viewport_coverage-Matches_example :
    assert_coverage_matches_manifest halves manifest_here east_coverage ≡ (
      if are_bounds halves (seen halves manifest_here east_view)
      then ok (
          filter
            (λ d. not d.draws_nothing && meets halves manifest_here east_view d)
            manifest_here.chunks)
      else err invalid_bounds)
viewport_coverage-Matches_example =
    viewport_coverage-Matches halves time_here manifest_here east_view 2 east_coverage
      manifest_here-IsManifest east_covers

abbrev whole_coverage : NationalViewportCoverage halves
whole_coverage = record {
  bounds = domain_bounds halves manifest_here;
  version = 1;
  kind = complete_domain;
  required_chunk_indices = 0 ∷ 1 ∷ [];
}

whole_covers : complete_domain_coverage halves manifest_here 1 ≡ ok whole_coverage
unfolding complete_domain_coverage assert_coverage_version expected_geometry
whole_covers = refl

abbrev far_view : GeographicBounds halves
far_view = record {
  west = pos 20_000_000;
  south = pos 60_000_000;
  east = pos 40_000_000;
  north = pos 80_000_000;
}

-- A view of another continent needs no chunk, and is refused.
far_view_refused :
    (viewport_coverage halves manifest_here far_view 3
      >>= assert_coverage_matches_manifest halves manifest_here)
    ≡ err invalid_bounds
unfolding viewport_coverage assert_coverage_matches_manifest are_bounds clip domain_bounds
far_view_refused = refl
