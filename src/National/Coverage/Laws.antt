-- ===== src/National/Coverage/Laws.antt =====
-- src/national-radar/coverage.ts: the coverages that the code makes are ones that it accepts.
use mistr.Prelude.{
  ◌==◌, if◌then◌else◌, unsafe_from, Result, ok, err, length, get_elem?, any, All, All-map, ℕ, suc,
  ◌+◌, ◌-◌, ◌*◌, ◌≤◌, ◌<◌, ◌≡◌, refl, sym, ap, ◌∙◌, subst, Bool, true, false, not, ◌&&◌, Option,
  some, List, [], ◌∷◌, arith,
}
use native.Mathlib.Nat.{div-le_self, mul-le-mul}
use mistr.Prelude.Int.{pos}
use mistr.PackedGrid.Descriptor.{PackedGridChunkDescriptor, chunks_across, expected_geometry}
use mistr.PackedGrid.Descriptor.Valid.{IsChunk}
use mistr.PackedGrid.Header.{is_level}
use mistr.PackedGrid.Manifest.Laws.{AreChunks, IsManifest}
use mistr.National.Coverage.{
  match_chunk, filter, indices_of, match_chunks, are_bounds, assert_bounds,
  complete_domain_coverage, chunk_intersects_bounds, viewport_coverage,
  assert_coverage_matches_manifest, Doubles, CoverageError, GeographicBounds,
  NationalViewportCoverage, invalid_bounds, domain_bounds, clip,
}
use mistr.PackedGrid.Manifest.{PackedGridManifest}

level-sides :
    (factor width height : ℕ)
    → is_level factor width height ≡ true
    → (width ≤ 7_015) × (height ≤ 3_515)
unfolding is_level
level-sides factor width height h =
    ground
      (arith, h, div-le_self (7000 + factor - 1) factor, div-le_self (3500 + factor - 1) factor)

level-few :
    (factor width height : ℕ)
    → is_level factor width height ≡ true
    → chunks_across width * chunks_across height ≤ 1000
level-few factor width height h =
    let (w, v) = level-sides factor width height h in
    let p : chunks_across width * chunks_across height ≤ 28 * 14 =
      mul-le-mul {n₂ = 28} {m₂ = 14} (omega (arith, w)) (omega (arith, v)) in
    omega (arith, p)

IsChunk-index :
    (d : PackedGridChunkDescriptor) (k width height : ℕ) → IsChunk d k width height → d.index ≡ k
unfolding expected_geometry
IsChunk-index d k width height c = ap (λ g. g.index) c.placed

-- The indices seen are all below `k`.
Below : ℕ → List ℕ → Type 0
Below k seen = All (λ i. i < k) seen

Below-fresh : (k : ℕ) (seen : List ℕ) → Below k seen → any (λ i. i == k) seen ≡ false
unfolding Below
Below-fresh k [] h = refl
Below-fresh k (i ∷ seen) h = ground (arith, h.0, Below-fresh k seen h.1)

match_chunk_at :
    (chunks : List PackedGridChunkDescriptor) (seen : List ℕ) (d : PackedGridChunkDescriptor)
    → get_elem? chunks d.index ≡ some d
    → d.index < unsafe_from
    → any (λ i. i == d.index) seen ≡ false
    → match_chunk chunks seen d.index ≡ ok d
unfolding match_chunk
match_chunk_at chunks seen d e small fresh = ground (arith, e, small, fresh)

-- From the chunk `k` on, `ds` are the chunks of the manifest.
abbrev SuffixAt : List PackedGridChunkDescriptor → ℕ → List PackedGridChunkDescriptor → Type 0
SuffixAt chunks k ds =
    (j : ℕ) (d : PackedGridChunkDescriptor)
    → get_elem? ds j ≡ some d
    → get_elem? chunks (k + j) ≡ some d

SuffixAt-tail :
    (chunks : List PackedGridChunkDescriptor) (k : ℕ) (d : PackedGridChunkDescriptor)
    (ds : List PackedGridChunkDescriptor)
    → SuffixAt chunks k (d ∷ ds)
    → SuffixAt chunks (k + 1) ds
SuffixAt-tail chunks k d ds h j c e =
    let f : k + suc j ≡ k + 1 + j = omega arith in
    subst (λ i. get_elem? chunks i ≡ some c) f (h (suc j) c e)

Below-suc : (k : ℕ) (seen : List ℕ) → Below k seen → Below (k + 1) seen
unfolding Below
Below-suc k seen h = All-map (λ i p. omega (arith, p)) seen h

Below-cons : (i k : ℕ) (seen : List ℕ) → i ≡ k → Below k seen → Below (k + 1) (i ∷ seen)
unfolding Below
Below-cons i k seen e h = (omega (arith, e), Below-suc k seen h)

Below-nil : (k : ℕ) → Below k []
unfolding Below
Below-nil k = tt

-- The indices of the chunks that pass a test match those chunks.
match_chunks-filter :
    (test : PackedGridChunkDescriptor → Bool) (chunks : List PackedGridChunkDescriptor)
    (width height k : ℕ) (ds : List PackedGridChunkDescriptor) (seen : List ℕ)
    → AreChunks width height k ds
    → SuffixAt chunks k ds
    → k + length ds ≤ unsafe_from
    → Below k seen
    → match_chunks chunks seen (indices_of (filter test ds)) ≡ ok (filter test ds)
unfolding match_chunks
match_chunks-filter test chunks width height k [] seen placed suffix small below = refl
match_chunks-filter test chunks width height k (d ∷ ds) seen placed suffix small below =
    let tail = SuffixAt-tail chunks k d ds suffix in
    let e = IsChunk-index d k width height placed.0 in
    let zero_more : k + 0 ≡ k = omega arith in
    let found : get_elem? chunks d.index ≡ some d =
      subst (λ i. get_elem? chunks i ≡ some d) (zero_more ∙ sym e) (suffix 0 d refl) in
    let fresh : any (λ i. i == d.index) seen ≡ false =
      subst (λ j. any (λ i. i == j) seen ≡ false) (sym e) (Below-fresh k seen below) in
    let here = match_chunk_at chunks seen d found (omega (arith, e, small)) fresh in
    let skip =
      match_chunks-filter test chunks width height (k + 1) ds seen placed.1 tail
        (omega (arith, small)) (Below-suc k seen below) in
    let keep =
      match_chunks-filter test chunks width height (k + 1) ds (d.index ∷ seen) placed.1 tail
        (omega (arith, small)) (Below-cons d.index k seen e below) in
    ground (arith, here, skip, keep)

-- A test of the chunks of a manifest that the parser accepts: those that pass are what its indices match.
filter-Matches :
    (object_time : List ℕ → Option ℕ) (m : PackedGridManifest)
    (test : PackedGridChunkDescriptor → Bool)
    → IsManifest object_time m
    → match_chunks m.chunks [] (indices_of (filter test m.chunks)) ≡ ok (filter test m.chunks)
filter-Matches object_time m test h =
    let few = level-few m.presentation_factor m.width m.height h.level in
    match_chunks-filter test m.chunks m.width m.height 0 m.chunks [] h.placed
      (λ j d e. let z : 0 + j ≡ j = omega arith in rw z e) (omega (arith, few, h.counted))
      (Below-nil 0)

module _ (doubles : Doubles) where
  open doubles use {F, of_e6, of_nat, add, subtract, multiply, halve, larger, smaller, at_most}

  -- The longitude of the cells of column `x`, and the latitude of those of row `y`, at their centre.
  abbrev pub longitude_of : PackedGridManifest → ℕ → F
  longitude_of m x =
      add (of_e6 m.first_longitude_e6) (multiply (of_nat x) (of_e6 (pos m.level_step_e6)))

  abbrev pub latitude_of : PackedGridManifest → ℕ → F
  latitude_of m y =
      subtract (of_e6 m.first_latitude_e6) (multiply (of_nat y) (of_e6 (pos m.level_step_e6)))

  abbrev pub half_cell : PackedGridManifest → F
  half_cell m = halve (of_e6 (pos m.level_step_e6))

  -- The edges of the part of a view inside the domain, whose outermost cells reach half a cell further.
  abbrev pub seen_west : PackedGridManifest → GeographicBounds doubles → F
  seen_west m view = larger view.west (subtract (of_e6 m.first_longitude_e6) (half_cell m))

  abbrev pub seen_east : PackedGridManifest → GeographicBounds doubles → F
  seen_east m view = smaller view.east (add (of_e6 m.last_longitude_e6) (half_cell m))

  abbrev pub seen_south : PackedGridManifest → GeographicBounds doubles → F
  seen_south m view = larger view.south (subtract (of_e6 m.last_latitude_e6) (half_cell m))

  abbrev pub seen_north : PackedGridManifest → GeographicBounds doubles → F
  seen_north m view = smaller view.north (add (of_e6 m.first_latitude_e6) (half_cell m))

  -- Whether the chunk lies beyond what is seen on none of the four sides: the eastern edge of its last column
  -- is not west of it, the western edge of its first column not east of it, and likewise for its rows.
  abbrev pub meets :
      PackedGridManifest → GeographicBounds doubles → PackedGridChunkDescriptor → Bool
  meets m view d =
      let last_column = d.interior_x + d.interior_width - 1 in
      let last_row = d.interior_y + d.interior_height - 1 in
      at_most (seen_west m view) (add (longitude_of m last_column) (half_cell m))
      && at_most (subtract (longitude_of m d.interior_x) (half_cell m)) (seen_east m view)
      && at_most (seen_south m view) (add (latitude_of m d.interior_y) (half_cell m))
      && at_most (subtract (latitude_of m last_row) (half_cell m)) (seen_north m view)

  abbrev pub seen : PackedGridManifest → GeographicBounds doubles → GeographicBounds doubles
  seen m view = record {
    west = seen_west m view;
    south = seen_south m view;
    east = seen_east m view;
    north = seen_north m view;
  }

module _ (doubles : Doubles) (object_time : List ℕ → Option ℕ) where
  -- What becomes of a coverage whose required chunks are those of the manifest that pass the test.
  abbrev pub verdict :
      PackedGridManifest
      → NationalViewportCoverage doubles
      → (PackedGridChunkDescriptor → Bool)
      → Result CoverageError (List PackedGridChunkDescriptor)
  verdict m c test =
      if are_bounds doubles c.bounds then ok (filter test m.chunks) else err invalid_bounds

  -- The coverage of the complete domain of a manifest that the parser accepts is matched with all its chunks
  -- that draw something, in order, each once; it is refused only if the bounds of the domain are no bounds.
  pub complete_domain_coverage-Matches :
      (m : PackedGridManifest) (version : ℕ) (c : NationalViewportCoverage doubles)
      → IsManifest object_time m
      → complete_domain_coverage doubles m version ≡ ok c
      → assert_coverage_matches_manifest doubles m c ≡ verdict m c (λ d. not d.draws_nothing)
  unfolding complete_domain_coverage assert_coverage_matches_manifest assert_bounds
  complete_domain_coverage-Matches m version c h e =
      ground (arith, e, filter-Matches object_time m (λ d. not d.draws_nothing) h)

  -- The coverage of a view, of a manifest that the parser accepts, is matched with the chunks that draw
  -- something and meet the part of the view inside the domain, in order, each once: those whose cells, each
  -- half a cell around its centre, lie beyond that part on none of its four sides. If that part is not proper
  -- bounds, as when the view misses the domain, the coverage is refused for its bounds.
  pub viewport_coverage-Matches :
      (m : PackedGridManifest) (bounds : GeographicBounds doubles) (version : ℕ)
      (c : NationalViewportCoverage doubles)
      → IsManifest object_time m
      → viewport_coverage doubles m bounds version ≡ ok c
      → assert_coverage_matches_manifest doubles m c ≡ (
          if are_bounds doubles (seen doubles m bounds)
          then ok (filter (λ d. not d.draws_nothing && meets doubles m bounds d) m.chunks)
          else err invalid_bounds)
  unfolding viewport_coverage assert_coverage_matches_manifest assert_bounds are_bounds clip
      domain_bounds chunk_intersects_bounds
  viewport_coverage-Matches m bounds version c h e = ground (
    arith,
    e,
    filter-Matches object_time m (λ d. not d.draws_nothing && meets doubles m bounds d) h,
  )
