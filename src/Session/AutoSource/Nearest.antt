-- ===== src/Session/AutoSource/Nearest.antt =====
-- src/radar-session/autoSourcePolicy.ts: `nearestCoveringSite` finds the nearest site in range.
use mistr.Prelude.{
  Bool-cases, Holds, All, All-map, ◌≡◌, inl, inr, true, false, ◌&&◌, Option, none, some, List, [],
  ◌∷◌,
}
use mistr.Session.AutoSource.{
  auto_site_enter_range_m, nearer, nearest_from, nearest_covering_site, Numbers, LngLatPoint,
}
use mistr.Sites.{RadarSiteOption}
use mistr.Session.Coordinator.{new}

-- The order of the platform's finite numbers, and how it compares some literals.
pub record IsOrdered (numbers : Numbers) : Type 0 where
  pub transitive :
      (a b c : numbers.F)
      → numbers.at_most a b ≡ true
      → numbers.at_most b c ≡ true
      → numbers.at_most a c ≡ true
  pub reflexive : (a : numbers.F) → numbers.at_most a a ≡ true
  pub less_at_most : (a b : numbers.F) → numbers.less a b ≡ true → numbers.at_most a b ≡ true
  pub not_less : (a b : numbers.F) → numbers.less a b ≡ false → numbers.at_most b a ≡ true
  pub literals :
      (numbers.at_most (numbers.literal false 85 1) (numbers.literal false 9 0) ≡ true)
      × (numbers.at_most (numbers.literal false 55 1) (numbers.literal false 6 0) ≡ true)
      × (numbers.at_most (numbers.literal false 200000 0) (numbers.literal false 230000 0) ≡ true)

module _ (numbers : Numbers) (distance_m : LngLatPoint numbers → RadarSiteOption → numbers.F) where
  open numbers use {F, at_most, less, literal}

  -- A site is not nearer than what was found, or not in the range for entering where nothing was found.
  abbrev pub IsNoNearer : LngLatPoint numbers → Option RadarSiteOption → RadarSiteOption → Type 0
  IsNoNearer center none s = at_most (distance_m center s) (auto_site_enter_range_m numbers) ≡ false
  IsNoNearer center (some nearest) s =
      at_most (distance_m center s) (auto_site_enter_range_m numbers) ≡ true
      → at_most (distance_m center nearest) (distance_m center s) ≡ true

  abbrev pub IsInRange : LngLatPoint numbers → RadarSiteOption → Type 0
  IsInRange center s = at_most (distance_m center s) (auto_site_enter_range_m numbers) ≡ true

  nearer-IsNoNearer :
      IsOrdered numbers
      → (center : LngLatPoint numbers) (nearest : Option RadarSiteOption) (s t : RadarSiteOption)
      → IsNoNearer center nearest t
      → IsNoNearer center (nearer numbers distance_m center nearest s) t
  unfolding nearer
  nearer-IsNoNearer ordered center none s t h =
      elim (Bool-cases (at_most (distance_m center s) (auto_site_enter_range_m numbers))) [
        | inl e ↦ rw e (λ r. cc)
        | inr e ↦ rw e h
      ]
  nearer-IsNoNearer ordered center (some nearest) s t h =
      let in_range = at_most (distance_m center s) (auto_site_enter_range_m numbers) in
      let closer = less (distance_m center s) (distance_m center nearest) in
      elim (Bool-cases closer) [
        | inl e ↦ elim (Bool-cases in_range) [
          | inl f ↦ rw (f, e) (λ r. ordered.transitive _ _ _ (ordered.less_at_most _ _ e) (h r))
          | inr f ↦ rw f h
        ]
        | inr e ↦ elim (Bool-cases in_range) [ inl f ↦ rw (f, e) h | inr f ↦ rw f h ]
      ]

  nearer-new :
      IsOrdered numbers
      → (center : LngLatPoint numbers) (nearest : Option RadarSiteOption) (s : RadarSiteOption)
      → Holds (IsInRange center) nearest
      → Holds (IsInRange center) (nearer numbers distance_m center nearest s)
        × IsNoNearer center (nearer numbers distance_m center nearest s) s
  unfolding nearer
  nearer-new ordered center none s h =
      elim (Bool-cases (at_most (distance_m center s) (auto_site_enter_range_m numbers))) [
        | inl e ↦ rw e (e, λ r. ordered.reflexive _)
        | inr e ↦ rw e (tt, e)
      ]
  nearer-new ordered center (some nearest) s h =
      elim (Bool-cases (at_most (distance_m center s) (auto_site_enter_range_m numbers))) [
        | inl e ↦ elim (Bool-cases (less (distance_m center s) (distance_m center nearest))) [
          | inl f ↦ rw (e, f) (e, λ r. ordered.reflexive _)
          | inr f ↦ rw (e, f) (h, λ r. ordered.not_less _ _ f)
        ]
        | inr e ↦ rw e (h, λ r. cc)
      ]

  pub nearest_from_lem :
      IsOrdered numbers
      → (center : LngLatPoint numbers) (nearest : Option RadarSiteOption)
        (seen sites : List RadarSiteOption)
      → Holds (IsInRange center) nearest
      → All (IsNoNearer center nearest) seen
      → Holds (IsInRange center) (nearest_from numbers distance_m center nearest sites)
        × All (IsNoNearer center (nearest_from numbers distance_m center nearest sites)) seen
        × All (IsNoNearer center (nearest_from numbers distance_m center nearest sites)) sites
  unfolding nearest_from
  nearest_from_lem ordered center nearest seen [] range farther = (range, farther, tt)
  nearest_from_lem ordered center nearest seen (s ∷ sites) range farther =
      let (in_range, new) = nearer-new ordered center nearest s range in
      let (a, (b, c), d) =
        nearest_from_lem ordered center (nearer numbers distance_m center nearest s) (s ∷ seen)
          sites in_range (new, All-map (nearer-IsNoNearer ordered center nearest s) seen farther) in
      (a, c, (b, d))

  -- When the platform's numbers are ordered, the covering site that the loop finds is within the range for
  -- entering, and no site of the catalog within that range is nearer; when it finds none, no site of the
  -- catalog is within the range.
  pub nearest_covering_site-IsNearest :
      IsOrdered numbers
      → (center : LngLatPoint numbers) (sites : List RadarSiteOption)
      → Holds (IsInRange center) (nearest_covering_site numbers distance_m center sites)
        × All (IsNoNearer center (nearest_covering_site numbers distance_m center sites)) sites
  unfolding nearest_covering_site
  nearest_covering_site-IsNearest ordered center sites =
      let (a, b, c) = nearest_from_lem ordered center none [] sites tt tt in (a, c)

  nearer-Holds :
      (P : RadarSiteOption → Type 0) (center : LngLatPoint numbers)
      (nearest : Option RadarSiteOption) (s : RadarSiteOption)
      → Holds P nearest
      → P s
      → Holds P (nearer numbers distance_m center nearest s)
  unfolding nearer
  nearer-Holds P center none s h hs =
      elim (Bool-cases (at_most (distance_m center s) (auto_site_enter_range_m numbers))) [
        | inl e ↦ rw e hs
        | inr e ↦ rw e tt
      ]
  nearer-Holds P center (some nearest) s h hs =
      elim (Bool-cases (
        at_most (distance_m center s) (auto_site_enter_range_m numbers)
        && less (distance_m center s) (distance_m center nearest))) [
          | inl e ↦ rw e hs
          | inr e ↦ rw e h
        ]

  pub nearest_from-Holds :
      (P : RadarSiteOption → Type 0) (center : LngLatPoint numbers)
      (nearest : Option RadarSiteOption) (sites : List RadarSiteOption)
      → Holds P nearest
      → All P sites
      → Holds P (nearest_from numbers distance_m center nearest sites)
  unfolding nearest_from
  nearest_from-Holds P center nearest [] h hs = h
  nearest_from-Holds P center nearest (s ∷ sites) h hs =
      nearest_from-Holds P center (nearer numbers distance_m center nearest s) sites
        (nearer-Holds P center nearest s h hs.0) hs.1
