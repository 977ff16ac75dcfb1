-- ===== src/Session/AutoSource.antt =====
-- src/radar-session/autoSourcePolicy.ts: the source that a camera calls for. The numbers are the platform's,
-- a parameter; `distance_m` is the range that `rangeBearing` of src/radar-renderer/geo.ts gives from a point to
-- a site's coordinates, a parameter too.
use mistr.Prelude.{
  if◌then◌else◌, ℕ, String, Bool, true, false, not, ◌&&◌, Option, none, some, List, [], ◌∷◌, map,
  str_eq,
}
pub mod Nearest
pub mod Settles
pub mod Tests
use mathlib.Core.Option
use mistr.Sites.{RadarSiteOption}
use mistr.Session.Source.{RadarSourceKey}

pub record Numbers : Type 1 where
  pub F : Type 0
  pub at_most : F → F → Bool
  pub less : F → F → Bool
  -- The literal of a sign, digits, and a number of those behind the point.
  pub literal : Bool → ℕ → ℕ → F

pub data AutoSource : Type 0 where
  national : AutoSource
  site : String → AutoSource

-- `sites.find((site) => site.id === id)`.
unfoldable pub find_site : String → List RadarSiteOption → Option RadarSiteOption
find_site id [] = none
find_site id (s ∷ sites) = let rest = find_site id sites in if str_eq s.id id then some s else rest

abbrev pub is_some : Option String → Bool
is_some none = false
is_some (some id) = true

-- What is left of an optional id by a test for truth, which the empty text fails.
unfoldable pub named : Option String → Option String
named none = none
named (some id) = if str_eq id "" then none else some id

-- `preferenceHolds && preferred.id !== visible.siteIcao`.
abbrev pub is_other : Option String → String → Bool
is_other none icao = false
is_other (some id) icao = not (str_eq id icao)

pub record AutoSourceDecision : Type 0 where
  pub target : AutoSource
  pub preload : Option String
  pub preference_spent : Bool

unfoldable pub auto_source_of : RadarSourceKey → AutoSource
auto_source_of RadarSourceKey.national = national
auto_source_of (RadarSourceKey.site icao) = site icao

unfoldable pub picked_next_source : Option String → AutoSource → AutoSource
picked_next_source none visible = national
picked_next_source (some pick) national = site pick
picked_next_source (some pick) (site icao) = if str_eq icao pick then site icao else national

unfoldable pub same_auto_source : AutoSource → AutoSource → Bool
same_auto_source national national = true
same_auto_source (site left) (site right) = str_eq left right
same_auto_source _ _ = false

module _ (numbers : Numbers) where
  open numbers use {F, at_most, less, literal}

  pub record LngLatPoint : Type 0 where
    pub longitude : F
    pub latitude : F

  pub record AutoSourceInput : Type 0 where
    pub zoom : F
    pub center : LngLatPoint
    pub visible : AutoSource
    pub preferred_site : Option String

  unfoldable pub national_covers : LngLatPoint → Bool
  national_covers point =
      at_most (literal true 129995 3) point.longitude
      && at_most point.longitude (literal true 60005 3)
      && at_most (literal false 20005 3) point.latitude
      && at_most point.latitude (literal false 54995 3)

  abbrev pub enter_zoom : Bool → F
  enter_zoom covered = if covered then literal false 9 0 else literal false 6 0

  abbrev pub exit_zoom : Bool → F
  exit_zoom covered = if covered then literal false 85 1 else literal false 55 1

  abbrev pub preload_zoom : Bool → F
  preload_zoom covered = if covered then literal false 8 0 else literal false 55 1

  abbrev pub auto_site_enter_range_m : F
  auto_site_enter_range_m = literal false 200000 0

  abbrev pub auto_site_keep_range_m : F
  auto_site_keep_range_m = literal false 230000 0

  module _ (distance_m : LngLatPoint → RadarSiteOption → F) where
    -- A round of the loop of `nearestCoveringSite`, from the nearest site found so far.
    unfoldable pub nearer :
        LngLatPoint → Option RadarSiteOption → RadarSiteOption → Option RadarSiteOption
    nearer center none s =
        if at_most (distance_m center s) auto_site_enter_range_m then some s else none
    nearer center (some nearest) s =
        if at_most (distance_m center s) auto_site_enter_range_m
          && less (distance_m center s) (distance_m center nearest)
        then some s
        else some nearest

    unfoldable pub nearest_from :
        LngLatPoint → Option RadarSiteOption → List RadarSiteOption → Option RadarSiteOption
    nearest_from center nearest [] = nearest
    nearest_from center nearest (s ∷ sites) = nearest_from center (nearer center nearest s) sites

    unfoldable pub nearest_covering_site :
        LngLatPoint → List RadarSiteOption → Option RadarSiteOption
    nearest_covering_site center sites = nearest_from center none sites

    -- `site && distanceM(center, site) <= AUTO_SITE_KEEP_RANGE_M`.
    unfoldable pub keeps : LngLatPoint → Option RadarSiteOption → Bool
    keeps center none = false
    keeps center (some s) = at_most (distance_m center s) auto_site_keep_range_m

    -- The id of `preferred` where `preferenceHolds`.
    unfoldable pub held_preference : AutoSourceInput → List RadarSiteOption → Option String
    held_preference input sites = elim (named input.preferred_site) [
      | none ↦ none
      | some id ↦ if keeps input.center (find_site id sites) then some id else none
    ]

    -- The first arm: `visible` is the site `icao`.
    unfoldable pub decide_from_site :
        AutoSourceInput → List RadarSiteOption → String → Option String → Bool → AutoSourceDecision
    decide_from_site input sites icao preferred spent =
        let covered = national_covers input.center in
        if is_other preferred icao && at_most (enter_zoom covered) input.zoom
        then record { target = national; preload = none; preference_spent = false }
        else record {
          target =
              if at_most (exit_zoom covered) input.zoom && keeps input.center (find_site icao sites)
              then site icao
              else national;
          preload = none;
          preference_spent = spent;
        }

    -- The second arm: `visible` is National, and `candidate` the site to switch to.
    unfoldable pub decide_from_national :
        AutoSourceInput → Option String → Bool → AutoSourceDecision
    decide_from_national input none spent = record {
      target = national;
      preload = none;
      preference_spent = spent;
    }
    decide_from_national input (some candidate) spent =
        let covered = national_covers input.center in
        if at_most (enter_zoom covered) input.zoom
        then record { target = site candidate; preload = none; preference_spent = spent }
        else if at_most (preload_zoom covered) input.zoom
        then record { target = national; preload = some candidate; preference_spent = spent }
        else record { target = national; preload = none; preference_spent = spent }

    unfoldable pub candidate_of :
        AutoSourceInput → List RadarSiteOption → Option String → Option String
    candidate_of input sites (some preferred) = some preferred
    candidate_of input sites none =
        named (Option.map (λ s. s.id) (nearest_covering_site input.center sites))

    unfoldable pub decide_auto_source : AutoSourceInput → List RadarSiteOption → AutoSourceDecision
    decide_auto_source input sites =
        let preferred = held_preference input sites in
        let spent = is_some (named input.preferred_site) && not (is_some preferred) in
        elim input.visible [
          | national ↦ decide_from_national input (candidate_of input sites preferred) spent
          | site icao ↦ decide_from_site input sites icao preferred spent
        ]

    unfoldable pub launch_auto_source : F → LngLatPoint → List RadarSiteOption → AutoSource
    launch_auto_source zoom center sites =
        let input : AutoSourceInput = record {
          zoom = zoom;
          center = center;
          visible = national;
          preferred_site = none;
        } in
        (decide_auto_source input sites).target
