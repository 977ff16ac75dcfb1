-- ===== src/Session/Source.antt =====
-- src/radar-session/RadarSessionCoordinator.ts: source keys, paint identities and their assertions.
use mistr.Prelude.{
  leb, if◌then◌else◌, ◌>>◌, require, throw_if, is_safe_integer, Result, ok, err, ℕ, String, ◌≡◌,
  refl, Bool, true, false, ◌&&◌, List, arith, str_eq, str_eq_iff,
}
use mistr.Sites.{RadarSiteOption, is_supported_radar_site}

-- `national` stands for { kind: "national", domain: "conus" }: the type has no other domain.
pub data RadarSourceKey : Type 0 where
  site : String → RadarSourceKey
  national : RadarSourceKey

pub record RadarPaintIdentity : Type 0 where
  pub source : RadarSourceKey
  pub generation : ℕ
  pub observation_id : String

-- A constructor for each `throw` that these operations reach.
pub data SessionError : Type 0 where
  unsupported_site : String → SessionError
  bad_generation missing_observation : SessionError

unfoldable pub same_radar_source : RadarSourceKey → RadarSourceKey → Bool
same_radar_source (site a) (site b) = str_eq a b
same_radar_source national national = true
same_radar_source _ _ = false

unfoldable pub assert_source_key :
    List RadarSiteOption → RadarSourceKey → Result SessionError (Unit {0})
assert_source_key sites (site icao) =
    require (is_supported_radar_site sites icao) (unsupported_site icao)
assert_source_key sites national = ok tt

unfoldable pub assert_generation : ℕ → Result SessionError (Unit {0})
assert_generation generation =
    require (is_safe_integer generation && leb 1 generation) bad_generation

unfoldable pub assert_paint_identity :
    List RadarSiteOption → RadarPaintIdentity → Result SessionError (Unit {0})
assert_paint_identity sites receipt = do
  assert_source_key sites receipt.source
  assert_generation receipt.generation
  throw_if (str_eq receipt.observation_id "") missing_observation

-- `siteRadarSource`: `trim` and `upper` are the platform's `trim` and `toLocaleUpperCase("en-US")`.
unfoldable pub site_radar_source :
    (trim upper : String → String)
    → List RadarSiteOption
    → String
    → Result SessionError RadarSourceKey
site_radar_source trim upper sites icao =
    let normalized = upper (trim icao) in
    if is_supported_radar_site sites normalized
    then ok (site normalized)
    else err (unsupported_site normalized)

pub same_radar_source→eq : (a b : RadarSourceKey) → same_radar_source a b ≡ true → a ≡ b
unfolding same_radar_source
same_radar_source→eq (site a) (site b) h = ground (arith, str_eq_iff a b)
same_radar_source→eq (site a) national h = ground arith
same_radar_source→eq national (site b) h = ground arith
same_radar_source→eq national national h = ground arith

pub same_radar_source_self : (a : RadarSourceKey) → same_radar_source a a ≡ true
unfolding same_radar_source
same_radar_source_self (site a) = (str_eq_iff a a).1 refl
same_radar_source_self national = refl
