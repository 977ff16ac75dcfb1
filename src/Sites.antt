-- ===== src/Sites.antt =====
-- src/data/radarSites.ts: the catalog of supported radar sites. The JSON table that the code imports is
-- the argument `sites`. The coordinates of a site are left out: the modelled code does not read them.
use mistr.Prelude.{if◌then◌else◌, any, String, Bool, Option, none, some, List, [], ◌∷◌, str_eq}

pub record RadarSiteOption : Type 0 where
  pub id : String
  pub name : String

-- The keys of `RADAR_SITES_BY_ID`.
unfoldable pub is_supported_radar_site : List RadarSiteOption → String → Bool
is_supported_radar_site sites value = any (λ site. str_eq site.id value) sites

-- A later entry of the same id replaces an earlier one in the source's `Map`.
unfoldable pub radar_site_by_id : List RadarSiteOption → String → Option RadarSiteOption
radar_site_by_id [] id = none
radar_site_by_id (site ∷ rest) id = elim (radar_site_by_id rest id) [
  | some found ↦ some found
  | none ↦ if str_eq site.id id then some site else none
]
