-- ===== src/Ui/RecentSites.antt =====
-- src/ui/recentSites.ts: the sites that the operator chose most recently. What the storage holds is what its text
-- parses to: `none` if it is no JSON array, or cannot be read; an element is `none` if it is no text.
pub mod Laws
mod Tests
use mistr.Prelude.{
  if◌then◌else◌, take, ℕ, String, Bool, not, Option, none, some, List, [], ◌∷◌, map, str_eq,
}
use mistr.Sites.{RadarSiteOption, is_supported_radar_site}

abbrev pub Stored : Type 0
Stored = Option (List (Option String))

abbrev pub max_recent_sites : ℕ
max_recent_sites = 5

-- `list.filter((recent) => recent !== site)`.
unfoldable pub without : String → List String → List String
without site [] = []
without site (x ∷ xs) = let rest = without site xs in if str_eq x site then rest else x ∷ rest

-- `[...new Set(list)]`: each text where it comes first.
unfoldable pub distinct : List String → List String
unfolding without
distinct [] = []
distinct (x ∷ xs) = x ∷ without x (distinct xs)

-- The elements that are texts and name a supported site.
unfoldable pub supported : List RadarSiteOption → List (Option String) → List String
supported sites [] = []
supported sites (none ∷ xs) = supported sites xs
supported sites (some x ∷ xs) =
    let rest = supported sites xs in if is_supported_radar_site sites x then x ∷ rest else rest

unfoldable pub read_recent_sites : List RadarSiteOption → Stored → List String
unfolding distinct supported
read_recent_sites sites none = []
read_recent_sites sites (some parsed) = take max_recent_sites (distinct (supported sites parsed))

-- The list that is returned, and what the storage holds then; `writes` tells whether `setItem` succeeds.
unfoldable pub remember_recent_site :
    List RadarSiteOption → String → Bool → Stored → List String × Stored
unfolding read_recent_sites without
remember_recent_site sites site writes stored =
    let recent = read_recent_sites sites stored in
    let next = take max_recent_sites (site ∷ without site recent) in
    if not (is_supported_radar_site sites site)
    then (recent, stored)
    else (next, if writes then some (map some next) else stored)
