-- ===== src/Ui/RecentSites/Tests.antt =====
-- Two recent sites and a third that was chosen before: the theorem on src/ui/recentSites.ts applied to them.
use mistr.Prelude.{take, String, ◌≡◌, refl, true, none, some, List, [], ◌∷◌}
use mistr.Sites.{RadarSiteOption, is_supported_radar_site}
use mistr.Ui.RecentSites.{Stored, read_recent_sites, remember_recent_site}
use mistr.Ui.RecentSites.Laws.{AreRecent, remember-AreRecent, LeavesOut}

abbrev three_sites : List RadarSiteOption
three_sites =
    record { id = "KTLX"; name = "Oklahoma City" }
    ∷ record { id = "KFWS"; name = "Fort Worth" }
    ∷ record { id = "KOUN"; name = "Norman" }
    ∷ []

-- A text that is no site, a value that is no text, and a site twice.
abbrev stored_here : Stored
stored_here = some (some "KTLX" ∷ none ∷ some "XXXX" ∷ some "KFWS" ∷ some "KTLX" ∷ [])

fort_worth_supported : is_supported_radar_site three_sites "KFWS" ≡ true
unfolding is_supported_radar_site
fort_worth_supported = refl

fort_worth_remembered :
    remember_recent_site three_sites "KFWS" true stored_here
    ≡ ("KFWS" ∷ "KTLX" ∷ [], some (some "KFWS" ∷ some "KTLX" ∷ []))
unfolding remember_recent_site is_supported_radar_site
fort_worth_remembered = refl

remember-AreRecent_example :
    let (next, stored') = remember_recent_site three_sites "KFWS" true stored_here in
    ((others : List String) × LeavesOut "KFWS" (read_recent_sites three_sites stored_here) others
      × (next ≡ "KFWS" ∷ take 4 others))
    × AreRecent three_sites next
    × (true ≡ true → read_recent_sites three_sites stored' ≡ next)
remember-AreRecent_example =
    remember-AreRecent three_sites "KFWS" true stored_here fort_worth_supported
