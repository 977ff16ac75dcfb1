-- ===== src/Session/AutoSource/Tests.antt =====
-- A concrete camera over two sites: the theorems on the source policy applied to it. Numbers are whole
-- thousandths.
use mistr.Prelude.{
  if◌then◌else◌, Holds, All, ◌-◌, ◌*◌, ◌/◌, ◌^◌, ◌≡◌, refl, true, false, not, none, List, [], ◌∷◌,
  arith, str_eq,
}
use mistr.Prelude.Int.{ℤ, pos, negsuc, leb_ℤ}
use mistr.Sites.{RadarSiteOption}
use mistr.Session.AutoSource.{
  nearest_covering_site, decide_auto_source, Numbers, LngLatPoint, AutoSourceInput, national, site,
  find_site, named, national_covers, nearer, nearest_from, held_preference, decide_from_national,
  candidate_of,
}
use mistr.Session.AutoSource.Nearest.{
  IsNoNearer, IsInRange, nearest_covering_site-IsNearest, IsOrdered,
}
use mistr.Session.AutoSource.Settles.{decide_auto_source_settles}

abbrev thousandths : Numbers
thousandths = record {
  F = ℤ;
  at_most = leb_ℤ;
  less = λ a b. not (leb_ℤ b a);
  literal = λ below m k.
      let n = m * 1000 / 10 ^ k in elim below [ true ↦ negsuc (n - 1) | false ↦ pos n ];
}

abbrev distance : LngLatPoint thousandths → RadarSiteOption → ℤ
distance center s = if str_eq s.id "KTLX" then pos 210_000_000 else pos 90_000_000

abbrev sites_here : List RadarSiteOption
sites_here =
    record { id = "KTLX"; name = "Oklahoma City" } ∷ record { id = "KVNX"; name = "Vance" } ∷ []

abbrev here : LngLatPoint thousandths
here = record { longitude = negsuc 97_999; latitude = pos 36_000 }

abbrev close_up : AutoSourceInput thousandths
close_up = record { zoom = pos 9_200; center = here; visible = national; preferred_site = none }

thousandths-IsOrdered : IsOrdered thousandths
thousandths-IsOrdered = record {
  transitive = λ a b c h k. ground arith;
  reflexive = λ a. ground arith;
  less_at_most = λ a b h. ground arith;
  not_less = λ a b h. ground arith;
  literals = (refl, refl, refl);
}

decide_auto_source_settles_example :
    (decide_auto_source thousandths distance
      (record close_up { visible = site "KVNX" })
      sites_here).target
    ≡ site "KVNX"
unfolding find_site decide_auto_source decide_from_national candidate_of held_preference named
    nearest_covering_site nearest_from nearer national_covers
decide_auto_source_settles_example =
    decide_auto_source_settles thousandths distance thousandths-IsOrdered close_up sites_here "KVNX"
      (refl, (refl, tt)) refl refl

nearest_covering_site-IsNearest_example :
    Holds
      (IsInRange thousandths distance here)
      (nearest_covering_site thousandths distance here sites_here)
    × All
        (IsNoNearer thousandths distance here
          (nearest_covering_site thousandths distance here sites_here))
        sites_here
nearest_covering_site-IsNearest_example =
    nearest_covering_site-IsNearest thousandths distance thousandths-IsOrdered here sites_here
