-- ===== src/Session/AutoSource/Settles.antt =====
-- src/radar-session/autoSourcePolicy.ts: the policy settles, and sites change by way of National.
use mistr.Prelude.{
  Holds, All, String, ◌≡◌, refl, sym, subst, ◌⊎◌, inl, Bool, true, false, Option, none, some, List,
  [], arith, str_eq_iff,
}
use mathlib.Core.Option
use mistr.Session.AutoSource.{
  find_site, named, is_other, picked_next_source, national_covers, enter_zoom, exit_zoom,
  nearest_covering_site, keeps, held_preference, decide_from_site, decide_from_national,
  candidate_of, decide_auto_source, Numbers, LngLatPoint, AutoSourceInput, national, site,
}
use mistr.Session.AutoSource.Nearest.{IsInRange, nearest_from_lem, nearest_from-Holds, IsOrdered}
use mistr.Sites.{RadarSiteOption}

module _ (numbers : Numbers) (distance_m : LngLatPoint numbers → RadarSiteOption → numbers.F) where
  open numbers use {F, at_most, less, literal}

  decide_from_site_target :
      (input : AutoSourceInput numbers) (sites : List RadarSiteOption) (icao : String)
      (preferred : Option String) (spent : Bool)
      → ((decide_from_site numbers distance_m input sites icao preferred spent).target ≡ national)
        ⊎ ((decide_from_site numbers distance_m input sites icao preferred spent).target
            ≡ site icao)
  unfolding decide_from_site
  decide_from_site_target input sites icao preferred spent = ground arith

  picked_from_site :
      (pick : Option String) (icao : String)
      → (picked_next_source pick (site icao) ≡ national)
        ⊎ (picked_next_source pick (site icao) ≡ site icao)
  unfolding picked_next_source
  picked_from_site none icao = inl refl
  picked_from_site (some pick) icao = ground arith

  -- From a visible site, the decision's target and the switch that a pick calls for are each that site or
  -- National: one site never follows another directly.
  pub site_changes_through_national :
      (input : AutoSourceInput numbers) (sites : List RadarSiteOption) (icao : String)
      (pick : Option String)
      → input.visible ≡ site icao
      → (((decide_auto_source numbers distance_m input sites).target ≡ national)
          ⊎ ((decide_auto_source numbers distance_m input sites).target ≡ site icao))
        × ((picked_next_source pick input.visible ≡ national)
            ⊎ (picked_next_source pick input.visible ≡ site icao))
  unfolding decide_auto_source decide_from_site picked_next_source
  site_changes_through_national input sites icao pick h =
      (rw h (decide_from_site_target input sites icao _ _), rw h (picked_from_site pick icao))

  -- Every site of the catalog is the one that its id finds: the ids differ.
  abbrev pub IsCatalog : List RadarSiteOption → Type 0
  IsCatalog sites = All (λ s. find_site s.id sites ≡ some s) sites

  decide_from_national_enters :
      (input : AutoSourceInput numbers) (candidate : Option String) (spent : Bool) (icao : String)
      → (decide_from_national numbers distance_m input candidate spent).target ≡ site icao
      → (candidate ≡ some icao)
        × (at_most (enter_zoom numbers (national_covers numbers input.center)) input.zoom ≡ true)
  unfolding decide_from_national
  decide_from_national_enters input none spent icao h = ground arith
  decide_from_national_enters input (some candidate) spent icao h = ground arith

  held_preference_keeps :
      (input : AutoSourceInput numbers) (sites : List RadarSiteOption) (icao : String)
      → held_preference numbers distance_m input sites ≡ some icao
      → keeps numbers distance_m input.center (find_site icao sites) ≡ true
  unfolding held_preference
  held_preference_keeps input sites icao h = ground arith

  is_other_itself : (icao : String) → is_other (some icao) icao ≡ false
  is_other_itself icao = ground (arith, str_eq_iff icao icao)

  named-map :
      (found : Option RadarSiteOption) (icao : String)
      → named (Option.map (λ s. s.id) found) ≡ some icao
      → (s : RadarSiteOption) × (found ≡ some s) × (s.id ≡ icao)
  unfolding named
  named-map none icao h = ground arith
  named-map (some s) icao h = (s, refl, ground arith)

  nearest_keeps :
      IsOrdered numbers
      → (center : LngLatPoint numbers) (sites : List RadarSiteOption) (s : RadarSiteOption)
      → IsCatalog sites
      → nearest_covering_site numbers distance_m center sites ≡ some s
      → keeps numbers distance_m center (find_site s.id sites) ≡ true
  unfolding nearest_covering_site keeps
  nearest_keeps ordered center sites s catalog h =
      let found = subst (Holds (λ s. find_site s.id sites ≡ some s)) h (
        nearest_from-Holds numbers distance_m (λ s. find_site s.id sites ≡ some s) center none sites
          tt catalog) in
      let range =
        subst (Holds (IsInRange numbers distance_m center)) h
          (nearest_from_lem numbers distance_m ordered center none [] sites tt tt).0 in
      rw found (ordered.transitive _ _ _ range ordered.literals.2)

  -- The site to switch to is kept, once visible: it lies within the range for keeping.
  candidate_keeps :
      IsOrdered numbers
      → (input : AutoSourceInput numbers) (sites : List RadarSiteOption) (preferred : Option String)
        (icao : String)
      → IsCatalog sites
      → held_preference numbers distance_m input sites ≡ preferred
      → candidate_of numbers distance_m input sites preferred ≡ some icao
      → (keeps numbers distance_m input.center (find_site icao sites) ≡ true)
        × (is_other preferred icao ≡ false)
  unfolding candidate_of
  candidate_keeps ordered input sites none icao catalog held h =
      let (s, found, id) = named-map _ icao h in
      (
        subst (λ i. keeps numbers distance_m input.center (find_site i sites) ≡ true) id
            (nearest_keeps ordered input.center sites s catalog found),
        refl,
      )
  candidate_keeps ordered input sites (some preferred) icao catalog held h = (
    held_preference_keeps input sites icao cc,
    subst (λ i. is_other i icao ≡ false) (sym h) (is_other_itself icao),
  )

  enter_exit_zoom :
      IsOrdered numbers
      → (covered : Bool) (zoom : F) → at_most (enter_zoom numbers covered) zoom ≡ true
      → at_most (exit_zoom numbers covered) zoom ≡ true
  enter_exit_zoom ordered true zoom h = ordered.transitive _ _ _ ordered.literals.0 h
  enter_exit_zoom ordered false zoom h = ordered.transitive _ _ _ ordered.literals.1 h

  decide_from_site_stays :
      (input : AutoSourceInput numbers) (sites : List RadarSiteOption) (icao : String)
      (preferred : Option String) (spent : Bool)
      → is_other preferred icao ≡ false
      → at_most (exit_zoom numbers (national_covers numbers input.center)) input.zoom ≡ true
      → keeps numbers distance_m input.center (find_site icao sites) ≡ true
      → (decide_from_site numbers distance_m input sites icao preferred spent).target ≡ site icao
  unfolding decide_from_site
  decide_from_site_stays input sites icao preferred spent same zoom kept =
      rw (same, zoom, kept) refl

  -- When the platform's numbers are ordered and the ids of the catalog differ, a camera for which the policy
  -- leaves National for a site keeps that site once it is visible: the same camera never switches back.
  pub decide_auto_source_settles :
      IsOrdered numbers
      → (input : AutoSourceInput numbers) (sites : List RadarSiteOption) (icao : String)
      → IsCatalog sites
      → input.visible ≡ national
      → (decide_auto_source numbers distance_m input sites).target ≡ site icao
      → (decide_auto_source numbers distance_m (record input { visible = site icao }) sites).target
        ≡ site icao
  unfolding decide_auto_source held_preference candidate_of
  decide_auto_source_settles ordered input sites icao catalog visible h =
      let preferred = held_preference numbers distance_m input sites in
      let (candidate, near) =
        decide_from_national_enters (record input { visible = national }) _ _ icao
          (rw visible at h) in
      let (kept, same) =
        candidate_keeps ordered input sites preferred icao catalog refl candidate in
      decide_from_site_stays (record input { visible = site icao }) sites icao preferred _ same
        (enter_exit_zoom ordered (national_covers numbers input.center) input.zoom near) kept
