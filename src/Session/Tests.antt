-- ===== src/Session/Tests.antt =====
-- Concrete sessions: each theorem of src/radar-session applied at one of them.
use mistr.Prelude.{ℕ, ◌≡◌, refl, ◌⊎◌, true, none, List, [], ◌∷◌, arith}
use mistr.Sites.{RadarSiteOption, is_supported_radar_site}
use mistr.Session.Source.{
  assert_source_key, assert_generation, RadarPaintIdentity, site, national, same_radar_source,
  site_radar_source,
}
use mistr.Session.Coordinator.{
  new, emit, begin_transition, subscribe, RadarSourceTransition, RadarSessionCoordinator,
  TransitionOptions, snapshot, is_current,
}
use mistr.Session.Calls.{step, run, begins, accepts, fails, cancels, synchronizes, subscribes}
use mistr.Session.Supersede.{superseded_never_settles}
use mistr.Session.Invariant.{new-Inv, run-Inv, Inv}
use mistr.Session.Paint.{Repaint, step-Repaint}
use mistr.Session.Notify.{latest, IsTold, run-IsTold}
use mistr.Session.Adapters.{start_site, acquired}
use mistr.Session.Adapters.Laws.{start_site-Ends}
use mistr.Session.Adapters.Ends.{Ends}

abbrev two_sites : List RadarSiteOption
two_sites =
    record { id = "KTLX"; name = "Oklahoma City" } ∷ record { id = "KVNX"; name = "Vance" } ∷ []

abbrev plain : TransitionOptions
plain = record { persist_on_paint = none; resident_generation = none }

abbrev first_transition : RadarSourceTransition
first_transition = record {
  id = 1;
  requested_source = site "KTLX";
  generation = 5;
  persist_on_paint = true;
}

abbrev second_transition : RadarSourceTransition
second_transition = record {
  id = 2;
  requested_source = national;
  generation = 6;
  persist_on_paint = true;
}

abbrev listened : RadarSessionCoordinator
listened = run two_sites (subscribes 7 ∷ []) (new true)

abbrev after_first : RadarSessionCoordinator
after_first = run two_sites (subscribes 7 ∷ begins (site "KTLX") 5 plain ∷ []) (new true)

abbrev after_second : RadarSessionCoordinator
after_second = run two_sites (begins national 2 plain ∷ []) after_first

abbrev first_paint : RadarPaintIdentity
first_paint = record { source = site "KTLX"; generation = 5; observation_id = "a" }

abbrev second_paint : RadarPaintIdentity
second_paint = record { source = national; generation = 6; observation_id = "b" }

abbrev first_national : RadarSourceTransition
first_national = record {
  id = 1;
  requested_source = national;
  generation = 1;
  persist_on_paint = true;
}

abbrev national_paint : RadarPaintIdentity
national_paint = record { source = national; generation = 1; observation_id = "n" }

superseded_never_settles_example :
    let e = run two_sites (synchronizes first_paint ∷ []) after_second in
    (step two_sites (accepts first_transition first_paint) e ≡ e)
    × (step two_sites (fails first_transition "late") e ≡ e)
unfolding new run step begin_transition emit assert_source_key assert_generation
    is_supported_radar_site subscribe
superseded_never_settles_example =
    superseded_never_settles two_sites national 2 plain after_first after_second second_transition
      first_transition (synchronizes first_paint ∷ []) first_paint "late" (omega arith)
      (omega arith) (omega arith) refl

run-Inv_example : Inv two_sites (
    run two_sites
      (begins (site "KTLX") 5 plain ∷ accepts first_transition first_paint ∷ [])
      (new true))
run-Inv_example =
    run-Inv two_sites (begins (site "KTLX") 5 plain ∷ accepts first_transition first_paint ∷ [])
      (new true) (new-Inv two_sites true)

step-Repaint_example :
    ((step two_sites (accepts second_transition second_paint) after_second).painted
      ≡ after_second.painted)
    ⊎ Repaint
        (accepts second_transition second_paint)
        after_second
        (step two_sites (accepts second_transition second_paint) after_second)
step-Repaint_example = step-Repaint two_sites (accepts second_transition second_paint) after_second

run-IsTold_example : IsTold 7 (run two_sites (begins national 2 plain ∷ cancels 9 ∷ []) listened)
unfolding new run step subscribe latest snapshot
run-IsTold_example =
    run-IsTold two_sites (begins national 2 plain ∷ cancels 9 ∷ []) 7 listened (λ h. refl)

abbrev vance_paint : RadarPaintIdentity
vance_paint = record { source = site "KVNX"; generation = 7; observation_id = "v" }

start_site-Ends_example :
    Ends
      (λ n. "3")
      {T = ℕ}
      two_sites
      (site "KVNX")
      (record { id = 3; requested_source = site "KVNX"; generation = 7; persist_on_paint = true })
      (acquired 3 vance_paint)
      (run two_sites
        (subscribes 9 ∷ [])
        (run two_sites (begins (site "KVNX") 4 plain ∷ []) after_second))
      true
      (start_site
        (λ n. "3")
        (λ s. s)
        (λ s. s)
        two_sites
        "KVNX"
        4
        plain
        (subscribes 9 ∷ [])
        (acquired 3 vance_paint)
        after_second)
unfolding site_radar_source is_supported_radar_site begin_transition assert_source_key
    assert_generation run emit step subscribe new is_current start_site same_radar_source
start_site-Ends_example =
    start_site-Ends (λ n. "3") (λ s. s) (λ s. s) two_sites "KVNX" 4 plain (subscribes 9 ∷ [])
      (acquired 3 vance_paint) after_second
      (run two_sites (begins (site "KVNX") 4 plain ∷ []) after_second) (site "KVNX")
      (record { id = 3; requested_source = site "KVNX"; generation = 7; persist_on_paint = true })
      refl refl
