-- ===== src/Session/Adapters/Ends.antt =====
-- src/radar-session/SiteLevel2Session.ts and NationalMrmsSession.ts: the ways in which a session ends.
use mistr.Prelude.{
  Result, ok, err, ℕ, String, str_append, ◌≡◌, ◌≢◌, ◌⊎◌, Bool, true, false, none, some, List, [],
  ◌∷◌,
}
use mistr.Sites.{RadarSiteOption}
use mistr.Session.Source.{
  same_radar_source, assert_paint_identity, RadarSourceKey, RadarPaintIdentity, SessionError, site,
  national,
}
use mistr.Session.Coordinator.{RadarSourceTransition, RadarSessionCoordinator}
use mistr.Session.Adapters.{
  radar_source_superseded_error, thrown_by_accept, failed_hook, transition_text, superseded_error,
  ThrownError, Outcome, Settled, Finished, acquired, rejected, paint_accepted, resolved, rethrown,
  marked, replaced_by_superseded,
}

-- Resolved: the value's paint is what is painted, it is of the transition's source and generation, nothing is
-- pending, and `onPaintAccepted` was called once, alone.
abbrev pub IsAccepted :
    {T : Type 0} → RadarSourceTransition → T → RadarPaintIdentity → Finished T → Type 0
IsAccepted t value paint f =
    (f.settled ≡ resolved value)
    × (f.hooks ≡ paint_accepted value paint ∷ [])
    × (f.coordinator.painted ≡ some paint)
    × (f.coordinator.transition ≡ none)
    × (paint.generation ≡ t.generation)
    × (same_radar_source paint.source t.requested_source ≡ true)

-- Failed while current: the error is thrown again, the transition is over with the error as its failure,
-- `onTransitionFailed` was called once, alone, and what is painted stays.
abbrev pub IsFailed :
    {T : Type 0}
    → RadarSourceKey
    → RadarSourceTransition
    → ThrownError
    → RadarSessionCoordinator
    → Finished T
    → Type 0
IsFailed source t e c f =
    (f.settled ≡ rethrown e)
    × (f.hooks ≡ failed_hook source e t.generation ∷ [])
    × (f.coordinator.transition ≡ none)
    × (f.coordinator.last_failure ≡ some e.message)
    × (f.coordinator.painted ≡ c.painted)

-- The paint is of another generation or source than the transition.
abbrev pub IsForeign : RadarSourceTransition → RadarPaintIdentity → Type 0
IsForeign t paint =
    (paint.generation ≢ t.generation) ⊎ (same_radar_source paint.source t.requested_source ≡ false)

module _ (show : ℕ → String) {T : Type 0} where
  -- How a session that is superseded throws an error: one that says so is thrown again; another is marked as
  -- superseded by the Site session, if it is an object, and else replaced by a new error that says so.
  abbrev pub ThrowsSuperseded : RadarSourceKey → ℕ → ThrownError → Settled T → Type 0
  ThrowsSuperseded (site icao) id e settled =
      (e.superseded ≡ true → settled ≡ rethrown e)
      × (e.superseded ≡ false → e.is_object ≡ true → settled ≡ marked e)
      × (e.superseded ≡ false
          → e.is_object ≡ false
          → settled
            ≡ replaced_by_superseded (
                radar_source_superseded_error (
                  transition_text show (site icao) id
                    (str_append " was superseded before completion (" (str_append e.message ")")))))
  ThrowsSuperseded national id e settled =
      (e.superseded ≡ true → settled ≡ rethrown e)
      × (e.superseded ≡ false
          → settled
            ≡ replaced_by_superseded (
                radar_source_superseded_error
                  (transition_text show national id " was superseded before completion")))

  -- Superseded: no callback was called, the coordinator is as the others left it, and an error is thrown.
  abbrev pub IsSuperseded :
      RadarSourceKey
      → RadarSourceTransition
      → ThrownError
      → RadarSessionCoordinator
      → Finished T
      → Type 0
  IsSuperseded source t e c f =
      (f.hooks ≡ []) × (f.coordinator ≡ c) × ThrowsSuperseded source t.id e f.settled

  -- How a session ends that acquired a paint, by what the assertions on the paint say, the state `c` that it
  -- finds after the wait, and whether its transition is still current there.
  abbrev pub PaintEnds :
      RadarSourceKey
      → RadarSourceTransition
      → T
      → RadarPaintIdentity
      → RadarSessionCoordinator
      → Result SessionError (Unit {0})
      → Bool
      → Finished T
      → Type 0
  PaintEnds source t value paint c (err e) true f = IsFailed source t (thrown_by_accept e) c f
  PaintEnds source t value paint c (err e) false f = IsSuperseded source t (thrown_by_accept e) c f
  PaintEnds source t value paint c (ok _) true f =
      IsAccepted t value paint f
      ⊎ (IsForeign t paint × IsFailed source t (superseded_error show source t.id) c f)
  PaintEnds source t value paint c (ok _) false f =
      IsSuperseded source t (superseded_error show source t.id) c f

  -- How a session ends, by what it acquired.
  abbrev pub Ends :
      List RadarSiteOption
      → RadarSourceKey
      → RadarSourceTransition
      → Outcome T
      → RadarSessionCoordinator
      → Bool
      → Finished T
      → Type 0
  Ends sites source t (rejected e) c true f = IsFailed source t e c f
  Ends sites source t (rejected e) c false f = IsSuperseded source t e c f
  Ends sites source t (acquired value paint) c current f =
      PaintEnds source t value paint c (assert_paint_identity sites paint) current f
