-- ===== src/Session/Adapters/Laws.antt =====
-- src/radar-session/SiteLevel2Session.ts and NationalMrmsSession.ts: how a session's promise settles.
use mistr.Prelude.{
  Bool-cases, Result-cases, Result, ok, err, ℕ, String, ◌≡◌, refl, sym, subst, ◌⊎◌, inl, inr, Bool,
  true, false, Option, none, some, List, arith,
}
use mistr.Sites.{RadarSiteOption}
use mistr.Session.Source.{
  same_radar_source, assert_paint_identity, site_radar_source, RadarSourceKey, RadarPaintIdentity,
  SessionError, site, national,
}
use mistr.Session.Coordinator.{
  emit, begin_transition, is_current, persist, accept_paint, fail_transition, RadarSourceTransition,
  RadarSessionCoordinator, TransitionOptions,
}
use mistr.Session.Adapters.{
  thrown_by_accept, superseded_error, mark_superseded, rethrow_site, rethrow_national, recover,
  after_accept, settle, run_transition, start_site, start_national, ThrownError, Outcome, acquired,
  rejected,
}
use mistr.Session.Adapters.Ends.{IsFailed, IsForeign, IsSuperseded, PaintEnds, Ends}
use mistr.Session.Calls.{run, Call}

accept_paint_stale :
    (sites : List RadarSiteOption) (t : RadarSourceTransition) (paint : RadarPaintIdentity)
    (c : RadarSessionCoordinator)
    → is_current c t ≡ false
    → assert_paint_identity sites paint ≡ ok tt
    → accept_paint sites t paint c ≡ ok (false, c)
unfolding accept_paint
accept_paint_stale sites t paint c h a = ground (arith, h, a)

accept_paint_refused :
    (sites : List RadarSiteOption) (t : RadarSourceTransition) (paint : RadarPaintIdentity)
    (c : RadarSessionCoordinator) (e : SessionError)
    → assert_paint_identity sites paint ≡ err e
    → accept_paint sites t paint c ≡ err e
unfolding accept_paint
accept_paint_refused sites t paint c e a = ground (arith, a)

accept_paint_current :
    (sites : List RadarSiteOption) (t : RadarSourceTransition) (paint : RadarPaintIdentity)
    (c : RadarSessionCoordinator)
    → is_current c t ≡ true
    → assert_paint_identity sites paint ≡ ok tt
    → (IsForeign t paint × (accept_paint sites t paint c ≡ ok (false, c)))
      ⊎ ((d : RadarSessionCoordinator) × (accept_paint sites t paint c ≡ ok (true, d))
          × (d.painted ≡ some paint)
          × (d.transition ≡ none)
          × (paint.generation ≡ t.generation)
          × (same_radar_source paint.source t.requested_source ≡ true))
unfolding accept_paint persist emit
accept_paint_current sites t paint c h a = elim (Result-cases (accept_paint sites t paint c)) [
  | inr (e, r) ↦ absurd (ground (arith, h, a, r))
  | inl ((true, d), r) ↦ inr (
    d,
    r,
    ground (arith, h, a, r),
    ground (arith, h, a, r),
    ground (arith, h, a, r),
    ground (arith, h, a, r),
  )
  | inl ((false, d), r) ↦ inl (ground (arith, h, a, r))
]

module _ (show : ℕ → String) {T : Type 0} where
  recover_current :
      (source : RadarSourceKey) (t : RadarSourceTransition) (e : ThrownError)
      (c : RadarSessionCoordinator)
      → is_current c t ≡ true
      → IsFailed {T = T} source t e c (recover show source t e c)
  unfolding recover rethrow_site rethrow_national fail_transition emit
  recover_current (site icao) t e c h = ground (arith, h)
  recover_current national t e c h = ground (arith, h)

  recover_stale :
      (source : RadarSourceKey) (t : RadarSourceTransition) (e : ThrownError)
      (c : RadarSessionCoordinator)
      → is_current c t ≡ false
      → IsSuperseded show {T = T} source t e c (recover show source t e c)
  unfolding recover rethrow_site rethrow_national mark_superseded fail_transition
  recover_stale (site icao) t e c h = ground (arith, h)
  recover_stale national t e c h = ground (arith, h)

  paint_current :
      (sites : List RadarSiteOption) (source : RadarSourceKey) (t : RadarSourceTransition)
      (value : T) (paint : RadarPaintIdentity) (c : RadarSessionCoordinator)
      (r : Result SessionError (Unit {0}))
      → is_current c t ≡ true
      → assert_paint_identity sites paint ≡ r
      → PaintEnds show source t value paint c r true
          (after_accept show source t value paint c (accept_paint sites t paint c))
  unfolding after_accept
  paint_current sites source t value paint c (ok tt) h a =
      let foreign = recover_current source t (superseded_error show source t.id) c h in
      let End : Result SessionError (Bool × RadarSessionCoordinator) → Type 0 = λ x.
        PaintEnds show source t value paint c (ok tt) true
          (after_accept show source t value paint c x) in
      elim (accept_paint_current sites t paint c h a) [
        | inl (other, x) ↦ subst End (sym x) (inr (other, foreign))
        | inr (d, x, p, n, g, s) ↦ subst End (sym x) (inl (refl, refl, p, n, g, s))
      ]
  paint_current sites source t value paint c (err e) h a =
      let End : Result SessionError (Bool × RadarSessionCoordinator) → Type 0 = λ x.
        IsFailed source t (thrown_by_accept e) c (after_accept show source t value paint c x) in
      subst End (sym (accept_paint_refused sites t paint c e a))
        (recover_current source t (thrown_by_accept e) c h)

  paint_stale :
      (sites : List RadarSiteOption) (source : RadarSourceKey) (t : RadarSourceTransition)
      (value : T) (paint : RadarPaintIdentity) (c : RadarSessionCoordinator)
      (r : Result SessionError (Unit {0}))
      → is_current c t ≡ false
      → assert_paint_identity sites paint ≡ r
      → PaintEnds show source t value paint c r false
          (after_accept show source t value paint c (accept_paint sites t paint c))
  unfolding after_accept
  paint_stale sites source t value paint c (ok tt) h a =
      let End : Result SessionError (Bool × RadarSessionCoordinator) → Type 0 = λ x.
        IsSuperseded show source t (superseded_error show source t.id) c
          (after_accept show source t value paint c x) in
      subst End (sym (accept_paint_stale sites t paint c h a))
        (recover_stale source t (superseded_error show source t.id) c h)
  paint_stale sites source t value paint c (err e) h a =
      let End : Result SessionError (Bool × RadarSessionCoordinator) → Type 0 = λ x.
        IsSuperseded show source t (thrown_by_accept e) c
          (after_accept show source t value paint c x) in
      subst End (sym (accept_paint_refused sites t paint c e a))
        (recover_stale source t (thrown_by_accept e) c h)

  settle_current :
      (sites : List RadarSiteOption) (source : RadarSourceKey) (t : RadarSourceTransition)
      (outcome : Outcome T) (c : RadarSessionCoordinator)
      → is_current c t ≡ true
      → Ends show sites source t outcome c true (settle show sites source t outcome c)
  unfolding settle
  settle_current sites source t (rejected e) c h = recover_current source t e c h
  settle_current sites source t (acquired value paint) c h =
      paint_current sites source t value paint c _ h refl

  settle_stale :
      (sites : List RadarSiteOption) (source : RadarSourceKey) (t : RadarSourceTransition)
      (outcome : Outcome T) (c : RadarSessionCoordinator)
      → is_current c t ≡ false
      → Ends show sites source t outcome c false (settle show sites source t outcome c)
  unfolding settle
  settle_stale sites source t (rejected e) c h = recover_stale source t e c h
  settle_stale sites source t (acquired value paint) c h =
      paint_stale sites source t value paint c _ h refl

  settle-Ends :
      (sites : List RadarSiteOption) (source : RadarSourceKey) (t : RadarSourceTransition)
      (outcome : Outcome T) (c : RadarSessionCoordinator)
      → Ends show sites source t outcome c (is_current c t) (settle show sites source t outcome c)
  settle-Ends sites source t outcome c = elim (Bool-cases (is_current c t)) [
    | inl h ↦ rw h (settle_current sites source t outcome c h)
    | inr h ↦ rw h (settle_stale sites source t outcome c h)
  ]

  -- A Site session of a supported site, whose transition begins, ends in one of three ways. If its transition
  -- is still current after the wait, it resolves with a paint that is then the painted one and fits the
  -- transition, after one call of `onPaintAccepted`; or it throws an error, fails the transition with the
  -- error's message and calls `onTransitionFailed` once, with the site, and what is painted stays: the error
  -- is what `acquireAndPaint` threw, what `acceptPaint` threw of an invalid paint, or, of a valid paint that
  -- is not of the transition's source and generation, that the transition was superseded. If its transition
  -- is no longer current, it calls nothing, leaves the coordinator as the other calls made it, and throws:
  -- an error that says that it was superseded as it is, another object marked as such, and in place of
  -- anything else a new error that says so.
  pub start_site-Ends :
      (trim upper : String → String) (sites : List RadarSiteOption) (icao : String) (next : ℕ)
      (options : TransitionOptions) (meanwhile : List Call) (outcome : Outcome T)
      (c d : RadarSessionCoordinator) (source : RadarSourceKey) (t : RadarSourceTransition)
      → site_radar_source trim upper sites icao ≡ ok source
      → begin_transition sites source next options c ≡ ok (t, d)
      → let e = run sites meanwhile d in
        Ends show sites source t outcome e
          (is_current e t)
          (start_site show trim upper sites icao next options meanwhile outcome c)
  unfolding start_site run_transition
  start_site-Ends trim upper sites icao next options meanwhile outcome c d source t h k =
      rw (h, start_site, k, run_transition)
        (settle-Ends sites source t outcome (run sites meanwhile d))

  -- A National session whose transition begins ends in one of three ways. If its transition is still current
  -- after the wait, it resolves with a paint that is then the painted one and fits the transition, after one
  -- call of `onPaintAccepted`; or it throws the error, fails the transition and calls `onTransitionFailed`
  -- once, and what is painted stays. If its transition is no longer current, it calls nothing, leaves the
  -- coordinator as the other calls made it, and throws an error that says that it was superseded.
  pub start_national-Ends :
      (sites : List RadarSiteOption) (resident : Option ℕ) (next : ℕ) (meanwhile : List Call)
      (outcome : Outcome T) (c d : RadarSessionCoordinator) (t : RadarSourceTransition)
      → begin_transition sites national next
          (record { persist_on_paint = none; resident_generation = resident })
          c
        ≡ ok (t, d)
      → let e = run sites meanwhile d in
        Ends show sites national t outcome e
          (is_current e t)
          (start_national show sites resident next meanwhile outcome c)
  unfolding start_national run_transition
  start_national-Ends sites resident next meanwhile outcome c d t k =
      rw (k, run_transition) (settle-Ends sites national t outcome (run sites meanwhile d))
