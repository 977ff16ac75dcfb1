-- ===== src/Session/Supersede.antt =====
-- src/radar-session/RadarSessionCoordinator.ts: which transition may still settle.
use mistr.Prelude.{
  unsafe_from, ok, length, ℕ, ◌+◌, ◌≤◌, ◌<◌, String, ◌≡◌, true, false, List, [], ◌∷◌, arith,
}
use mistr.Sites.{RadarSiteOption}
use mistr.Session.Source.{same_radar_source_self, RadarSourceKey, RadarPaintIdentity}
use mistr.Session.Coordinator.{
  emit, begin_transition, is_current, persist, accept_paint, fail_transition, cancel_pending,
  establish_painted_source, synchronize_paint, subscribe, unsubscribe, RadarSourceTransition,
  RadarSessionCoordinator, TransitionOptions,
}
use mistr.Session.Calls.{step, Call, begins, run, accepts, fails}

-- Issued, and not the pending transition.
pub record IsStale (t : RadarSourceTransition) (c : RadarSessionCoordinator) : Type 0 where
  pub issued : t.id ≤ c.transition_sequence
  pub idle : is_current c t ≡ false

step-IsStale :
    (sites : List RadarSiteOption) (call : Call) (t : RadarSourceTransition)
    (c : RadarSessionCoordinator)
    → c.transition_sequence < unsafe_from
    → IsStale t c
    → IsStale t (step sites call c)
unfolding step begin_transition emit accept_paint persist fail_transition cancel_pending
    establish_painted_source synchronize_paint subscribe unsubscribe is_current
step-IsStale sites (begins source minimum options) t c room h = ground arith
step-IsStale sites call t c room h = ground arith

sequence-step :
    (sites : List RadarSiteOption) (call : Call) (c : RadarSessionCoordinator)
    → (step sites call c).transition_sequence ≤ c.transition_sequence + 1
unfolding step begin_transition emit accept_paint persist fail_transition cancel_pending
    establish_painted_source synchronize_paint subscribe unsubscribe
sequence-step sites (begins source minimum options) c = ground arith
sequence-step sites call c = ground arith

run-IsStale :
    (sites : List RadarSiteOption) (calls : List Call) (t : RadarSourceTransition)
    (c : RadarSessionCoordinator)
    → c.transition_sequence + length calls ≤ unsafe_from
    → IsStale t c
    → IsStale t (run sites calls c)
unfolding run
run-IsStale sites [] t c room h = h
run-IsStale sites (call ∷ calls) t c room h =
    run-IsStale sites calls t (step sites call c) (omega (arith, sequence-step sites call c))
      (step-IsStale sites call t c (omega arith) h)

-- Beginning a transition makes it the pending one and makes every transition issued before it stale.
begin_transition_supersedes :
    (sites : List RadarSiteOption) (source : RadarSourceKey) (minimum : ℕ)
    (options : TransitionOptions) (c d : RadarSessionCoordinator) (t older : RadarSourceTransition)
    → c.transition_sequence < unsafe_from
    → older.id ≤ c.transition_sequence
    → begin_transition sites source minimum options c ≡ ok (t, d)
    → (is_current d t ≡ true) × IsStale older d
unfolding begin_transition emit is_current
begin_transition_supersedes sites source minimum options c d t older room h e =
    ground (arith, same_radar_source_self source)

stale_call :
    (sites : List RadarSiteOption) (t : RadarSourceTransition) (receipt : RadarPaintIdentity)
    (error : String) (c : RadarSessionCoordinator)
    → is_current c t ≡ false
    → (step sites (accepts t receipt) c ≡ c) × (step sites (fails t error) c ≡ c)
unfolding step accept_paint fail_transition
stale_call sites t receipt error c h = ground arith

-- Once a later transition has begun, no transition that was issued before it can settle: whatever calls are
-- made in between, accepting a paint for it and failing it both leave the coordinator as it is. The
-- transition sequence stays below 2^53 throughout.
pub superseded_never_settles :
    (sites : List RadarSiteOption) (source : RadarSourceKey) (minimum : ℕ)
    (options : TransitionOptions) (c d : RadarSessionCoordinator) (t older : RadarSourceTransition)
    (calls : List Call) (receipt : RadarPaintIdentity) (error : String)
    → d.transition_sequence + length calls ≤ unsafe_from
    → c.transition_sequence < unsafe_from
    → older.id ≤ c.transition_sequence
    → begin_transition sites source minimum options c ≡ ok (t, d)
    → let e = run sites calls d in
      (step sites (accepts older receipt) e ≡ e) × (step sites (fails older error) e ≡ e)
superseded_never_settles sites source minimum options c d t older calls receipt error room' room h
      e =
    stale_call sites older receipt error (run sites calls d)
      (run-IsStale sites calls older d room'
        (begin_transition_supersedes sites source minimum options c d t older room h e).1).idle
