-- ===== src/Session/Calls.antt =====
-- src/radar-session/RadarSessionCoordinator.ts: sequences of method calls. A call that throws leaves the
-- coordinator as it was.
use mistr.Prelude.{Result, ok, err, ℕ, String, List, [], ◌∷◌}
use mistr.Sites.{RadarSiteOption}
use mistr.Session.Source.{RadarSourceKey, RadarPaintIdentity, SessionError}
use mistr.Session.Coordinator.{
  begin_transition, accept_paint, fail_transition, cancel_pending, establish_painted_source,
  synchronize_paint, subscribe, unsubscribe, RadarSourceTransition, RadarSessionCoordinator,
  TransitionOptions,
}

pub data Call : Type 0 where
  begins : RadarSourceKey → ℕ → TransitionOptions → Call
  accepts : RadarSourceTransition → RadarPaintIdentity → Call
  fails : RadarSourceTransition → String → Call
  cancels : ℕ → Call
  establishes synchronizes : RadarPaintIdentity → Call
  subscribes unsubscribes : ℕ → Call

abbrev pub after :
    {A : Type 0}
    → RadarSessionCoordinator
    → Result SessionError (A × RadarSessionCoordinator)
    → RadarSessionCoordinator
after c (ok (_, d)) = d
after c (err _) = c

abbrev pub after_unit :
    RadarSessionCoordinator → Result SessionError RadarSessionCoordinator → RadarSessionCoordinator
after_unit c (ok d) = d
after_unit c (err _) = c

unfoldable pub step :
    List RadarSiteOption → Call → RadarSessionCoordinator → RadarSessionCoordinator
step sites (begins source minimum options) c =
    after c (begin_transition sites source minimum options c)
step sites (accepts t receipt) c = after c (accept_paint sites t receipt c)
step sites (fails t error) c = (fail_transition t error c).1
step sites (cancels minimum) c = after_unit c (cancel_pending minimum c)
step sites (establishes receipt) c = after_unit c (establish_painted_source sites receipt c)
step sites (synchronizes receipt) c = after c (synchronize_paint sites receipt c)
step sites (subscribes l) c = subscribe l c
step sites (unsubscribes l) c = unsubscribe l c

unfoldable pub run :
    List RadarSiteOption → List Call → RadarSessionCoordinator → RadarSessionCoordinator
run sites [] c = c
run sites (call ∷ calls) c = run sites calls (step sites call c)
