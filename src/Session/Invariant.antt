-- ===== src/Session/Invariant.antt =====
-- src/radar-session/RadarSessionCoordinator.ts: what holds of the coordinator between two calls.
use mistr.Prelude.{Holds, ok, ◌≤◌, ◌≡◌, Bool, List, [], ◌∷◌, arith}
use mistr.Sites.{RadarSiteOption}
use mistr.Session.Source.{assert_source_key, assert_generation, assert_paint_identity}
use mistr.Session.Coordinator.{
  new, emit, begin_transition, persist, accept_paint, fail_transition, cancel_pending,
  establish_painted_source, synchronize_paint, subscribe, unsubscribe, RadarSessionCoordinator,
}
use mistr.Session.Calls.{step, run, Call, begins}

-- A pending transition was issued here, for a source that is supported; what is painted passed the checks of
-- a receipt, and its generation is not past the coordinator's own.
pub record Inv (sites : List RadarSiteOption) (c : RadarSessionCoordinator) : Type 0 where
  pub issued : Holds (λ t. t.id ≤ c.transition_sequence) c.transition
  pub supported : Holds (λ t. assert_source_key sites t.requested_source ≡ ok tt) c.transition
  pub positive : Holds (λ t. 1 ≤ t.generation) c.transition
  pub proven : Holds (λ p. assert_paint_identity sites p ≡ ok tt) c.painted
  pub reached : Holds (λ p. p.generation ≤ c.generation) c.painted

pub new-Inv : (sites : List RadarSiteOption) (persists : Bool) → Inv sites (new persists)
unfolding new
new-Inv sites persists = ground arith

step-Inv :
    (sites : List RadarSiteOption) (call : Call) (c : RadarSessionCoordinator)
    → Inv sites c
    → Inv sites (step sites call c)
unfolding step begin_transition emit accept_paint persist fail_transition cancel_pending
    establish_painted_source synchronize_paint subscribe unsubscribe assert_generation
step-Inv sites (begins source minimum options) c h = ground arith
step-Inv sites call c h = ground arith

-- Whatever calls are made of a coordinator whose invariant holds, in whatever order, its invariant holds
-- after them.
pub run-Inv :
    (sites : List RadarSiteOption) (calls : List Call) (c : RadarSessionCoordinator)
    → Inv sites c
    → Inv sites (run sites calls c)
unfolding run
run-Inv sites [] c h = h
run-Inv sites (call ∷ calls) c h = run-Inv sites calls (step sites call c) (step-Inv sites call c h)

-- The generation never goes back.
pub generation-step :
    (sites : List RadarSiteOption) (call : Call) (c : RadarSessionCoordinator)
    → c.generation ≤ (step sites call c).generation
unfolding step begin_transition emit accept_paint persist fail_transition cancel_pending
    establish_painted_source synchronize_paint subscribe unsubscribe
generation-step sites (begins source minimum options) c = ground arith
generation-step sites call c = ground arith
