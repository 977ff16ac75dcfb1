-- ===== src/Session/Paint.antt =====
-- src/radar-session/RadarSessionCoordinator.ts: how the painted source changes, and how it does not.
use mistr.Prelude.{Holds, ok, ◌≤◌, max, ◌≡◌, ◌⊎◌, true, false, none, some, List, arith}
use mistr.Sites.{RadarSiteOption}
use mistr.Session.Source.{same_radar_source, assert_paint_identity, RadarPaintIdentity}
use mistr.Session.Coordinator.{
  emit, begin_transition, is_current, persist, accept_paint, fail_transition, cancel_pending,
  RadarSourceTransition, RadarSessionCoordinator, establish_painted_source, awaits, advances,
  synchronize_paint, subscribe, unsubscribe,
}
use mistr.Session.Calls.{step, begins, Call, accepts, establishes, synchronizes}

-- What `acceptPaint` needs in order to answer true.
abbrev pub Fits : RadarSessionCoordinator → RadarSourceTransition → RadarPaintIdentity → Type 0
Fits c t receipt =
    (is_current c t ≡ true)
    × (receipt.generation ≡ t.generation)
    × (same_radar_source receipt.source t.requested_source ≡ true)

-- A valid receipt is accepted exactly when it fits the pending transition.
pub accept_paint_iff :
    (sites : List RadarSiteOption) (t : RadarSourceTransition) (receipt : RadarPaintIdentity)
    (c : RadarSessionCoordinator)
    → assert_paint_identity sites receipt ≡ ok tt
    → (Fits c t receipt
        × (accept_paint sites t receipt c
            ≡ ok (
              true,
              persist t.persist_on_paint receipt.source (
                  emit (record c {
                    painted = some receipt;
                    generation = max c.generation receipt.generation;
                    transition = none;
                    last_failure = none;
                  })),
            )))
      ⊎ ((¬ Fits c t receipt) × (accept_paint sites t receipt c ≡ ok (false, c)))
unfolding accept_paint
accept_paint_iff sites t receipt c h = ground arith

-- How one call may change what is painted: a receipt that fits the pending transition, one that the caller
-- establishes, or a newer paint of the same source that no pending transition waits for.
abbrev pub Repaint : Call → RadarSessionCoordinator → RadarSessionCoordinator → Type 0
Repaint (accepts t receipt) c d =
    Fits c t receipt × (d.painted ≡ some receipt) × (d.transition ≡ none)
Repaint (establishes receipt) c d = (d.painted ≡ some receipt) × (d.transition ≡ c.transition)
Repaint (synchronizes receipt) c d =
    Holds
      (λ p.
        (same_radar_source p.source receipt.source ≡ true) × (p.generation ≤ receipt.generation))
      c.painted
    × (awaits c.transition receipt ≡ false)
    × (d.painted ≡ some receipt)
    × (d.transition ≡ c.transition)
Repaint _ c d = ⊥

-- Every call leaves what is painted alone, or is one of the three that may repaint, under its conditions. So
-- beginning, failing and cancelling a transition never change what is painted.
pub step-Repaint :
    (sites : List RadarSiteOption) (call : Call) (c : RadarSessionCoordinator)
    → ((step sites call c).painted ≡ c.painted) ⊎ Repaint call c (step sites call c)
unfolding step begin_transition emit accept_paint persist fail_transition cancel_pending
    establish_painted_source synchronize_paint advances subscribe unsubscribe
step-Repaint sites (begins source minimum options) c = ground arith
step-Repaint sites call c = ground arith
