-- ===== src/Transfer/Lanes/Tests.antt =====
-- A session in which a second observation of a site is begun before the first is answered: the theorems on
-- src/packed-sweep/transferClient.ts applied to it.
use mistr.Prelude.{ok, err, All, ℕ, ◌≡◌, refl, true, false, some, List, [], ◌∷◌, ◌++◌, arith}
use mistr.Transfer.Lanes.{
  idle_lane, begin_answered, step, run, TransferSnapshot, PackedSweepTransferClient, Begin, Event,
  site, national, stale_response, opens, begins, answers, cancels,
}
use mistr.Transfer.Lanes.Laws.{
  run-IsLaned, stale_begin_ignored, other_lane_untouched, IsLaned, IsPossible,
}

abbrev closed : PackedSweepTransferClient
closed = record {
  session = 0;
  max_generation = 0;
  site_state = idle_lane;
  national_state = idle_lane;
}

abbrev new_session : TransferSnapshot
new_session = record { session = 8; site_lane = some idle_lane; national_lane = some idle_lane }

abbrev begun_at : ℕ → TransferSnapshot
begun_at generation = record {
  session = 8;
  site_lane = some (record { generation = generation; active = true });
  national_lane = some idle_lane;
}

abbrev first_begin : Begin
first_begin = record { session = 8; lane = site; generation = 1 }

abbrev second_begin : Begin
second_begin = record { session = 8; lane = site; generation = 3 }

abbrev two_begins : List Event
two_begins = opens (ok new_session) ∷ begins site 1 ∷ begins national 2 ∷ begins site 3 ∷ []

closed-IsLaned : IsLaned closed
closed-IsLaned = record {
  site_below = omega arith;
  national_below = omega arith;
  apart = λ h. absurd (omega (arith, h));
  site_begun = λ h. absurd (ground (arith, h));
  national_begun = λ h. absurd (ground (arith, h));
}

second_begin_answered :
    run (two_begins ++ answers second_begin (ok (begun_at 3)) ∷ []) closed ≡ (record {
      session = 8;
      max_generation = 3;
      site_state = record { generation = 3; active = true };
      national_state = record { generation = 2; active = false };
    })
unfolding run
second_begin_answered = refl

possible : All IsPossible two_begins
possible = (tt, (tt, (tt, (tt, tt))))

run-IsLaned_example : IsLaned (run two_begins closed)
run-IsLaned_example = run-IsLaned two_begins closed possible closed-IsLaned

two_begins-IsLaned : IsLaned (run two_begins closed)
two_begins-IsLaned = run-IsLaned two_begins closed possible closed-IsLaned

stale_begin_ignored_example :
    let d = run (cancels national ∷ []) (run two_begins closed) in
    ((begin_answered first_begin (ok (begun_at 1)) d).1 ≡ d)
    × ((s : TransferSnapshot) → (begin_answered first_begin (ok s) d).0 ≡ err stale_response)
unfolding run
stale_begin_ignored_example =
    stale_begin_ignored first_begin (ok (begun_at 1)) (cancels national ∷ [])
      (run two_begins closed) two_begins-IsLaned (tt, tt) (tt, tt) (omega arith)

other_lane_untouched_example :
    let c = run two_begins closed in
    ((step (begins site 4) c).national_state ≡ c.national_state)
    × ((step (begins national 4) c).site_state ≡ c.site_state)
    × ((step (cancels site) c).national_state ≡ c.national_state)
    × ((step (cancels national) c).site_state ≡ c.site_state)
    × (site ≡ site
        → (step (answers second_begin (ok (begun_at 3))) c).national_state ≡ c.national_state)
    × (site ≡ national
        → (step (answers second_begin (ok (begun_at 3))) c).site_state ≡ c.site_state)
other_lane_untouched_example =
    other_lane_untouched (run two_begins closed) second_begin (ok (begun_at 3)) 4
