-- ===== src/National/Loops/Polling/Tests.antt =====
-- A session that polls three times: the theorem on src/national-radar/NationalPollingLoop.ts applied to it.
use mistr.Prelude.{leb, ◌==◌, if◌then◌else◌, ok, err, ℕ, ◌≡◌, refl, none, [], ◌∷◌, arith}
use mistr.National.Loops.{returned}
use mistr.National.Loops.Polling.{
  run_national_polling_loop, NationalPollingLoopOptions, failure, stops, on_healthy_poll,
  on_failure, requested_delay, waited, maximum,
}
use mistr.National.Loops.Polling.Laws.{
  Counts, Caused, IsLimited, run_national_polling_loop-Counts, polls,
}

-- The second poll and the delay after it fail; the session ends after the third.
abbrev three_polls : NationalPollingLoopOptions ℕ
three_polls = record {
  should_continue = λ t. leb t 6;
  poll = λ t. if t == 3 then err 1 else ok tt;
  classify_error = λ e. failure;
  request_delay_ms = λ t attempt. if t == 4 then err 1 else ok 60_000;
  wait = λ t delay. ok tt;
  maximum_attempt = none;
}

three_polls_stop : run_national_polling_loop three_polls 9 ≡ (
  returned stops,
  on_healthy_poll
      ∷ requested_delay 0
      ∷ waited 60_000
      ∷ on_failure 1 1
      ∷ requested_delay 1
      ∷ on_failure 1 2
      ∷ waited 60_000
      ∷ on_healthy_poll
      ∷ [],
)
unfolding run_national_polling_loop
three_polls_stop = refl

limited : IsLimited three_polls
unfolding maximum
limited = ground arith

run_national_polling_loop-Counts_example :
    let run = run_national_polling_loop three_polls 9 in
    Counts three_polls polls 0 0 run.1 × Caused three_polls run.0
run_national_polling_loop-Counts_example = run_national_polling_loop-Counts three_polls 9 limited
