-- ===== src/National/Loops/Backfill/Tests.antt =====
-- A backfill of two candidates, the second after a failure: the theorems on
-- src/national-radar/NationalBackfillLoop.ts applied to it.
use mistr.Prelude.{
  leb, ◌==◌, if◌then◌else◌, ok, err, ℕ, ◌≡◌, refl, true, false, none, some, [], ◌∷◌, arith,
}
use mistr.National.Loops.{returned}
use mistr.National.Loops.Backfill.{
  run_national_backfill_loop, NationalBackfillLoopOptions, complete, committed, on_failure, waited,
  between, maximum_retries,
}
use mistr.National.Loops.Backfill.Laws.{Caused, IsLimited, run_national_backfill_loop-Caused}

abbrev two_steps : NationalBackfillLoopOptions ℕ ℕ
two_steps = record {
  should_continue = λ t. true;
  prepare = λ t. if t == 4 then err 1 else if leb 12 t then ok none else ok (some t);
  commit = λ t c. ok tt;
  reached_limit = λ t. false;
  is_superseded = λ e. e == 9;
  wait_before_retry = λ t k. ok tt;
  between_steps = some (λ t. err 1);
  maximum_retry_attempt = none;
}

two_steps_complete : run_national_backfill_loop two_steps 6 ≡ (
  returned complete,
  committed 0 ∷ between 0 ∷ on_failure 1 1 ∷ waited 1 ∷ committed 8 ∷ between 8 ∷ [],
)
unfolding run_national_backfill_loop
two_steps_complete = refl

limited : IsLimited two_steps
unfolding maximum_retries
limited = ground arith

run_national_backfill_loop-Caused_example :
    Caused two_steps (run_national_backfill_loop two_steps 6).0
run_national_backfill_loop-Caused_example = run_national_backfill_loop-Caused two_steps 6 limited
