-- ===== src/National/Loops/Backfill.antt =====
-- src/national-radar/NationalBackfillLoop.ts: `runNationalBackfillLoop`. A round takes four of the times at
-- which the callbacks answer.
pub mod Laws
mod Tests
use mistr.Prelude.{
  ltb, leb, if◌then◌else◌, is_safe_integer, Result, ok, err, ℕ, zero, suc, ◌+◌, Bool, true, false,
  not, ◌||◌, Option, none, some, List, [],
}
use mistr.National.Loops.{Ended, returned, threw, unfinished, Thrown, range_error, error, after}

pub data NationalBackfillLoopResult : Type 0 where
  complete partial superseded : NationalBackfillLoopResult

pub data Action (E C : Type 0) : Type 0 where
  committed : C → Action E C
  on_failure : E → ℕ → Action E C
  waited : ℕ → Action E C
  between : ℕ → Action E C

pub record NationalBackfillLoopOptions (E C : Type 0) : Type 0 where
  pub should_continue : ℕ → Bool
  pub prepare : ℕ → Result E (Option C)
  pub commit : ℕ → C → Result E (Unit {0})
  pub reached_limit : ℕ → Bool
  pub is_superseded : E → Bool
  pub wait_before_retry : ℕ → ℕ → Result E (Unit {0})
  pub between_steps : Option (ℕ → Result E (Unit {0}))
  pub maximum_retry_attempt : Option ℕ

-- What the first `try` block of a round came to.
pub data Step (E C : Type 0) : Type 0 where
  stopped stepped : C → Step E C
  empty : Step E C
  failed : E → Step E C

abbrev pub Trace : Type 0 → Type 0 → Type 0
Trace E C = Ended (Thrown E) NationalBackfillLoopResult × List (Action E C)

-- `options.maximumRetryAttempt ?? 3`.
unfoldable pub maximum_retries : Option ℕ → ℕ
maximum_retries none = 3
maximum_retries (some n) = n

module _ {E C : Type 0} (options : NationalBackfillLoopOptions E C) where
  -- Prepare, commit, and the test of the limit after it.
  unfoldable pub step : ℕ → Step E C
  step t = elim (options.prepare t) [
    | err e ↦ failed e
    | ok none ↦ empty
    | ok (some c) ↦ elim (options.commit t c) [
      | err e ↦ failed e
      | ok _ ↦ if options.reached_limit t then stopped c else stepped c
    ]
  ]

  -- Whether the hook between the steps, if there is one, reports that the session is superseded.
  unfoldable pub hook_superseded : Option (ℕ → Result E (Unit {0})) → ℕ → Bool
  hook_superseded none t = false
  hook_superseded (some hook) t = elim (hook t) [ ok _ ↦ false | err e ↦ options.is_superseded e ]

  unfoldable pub has_hook : Option (ℕ → Result E (Unit {0})) → Bool
  has_hook none = false
  has_hook (some hook) = true

  unfoldable pub backfill_loop : ℕ → ℕ → ℕ → Trace E C
  unfolding step hook_superseded has_hook maximum_retries
  backfill_loop zero t retry_attempt = (unfinished, [])
  backfill_loop (suc rounds) t retry_attempt =
      let rest_after_failure = backfill_loop rounds (t + 4) (retry_attempt + 1) in
      let rest = backfill_loop rounds (t + 4) 0 in
      if not (options.should_continue t) then (returned superseded, []) else elim (step t) [
        | empty ↦ (returned complete, [])
        | stopped c ↦ after (committed c) (returned complete, [])
        | failed e ↦
            if options.is_superseded e
            then (returned superseded, [])
            else after (on_failure e (retry_attempt + 1)) (
                if leb (maximum_retries options.maximum_retry_attempt) (retry_attempt + 1)
                then (returned partial, [])
                else after (waited (retry_attempt + 1))
                    (elim (options.wait_before_retry (t + 1) (retry_attempt + 1)) [
                      | ok _ ↦ rest_after_failure
                      | err e' ↦
                          if not (options.should_continue (t + 1)) || options.is_superseded e'
                          then (returned superseded, [])
                          else (threw (error e'), [])
                    ]))
        | stepped c ↦ after (committed c) (
            if not (has_hook options.between_steps) || not (options.should_continue (t + 2))
            then rest
            else after (between t) (
                if hook_superseded options.between_steps (t + 2)
                then (returned superseded, [])
                else if options.reached_limit (t + 3)
                then (returned complete, [])
                else rest))
      ]

  unfoldable pub run_national_backfill_loop : ℕ → Trace E C
  unfolding backfill_loop maximum_retries
  run_national_backfill_loop rounds =
      let limit = maximum_retries options.maximum_retry_attempt in
      if not (is_safe_integer limit) || ltb limit 1
      then (threw range_error, [])
      else backfill_loop rounds 0 0
