-- ===== src/National/Loops/Backfill/Laws.antt =====
-- src/national-radar/NationalBackfillLoop.ts: the backfill gives up after so many failures in a row, and it makes
-- progress.
use mistr.Prelude.{
  Bool-cases, is_safe_integer, Result-cases, Result, ok, err, ℕ, zero, suc, ◌+◌, ◌<◌, ◌≡◌, refl,
  sym, subst, ◌≢◌, ◌⊎◌, inl, inr, true, false, Option, none, some, List, [], ◌∷◌, arith,
}
use mistr.National.Loops.{
  returned, unfinished, Ended, Thrown, threw, range_error, error, cancellation_error,
}
use mistr.National.Loops.Backfill.{
  Trace, maximum_retries, backfill_loop, Action, NationalBackfillLoopOptions, partial, committed,
  on_failure, waited, between, hook_superseded, NationalBackfillLoopResult, Step, complete,
  superseded, stopped, stepped, empty, failed, step, run_national_backfill_loop,
}
use mistr.National.Queue.{run}

module _ {E C : Type 0} where
  -- The candidates that were committed.
  abbrev pub commits : List (Action E C) → ℕ
  commits [] = 0
  commits (committed c ∷ actions) = suc (commits actions)
  commits (on_failure e k ∷ actions) = commits actions
  commits (waited k ∷ actions) = commits actions
  commits (between t ∷ actions) = commits actions

  -- The failures since the last commit, when there were `failures` before.
  abbrev pub failures_in_row : ℕ → List (Action E C) → ℕ
  failures_in_row failures [] = failures
  failures_in_row failures (committed c ∷ actions) = failures_in_row 0 actions
  failures_in_row failures (on_failure e k ∷ actions) = failures_in_row (failures + 1) actions
  failures_in_row failures (waited k ∷ actions) = failures_in_row failures actions
  failures_in_row failures (between t ∷ actions) = failures_in_row failures actions

module _ {E C : Type 0} (o : NationalBackfillLoopOptions E C) where
  abbrev pub limit : ℕ
  limit = maximum_retries o.maximum_retry_attempt

  -- The rounds that so many commits allow.
  abbrev allowance : List (Action E C) → ℕ
  allowance [] = limit
  allowance (committed c ∷ actions) = limit + allowance actions
  allowance (on_failure e k ∷ actions) = allowance actions
  allowance (waited k ∷ actions) = allowance actions
  allowance (between t ∷ actions) = allowance actions

  abbrev IsBounded : ℕ → ℕ → Trace E C → Type 0
  IsBounded rounds failures run =
      (run.0 ≡ unfinished → rounds + failures < allowance run.1)
      × (run.0 ≡ returned partial → failures_in_row failures run.1 ≡ limit)
      × (run.0 ≢ returned partial → failures_in_row failures run.1 < limit)

  -- The session is over, or a callback said so.
  abbrev pub IsOver : Type 0
  IsOver = ((t : ℕ) × (o.should_continue t ≡ false)) ⊎ ((e : E) × (o.is_superseded e ≡ true))

  -- What a run can be answered for, at some time: the history is full or has no predecessor left; the session
  -- is over, or a callback said so; a wait failed, which does not mean that the session is over.
  unfoldable pub Caused : Ended (Thrown E) NationalBackfillLoopResult → Type 0
  Caused (returned complete) = (t : ℕ) × ((o.prepare t ≡ ok none) ⊎ (o.reached_limit t ≡ true))
  Caused (returned partial) =
      (t : ℕ) × (e : E) × (o.is_superseded e ≡ false)
      × ((o.prepare t ≡ err e) ⊎ ((c : C) × (o.commit t c ≡ err e)))
  Caused (returned superseded) = IsOver
  Caused (threw range_error) = ⊥
  Caused (threw (cancellation_error e)) = ⊥
  Caused (threw (error e)) =
      (t : ℕ) × (k : ℕ) × (o.wait_before_retry t k ≡ err e)
      × (o.should_continue t ≡ true)
      × (o.is_superseded e ≡ false)
  Caused unfinished = Unit {0}

  complete_empty : (t : ℕ) → o.prepare t ≡ ok none → Caused (returned complete)
  unfolding Caused
  complete_empty t h = (t, inl h)

  complete_limit : (t : ℕ) → o.reached_limit t ≡ true → Caused (returned complete)
  unfolding Caused
  complete_limit t h = (t, inr h)

  superseded_stop : (t : ℕ) → o.should_continue t ≡ false → Caused (returned superseded)
  unfolding Caused
  superseded_stop t h = inl (t, h)

  superseded_error : (e : E) → o.is_superseded e ≡ true → Caused (returned superseded)
  unfolding Caused
  superseded_error e h = inr (e, h)

  superseded_hook :
      (h : Option (ℕ → Result E (Unit {0}))) (t : ℕ)
      → hook_superseded o h t ≡ true
      → Caused (returned superseded)
  unfolding hook_superseded
  superseded_hook none t h = absurd (ground (arith, h))
  superseded_hook (some hook) t h = elim (Result-cases (hook t)) [
    | inl (u, e) ↦ absurd (ground (arith, h))
    | inr (f, e) ↦ superseded_error f (ground (arith, h))
  ]

  threw_wait :
      (t k : ℕ) (e : E)
      → o.wait_before_retry t k ≡ err e
      → o.should_continue t ≡ true
      → o.is_superseded e ≡ false
      → Caused (threw (error e))
  unfolding Caused
  threw_wait t k e h c s = (t, k, h, c, s)

  -- What a step tells of the callbacks.
  abbrev StepTells : ℕ → Step E C → Type 0
  StepTells t empty = o.prepare t ≡ ok none
  StepTells t (stopped c) = o.reached_limit t ≡ true
  StepTells t (stepped c) = o.reached_limit t ≡ false
  StepTells t (failed e) = (o.prepare t ≡ err e) ⊎ ((c : C) × (o.commit t c ≡ err e))

  step-StepTells : (t : ℕ) → StepTells t (step o t)
  unfolding step
  step-StepTells t =
      let tell : (s : Step E C) → step o t ≡ s → StepTells t s → StepTells t (step o t) =
        λ s e h. subst (StepTells t) (sym e) h in
      elim (Result-cases (o.prepare t)) [
        | inr (e, p) ↦ tell (failed e) (ground arith) (inl p)
        | inl (none, p) ↦ tell empty (ground arith) p
        | inl (some c, p) ↦ elim (Result-cases (o.commit t c)) [
          | inr (e, q) ↦ tell (failed e) (ground arith) (inr (c, q))
          | inl (u, q) ↦ elim (Bool-cases (o.reached_limit t)) [
            | inl r ↦ tell (stopped c) (ground arith) r
            | inr r ↦ tell (stepped c) (ground arith) r
          ]
        ]
      ]

  partial_failed :
      (t : ℕ) (e : E)
      → StepTells t (failed e)
      → o.is_superseded e ≡ false
      → Caused (returned partial)
  unfolding Caused
  partial_failed t e h s = (t, e, s, h)

  unfinished_unless : Caused unfinished
  unfolding Caused
  unfinished_unless = tt

  -- One round, from what is known of the rounds after it.
  round-Caused :
      (s : Step E C) (rounds t failures : ℕ)
      → step o t ≡ s
      → Caused (backfill_loop o rounds (t + 4) 0).0
      → Caused (backfill_loop o rounds (t + 4) (failures + 1)).0
      → Caused (backfill_loop o (suc rounds) t failures).0
  unfolding backfill_loop
  round-Caused empty rounds t failures e again retry =
      let tells = subst (StepTells t) e (step-StepTells t) in
      ground (arith, again, retry, superseded_stop t, complete_empty t tells)
  round-Caused (stopped c) rounds t failures e again retry =
      let tells = subst (StepTells t) e (step-StepTells t) in
      ground (arith, again, retry, superseded_stop t, complete_limit t tells)
  round-Caused (stepped c) rounds t failures e again retry = ground (
    arith,
    again,
    retry,
    superseded_stop t,
    superseded_hook o.between_steps (t + 2),
    complete_limit (t + 3),
  )
  round-Caused (failed f) rounds t failures e again retry =
      let tells = subst (StepTells t) e (step-StepTells t) in
      elim (Result-cases (o.wait_before_retry (t + 1) (failures + 1))) [
        | inl (u, w) ↦
            ground
              (arith, again, retry, superseded_stop t, superseded_error f, partial_failed t f tells)
        | inr (g, w) ↦ ground (
          arith,
          superseded_stop t,
          superseded_stop (t + 1),
          superseded_error f,
          superseded_error g,
          partial_failed t f tells,
          threw_wait (t + 1) (failures + 1) g w,
        )
      ]

  backfill_loop-Caused : (rounds t failures : ℕ) → Caused (backfill_loop o rounds t failures).0
  unfolding backfill_loop
  backfill_loop-Caused zero t failures = unfinished_unless
  backfill_loop-Caused (suc rounds) t failures =
      round-Caused (step o t) rounds t failures refl (backfill_loop-Caused rounds (t + 4) 0)
        (backfill_loop-Caused rounds (t + 4) (failures + 1))

  abbrev pub IsLimited : Type 0
  IsLimited = (0 < limit) × (is_safe_integer limit ≡ true)

  -- With a limit in range, each way that a run ends has its cause in an answer of a callback: `complete` in a
  -- full history or a missing predecessor, `partial` in a failed step, `superseded` in a session that is over
  -- or an error that says so, and what is thrown in a failed wait of a session that goes on.
  pub run_national_backfill_loop-Caused :
      (rounds : ℕ) → IsLimited → Caused (run_national_backfill_loop o rounds).0
  unfolding run_national_backfill_loop
  run_national_backfill_loop-Caused rounds h =
      ground (arith, h.0, h.1, backfill_loop-Caused rounds 0 0)
