-- ===== src/National/Loops/Settle/Laws.antt =====
-- src/national-radar/NationalFinalizeLoop.ts and NationalRollbackLoop.ts: how the settling loops end.
use mistr.Prelude.{
  ◌==◌, ==→eq, Bool-cases, Option-cases, is_safe_integer, Result-cases, Result, ok, err, ℕ, zero,
  suc, ◌+◌, ◌*◌, ◌<◌, min, ◌≡◌, sym, subst, ◌⊎◌, inl, inr, true, false, Option, none, some, List,
  [], ◌∷◌, arith,
}
use mistr.National.Loops.Settle.{
  maximum_level, finalize_loop, Options, recovery, finalize_national_history_until_settled, Action,
  attempted, recovered, on_failure, waited,
}
use mistr.National.Loops.{
  Ended, returned, threw, unfinished, range_error, error, cancellation_error, Thrown,
}

module _ {E A : Type 0} (o : Options E A) where
  -- An attempt that was allowed gave this, itself or by the recovery after its failure.
  abbrev pub GaveAt : A → ℕ → Type 0
  GaveAt a t =
      (o.should_continue t ≡ true)
      × ((o.settle t ≡ ok a) ⊎ ((e : E) × (o.settle t ≡ err e) × (o.recover t ≡ ok (some a))))

  abbrev pub FailedAt : ℕ → Type 0
  FailedAt t = (e : E) × (o.settle t ≡ err e) × (recovery (o.recover t) ≡ none)

  -- Why a loop ended: at the attempt of time `t`.
  abbrev pub EndsAt : Ended (Thrown E) A → ℕ → Type 0
  EndsAt (returned a) t = GaveAt a t
  EndsAt (threw range_error) t = ⊥
  EndsAt (threw (error e)) t =
      FailedAt t
      × (((o.settle t ≡ err e) × (o.is_terminal e ≡ true))
          ⊎ ((level : ℕ) × (o.wait_before_retry (t + 1) level ≡ err e)))
  EndsAt (threw (cancellation_error last_error)) t =
      (o.should_continue t ≡ false) ⊎ (FailedAt t × (o.should_continue (t + 1) ≡ false))
  EndsAt unfinished t = ⊥

  recovery-some : (r : Result E (Option A)) (a : A) → recovery r ≡ some a → r ≡ ok (some a)
  unfolding recovery
  recovery-some r a h = ground arith

  -- An attempt that leaves the loop running.
  abbrev pub RetriesAt : ℕ → Type 0
  RetriesAt t = (o.should_continue t ≡ true) × (o.should_continue (t + 1) ≡ true) × FailedAt t

  -- The attempts before number `n` failed, and left the loop running.
  abbrev pub Retries : ℕ → Type 0
  Retries n = (k : ℕ) → k < n → RetriesAt (2 * k)

  -- The loop ended at one of its rounds, after failures only; or all of its rounds have failed.
  abbrev pub Ends : ℕ → Ended (Thrown E) A → Type 0
  Ends rounds unfinished = Retries rounds
  Ends rounds outcome = (k : ℕ) × (k < rounds) × Retries k × EndsAt outcome (2 * k)

  Retries-suc : (n : ℕ) → Retries n → RetriesAt (2 * n) → Retries (n + 1)
  Retries-suc n h here k p = elim (Bool-cases (k == n)) [
    | inl e ↦ subst (λ i. RetriesAt (2 * i)) (sym (==→eq k n e)) here
    | inr e ↦ h k (ground arith)
  ]

  Ends-here :
      (rounds n : ℕ) (outcome : Ended (Thrown E) A)
      → Retries n
      → EndsAt outcome (2 * n)
      → Ends (n + suc rounds) outcome
  Ends-here rounds n unfinished h e = absurd e
  Ends-here rounds n (returned a) h e = (n, omega arith, h, e)
  Ends-here rounds n (threw e') h e = (n, omega arith, h, e)

  finalize_loop-Ends :
      (rounds n level : ℕ) (last_error : Option E)
      → Retries n
      → Ends (n + rounds) (finalize_loop o rounds (2 * n) level last_error).0
  unfolding finalize_loop recovery
  finalize_loop-Ends zero n level last_error h =
      let e : n + zero ≡ n = omega arith in λ k p. h k (omega arith)
  finalize_loop-Ends (suc rounds) n level last_error h =
      let next = min (level + 1) (maximum_level o.maximum_retry_delay_level) in
      let t : 2 * (n + 1) ≡ 2 * n + 2 = omega arith in
      let e : n + 1 + rounds ≡ n + suc rounds = omega arith in
      let ih : (e : E)
          → RetriesAt (2 * n)
          → Ends (n + suc rounds) (finalize_loop o rounds (2 * n + 2) next (some e)).0 =
        λ error r.
          subst (λ i. Ends i (finalize_loop o rounds (2 * n + 2) next (some error)).0) e
            (subst (λ i. Ends (n + 1 + rounds) (finalize_loop o rounds i next (some error)).0) t
              (finalize_loop-Ends rounds (n + 1) next (some error) (Retries-suc n h r))) in
      let run = finalize_loop o (suc rounds) (2 * n) level last_error in
      let stop : (outcome : Ended (Thrown E) A)
          → run.0 ≡ outcome
          → EndsAt outcome (2 * n)
          → Ends (n + suc rounds) run.0 =
        λ outcome e x. subst (Ends (n + suc rounds)) (sym e) (Ends-here rounds n outcome h x) in
      let go_on : (f : E)
          → run.0 ≡ (finalize_loop o rounds (2 * n + 2) next (some f)).0
          → RetriesAt (2 * n)
          → Ends (n + suc rounds) run.0 =
        λ f e r. subst (Ends (n + suc rounds)) (sym e) (ih f r) in
      elim (Bool-cases (o.should_continue (2 * n))) [
        | inr c ↦ stop (threw (cancellation_error last_error)) (ground arith) (inl c)
        | inl c ↦ elim (Result-cases (o.settle (2 * n))) [
          | inl (a, s) ↦ stop (returned a) (ground arith) (c, inl s)
          | inr (f, s) ↦ elim (Option-cases (recovery (o.recover (2 * n)))) [
            | inr (a, r) ↦
                stop (returned a) (ground arith)
                  (c, inr (f, s, recovery-some (o.recover (2 * n)) a r))
            | inl r ↦ elim (Bool-cases (o.is_terminal f)) [
              | inl x ↦ stop (threw (error f)) (ground arith) ((f, s, r), inl (s, x))
              | inr x ↦ elim (Bool-cases (o.should_continue (2 * n + 1))) [
                | inr d ↦
                    stop (threw (cancellation_error (some f))) (ground arith) (inr ((f, s, r), d))
                | inl d ↦ elim (Result-cases (o.wait_before_retry (2 * n + 1) next)) [
                  | inr (w, y) ↦ stop (threw (error w)) (ground arith) ((f, s, r), inr (next, y))
                  | inl (u, y) ↦ go_on f (ground arith) (c, d, (f, s, r))
                ]
              ]
            ]
          ]
        ]
      ]

  -- The levels of the delays that were waited, in order.
  abbrev pub levels : List (Action E) → List ℕ
  levels [] = []
  levels (waited level ∷ actions) = level ∷ levels actions
  levels (on_failure e level ∷ actions) = levels actions
  levels (attempted t ∷ actions) = levels actions
  levels (recovered t ∷ actions) = levels actions

  abbrev pub Rises : ℕ → List ℕ → Type 0
  Rises level [] = Unit {0}
  Rises level (l ∷ ls) =
      (l ≡ min (level + 1) (maximum_level o.maximum_retry_delay_level)) × Rises l ls

  finalize_loop-Rises :
      (rounds t level : ℕ) (last_error : Option E)
      → Rises level (levels (finalize_loop o rounds t level last_error).1)
  unfolding finalize_loop
  finalize_loop-Rises zero t level last_error = tt
  finalize_loop-Rises (suc rounds) t level last_error =
      let next = min (level + 1) (maximum_level o.maximum_retry_delay_level) in
      let ih = finalize_loop-Rises rounds (t + 2) next in
      elim (Result-cases (o.settle t)) [
        | inl (a, s) ↦ ground arith
        | inr (e, s) ↦ ground (arith, ih (some e))
      ]

  -- The limit of the delay levels is one that the loops take.
  abbrev pub IsLimited : Type 0
  IsLimited =
      let level = maximum_level o.maximum_retry_delay_level in
      (0 < level) × (is_safe_integer level ≡ true)

  -- With a limit in range, finalization ends for a reason: it returns what an allowed attempt or its recovery
  -- gave, and throws only a terminal error, an error of the wait, or the cancellation that the caller asked
  -- for; each attempt before failed while the session was current. It runs out of rounds only if each of them
  -- failed so. The delay levels that it waits at rise by one from 1 and stay at the limit.
  pub finalize-Ends :
      (rounds : ℕ)
      → IsLimited
      → let run = finalize_national_history_until_settled o rounds in
        Ends rounds run.0 × Rises 0 (levels run.1)
  unfolding finalize_national_history_until_settled
  finalize-Ends rounds h =
      let z : 0 + rounds ≡ rounds = omega arith in
      let ends =
        subst (λ i. Ends i (finalize_loop o rounds 0 0 none).0) z
          (finalize_loop-Ends rounds 0 0 none (λ k p. absurd (omega arith))) in
      let rises = finalize_loop-Rises rounds 0 0 none in
      let e : finalize_national_history_until_settled o rounds ≡ finalize_loop o rounds 0 0 none =
        ground (arith, h.0, h.1) in
      (rw e ends, rw e rises)
