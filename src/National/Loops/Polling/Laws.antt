-- ===== src/National/Loops/Polling/Laws.antt =====
-- src/national-radar/NationalPollingLoop.ts: what the polling loop counts, how long it waits and why it ends.
use mistr.Prelude.{
  Result-cases, Result, ok, err, ℕ, zero, suc, ◌+◌, ◌≤◌, min, ◌≡◌, refl, ap, ◌∙◌, ◌⊎◌, inl, inr,
  true, false, List, [], ◌∷◌, arith,
}
use mistr.National.Loops.Polling.{
  maximum, national_polling_fallback_delay_ms, Action, NationalPollingLoopOptions, on_healthy_poll,
  on_failure, requested_delay, waited, Trace, pause, polling_loop, is_superseding,
  NationalPollingLoopResult, supersedes, stops, superseded, run_national_polling_loop, polled,
  not_strictly_newer, failure,
}
use mistr.National.Loops.{
  Ended, Thrown, returned, threw, unfinished, range_error, error, cancellation_error,
}

-- The wait after so many attempts when no delay was answered: 15 s, 30 s, one minute, then two.
abbrev pub expected_fallback : ℕ → ℕ
expected_fallback zero = 15_000
expected_fallback (suc zero) = 30_000
expected_fallback (suc (suc zero)) = 60_000
expected_fallback _ = 120_000

fallback_expected :
    (attempt : ℕ) → national_polling_fallback_delay_ms attempt ≡ expected_fallback attempt
unfolding national_polling_fallback_delay_ms
fallback_expected zero = refl
fallback_expected (suc zero) = refl
fallback_expected (suc (suc zero)) = refl
fallback_expected (suc (suc (suc n))) =
    let e : min (suc (suc (suc n))) 3 ≡ 3 = omega arith in rw e refl

module _ {E : Type 0} (o : NationalPollingLoopOptions E) where
  abbrev pub limit : ℕ
  limit = maximum o.maximum_attempt

  -- The poll succeeded, or found nothing newer.
  unfoldable pub IsHealthy : ℕ → Type 0
  IsHealthy t =
      (o.poll t ≡ ok tt)
      ⊎ ((e : E) × (o.poll t ≡ err e) × (o.classify_error e ≡ not_strictly_newer))

  polled-IsHealthy : (t : ℕ) (u : Unit {0}) → o.poll t ≡ ok u → IsHealthy t
  unfolding IsHealthy
  polled-IsHealthy t u p = inl p

  stale-IsHealthy :
      (t : ℕ) (e : E) → o.poll t ≡ err e → o.classify_error e ≡ not_strictly_newer → IsHealthy t
  unfolding IsHealthy
  stale-IsHealthy t e p c = inr (e, p, c)

  -- Where in its round the loop is: before the poll, before the request of a delay, after the request, with
  -- its answer, or after the report that the request failed.
  pub data Phase : Type 0 where
    polls asks falls_back : Phase
    answered : Result E ℕ → Phase

  -- The calls of the round at the time `t` and of the later rounds, after so many failures since the last
  -- healthy poll: the failures are counted up to the limit, and the wait is what the request of this round
  -- answered, or the fallback if the request failed.
  abbrev pub Counts : Phase → ℕ → ℕ → List (Action E) → Type 0
  Counts polls t failures [] = Unit {0}
  Counts polls t failures (on_healthy_poll ∷ actions) = IsHealthy t × Counts asks t 0 actions
  Counts polls t failures (on_failure e attempt ∷ actions) =
      (o.poll t ≡ err e)
      × (o.classify_error e ≡ failure)
      × (attempt ≡ min (failures + 1) limit)
      × Counts asks t (failures + 1) actions
  Counts asks t failures [] = Unit {0}
  Counts asks t failures (requested_delay attempt ∷ actions) =
      (attempt ≡ min failures limit)
      × Counts (answered (o.request_delay_ms (t + 1) attempt)) t failures actions
  Counts (answered (ok delay)) t failures (waited delay' ∷ actions) =
      (delay' ≡ delay) × Counts polls (t + 3) failures actions
  Counts (answered (err e)) t failures [] = Unit {0}
  Counts (answered (err e)) t failures (on_failure e' attempt ∷ actions) =
      (e' ≡ e) × (attempt ≡ min (failures + 1) limit) × Counts falls_back t (failures + 1) actions
  Counts falls_back t failures (waited delay ∷ actions) =
      (delay ≡ expected_fallback (min failures limit)) × Counts polls (t + 3) failures actions
  Counts _ t failures _ = ⊥

  pause-Counts :
      (t attempt failures : ℕ) (rest : ℕ → Trace E)
      → attempt ≡ min failures limit
      → ((failures a : ℕ) → a ≡ min failures limit → Counts polls (t + 3) failures (rest a).1)
      → Counts asks t failures (pause o t attempt rest).1
  unfolding pause
  pause-Counts t attempt failures rest h ih =
      let next = min (attempt + 1) limit in
      let same = ih failures attempt h in
      let one_more : next ≡ min (failures + 1) limit = omega (arith, h) in
      let raised = ih (failures + 1) next one_more in
      let fallback = fallback_expected next ∙ ap expected_fallback one_more in
      elim (Result-cases (o.request_delay_ms (t + 1) attempt)) [
        | inl (delay, r) ↦ ground (arith, h, same, r)
        | inr (e, r) ↦ ground (arith, h, raised, r, one_more, fallback)
      ]

  polling_loop-Counts :
      (rounds t attempt failures : ℕ)
      → attempt ≡ min failures limit
      → Counts polls t failures (polling_loop o rounds t attempt).1
  unfolding polling_loop polled
  polling_loop-Counts zero t attempt failures h = tt
  polling_loop-Counts (suc rounds) t attempt failures h =
      let rest = λ (a : ℕ). polling_loop o rounds (t + 3) a in
      let ih : (f a : ℕ) → a ≡ min f limit → Counts polls (t + 3) f (rest a).1 =
        λ f a e. polling_loop-Counts rounds (t + 3) a f e in
      let next = min (attempt + 1) limit in
      let healthy = pause-Counts t 0 0 rest (omega arith) ih in
      let raised = pause-Counts t next (failures + 1) rest (omega (arith, h)) ih in
      elim (Result-cases (o.poll t)) [
        | inl (u, p) ↦ ground (arith, h, p, healthy, polled-IsHealthy t u p)
        | inr (e, p) ↦ ground (arith, h, p, healthy, raised, stale-IsHealthy t e p)
      ]

  -- What a run can be answered for: the session is over, an error says so, or a wait failed.
  unfoldable pub Caused : Ended (Thrown E) NationalPollingLoopResult → Type 0
  Caused (returned stops) = (t : ℕ) × (o.should_continue t ≡ false)
  Caused (returned superseded) =
      (t : ℕ) × (e : E) × (o.classify_error e ≡ supersedes)
      × ((o.poll t ≡ err e) ⊎ ((attempt : ℕ) × (o.request_delay_ms t attempt ≡ err e)))
  Caused (threw (error e)) = (t : ℕ) × (delay : ℕ) × (o.wait t delay ≡ err e)
  Caused (threw range_error) = ⊥
  Caused (threw (cancellation_error e)) = ⊥
  Caused unfinished = Unit {0}

  unfinished_unless : Caused unfinished
  unfolding Caused
  unfinished_unless = tt

  stops_at : (t : ℕ) → o.should_continue t ≡ false → Caused (returned stops)
  unfolding Caused
  stops_at t h = (t, h)

  superseded_poll :
      (t : ℕ) (e : E)
      → o.poll t ≡ err e
      → o.classify_error e ≡ supersedes
      → Caused (returned superseded)
  unfolding Caused
  superseded_poll t e p c = (t, e, c, inl p)

  superseded_delay :
      (t attempt : ℕ) (e : E)
      → o.request_delay_ms t attempt ≡ err e
      → is_superseding (o.classify_error e) ≡ true
      → Caused (returned superseded)
  unfolding Caused is_superseding
  superseded_delay t attempt e p c = (t, e, ground (arith, c), inr (attempt, p))

  threw_wait : (t delay : ℕ) (e : E) → o.wait t delay ≡ err e → Caused (threw (error e))
  unfolding Caused
  threw_wait t delay e h = (t, delay, h)

  -- The wait at the end of a round.
  pause-Caused :
      (t attempt : ℕ) (rest : ℕ → Trace E)
      → ((a : ℕ) → Caused (rest a).0)
      → Caused (pause o t attempt rest).0
  unfolding pause
  pause-Caused t attempt rest ih =
      let next = min (attempt + 1) limit in
      let fallback = national_polling_fallback_delay_ms next in
      let stop = stops_at (t + 1) in
      let stop' = stops_at (t + 2) in
      elim (Result-cases (o.request_delay_ms (t + 1) attempt)) [
        | inl (delay, r) ↦ elim (Result-cases (o.wait (t + 2) delay)) [
          | inl (u, w) ↦ ground (arith, stop, ih attempt)
          | inr (e, w) ↦ ground (arith, stop, threw_wait (t + 2) delay e w)
        ]
        | inr (e, r) ↦
            let over = superseded_delay (t + 1) attempt e r in
            elim (Result-cases (o.wait (t + 2) fallback)) [
              | inl (u, w) ↦ ground (arith, stop, stop', over, ih next)
              | inr (e', w) ↦ ground (arith, stop, stop', over, threw_wait (t + 2) fallback e' w)
            ]
      ]

  polling_loop-Caused : (rounds t attempt : ℕ) → Caused (polling_loop o rounds t attempt).0
  unfolding polling_loop
  polling_loop-Caused zero t attempt = unfinished_unless
  polling_loop-Caused (suc rounds) t attempt =
      let rest = λ (a : ℕ). polling_loop o rounds (t + 3) a in
      let ih : (a : ℕ) → Caused (rest a).0 = λ a. polling_loop-Caused rounds (t + 3) a in
      let healthy = pause-Caused t 0 rest ih in
      let raised = pause-Caused t (min (attempt + 1) limit) rest ih in
      let stop = stops_at t in
      elim (Result-cases (o.poll t)) [
        | inl (u, p) ↦ ground (arith, stop, healthy)
        | inr (e, p) ↦ ground (arith, stop, healthy, raised, superseded_poll t e p)
      ]

  abbrev pub IsLimited : Type 0
  IsLimited = limit ≤ 10

  in_range :
      (rounds : ℕ) → IsLimited → run_national_polling_loop o rounds ≡ polling_loop o rounds 0 0
  unfolding run_national_polling_loop
  in_range rounds h = ground (arith, h)

  -- With a limit from 0 to 10, the attempts that the loop reports and asks delays for are its failures since
  -- the last healthy poll, one that succeeded or found nothing newer, counted up to the limit. In each round the wait is the delay that the request of
  -- that round answered or, if that request failed, and only then, 15 s, 30 s, one minute or two by the
  -- attempts. No failure ends the loop: it stops only when the session is over, is superseded only by an
  -- error that says so, and throws only an error of the wait.
  pub run_national_polling_loop-Counts :
      (rounds : ℕ)
      → IsLimited
      → let run = run_national_polling_loop o rounds in Counts polls 0 0 run.1 × Caused run.0
  run_national_polling_loop-Counts rounds h =
      rw (in_range rounds h)
        (polling_loop-Counts rounds 0 0 0 (omega arith), polling_loop-Caused rounds 0 0)
