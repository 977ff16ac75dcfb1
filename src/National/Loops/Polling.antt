-- ===== src/National/Loops/Polling.antt =====
-- src/national-radar/NationalPollingLoop.ts: `runNationalPollingLoop`. A round takes three of the times at which
-- the callbacks answer.
pub mod Laws
mod Tests
use mistr.Prelude.{
  ltb, if◌then◌else◌, is_safe_integer, Result, ok, err, ℕ, zero, suc, ◌+◌, ◌*◌, ◌^◌, min, Bool,
  true, false, not, ◌||◌, Option, none, some, List, [],
}
use mistr.National.Loops.{Ended, returned, threw, unfinished, Thrown, range_error, error, after}

pub data NationalPollingErrorKind : Type 0 where
  supersedes not_strictly_newer failure : NationalPollingErrorKind

pub data NationalPollingLoopResult : Type 0 where
  stops : NationalPollingLoopResult
  superseded : NationalPollingLoopResult

pub data Action (E : Type 0) : Type 0 where
  on_healthy_poll : Action E
  on_failure : E → ℕ → Action E
  requested_delay : ℕ → Action E
  waited : ℕ → Action E

pub record NationalPollingLoopOptions (E : Type 0) : Type 0 where
  pub should_continue : ℕ → Bool
  pub poll : ℕ → Result E (Unit {0})
  pub classify_error : E → NationalPollingErrorKind
  pub request_delay_ms : ℕ → ℕ → Result E ℕ
  pub wait : ℕ → ℕ → Result E (Unit {0})
  pub maximum_attempt : Option ℕ

abbrev pub Trace : Type 0 → Type 0
Trace E = Ended (Thrown E) NationalPollingLoopResult × List (Action E)

-- `options.maximumAttempt ?? 3`.
unfoldable pub maximum : Option ℕ → ℕ
maximum none = 3
maximum (some n) = n

-- The attempts that the loop hands over are whole numbers, for which the source's test never fails.
unfoldable pub national_polling_fallback_delay_ms : ℕ → ℕ
national_polling_fallback_delay_ms attempt = min 120_000 (15_000 * 2 ^ min attempt 3)

-- A poll: the attempt after it and the call that it makes, or none if it is superseded.
unfoldable pub polled : {E : Type 0} → NationalPollingLoopOptions E → ℕ → ℕ → Option (ℕ × Action E)
unfolding maximum
polled options t attempt = elim (options.poll t) [
  | ok _ ↦ some (0, on_healthy_poll)
  | err e ↦ elim (options.classify_error e) [
    | supersedes ↦ none
    | not_strictly_newer ↦ some (0, on_healthy_poll)
    | failure ↦
        let next = min (attempt + 1) (maximum options.maximum_attempt) in
        some (next, on_failure e next)
  ]
]

unfoldable pub is_superseding : NationalPollingErrorKind → Bool
is_superseding supersedes = true
is_superseding _ = false

module _ {E : Type 0} (options : NationalPollingLoopOptions E) where
  -- A round from the second test of `shouldContinue` on; `rest` are the rounds after it.
  unfoldable pub pause : ℕ → ℕ → (ℕ → Trace E) → Trace E
  unfolding maximum is_superseding national_polling_fallback_delay_ms
  pause t attempt rest =
      let next = min (attempt + 1) (maximum options.maximum_attempt) in
      let fallback = national_polling_fallback_delay_ms next in
      if not (options.should_continue (t + 1))
      then (returned stops, [])
      else after (requested_delay attempt) (elim (options.request_delay_ms (t + 1) attempt) [
        | ok delay ↦ after (waited delay) (elim (options.wait (t + 2) delay) [
          | err e ↦ (threw (error e), [])
          | ok _ ↦ rest attempt
        ])
        | err e ↦
            if not (options.should_continue (t + 2))
            then (returned stops, [])
            else if is_superseding (options.classify_error e)
            then (returned superseded, [])
            else after (on_failure e next) (
                after (waited fallback) (elim (options.wait (t + 2) fallback) [
                  | err e' ↦ (threw (error e'), [])
                  | ok _ ↦ rest next
                ]))
      ])

  unfoldable pub polling_loop : ℕ → ℕ → ℕ → Trace E
  unfolding polled pause
  polling_loop zero t attempt = (unfinished, [])
  polling_loop (suc rounds) t attempt =
      if not (options.should_continue t)
      then (returned stops, [])
      else elim (polled options t attempt) [
        | none ↦ (returned superseded, [])
        | some (next, action) ↦ after action (pause t next (λ a. polling_loop rounds (t + 3) a))
      ]

  unfoldable pub run_national_polling_loop : ℕ → Trace E
  unfolding polling_loop maximum
  run_national_polling_loop rounds =
      if not (is_safe_integer (maximum options.maximum_attempt))
        || ltb 10 (maximum options.maximum_attempt)
      then (threw range_error, [])
      else polling_loop rounds 0 0
