-- ===== src/National/Loops/Settle.antt =====
-- src/national-radar/NationalFinalizeLoop.ts and NationalRollbackLoop.ts: the loops that retry until the
-- mutation of the history is settled.
pub mod Laws
mod Tests
use mistr.Prelude.{
  ltb, if◌then◌else◌, is_safe_integer, Result, ok, err, ℕ, zero, suc, ◌+◌, min, Bool, not, ◌||◌,
  Option, none, some, List, [],
}
use mistr.National.Loops.{
  after, Ended, Thrown, returned, threw, unfinished, range_error, error, cancellation_error,
}
use mistr.National.Queue.{settle}

pub data Action (E : Type 0) : Type 0 where
  attempted recovered : ℕ → Action E
  on_failure : E → ℕ → Action E
  waited : ℕ → Action E

-- The callbacks. `settle` stands for `finalize` or `rollback`, `recover` for `recoverFinalized` or
-- `recoverRolledBack`; the wait is given the level.
pub record Options (E A : Type 0) : Type 0 where
  pub should_continue : ℕ → Bool
  pub settle : ℕ → Result E A
  pub recover : ℕ → Result E (Option A)
  pub is_terminal : E → Bool
  pub wait_before_retry : ℕ → ℕ → Result E (Unit {0})
  pub maximum_retry_delay_level : Option ℕ

abbrev pub Trace : Type 0 → Type 0 → Type 0
Trace E A = Ended (Thrown E) A × List (Action E)

-- `options.maximumRetryDelayLevel ?? 6`.
unfoldable pub maximum_level : Option ℕ → ℕ
maximum_level none = 6
maximum_level (some level) = level

-- What `recover` may return, a failure of it being caught.
unfoldable pub recovery : {E A : Type 0} → Result E (Option A) → Option A
recovery (ok o) = o
recovery (err e) = none

module _ {E A : Type 0} (options : Options E A) where
  unfoldable pub finalize_loop : ℕ → ℕ → ℕ → Option E → Trace E A
  unfolding recovery maximum_level
  finalize_loop zero t retry_attempt last_error = (unfinished, [])
  finalize_loop (suc rounds) t retry_attempt last_error =
      if not (options.should_continue t)
      then (threw (cancellation_error last_error), [])
      else after (attempted t) (elim (options.settle t) [
        | ok a ↦ (returned a, [])
        | err e ↦ after (recovered t) (elim (recovery (options.recover t)) [
          | some a ↦ (returned a, [])
          | none ↦
              let level =
                min (retry_attempt + 1) (maximum_level options.maximum_retry_delay_level) in
              if options.is_terminal e
              then (threw (error e), [])
              else if not (options.should_continue (t + 1))
              then (threw (cancellation_error (some e)), [])
              else after (on_failure e level) (
                  after (waited level) (elim (options.wait_before_retry (t + 1) level) [
                    | err e' ↦ (threw (error e'), [])
                    | ok _ ↦ finalize_loop rounds (t + 2) level (some e)
                  ]))
        ])
      ])

  -- Finalization: the limit is tested first.
  unfoldable pub finalize_national_history_until_settled : ℕ → Trace E A
  unfolding finalize_loop maximum_level
  finalize_national_history_until_settled rounds =
      let level = maximum_level options.maximum_retry_delay_level in
      if not (is_safe_integer level) || ltb level 1
      then (threw range_error, [])
      else finalize_loop rounds 0 0 none

  unfoldable pub rollback_loop : ℕ → ℕ → ℕ → Option E → Trace E A
  unfolding recovery maximum_level
  rollback_loop zero t retry_delay_level last_error = (unfinished, [])
  rollback_loop (suc rounds) t retry_delay_level last_error =
      if not (options.should_continue t)
      then (threw (cancellation_error last_error), [])
      else after (attempted t) (elim (options.settle t) [
        | ok a ↦ (returned a, [])
        | err e ↦ after (recovered t) (elim (recovery (options.recover t)) [
          | some a ↦ (returned a, [])
          | none ↦
              let level =
                min (retry_delay_level + 1) (maximum_level options.maximum_retry_delay_level) in
              if options.is_terminal e
              then (threw (error e), [])
              else if not (options.should_continue (t + 1))
              then (threw (cancellation_error (some e)), [])
              else after (on_failure e level) (
                  after (waited level) (elim (options.wait_before_retry (t + 1) level) [
                    | err e' ↦ (threw (error e'), [])
                    | ok _ ↦ rollback_loop rounds (t + 2) level (some e)
                  ]))
        ])
      ])

  unfoldable pub rollback_national_history_until_settled : ℕ → Trace E A
  unfolding rollback_loop maximum_level
  rollback_national_history_until_settled rounds =
      let level = maximum_level options.maximum_retry_delay_level in
      if not (is_safe_integer level) || ltb level 1
      then (threw range_error, [])
      else rollback_loop rounds 0 0 none
