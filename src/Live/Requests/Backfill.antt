-- ===== src/Live/Requests/Backfill.antt =====
-- src/live/backfillRetry.ts: `retryBackfillStep`. `acquires k` tells whether attempt `k` succeeds, and
-- `is_current n` answers the `n`-th call of `isCurrent`. The calls made are listed in order.
use mistr.Prelude.{
  ◌==◌, if◌then◌else◌, ℕ, zero, suc, ◌+◌, ◌*◌, ◌^◌, ◌≤◌, ◌≡◌, ◌⊎◌, Bool, true, false, not, ◌||◌,
  List, [], ◌∷◌, arith,
}
use mistr.Live.Requests.Tracker.{is_current}

pub data Action : Type 0 where
  acquired failed waited : ℕ → Action

-- What the rest of a run returns, with the calls it makes.
abbrev pub Trace : Type 0
Trace = Bool × List Action

abbrev pub prefix : Action → Trace → Trace
prefix a (b, actions) = (b, a ∷ actions)

module _ (acquires : ℕ → Bool) (is_current : ℕ → Bool) where
  -- `rounds` counts the attempts left; `n` is the number of times that `isCurrent` was called.
  unfoldable pub attempts : ℕ → ℕ → ℕ → Trace
  attempts zero attempt n = (false, [])
  attempts (suc rounds) attempt n =
      let rest = attempts rounds (attempt + 1) (n + 2) in
      if not (is_current n)
      then (false, [])
      else if acquires attempt
      then (is_current (n + 1), acquired attempt ∷ [])
      else if not (is_current (n + 1)) || attempt == 2
      then (false, failed attempt ∷ [])
      else prefix (failed attempt) (prefix (waited (500 * 2 ^ attempt)) rest)

  unfoldable pub retry_backfill_step : Trace
  unfolding attempts
  retry_backfill_step = attempts 3 0 0

-- The attempts that were made, and the time that was waited.
abbrev pub tried : List Action → ℕ
tried [] = 0
tried (acquired k ∷ actions) = suc (tried actions)
tried (failed k ∷ actions) = suc (tried actions)
tried (waited t ∷ actions) = tried actions

abbrev pub waited_ms : List Action → ℕ
waited_ms [] = 0
waited_ms (waited t ∷ actions) = t + waited_ms actions
waited_ms (acquired k ∷ actions) = waited_ms actions
waited_ms (failed k ∷ actions) = waited_ms actions

-- Of an acquisition that stays current, the step succeeds exactly if one of three attempts does.
pub retry_succeeds_iff :
    (acquires is_current : ℕ → Bool)
    → ((n : ℕ) → is_current n ≡ true)
    → (retry_backfill_step acquires is_current).0 ≡ (acquires 0 || acquires 1 || acquires 2)
unfolding retry_backfill_step
retry_succeeds_iff acquires is_current h = ground (arith, h 0, h 1, h 2, h 3, h 4, h 5)

-- Whatever the acquisition and the ownership do, at most three attempts are made, at most 1.5 s are waited,
-- and the step succeeds only after an attempt that did, with the request still current behind it.
pub retry_bounds :
    (acquires is_current : ℕ → Bool)
    → let (done, actions) = retry_backfill_step acquires is_current in
      (tried actions ≤ 3)
      × (waited_ms actions ≤ 1500)
      × (done ≡ true
          → ((acquires 0 ≡ true) × (is_current 1 ≡ true))
            ⊎ ((acquires 1 ≡ true) × (is_current 3 ≡ true))
            ⊎ ((acquires 2 ≡ true) × (is_current 5 ≡ true)))
unfolding retry_backfill_step
retry_bounds acquires is_current = ground arith
