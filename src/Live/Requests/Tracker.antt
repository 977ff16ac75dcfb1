-- ===== src/Live/Requests/Tracker.antt =====
-- src/live/siteRequestTracker.ts: the newest request of a site is the current one.
use mistr.Prelude.{
  ◌==◌, unsafe_from, increment, length, ℕ, ◌+◌, ◌≤◌, ◌≡◌, Bool, List, [], ◌∷◌, arith,
}

pub record SiteRequestTracker : Type 0 where
  pub current_request : ℕ

unfoldable pub begin : SiteRequestTracker → ℕ × SiteRequestTracker
begin t = let next = increment t.current_request in (next, record t { current_request = next })

unfoldable pub invalidate : SiteRequestTracker → SiteRequestTracker
invalidate t = record t { current_request = increment t.current_request }

unfoldable pub is_current : ℕ → SiteRequestTracker → Bool
is_current request t = request == t.current_request

pub data Call : Type 0 where
  begins invalidates : Call

unfoldable pub step : Call → SiteRequestTracker → SiteRequestTracker
step begins t = (begin t).1
step invalidates t = invalidate t

unfoldable pub run : List Call → SiteRequestTracker → SiteRequestTracker
run [] t = t
run (call ∷ calls) t = run calls (step call t)

current_request-run :
    (calls : List Call) (t : SiteRequestTracker)
    → t.current_request + length calls ≤ unsafe_from
    → (run calls t).current_request ≡ t.current_request + length calls
unfolding run step begin invalidate
current_request-run [] t h = ground arith
current_request-run (begins ∷ calls) t h = ground (arith, current_request-run calls (begin t).1)
current_request-run (invalidates ∷ calls) t h =
    ground (arith, current_request-run calls (invalidate t))

-- A request is current after any further calls exactly if there were none: each later request and each
-- invalidation makes it stale for good, as long as the counter is below 2^53.
pub request_current_iff :
    (calls : List Call) (t : SiteRequestTracker)
    → t.current_request + 1 + length calls ≤ unsafe_from
    → is_current (begin t).0 (run calls (begin t).1) ≡ (length calls == 0)
unfolding is_current begin
request_current_iff calls t h = ground (arith, current_request-run calls (begin t).1)
