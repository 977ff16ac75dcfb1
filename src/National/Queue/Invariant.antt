-- ===== src/National/Queue/Invariant.antt =====
-- src/national-radar/LatestOnlyAsyncQueue.ts: what holds after any sequence of events.
use mistr.Prelude.{
  ltb, ◌==◌, if◌then◌else◌, Holds, ℕ, ◌+◌, ◌≤◌, ◌≡◌, Option, none, some, List, [], ◌∷◌, arith,
}
use mistr.National.Queue.{
  new, enqueue, cancel_pending, settle, finish, step, run, PendingRequest, Running,
  LatestOnlyAsyncQueue, Event, idle, executing, enqueues,
}

abbrev pub active : {Q : Type 0} → Running Q → ℕ
active (executing p) = 1
active _ = 0

abbrev pub waiting : {Q : Type 0} → Option (PendingRequest Q) → ℕ
waiting none = 0
waiting (some p) = 1

-- How often ticket `t` was resolved, is executing, and waits.
unfoldable pub times_resolved : {R : Type 0} → ℕ → List (ℕ × Option R) → ℕ
times_resolved t [] = 0
times_resolved t ((k, outcome) ∷ rest) =
    let n = times_resolved t rest in if k == t then n + 1 else n

abbrev pub executes : {Q : Type 0} → ℕ → Running Q → ℕ
executes t (executing p) = if p.ticket == t then 1 else 0
executes t _ = 0

abbrev pub waits : {Q : Type 0} → ℕ → Option (PendingRequest Q) → ℕ
waits t none = 0
waits t (some p) = if p.ticket == t then 1 else 0

module _ {Q R : Type 0} where
  -- One request executes at most, an idle queue has nothing waiting, and what waits is the newest request.
  pub record Inv (q : LatestOnlyAsyncQueue Q R) : Type 0 where
    pub concurrent : q.concurrent_count ≡ active q.running
    pub exclusive : q.max_concurrent_count ≤ 1
    pub started : q.started_count ≡ q.completed_count + active q.running
    pub failed : q.failed_count ≤ q.completed_count
    pub awake : q.running ≡ idle → q.pending ≡ none
    pub newest : Holds (λ p. p.ticket + 1 ≡ q.next_ticket) q.pending

  pub new-Inv : Inv (new {Q = Q} {R = R})
  unfolding new
  new-Inv = ground arith

  step-Inv : (e : Event Q R) (q : LatestOnlyAsyncQueue Q R) → Inv q → Inv (step e q)
  unfolding step enqueue cancel_pending settle finish
  step-Inv (enqueues request) q h = ground arith
  step-Inv e q h = ground arith

  pub run-Inv : (es : List (Event Q R)) (q : LatestOnlyAsyncQueue Q R) → Inv q → Inv (run es q)
  unfolding run
  run-Inv [] q h = h
  run-Inv (e ∷ es) q h = run-Inv es (step e q) (step-Inv e q h)

  -- Each ticket that was handed out is in one place, once: resolved, executing or waiting.
  abbrev pub IsAccounted : ℕ → LatestOnlyAsyncQueue Q R → Type 0
  IsAccounted t q =
      times_resolved t q.resolved + executes t q.running + waits t q.pending
      ≡ (if ltb t q.next_ticket then 1 else 0)

  step-IsAccounted :
      (e : Event Q R) (t : ℕ) (q : LatestOnlyAsyncQueue Q R)
      → Inv q
      → IsAccounted t q
      → IsAccounted t (step e q)
  unfolding step enqueue cancel_pending settle finish times_resolved
  step-IsAccounted (enqueues request) t q i h = ground arith
  step-IsAccounted e t q i h = ground arith

  -- Of a queue whose invariant holds and where ticket `t` is accounted for, whatever happens, in whatever
  -- order, the same holds after it: one request executes at most, and each ticket that was handed out is
  -- resolved once, or executing, or waiting, and no two of these.
  pub run_accounts :
      (es : List (Event Q R)) (t : ℕ) (q : LatestOnlyAsyncQueue Q R)
      → Inv q
      → IsAccounted t q
      → Inv (run es q) × IsAccounted t (run es q)
  unfolding run
  run_accounts [] t q i h = (i, h)
  run_accounts (e ∷ es) t q i h =
      run_accounts es t (step e q) (step-Inv e q i) (step-IsAccounted e t q i h)
