-- ===== src/National/Queue.antt =====
-- src/national-radar/LatestOnlyAsyncQueue.ts: the class as a machine. Its steps are the calls of its methods,
-- `execute`'s promise settling, and the microtask of `running.finally`. A promise that `enqueue` returned is
-- known by its ticket, the number of calls before it; `resolved` lists the tickets that were resolved, newest
-- first, each with its result or null.
pub mod Invariant
pub mod Progress
use mistr.Prelude.{
  if◌then◌else◌, ℕ, ◌+◌, ◌-◌, max, Bool, true, false, not, ◌||◌, Option, none, some, List, [], ◌∷◌,
}

pub record PendingRequest (Q : Type 0) : Type 0 where
  pub ticket : ℕ
  pub request : Q

-- What `runningPromise` stands for: none; a drain that waits for `execute`; a drain that has ended, and whose
-- `finally` callback is still to run.
pub data Running (Q : Type 0) : Type 0 where
  idle : Running Q
  executing : PendingRequest Q → Running Q
  ended : Running Q

pub record LatestOnlyAsyncQueue (Q R : Type 0) : Type 0 where
  pub pending : Option (PendingRequest Q)
  pub running : Running Q
  pub started_count : ℕ
  pub completed_count : ℕ
  pub failed_count : ℕ
  pub replaced_pending_count : ℕ
  pub concurrent_count : ℕ
  pub max_concurrent_count : ℕ
  pub next_ticket : ℕ
  pub resolved : List (ℕ × Option R)

pub record LatestOnlyAsyncQueueSnapshot : Type 0 where
  pub running : Bool
  pub pending : Bool
  pub started_count : ℕ
  pub completed_count : ℕ
  pub failed_count : ℕ
  pub replaced_pending_count : ℕ
  pub max_concurrent_count : ℕ

abbrev pub is_running : {Q : Type 0} → Running Q → Bool
is_running idle = false
is_running _ = true

abbrev pub is_some : {A : Type 0} → Option A → Bool
is_some none = false
is_some (some a) = true

module _ {Q R : Type 0} where
  unfoldable pub new : LatestOnlyAsyncQueue Q R
  new = record {
    pending = none;
    running = idle;
    started_count = 0;
    completed_count = 0;
    failed_count = 0;
    replaced_pending_count = 0;
    concurrent_count = 0;
    max_concurrent_count = 0;
    next_ticket = 0;
    resolved = [];
  }

  -- A round of the loop of `drain` up to its `await`, or the end of the drain.
  unfoldable pub drain :
      Option (PendingRequest Q) → LatestOnlyAsyncQueue Q R → LatestOnlyAsyncQueue Q R
  drain none q = record q { running = ended }
  drain (some p) q = record q {
    pending = none;
    running = executing p;
    started_count = q.started_count + 1;
    concurrent_count = q.concurrent_count + 1;
    max_concurrent_count = max q.max_concurrent_count (q.concurrent_count + 1);
  }

  unfoldable pub start_drain : LatestOnlyAsyncQueue Q R → LatestOnlyAsyncQueue Q R
  unfolding drain
  start_drain q = if is_running q.running || not (is_some q.pending) then q else drain q.pending q

  -- `this.pending?.resolve(null)`.
  unfoldable pub resolve_pending :
      Option (PendingRequest Q) → List (ℕ × Option R) → List (ℕ × Option R)
  resolve_pending none resolved = resolved
  resolve_pending (some p) resolved = (p.ticket, none) ∷ resolved

  unfoldable pub enqueue : Q → LatestOnlyAsyncQueue Q R → LatestOnlyAsyncQueue Q R
  unfolding start_drain resolve_pending
  enqueue request q = start_drain (record q {
    replaced_pending_count =
        if is_some q.pending then q.replaced_pending_count + 1 else q.replaced_pending_count;
    resolved = resolve_pending q.pending q.resolved;
    pending = some (record { ticket = q.next_ticket; request = request });
    next_ticket = q.next_ticket + 1;
  })

  unfoldable pub cancel_pending : LatestOnlyAsyncQueue Q R → LatestOnlyAsyncQueue Q R
  unfolding resolve_pending
  cancel_pending q = record q { resolved = resolve_pending q.pending q.resolved; pending = none }

  -- `execute` settles: `none` is a rejection. The drain goes on to its next round at once.
  unfoldable pub settle_at :
      Running Q → Option R → LatestOnlyAsyncQueue Q R → LatestOnlyAsyncQueue Q R
  unfolding drain
  settle_at (executing p) outcome q = drain q.pending (record q {
    resolved = (p.ticket, outcome) ∷ q.resolved;
    failed_count = if is_some outcome then q.failed_count else q.failed_count + 1;
    concurrent_count = q.concurrent_count - 1;
    completed_count = q.completed_count + 1;
  })
  settle_at _ outcome q = q

  unfoldable pub settle : Option R → LatestOnlyAsyncQueue Q R → LatestOnlyAsyncQueue Q R
  unfolding settle_at
  settle outcome q = settle_at q.running outcome q

  -- The callback of `running.finally`.
  unfoldable pub finish_at : Running Q → LatestOnlyAsyncQueue Q R → LatestOnlyAsyncQueue Q R
  unfolding start_drain
  finish_at ended q = start_drain (record q { running = idle })
  finish_at _ q = q

  unfoldable pub finish : LatestOnlyAsyncQueue Q R → LatestOnlyAsyncQueue Q R
  unfolding finish_at
  finish q = finish_at q.running q

  unfoldable pub snapshot : LatestOnlyAsyncQueue Q R → LatestOnlyAsyncQueueSnapshot
  snapshot q = record {
    running = is_running q.running;
    pending = is_some q.pending;
    started_count = q.started_count;
    completed_count = q.completed_count;
    failed_count = q.failed_count;
    replaced_pending_count = q.replaced_pending_count;
    max_concurrent_count = q.max_concurrent_count;
  }

pub data Event (Q R : Type 0) : Type 0 where
  enqueues : Q → Event Q R
  cancels finishes : Event Q R
  settles : Option R → Event Q R

module _ {Q R : Type 0} where
  unfoldable pub step : Event Q R → LatestOnlyAsyncQueue Q R → LatestOnlyAsyncQueue Q R
  step (enqueues request) q = enqueue request q
  step cancels q = cancel_pending q
  step finishes q = finish q
  step (settles outcome) q = settle outcome q

  unfoldable pub run : List (Event Q R) → LatestOnlyAsyncQueue Q R → LatestOnlyAsyncQueue Q R
  run [] q = q
  run (e ∷ es) q = run es (step e q)
