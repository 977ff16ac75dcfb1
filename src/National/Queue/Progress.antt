-- ===== src/National/Queue/Progress.antt =====
-- src/national-radar/LatestOnlyAsyncQueue.ts: the queue serves the newest request and comes to rest.
use mistr.Prelude.{ℕ, ◌<◌, ◌≡◌, ◌≢◌, ◌⊎◌, Option, none, some, [], ◌∷◌, arith}
use mistr.National.Queue.{
  resolve_pending, enqueue, settle, finish, step, run, PendingRequest, LatestOnlyAsyncQueue, idle,
  executing, finishes, settles,
}
use mistr.National.Queue.Invariant.{Inv, times_resolved, IsAccounted}

module _ {Q R : Type 0} where
  -- The request that is next, or now, executed.
  abbrev pub Serves : PendingRequest Q → LatestOnlyAsyncQueue Q R → Type 0
  Serves p q = (q.running ≡ executing p) ⊎ (q.pending ≡ some p)

  -- Of a queue whose invariant holds: what is enqueued is executed at once if the queue is idle; else it
  -- replaces what waits, whose promise resolves to null, while the request that executes goes on.
  pub enqueue-Serves :
      (request : Q) (q : LatestOnlyAsyncQueue Q R)
      → Inv q
      → let p : PendingRequest Q = record { ticket = q.next_ticket; request = request } in
        let next = enqueue request q in
        Serves p next
        × ((q.running ≡ idle) → (next.running ≡ executing p) × (next.resolved ≡ q.resolved))
        × ((q.running ≢ idle)
            → (next.running ≡ q.running)
              × (next.pending ≡ some p)
              × (next.resolved ≡ resolve_pending q.pending q.resolved))
  unfolding enqueue
  enqueue-Serves request q i = ground arith

  -- Of a queue whose invariant holds and where the ticket `t`, which was handed out, is accounted for: two
  -- settlements, with the callback before and after them, bring it to rest, and then `t` is resolved, once.
  -- No wake-up is lost.
  pub queue_drains :
      (first second : Option R) (t : ℕ) (q : LatestOnlyAsyncQueue Q R)
      → Inv q
      → IsAccounted t q
      → t < q.next_ticket
      → let rest = run (finishes ∷ settles first ∷ settles second ∷ finishes ∷ []) q in
        (rest.running ≡ idle) × (rest.pending ≡ none) × (times_resolved t rest.resolved ≡ 1)
  unfolding run step settle finish times_resolved
  queue_drains first second t q i h p = ground arith
