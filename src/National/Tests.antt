-- ===== src/National/Tests.antt =====
-- A concrete queue: each theorem on src/national-radar/LatestOnlyAsyncQueue.ts applied to it.
use mistr.Prelude.{ℕ, ◌≡◌, none, some, [], ◌∷◌, arith}
use mistr.National.Queue.{
  new, enqueue, step, run, LatestOnlyAsyncQueue, idle, enqueues, cancels, finishes, settles,
}
use mistr.National.Queue.Invariant.{times_resolved, new-Inv, IsAccounted, run_accounts, Inv}
use mistr.National.Queue.Progress.{queue_drains}

-- Request 10 executes, and request 12 has replaced request 11.
abbrev three_enqueued : LatestOnlyAsyncQueue ℕ ℕ
three_enqueued = run (enqueues 10 ∷ enqueues 11 ∷ enqueues 12 ∷ []) new

three_enqueued-Inv : Inv three_enqueued
unfolding times_resolved new
three_enqueued-Inv =
    (run_accounts (enqueues 10 ∷ enqueues 11 ∷ enqueues 12 ∷ []) 0 new new-Inv (omega arith)).0

accounted : IsAccounted 2 three_enqueued
unfolding times_resolved new
accounted =
    (run_accounts (enqueues 10 ∷ enqueues 11 ∷ enqueues 12 ∷ []) 2 new new-Inv (omega arith)).1

run_accounts_example :
    Inv (run (settles (some 5) ∷ cancels ∷ []) three_enqueued)
    × IsAccounted 2 (run (settles (some 5) ∷ cancels ∷ []) three_enqueued)
run_accounts_example =
    run_accounts (settles (some 5) ∷ cancels ∷ []) 2 three_enqueued three_enqueued-Inv accounted

queue_drains_example :
    let rest = run (finishes ∷ settles (some 5) ∷ settles none ∷ finishes ∷ []) three_enqueued in
    (rest.running ≡ idle) × (rest.pending ≡ none) × (times_resolved 2 rest.resolved ≡ 1)
unfolding new run step enqueue
queue_drains_example =
    queue_drains (some 5) none 2 three_enqueued three_enqueued-Inv accounted (omega arith)
