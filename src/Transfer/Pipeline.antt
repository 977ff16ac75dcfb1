-- ===== src/Transfer/Pipeline.antt =====
-- src/packed-grid/transferPipeline.ts: `consumePipelinedLeases`. `request`, `consume` and `release` tell how the
-- caller's functions settle. Outcomes are awaited in the order of the items, so the calls and the result do not
-- depend on when a request settles; the calls are listed in order.
pub mod Steps
pub mod Leases
pub mod Credits
pub mod Served
use mistr.Prelude.{Result, ok, err, List, [], ◌∷◌, ◌++◌}

pub data Action (Item Lease : Type 0) : Type 0 where
  requested : Item → Action Item Lease
  consumed released : Lease → Action Item Lease

module _ {Item Lease Error : Type 0} (request : Item → Result Error Lease)
    (consume : Lease → Result Error (Unit {0})) (release : Lease → Result Error (Unit {0})) where
  -- What is left to do returns or throws, after these calls.
  abbrev pub Trace : Type 0
  Trace = Result Error (Unit {0}) × List (Action Item Lease)

  abbrev pub after : Action Item Lease → Trace → Trace
  after a (r, actions) = (r, a ∷ actions)

  -- The `finally` block: the leases of the requests that are still out are released.
  unfoldable pub drain : List Item → List (Action Item Lease)
  drain [] = []
  drain (item ∷ pending) = elim (request item) [
    | ok lease ↦ released lease ∷ drain pending
    | err e ↦ drain pending
  ]

  -- `throw error` with the requests `pending` still out.
  unfoldable pub fail : Error → List Item → Trace
  unfolding drain
  fail e pending = (err e, drain pending)

  -- `try { await consume(lease) } finally { await lease.release() }`: a failing release has the last word.
  unfoldable pub use_lease : Lease → Result Error (Unit {0})
  use_lease lease = elim (release lease) [ ok _ ↦ consume lease | err e ↦ err e ]

  -- The loop, with the requests that are out and the items that are not requested yet.
  unfoldable pub loop : List Item → List Item → Trace
  unfolding fail use_lease
  loop [] items = (ok tt, [])
  loop (p ∷ pending) [] = elim (request p) [
    | err e ↦ fail e pending
    | ok lease ↦ after (consumed lease) (
        after (released lease)
          (elim (use_lease lease) [ err e ↦ fail e pending | ok _ ↦ loop pending [] ]))
  ]
  loop (p ∷ pending) (item ∷ items) = elim (request p) [
    | err e ↦ fail e pending
    | ok lease ↦ after (consumed lease) (
        after (released lease) (elim (use_lease lease) [
          | err e ↦ fail e pending
          | ok _ ↦ after (requested item) (loop (pending ++ item ∷ []) items)
        ]))
  ]

  -- The two `enqueue()` calls give out both credits.
  unfoldable pub consume_pipelined_leases : List Item → Trace
  unfolding loop
  consume_pipelined_leases [] = loop [] []
  consume_pipelined_leases (a ∷ []) = after (requested a) (loop (a ∷ []) [])
  consume_pipelined_leases (a ∷ b ∷ items) =
      after (requested a) (after (requested b) (loop (a ∷ b ∷ []) items))
