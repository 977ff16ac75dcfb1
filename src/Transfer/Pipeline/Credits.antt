-- ===== src/Transfer/Pipeline/Credits.antt =====
-- src/packed-grid/transferPipeline.ts: two requests are out at most, and uploads are made in order.
use mathlib.Core.List.{append_assoc}
use mistr.Prelude.{
  Result-cases, Result, ok, length, All, length-append, All-append, ℕ, ◌+◌, ◌-◌, ◌≤◌, ◌<◌, ◌≡◌,
  refl, sym, ap, ◌∙◌, inl, inr, List, [], ◌∷◌, ◌++◌, arith,
}
use mistr.Transfer.Pipeline.{
  Trace, drain, use_lease, loop, consume_pipelined_leases, Action, requested, consumed, released,
}
use mistr.Transfer.Pipeline.Steps.{loop-nil, loop-failed, loop-stops, loop-last, loop-next}
use mistr.Transfer.Pipeline.Leases.{requests, consumptions, acquired, acquired-nil, acquired-ok}

-- With `out` requests out, each further request is made while at most one is; a release gives a credit back.
abbrev pub IsCredited : {Item Lease : Type 0} → ℕ → List (Action Item Lease) → Type 0
IsCredited out [] = Unit {0}
IsCredited out (requested item ∷ actions) = (out < 2) × IsCredited (out + 1) actions
IsCredited out (consumed lease ∷ actions) = IsCredited out actions
IsCredited out (released lease ∷ actions) = (0 < out) × IsCredited (out - 1) actions

module _ {Item Lease Error : Type 0} (request : Item → Result Error Lease)
    (consume : Lease → Result Error (Unit {0})) (release : Lease → Result Error (Unit {0})) where
  drain-IsCredited :
      (pending : List Item) (out : ℕ)
      → length pending ≤ out
      → IsCredited out (drain request consume release pending)
  unfolding drain
  drain-IsCredited [] out h = tt
  drain-IsCredited (item ∷ pending) out h =
      ground (arith, drain-IsCredited pending (out - 1), drain-IsCredited pending out)

  loop-IsCredited :
      (pending items : List Item) (out : ℕ)
      → length pending ≡ out
      → out ≤ 2
      → IsCredited out (loop request consume release pending items).1
  loop-IsCredited [] items out e h = rw (loop-nil request consume release items) tt
  loop-IsCredited (p ∷ pending) [] out e h = elim (Result-cases (request p)) [
    | inr (x, failed) ↦
        rw (loop-failed request consume release p pending [] x failed)
          (drain-IsCredited pending out (omega arith))
    | inl (lease, got) ↦ elim (Result-cases (use_lease request consume release lease)) [
      | inr (x, failed) ↦
          rw (loop-stops request consume release p pending [] lease x got failed)
            (omega arith, drain-IsCredited pending (out - 1) (omega arith))
      | inl (done, used) ↦
          rw (loop-last request consume release p pending lease got used)
            (omega arith, loop-IsCredited pending [] (out - 1) (omega arith) (omega arith))
    ]
  ]
  loop-IsCredited (p ∷ pending) (item ∷ items) out e h = elim (Result-cases (request p)) [
    | inr (x, failed) ↦
        rw (loop-failed request consume release p pending (item ∷ items) x failed)
          (drain-IsCredited pending out (omega arith))
    | inl (lease, got) ↦ elim (Result-cases (use_lease request consume release lease)) [
      | inr (x, failed) ↦
          rw (loop-stops request consume release p pending (item ∷ items) lease x got failed)
            (omega arith, drain-IsCredited pending (out - 1) (omega arith))
      | inl (done, used) ↦
          rw (loop-next request consume release p pending item items lease got used) (
            omega arith,
            (
              omega arith,
              loop-IsCredited (pending ++ item ∷ []) items (out - 1 + 1)
                  (omega (arith, length-append pending (item ∷ []))) (omega arith),
            ),
          )
    ]
  ]

  -- Never more than two requests are out: each is made while at most one other is, and each release follows
  -- a request whose lease was still held.
  pub consume_pipelined_leases-IsCredited :
      (items : List Item) → IsCredited 0 (consume_pipelined_leases request consume release items).1
  unfolding consume_pipelined_leases
  consume_pipelined_leases-IsCredited [] = loop-IsCredited [] [] 0 refl (omega arith)
  consume_pipelined_leases-IsCredited (a ∷ []) =
      (omega arith, loop-IsCredited (a ∷ []) [] 1 refl (omega arith))
  consume_pipelined_leases-IsCredited (a ∷ b ∷ items) =
      (omega arith, (omega arith, loop-IsCredited (a ∷ b ∷ []) items 2 refl (omega arith)))

  -- The item's request, upload and release all succeed.
  pub record IsServed (item : Item) : Type 0 where
    pub lease : Lease
    pub got : request item ≡ ok lease
    pub uploaded : consume lease ≡ ok tt
    pub let_go : release lease ≡ ok tt

  use_lease-ok :
      (item : Item) (s : IsServed item) → use_lease request consume release s.lease ≡ ok tt
  unfolding use_lease
  use_lease-ok item s = rw (s.let_go, use_lease) s.uploaded

  -- What the loop does where every item is served.
  abbrev Completes : List Item → List Item → Trace request consume release → Type 0
  Completes pending items t =
      (t.0 ≡ ok tt)
      × (requests t.1 ≡ items)
      × (consumptions t.1 ≡ acquired request consume release (pending ++ items))

  last_step :
      (p : Item) (pending : List Item)
      → IsServed p
      → Completes pending [] (loop request consume release pending [])
      → Completes (p ∷ pending) [] (loop request consume release (p ∷ pending) [])
  last_step p pending s h =
      rw (loop-last request consume release p pending s.lease s.got (use_lease-ok p s)) (
        h.0,
        h.1,
        ap (λ l. s.lease ∷ l) h.2 ∙ sym (acquired-ok request consume release p _ s.lease s.got),
      )

  next_step :
      (p : Item) (pending : List Item) (item : Item) (items : List Item)
      → IsServed p
      → Completes
          (pending ++ item ∷ [])
          items
          (loop request consume release (pending ++ item ∷ []) items)
      → Completes
          (p ∷ pending)
          (item ∷ items)
          (loop request consume release (p ∷ pending) (item ∷ items))
  next_step p pending item items s h =
      rw (loop-next request consume release p pending item items s.lease s.got (use_lease-ok p s)) (
        h.0,
        ap (λ l. item ∷ l) h.1,
        ap (λ l. s.lease ∷ l)
              (h.2 ∙ ap (acquired request consume release) (append_assoc pending (item ∷ []) items))
            ∙ sym (acquired-ok request consume release p _ s.lease s.got),
      )

  loop-Completes :
      (p : Item) (pending items : List Item)
      → IsServed p
      → All IsServed pending
      → All IsServed items
      → Completes (p ∷ pending) items (loop request consume release (p ∷ pending) items)
  loop-Completes p [] [] s hp hi = last_step p [] s (
      rw (loop-nil request consume release [])
        (refl, refl, sym (acquired-nil request consume release)))
  loop-Completes p (q ∷ pending) [] s hp hi =
      last_step p (q ∷ pending) s (loop-Completes q pending [] hp.0 hp.1 tt)
  loop-Completes p [] (item ∷ items) s hp hi =
      next_step p [] item items s (loop-Completes item [] items hi.0 tt hi.1)
  loop-Completes p (q ∷ pending) (item ∷ items) s hp hi = next_step p (q ∷ pending) item items s (
      loop-Completes q (pending ++ item ∷ []) items hp.0
        (All-append IsServed pending (item ∷ []) hp.1 (hi.0, tt)) hi.1)

  -- If every item's request, upload and release succeed, the transfer does: all items are requested in order,
  -- and their leases are uploaded in that order, each once.
  pub consume_pipelined_leases_completes :
      (items : List Item)
      → All IsServed items
      → let t = consume_pipelined_leases request consume release items in
        (t.0 ≡ ok tt)
        × (requests t.1 ≡ items)
        × (consumptions t.1 ≡ acquired request consume release items)
  unfolding consume_pipelined_leases
  consume_pipelined_leases_completes [] h = (
    ap (λ t. t.0) (loop-nil request consume release []),
    refl,
    sym (acquired-nil request consume release),
  )
  consume_pipelined_leases_completes (a ∷ []) h =
      let c = loop-Completes a [] [] h.0 tt tt in (c.0, ap (λ l. a ∷ l) c.1, c.2)
  consume_pipelined_leases_completes (a ∷ b ∷ items) h =
      let c = loop-Completes a (b ∷ []) items h.0 (h.1.0, tt) h.1.1 in
      (c.0, ap (λ l. a ∷ b ∷ l) c.1, c.2)
