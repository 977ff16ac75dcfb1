-- ===== src/Transfer/Pipeline/Leases.antt =====
-- src/packed-grid/transferPipeline.ts: every lease that was acquired is released.
use mathlib.Core.List.{append-nil, append_assoc}
use mistr.Prelude.{
  Result-cases, Result, ok, err, ◌≡◌, refl, sym, ap, ◌∙◌, inl, inr, List, [], ◌∷◌, ◌++◌, arith,
}
use mistr.Transfer.Pipeline.{
  drain, Action, requested, consumed, released, use_lease, loop, consume_pipelined_leases,
}
use mistr.Transfer.Pipeline.Steps.{loop-nil, loop-failed, loop-stops, loop-last, loop-next}

module _ {Item Lease : Type 0} where
  abbrev pub requests : List (Action Item Lease) → List Item
  requests [] = []
  requests (requested item ∷ actions) = item ∷ requests actions
  requests (consumed lease ∷ actions) = requests actions
  requests (released lease ∷ actions) = requests actions

  abbrev pub releases : List (Action Item Lease) → List Lease
  releases [] = []
  releases (requested item ∷ actions) = releases actions
  releases (consumed lease ∷ actions) = releases actions
  releases (released lease ∷ actions) = lease ∷ releases actions

  abbrev pub consumptions : List (Action Item Lease) → List Lease
  consumptions [] = []
  consumptions (requested item ∷ actions) = consumptions actions
  consumptions (consumed lease ∷ actions) = lease ∷ consumptions actions
  consumptions (released lease ∷ actions) = consumptions actions

module _ {Item Lease Error : Type 0} (request : Item → Result Error Lease)
    (consume : Lease → Result Error (Unit {0})) (release : Lease → Result Error (Unit {0})) where
  -- The leases that the requests for these items acquire, in order.
  unfoldable pub acquired : List Item → List Lease
  acquired [] = []
  acquired (item ∷ items) =
      let rest = acquired items in elim (request item) [ ok lease ↦ lease ∷ rest | err e ↦ rest ]

  acquired-append : (xs ys : List Item) → acquired (xs ++ ys) ≡ acquired xs ++ acquired ys
  unfolding acquired
  acquired-append [] ys = refl
  acquired-append (x ∷ xs) ys = ground (arith, acquired-append xs ys)

  releases-drain :
      (pending : List Item) → releases (drain request consume release pending) ≡ acquired pending
  unfolding drain acquired
  releases-drain [] = refl
  releases-drain (item ∷ pending) = ground (arith, releases-drain pending)

  requests-drain : (pending : List Item) → requests (drain request consume release pending) ≡ []
  unfolding drain
  requests-drain [] = refl
  requests-drain (item ∷ pending) = ground (arith, requests-drain pending)

  pub acquired-nil : acquired [] ≡ []
  unfolding acquired
  acquired-nil = refl

  pub acquired-ok :
      (p : Item) (items : List Item) (lease : Lease)
      → request p ≡ ok lease
      → acquired (p ∷ items) ≡ lease ∷ acquired items
  unfolding acquired
  acquired-ok p items lease got = rw (got, acquired)

  acquired-err :
      (p : Item) (items : List Item) (e : Error)
      → request p ≡ err e
      → acquired (p ∷ items) ≡ acquired items
  unfolding acquired
  acquired-err p items e failed = rw (failed, acquired)

  -- All requests that the loop started with or made.
  abbrev started : List Item → List Item → List Item
  started pending items = pending ++ requests (loop request consume release pending items).1

  abbrev Released : List Item → List Item → Type 0
  Released pending items =
      releases (loop request consume release pending items).1 ≡ acquired (started pending items)

  releases-fail :
      (pending : List Item)
      → releases (drain request consume release pending)
        ≡ acquired (pending ++ requests (drain request consume release pending))
  releases-fail pending =
      releases-drain pending
      ∙ ap acquired (sym (ap (λ l. pending ++ l) (requests-drain pending) ∙ append-nil pending))

  releases-loop : (pending items : List Item) → Released pending items
  releases-loop [] items = rw (loop-nil request consume release items) (sym acquired-nil)
  releases-loop (p ∷ pending) [] = elim (Result-cases (request p)) [
    | inr (e, failed) ↦
        rw (loop-failed request consume release p pending [] e failed)
          (releases-fail pending ∙ sym (acquired-err p _ e failed))
    | inl (lease, got) ↦ elim (Result-cases (use_lease request consume release lease)) [
      | inr (e, failed) ↦
          rw (loop-stops request consume release p pending [] lease e got failed)
            (ap (λ l. lease ∷ l) (releases-fail pending) ∙ sym (acquired-ok p _ lease got))
      | inl (done, used) ↦
          rw (loop-last request consume release p pending lease got used)
            (ap (λ l. lease ∷ l) (releases-loop pending []) ∙ sym (acquired-ok p _ lease got))
    ]
  ]
  releases-loop (p ∷ pending) (item ∷ items) = elim (Result-cases (request p)) [
    | inr (e, failed) ↦
        rw (loop-failed request consume release p pending (item ∷ items) e failed)
          (releases-fail pending ∙ sym (acquired-err p _ e failed))
    | inl (lease, got) ↦ elim (Result-cases (use_lease request consume release lease)) [
      | inr (e, failed) ↦
          rw (loop-stops request consume release p pending (item ∷ items) lease e got failed)
            (ap (λ l. lease ∷ l) (releases-fail pending) ∙ sym (acquired-ok p _ lease got))
      | inl (done, used) ↦
          rw (loop-next request consume release p pending item items lease got used) (
            ap (λ l. lease ∷ l)
              (releases-loop (pending ++ item ∷ []) items
                ∙ ap acquired (append_assoc pending (item ∷ []) _))
            ∙ sym (acquired-ok p _ lease got))
    ]
  ]

  -- Whatever the requests, the uploads and the releases do, the leases that are released are those that were
  -- acquired, in the order of their requests: none is lost and none is released twice.
  pub consume_pipelined_leases-releases :
      (items : List Item)
      → let actions = (consume_pipelined_leases request consume release items).1 in
        releases actions ≡ acquired (requests actions)
  unfolding consume_pipelined_leases
  consume_pipelined_leases-releases [] = releases-loop [] []
  consume_pipelined_leases-releases (a ∷ []) = releases-loop (a ∷ []) []
  consume_pipelined_leases-releases (a ∷ b ∷ items) = releases-loop (a ∷ b ∷ []) items
