-- ===== src/Transfer/Pipeline/Served.antt =====
-- src/packed-grid/transferPipeline.ts: a transfer that returned has served every item.
use mistr.Prelude.{
  Result-cases, Result, ok, All, ◌≡◌, refl, sym, ap, ◌∙◌, ◌≢◌, ◌⊎◌, inl, inr, List, [], ◌∷◌, ◌++◌,
  arith,
}
use mistr.Transfer.Pipeline.{use_lease, loop, consume_pipelined_leases}
use mistr.Transfer.Pipeline.Steps.{loop-failed, loop-stops, loop-last, loop-next}
use mistr.Transfer.Pipeline.Credits.{IsServed}

snoc-full : {A : Type 0} (xs : List A) (x : A) → (xs ++ x ∷ []) ≢ []
snoc-full [] x e = ground (arith, e)
snoc-full (y ∷ xs) x e = ground (arith, e)

module _ {Item Lease Error : Type 0} (request : Item → Result Error Lease)
    (consume : Lease → Result Error (Unit {0})) (release : Lease → Result Error (Unit {0})) where
  abbrev AllServed : List Item → Type 0
  AllServed items = All (IsServed request consume release) items

  AllServed-append : (xs ys : List Item) → AllServed (xs ++ ys) → AllServed xs × AllServed ys
  AllServed-append [] ys h = (tt, h)
  AllServed-append (x ∷ xs) ys h = let (a, b) = AllServed-append xs ys h.1 in ((h.0, a), b)

  use_lease-Served :
      (item : Item) (lease : Lease)
      → request item ≡ ok lease
      → use_lease request consume release lease ≡ ok tt
      → IsServed request consume release item
  unfolding use_lease
  use_lease-Served item lease got used = record {
    lease = lease;
    got = got;
    uploaded = ground (arith, used);
    let_go = ground (arith, used);
  }

  -- A round that did not fail has acquired its lease and used it.
  round-Served :
      (p : Item) (pending items : List Item)
      → (loop request consume release (p ∷ pending) items).0 ≡ ok tt
      → (lease : Lease) × (request p ≡ ok lease) × (use_lease request consume release lease ≡ ok tt)
  round-Served p pending items h = elim (Result-cases (request p)) [
    | inr (e, failed) ↦
        let f = ap (λ t. t.0) (loop-failed request consume release p pending items e failed) in
        absurd (ground (arith, f, h))
    | inl (lease, got) ↦ elim (Result-cases (use_lease request consume release lease)) [
      | inl (u, used) ↦ (lease, got, used)
      | inr (e, failed) ↦
          let f =
            ap (λ t. t.0) (loop-stops request consume release p pending items lease e got failed) in
          absurd (ground (arith, f, h))
    ]
  ]

  loop-Served :
      (pending items : List Item)
      → (items ≡ [] ⊎ (pending ≢ []))
      → (loop request consume release pending items).0 ≡ ok tt
      → AllServed pending × AllServed items
  loop-Served [] [] out h = (tt, tt)
  loop-Served [] (item ∷ items) out h = absurd (ground (arith, out))
  loop-Served (p ∷ pending) [] out h =
      let (lease, got, used) = round-Served p pending [] h in
      let next = ap (λ t. t.0) (loop-last request consume release p pending lease got used) in
      (
        (use_lease-Served p lease got used, (loop-Served pending [] (inl refl) (sym next ∙ h)).0),
        tt,
      )
  loop-Served (p ∷ pending) (item ∷ items) out h =
      let (lease, got, used) = round-Served p pending (item ∷ items) h in
      let next =
        ap (λ t. t.0) (loop-next request consume release p pending item items lease got used) in
      let rest =
        loop-Served (pending ++ item ∷ []) items (inr (snoc-full pending item)) (sym next ∙ h) in
      let (before, here) = AllServed-append pending (item ∷ []) rest.0 in
      ((use_lease-Served p lease got used, before), (here.0, rest.1))

  -- A transfer that returned has served every item: its request, its upload and the release of its lease
  -- all succeeded.
  pub consume_pipelined_leases_serves :
      (items : List Item)
      → (consume_pipelined_leases request consume release items).0 ≡ ok tt
      → All (IsServed request consume release) items
  unfolding consume_pipelined_leases
  consume_pipelined_leases_serves [] h = tt
  consume_pipelined_leases_serves (a ∷ []) h = (loop-Served (a ∷ []) [] (inl refl) h).0
  consume_pipelined_leases_serves (a ∷ b ∷ items) h =
      let full : ¬ (a ∷ b ∷ [] ≡ []) = λ e. ground (arith, e) in
      let (out, rest) = loop-Served (a ∷ b ∷ []) items (inr full) h in (out.0, (out.1.0, rest))
