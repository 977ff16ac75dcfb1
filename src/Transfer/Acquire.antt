-- ===== src/Transfer/Acquire.antt =====
-- src/packed-sweep/transferClient.ts: `acquireAllOrRelease`. The requests are given by how they settle.
use mistr.Prelude.{
  Option-cases, ok-injective, Result, ok, err, ◌≡◌, refl, sym, ap, ◌∙◌, subst, inl, inr, Option,
  none, some, List, [], ◌∷◌, map, arith,
}

module _ {E Lease : Type 0} where
  -- The loop: the leases of the requests that succeeded, and the first failure.
  unfoldable pub sort_settled : List (Result E Lease) → List Lease × Option E
  sort_settled [] = ([], none)
  sort_settled (ok lease ∷ settled) =
      let (fulfilled, rejected) = sort_settled settled in (lease ∷ fulfilled, rejected)
  sort_settled (err e ∷ settled) =
      let (fulfilled, rejected) = sort_settled settled in (fulfilled, some e)

  -- What the caller gets, and the leases whose release was called; how these calls settle makes no difference.
  unfoldable pub acquire_all_or_release : List (Result E Lease) → Result E (List Lease) × List Lease
  unfolding sort_settled
  acquire_all_or_release requests =
      let (fulfilled, rejected) = sort_settled requests in
      elim rejected [ none ↦ (ok fulfilled, []) | some e ↦ (err e, fulfilled) ]

  -- The requests in front of a failure are successes.
  abbrev pub AllOk : List (Result E Lease) → List Lease → Type 0
  AllOk requests leases = requests ≡ map ok leases

  -- Each lease is taken from a request, in order, and each request that gave none failed.
  abbrev pub Gathers : List (Result E Lease) → List Lease → Type 0
  Gathers [] leases = leases ≡ []
  Gathers (ok lease ∷ requests) [] = ⊥
  Gathers (ok lease ∷ requests) (l ∷ leases) = (l ≡ lease) × Gathers requests leases
  Gathers (err e ∷ requests) leases = Gathers requests leases

  abbrev pub first_error : List (Result E Lease) → Option E
  first_error [] = none
  first_error (ok lease ∷ requests) = first_error requests
  first_error (err e ∷ requests) = some e

  sort_settled-Gathers :
      (requests : List (Result E Lease))
      → Gathers requests (sort_settled requests).0
        × ((sort_settled requests).1 ≡ first_error requests)
        × (first_error requests ≡ none → AllOk requests (sort_settled requests).0)
  unfolding sort_settled
  sort_settled-Gathers [] = (refl, refl, λ h. refl)
  sort_settled-Gathers (ok lease ∷ requests) =
      let (g, f, a) = sort_settled-Gathers requests in
      ((refl, g), f, λ h. ap (λ x. ok lease ∷ x) (a h))
  sort_settled-Gathers (err e ∷ requests) =
      let (g, f, a) = sort_settled-Gathers requests in (g, refl, λ h. absurd (ground (arith, h)))

  -- All or nothing: the leases are returned, none of them released, only if every request succeeded, and they
  -- are those of the requests, in order; else every lease that was acquired is released, each once, in order,
  -- and the first failure is thrown.
  pub acquire_all_or_release-Gathers :
      (requests : List (Result E Lease))
      → let (r, let_go) = acquire_all_or_release requests in
        ((leases : List Lease) → r ≡ ok leases → AllOk requests leases × (let_go ≡ []))
        × ((e : E) → r ≡ err e → Gathers requests let_go × (first_error requests ≡ some e))
  unfolding acquire_all_or_release
  acquire_all_or_release-Gathers requests =
      let (g, f, a) = sort_settled-Gathers requests in
      let sorted = sort_settled requests in
      let out = acquire_all_or_release requests in
      elim (Option-cases sorted.1) [
        | inl n ↦
            let x : out ≡ (ok sorted.0, []) = ground (arith, n) in
            (
              λ leases h.
                  let same : leases ≡ sorted.0 = ok-injective (sym h ∙ ap (λ o. o.0) x) in
                  (subst (AllOk requests) (sym same) (a (sym f ∙ n)), ap (λ o. o.1) x),
              λ e h. let h' = ap (λ o. o.0) x in absurd (ground (arith, h, h')),
            )
        | inr (e', n) ↦
            let x : out ≡ (err e', sorted.0) = ground (arith, n) in
            (
              λ leases h. let h' = ap (λ o. o.0) x in absurd (ground (arith, h, h')),
              λ e h.
                  let h' = ap (λ o. o.0) x in
                  (subst (Gathers requests) (sym (ap (λ o. o.1) x)) g, ground (arith, h, h', n, f)),
            )
      ]
