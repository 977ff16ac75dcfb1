-- ===== src/National/WorkingSet/Laws.antt =====
-- src/national-radar/NationalHistoryWorkingSetController.ts: a staging operation leaves nothing behind.
use mistr.Prelude.{
  Result-cases, ok-injective, Result, ok, err, ℕ, ◌+◌, ◌-◌, ◌≤◌, ◌≡◌, refl, ap, ◌∙◌, inl, inr, List,
  [], ◌∷◌, ◌++◌, arith,
}
use mistr.National.Staging.{
  Staged, and_then, StageError, StageAction, acquired_manifest, released_manifest, began,
  rolled_back_staging, rolled_back_mutation,
}
use mistr.National.WorkingSet.{
  WorkingSetResult, transfer, StagePlan, fetch, plan, present, rollback, conclude, StageOptions,
  stage,
}
use mistr.National.Coverage.{Doubles}
use mistr.PackedGrid.Manifest.{PackedGridManifest}

abbrev pub is_acquired : StageAction → ℕ
is_acquired acquired_manifest = 1
is_acquired _ = 0

abbrev pub is_released : StageAction → ℕ
is_released released_manifest = 1
is_released _ = 0

abbrev pub is_begun : StageAction → ℕ
is_begun began = 1
is_begun _ = 0

abbrev pub is_rolled_back : StageAction → ℕ
is_rolled_back rolled_back_staging = 1
is_rolled_back rolled_back_mutation = 1
is_rolled_back _ = 0

abbrev pub count : (StageAction → ℕ) → List StageAction → ℕ
count f [] = 0
count f (a ∷ actions) = f a + count f actions

count-append :
    (f : StageAction → ℕ) (xs ys : List StageAction) → count f (xs ++ ys) ≡ count f xs + count f ys
count-append f [] ys = omega arith
count-append f (x ∷ xs) ys = omega (arith, count-append f xs ys)

-- 1 of a call that threw.
abbrev pub threw : {X A : Type 0} → Result X A → ℕ
threw (ok a) = 0
threw (err e) = 1

threw-le : {X A : Type 0} (r : Result X A) → threw r ≤ 1
threw-le (ok a) = omega arith
threw-le (err e) = omega arith

module _ {E : Type 0} where
  and_then-count :
      {A B : Type 0} (f : StageAction → ℕ) (m : Staged E A) (k : A → Staged E B) (a : A)
      → m.0 ≡ ok a
      → ((and_then m k).0 ≡ (k a).0) × (count f (and_then m k).1 ≡ count f m.1 + count f (k a).1)
  and_then-count f (ok b, actions) k a h =
      let e : b ≡ a = ok-injective h in
      (
        ap (λ x. (k x).0) e,
        count-append f actions (k b).1 ∙ ap (λ x. count f actions + count f (k x).1) e,
      )
  and_then-count f (err b, actions) k a h = absurd (ground (arith, h))

  and_then-err :
      {A B : Type 0} (m : Staged E A) (k : A → Staged E B) (e : StageError E)
      → m.0 ≡ err e
      → ((and_then m k).0 ≡ err e) × ((and_then m k).1 ≡ m.1)
  and_then-err (ok a, actions) k e h = absurd (ground (arith, h))
  and_then-err (err e', actions) k e h = (ground (arith, h), refl)

module _ (doubles : Doubles) {E : Type 0} (o : StageOptions doubles E) where
  fetch-Released :
      (count is_acquired (fetch doubles o).1 ≡ count is_released (fetch doubles o).1)
      × (count is_begun (fetch doubles o).1 ≡ 0)
      × (count is_rolled_back (fetch doubles o).1 ≡ 0)
  unfolding fetch
  fetch-Released = ground arith

  plan-Begun :
      (version : ℕ) (manifest : PackedGridManifest)
      → (count is_begun (plan doubles o version manifest).1
            + threw (plan doubles o version manifest).0
          ≡ 1)
        × (count is_acquired (plan doubles o version manifest).1 ≡ 0)
        × (count is_released (plan doubles o version manifest).1 ≡ 0)
        × (count is_rolled_back (plan doubles o version manifest).1 ≡ 0)
  unfolding plan
  plan-Begun version manifest = ground arith

  conclude-Rolls_back :
      (p : StagePlan doubles o)
      → (count is_rolled_back (conclude doubles o p).1 ≡ threw (conclude doubles o p).0)
        × (count is_acquired (conclude doubles o p).1 ≡ 0)
        × (count is_released (conclude doubles o p).1 ≡ 0)
        × (count is_begun (conclude doubles o p).1 ≡ 0)
  unfolding conclude present transfer rollback
  conclude-Rolls_back (manifest, coverage, ds) = ground arith

  -- A call that left no lease of a manifest behind, and took back what it began unless it returned.
  abbrev pub Settles : {A : Type 0} → Staged E A → Type 0
  Settles m =
      (count is_acquired m.1 ≡ count is_released m.1)
      × (count is_rolled_back m.1 + (1 - threw m.0) ≡ count is_begun m.1)
      × (count is_begun m.1 ≤ 1)

  same-Settles :
      {A B : Type 0} (m : Staged E A) (n : Staged E B) (e : StageError E)
      → (m.0 ≡ err e) × (m.1 ≡ n.1)
      → n.0 ≡ err e
      → Settles n
      → Settles m
  same-Settles (r, actions) (r', actions') e (h, i) h' s =
      let t = ap threw h in
      let t' = ap threw h' in
      let a = ap (count is_acquired) i in
      let b = ap (count is_released) i in
      let c = ap (count is_begun) i in
      let d = ap (count is_rolled_back) i in omega (arith, t, t', a, b, c, d, s.0, s.1, s.2)

  plan-Settles :
      (version : ℕ) (manifest : PackedGridManifest)
      → Settles (and_then (plan doubles o version manifest) (conclude doubles o))
  plan-Settles version manifest =
      let m = plan doubles o version manifest in
      let k = conclude doubles o in
      let (begun, x, y, z) = plan-Begun version manifest in
      elim (Result-cases m.0) [
        | inr (e, h) ↦
            let t = ap threw h in
            same-Settles (and_then m k) m e (and_then-err m k e h) h
              (omega (arith, begun, x, y, z, t))
        | inl (p, h) ↦
            let t = ap threw h in
            let i = and_then-count is_acquired m k p h in
            let j = and_then-count is_released m k p h in
            let l = and_then-count is_begun m k p h in
            let n = and_then-count is_rolled_back m k p h in
            let u = ap threw i.0 in
            let c = conclude-Rolls_back p in
            omega (
              arith,
              t,
              u,
              i.1,
              j.1,
              l.1,
              n.1,
              c.0,
              c.1,
              c.2,
              c.3,
              begun,
              x,
              y,
              z,
              threw-le (k p).0,
            )
      ]

  -- Whatever the callbacks answer: a manifest whose lease was acquired is released; a staging that began is
  -- rolled back, once, if the operation throws, and is not if it returns; an operation that never began one
  -- rolls nothing back; and one that returns has begun one.
  pub stage-Settles : (version : ℕ) → Settles (stage doubles o version)
  unfolding stage
  stage-Settles version =
      let m = fetch doubles o in
      let k : PackedGridManifest → Staged E (WorkingSetResult doubles) =
        λ manifest. and_then (plan doubles o version manifest) (conclude doubles o) in
      let (same, y, z) = fetch-Released in
      elim (Result-cases m.0) [
        | inr (e, h) ↦
            let t = ap threw h in
            same-Settles (and_then m k) m e (and_then-err m k e h) h (omega (arith, same, y, z, t))
        | inl (p, h) ↦
            let i = and_then-count is_acquired m k p h in
            let j = and_then-count is_released m k p h in
            let l = and_then-count is_begun m k p h in
            let n = and_then-count is_rolled_back m k p h in
            let u = ap threw i.0 in
            let c = plan-Settles version p in
            omega (arith, u, i.1, j.1, l.1, n.1, c.0, c.1, c.2, same, y, z)
      ]
