-- ===== src/Transfer/Acks/Laws.antt =====
-- src/packed-sweep/transferClient.ts: what a flush of the release acknowledgements tells, and what it leaves.
use mistr.Prelude.{
  ltb, ◌==◌, if◌then◌else◌, Bool-cases, any, All, ℕ, zero, suc, ◌+◌, ◌≡◌, refl, subst, ◌⊎◌, inl,
  inr, Bool, true, false, not, ◌&&◌, List, [], ◌∷◌, ◌++◌, arith,
}
use mistr.Transfer.Acks.{
  contains, set_pending, delete_pending, change, changed, attempt_release, acknowledge_release,
  flush_ids, flush_pending_release_acks, Change, Backend, Flushed, sets, deletes, clears,
}

-- The calls for an id from attempt `k` on, of which `left` are left: up to the first that succeeds.
pub data Attempts (b : Backend) (id : ℕ) : ℕ → ℕ → Bool → List (ℕ × ℕ) → Type 0 where
  gives_up : (k : ℕ) → Attempts b id 0 k false []
  succeeds : (left k : ℕ) → b.told id k ≡ true → Attempts b id (suc left) k true ((id, k) ∷ [])
  fails :
      (left k : ℕ) (done : Bool) (calls : List (ℕ × ℕ))
      → b.told id k ≡ false
      → Attempts b id left (k + 1) done calls
      → Attempts b id (suc left) k done ((id, k) ∷ calls)

-- The calls of a flush: for each id in turn, at most three attempts, up to the first id that none of them tells.
pub data Flushes (b : Backend) : List ℕ → Bool → List (ℕ × ℕ) → Type 0 where
  all_told : Flushes b [] true []
  goes_on :
      (id : ℕ) (ids : List ℕ) (done : Bool) (calls rest : List (ℕ × ℕ))
      → Attempts b id 3 0 true calls
      → Flushes b ids done rest
      → Flushes b (id ∷ ids) done (calls ++ rest)
  stops_at :
      (id : ℕ) (ids : List ℕ) (calls : List (ℕ × ℕ))
      → Attempts b id 3 0 false calls
      → Flushes b (id ∷ ids) false calls

-- Whether another call's change leaves an acknowledgement pending that is.
abbrev pub leaves : ℕ → Change → Bool
leaves id (sets i) = true
leaves id (deletes i) = not (i == id)
leaves id clears = false

-- No other call takes the acknowledgement away during the flush.
abbrev pub IsLeft : Backend → ℕ → Type 0
IsLeft b id =
    (i k : ℕ)
    → All (λ c. leaves id c ≡ true) (b.during i k) × All (λ c. leaves id c ≡ true) (b.delayed i k)

-- Whether a call told the backend of the acknowledgement.
abbrev pub tells : Backend → ℕ → ℕ × ℕ → Bool
tells b id (i, k) = i == id && b.told i k

contains-append : (id : ℕ) (xs ys : List ℕ) → contains id xs ≡ true → contains id (xs ++ ys) ≡ true
contains-append id [] ys h = absurd (ground (arith, h))
contains-append id (x ∷ xs) ys h = ground (arith, h, contains-append id xs ys)

contains-set :
    (id i : ℕ) (pending : List ℕ)
    → contains id pending ≡ true
    → contains id (set_pending i pending) ≡ true
unfolding set_pending
contains-set id i pending h = ground (arith, h, contains-append id pending (i ∷ []) h)

contains-delete :
    (id i : ℕ) (pending : List ℕ)
    → (i == id) ≡ false
    → contains id pending ≡ true
    → contains id (delete_pending i pending) ≡ true
unfolding delete_pending
contains-delete id i [] n h = absurd (ground (arith, h))
contains-delete id i (x ∷ pending) n h = ground (arith, n, h, contains-delete id i pending n)

contains-change :
    (id : ℕ) (c : Change) (pending : List ℕ)
    → leaves id c ≡ true
    → contains id pending ≡ true
    → contains id (change c pending) ≡ true
unfolding change
contains-change id (sets i) pending l h = contains-set id i pending h
contains-change id (deletes i) pending l h = contains-delete id i pending (ground (arith, l)) h
contains-change id clears pending l h = absurd (ground (arith, l))

contains-changed :
    (id : ℕ) (changes : List Change) (pending : List ℕ)
    → All (λ c. leaves id c ≡ true) changes
    → contains id pending ≡ true
    → contains id (changed changes pending) ≡ true
unfolding changed
contains-changed id [] pending l h = h
contains-changed id (c ∷ changes) pending l h =
    contains-changed id changes (change c pending) l.1 (contains-change id c pending l.0 h)

delete-absent : (id : ℕ) (pending : List ℕ) → contains id (delete_pending id pending) ≡ false
unfolding delete_pending
delete-absent id [] = refl
delete-absent id (x ∷ pending) = ground (arith, delete-absent id pending)

any-append_left :
    (p : ℕ × ℕ → Bool) (xs ys : List (ℕ × ℕ)) → any p xs ≡ true → any p (xs ++ ys) ≡ true
any-append_left p [] ys h = absurd (ground (arith, h))
any-append_left p (x ∷ xs) ys h = ground (arith, h, any-append_left p xs ys)

any-append_right :
    (p : ℕ × ℕ → Bool) (xs ys : List (ℕ × ℕ)) → any p ys ≡ true → any p (xs ++ ys) ≡ true
any-append_right p [] ys h = h
any-append_right p (x ∷ xs) ys h = ground (arith, h, any-append_right p xs ys h)

module _ (b : Backend) where
  attempt_release-Attempts :
      (left k id : ℕ) (pending : List ℕ)
      → let f = attempt_release b left k id pending in Attempts b id left k f.done f.calls
  unfolding attempt_release
  attempt_release-Attempts zero k id pending = gives_up k
  attempt_release-Attempts (suc left) k id pending =
      let answered = changed (b.during id k) pending in
      let waited = if ltb k 2 then changed (b.delayed id k) answered else answered in
      let rest = attempt_release-Attempts left (k + 1) id waited in
      elim (Bool-cases (b.told id k)) [
        | inl h ↦ rw h (succeeds left k h)
        | inr h ↦ rw h (fails left k _ _ h rest)
      ]

  attempt_release_forgets :
      (left k id : ℕ) (pending : List ℕ)
      → let f = attempt_release b left k id pending in f.done ≡ true → contains id f.pending ≡ false
  unfolding attempt_release
  attempt_release_forgets zero k id pending h = absurd (ground (arith, h))
  attempt_release_forgets (suc left) k id pending h =
      let answered = changed (b.during id k) pending in
      let waited = if ltb k 2 then changed (b.delayed id k) answered else answered in
      let rest = attempt_release_forgets left (k + 1) id waited in
      ground (arith, h, rest, delete-absent id answered)

  acknowledge_release_forgets :
      (id : ℕ) (pending : List ℕ)
      → let f = acknowledge_release b id pending in f.done ≡ true → contains id f.pending ≡ false
  unfolding acknowledge_release
  acknowledge_release_forgets id pending = attempt_release_forgets 3 0 id (set_pending id pending)

  flush_ids-Flushes :
      (ids pending : List ℕ) → let f = flush_ids b ids pending in Flushes b ids f.done f.calls
  unfolding flush_ids acknowledge_release
  flush_ids-Flushes [] pending = all_told
  flush_ids-Flushes (id ∷ ids) pending =
      let first = acknowledge_release b id pending in
      let rest = flush_ids-Flushes ids first.pending in
      let here = attempt_release-Attempts 3 0 id (set_pending id pending) in
      elim (Bool-cases first.done) [
        | inl h ↦ rw h (
            goes_on id ids _ first.calls _ (subst (λ x. Attempts b id 3 0 x first.calls) h here)
              rest)
        | inr h ↦
            rw (h, h)
              (stops_at id ids first.calls (subst (λ x. Attempts b id 3 0 x first.calls) h here))
      ]

  module _ (id : ℕ) (left : IsLeft b id) where
    -- Told, or still pending.
    abbrev pub IsKept : Flushed → Type 0
    IsKept f = (contains id f.pending ≡ true) ⊎ (any (λ c. tells b id c) f.calls ≡ true)

    attempt_release-IsKept :
        (attempts k i : ℕ) (pending : List ℕ)
        → contains id pending ≡ true
        → IsKept (attempt_release b attempts k i pending)
    unfolding attempt_release
    attempt_release-IsKept zero k i pending h = inl h
    attempt_release-IsKept (suc attempts) k i pending h =
        let answered = changed (b.during i k) pending in
        let there = contains-changed id (b.during i k) pending (left i k).0 h in
        let later = contains-changed id (b.delayed i k) answered (left i k).1 there in
        let waited = if ltb k 2 then changed (b.delayed i k) answered else answered in
        let still : contains id waited ≡ true = ground (arith, there, later) in
        let rest = attempt_release-IsKept attempts (k + 1) i waited still in
        elim (Bool-cases (b.told i k)) [
          | inl t ↦ elim (Bool-cases (i == id)) [
            | inl e ↦ rw t (inr (ground (arith, e, t)))
            | inr e ↦ rw t (inl (contains-delete id i answered e there))
          ]
          | inr t ↦ elim rest [ inl p ↦ rw t (inl p) | inr p ↦ rw t (inr (ground (arith, p))) ]
        ]

    flush_ids-IsKept :
        (ids pending : List ℕ) → contains id pending ≡ true → IsKept (flush_ids b ids pending)
    unfolding flush_ids acknowledge_release
    flush_ids-IsKept [] pending h = inl h
    flush_ids-IsKept (i ∷ ids) pending h =
        let first = acknowledge_release b i pending in
        let calls = (flush_ids b ids first.pending).calls in
        let tell = λ (c : ℕ × ℕ). tells b id c in
        let here =
          attempt_release-IsKept 3 0 i (set_pending i pending) (contains-set id i pending h) in
        elim (Bool-cases first.done) [
          | inr d ↦ rw d here
          | inl d ↦ elim here [
            | inr p ↦ rw d (inr (any-append_left tell first.calls calls p))
            | inl p ↦ elim (flush_ids-IsKept ids first.pending p) [
              | inl q ↦ rw d (inl q)
              | inr q ↦ rw d (inr (any-append_right tell first.calls calls q))
            ]
          ]
        ]

  -- Whatever other calls do to the pending acknowledgements while it waits: a flush tells the backend of those
  -- that were pending when it began, in order, each in at most three attempts up to the first that succeeds;
  -- it throws at the first that three attempts did not tell, and else returns having told all. One that was
  -- pending when it began, and that no other call takes away, has been told or is still pending: no held
  -- credit is forgotten. And the acknowledgement of a release, of which a flush is made, is no longer pending
  -- when it returns.
  pub flush-IsFlushed :
      (pending : List ℕ)
      → let f = flush_pending_release_acks b pending in
        Flushes b pending f.done f.calls
        × ((id : ℕ)
            → IsLeft b id
            → contains id pending ≡ true
            → (contains id f.pending ≡ true) ⊎ (any (λ c. tells b id c) f.calls ≡ true))
        × ((id : ℕ) (held : List ℕ)
            → (acknowledge_release b id held).done ≡ true
            → contains id (acknowledge_release b id held).pending ≡ false)
  unfolding flush_pending_release_acks
  flush-IsFlushed pending = (
    flush_ids-Flushes pending pending,
    (λ id left h. flush_ids-IsKept id left pending pending h),
    acknowledge_release_forgets,
  )
