-- ===== src/Transfer/Acks.antt =====
-- src/packed-sweep/transferClient.ts: the release acknowledgements that are still to be told to the backend, by their
-- ids, in the order in which `pendingReleaseAcks` holds them. At each `await` other calls may change them: a release
-- adds its id or, once told, removes it, and `open` clears them. What the backend answers, and what happens meanwhile,
-- are arguments.
pub mod Laws
use mistr.Prelude.{
  ltb, ◌==◌, if◌then◌else◌, any, ℕ, zero, suc, ◌+◌, Bool, true, false, List, [], ◌∷◌, ◌++◌,
}

abbrev pub contains : ℕ → List ℕ → Bool
contains id ids = any (λ i. i == id) ids

-- `Map.set` of a key: a new one comes last.
unfoldable pub set_pending : ℕ → List ℕ → List ℕ
set_pending id pending = if contains id pending then pending else pending ++ id ∷ []

unfoldable pub delete_pending : ℕ → List ℕ → List ℕ
delete_pending id [] = []
delete_pending id (i ∷ pending) =
    let rest = delete_pending id pending in if i == id then rest else i ∷ rest

-- What another call does to the pending acknowledgements: `open` clears them.
pub data Change : Type 0 where
  sets deletes : ℕ → Change
  clears : Change

unfoldable pub change : Change → List ℕ → List ℕ
unfolding set_pending delete_pending
change (sets id) pending = set_pending id pending
change (deletes id) pending = delete_pending id pending
change clears pending = []

unfoldable pub changed : List Change → List ℕ → List ℕ
unfolding change
changed [] pending = pending
changed (c ∷ changes) pending = changed changes (change c pending)

-- Of attempt `k` for `id`: whether the call of the backend succeeds, what others do while it is awaited, and what
-- they do in the delay behind it.
pub record Backend : Type 0 where
  pub told : ℕ → ℕ → Bool
  pub during : ℕ → ℕ → List Change
  pub delayed : ℕ → ℕ → List Change

-- What a call came to: whether it returned, the calls of the backend as ids with their attempts, and what is
-- pending then.
pub record Flushed : Type 0 where
  pub done : Bool
  pub calls : List (ℕ × ℕ)
  pub pending : List ℕ

abbrev pub calls_first : List (ℕ × ℕ) → Flushed → Flushed
calls_first calls f = record f { calls = calls ++ f.calls }

module _ (b : Backend) where
  -- The loop of `acknowledgeRelease` from attempt `k` on, of which `attempts` are left.
  unfoldable pub attempt_release : (attempts k id : ℕ) → List ℕ → Flushed
  unfolding changed delete_pending
  attempt_release zero k id pending = record { done = false; calls = []; pending = pending }
  attempt_release (suc attempts) k id pending =
      let answered = changed (b.during id k) pending in
      let waited = if ltb k 2 then changed (b.delayed id k) answered else answered in
      let rest = attempt_release attempts (k + 1) id waited in
      if b.told id k
      then record { done = true; calls = (id, k) ∷ []; pending = delete_pending id answered }
      else calls_first ((id, k) ∷ []) rest

  unfoldable pub acknowledge_release : ℕ → List ℕ → Flushed
  unfolding attempt_release set_pending
  acknowledge_release id pending = attempt_release 3 0 id (set_pending id pending)

  -- The loop over a copy of the ids; a call that throws ends it.
  unfoldable pub flush_ids : List ℕ → List ℕ → Flushed
  unfolding acknowledge_release
  flush_ids [] pending = record { done = true; calls = []; pending = pending }
  flush_ids (id ∷ ids) pending =
      let first = acknowledge_release id pending in
      let rest = flush_ids ids first.pending in
      if first.done then calls_first first.calls rest else first

  unfoldable pub flush_pending_release_acks : List ℕ → Flushed
  unfolding flush_ids
  flush_pending_release_acks pending = flush_ids pending pending
