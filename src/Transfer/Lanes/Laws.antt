-- ===== src/Transfer/Lanes/Laws.antt =====
-- src/packed-sweep/transferClient.ts: generations are unique across the lanes, and an answer that comes too late
-- changes nothing.
use mistr.Prelude.{
  ok, err, All, ℕ, ◌≤◌, ◌<◌, ◌≡◌, refl, ◌∙◌, ◌≢◌, ◌⊎◌, inl, inr, true, List, [], ◌∷◌, arith,
}
use mistr.Transfer.Lanes.{
  set_lane, Answer, open_session, begin_generation, step, TransferLane, TransferSnapshot,
  PackedSweepTransferClient, site, national, opens, begins, lane_state, is_current, begin_answered,
  cancel_generation, run, Begin, Event, answers, cancels, stale_response,
}

-- No generation is above the last one, the lanes share none, and an active lane has one.
pub record IsLaned (c : PackedSweepTransferClient) : Type 0 where
  pub site_below : c.site_state.generation ≤ c.max_generation
  pub national_below : c.national_state.generation ≤ c.max_generation
  pub apart : 0 < c.site_state.generation → c.site_state.generation ≢ c.national_state.generation
  pub site_begun : c.site_state.active ≡ true → 0 < c.site_state.generation
  pub national_begun : c.national_state.active ≡ true → 0 < c.national_state.generation

open_session-IsLaned :
    (a : Answer TransferSnapshot) (c : PackedSweepTransferClient)
    → IsLaned c
    → IsLaned (step (opens a) c)
unfolding step open_session
open_session-IsLaned (err e) c i = i
open_session-IsLaned (ok s) c i = ground (arith, i)

begin_generation-IsLaned :
    (lane : TransferLane) (generation : ℕ) (c : PackedSweepTransferClient)
    → IsLaned c
    → IsLaned (step (begins lane generation) c)
unfolding step begin_generation set_lane
begin_generation-IsLaned site generation c i = ground (arith, i)
begin_generation-IsLaned national generation c i = ground (arith, i)

Lane-cases : (lane : TransferLane) → (lane ≡ site) ⊎ (lane ≡ national)
Lane-cases site = inl refl
Lane-cases national = inr refl

begin_answered-IsLaned :
    (b : Begin) (a : Answer TransferSnapshot) (c : PackedSweepTransferClient)
    → 0 < b.generation
    → IsLaned c
    → IsLaned (step (answers b a) c)
unfolding step begin_answered set_lane is_current lane_state
begin_answered-IsLaned b (err e) c h i = elim (Lane-cases b.lane) [
  | inl l ↦ ground (arith, h, i, l)
  | inr l ↦ ground (arith, h, i, l)
]
begin_answered-IsLaned b (ok s) c h i = elim (Lane-cases b.lane) [
  | inl l ↦ ground (arith, h, i, l)
  | inr l ↦ ground (arith, h, i, l)
]

cancel_generation-IsLaned :
    (lane : TransferLane) (c : PackedSweepTransferClient)
    → IsLaned c
    → IsLaned (step (cancels lane) c)
unfolding step cancel_generation set_lane lane_state
cancel_generation-IsLaned site c i = ground (arith, i)
cancel_generation-IsLaned national c i = ground (arith, i)

-- An answer is to a `begin` that was let through.
abbrev pub IsPossible : Event → Type 0
IsPossible (answers b a) = 0 < b.generation
IsPossible (opens a) = Unit {0}
IsPossible (begins lane generation) = Unit {0}
IsPossible (cancels lane) = Unit {0}

step-IsLaned :
    (e : Event) (c : PackedSweepTransferClient) → IsPossible e → IsLaned c → IsLaned (step e c)
step-IsLaned (opens a) c p i = open_session-IsLaned a c i
step-IsLaned (begins lane generation) c p i = begin_generation-IsLaned lane generation c i
step-IsLaned (answers b a) c p i = begin_answered-IsLaned b a c p i
step-IsLaned (cancels lane) c p i = cancel_generation-IsLaned lane c i

-- Whatever is called and answered, in whatever order: no lane has a generation above the last one that was begun,
-- the lanes share no generation, and only a lane that was begun is active.
pub run-IsLaned :
    (es : List Event) (c : PackedSweepTransferClient)
    → All IsPossible es
    → IsLaned c
    → IsLaned (run es c)
unfolding run
run-IsLaned [] c p i = i
run-IsLaned (e ∷ es) c p i = run-IsLaned es (step e c) p.1 (step-IsLaned e c p.0 i)

-- The session stays the same one.
abbrev pub Stays : Event → Type 0
Stays (opens a) = ⊥
Stays (begins lane generation) = Unit {0}
Stays (answers b a) = Unit {0}
Stays (cancels lane) = Unit {0}

-- A lane's generation, and the session, behind an event.
abbrev pub Rises : TransferLane → PackedSweepTransferClient → PackedSweepTransferClient → Type 0
Rises lane c d =
    (d.session ≡ c.session) × ((lane_state lane c).generation ≤ (lane_state lane d).generation)

step-Rises :
    (lane : TransferLane) (e : Event) (c : PackedSweepTransferClient)
    → IsLaned c
    → Stays e
    → Rises lane c (step e c)
unfolding step begin_generation begin_answered cancel_generation set_lane lane_state is_current
step-Rises lane (opens a) c i s = absurd s
step-Rises site (begins site generation) c i s = ground (arith, i)
step-Rises site (begins national generation) c i s = ground (arith, i)
step-Rises national (begins site generation) c i s = ground (arith, i)
step-Rises national (begins national generation) c i s = ground (arith, i)
step-Rises site (answers b (ok x)) c i s = elim (Lane-cases b.lane) [
  | inl l ↦ ground (arith, l)
  | inr l ↦ ground (arith, l)
]
step-Rises site (answers b (err x)) c i s = elim (Lane-cases b.lane) [
  | inl l ↦ ground (arith, l)
  | inr l ↦ ground (arith, l)
]
step-Rises national (answers b (ok x)) c i s = elim (Lane-cases b.lane) [
  | inl l ↦ ground (arith, l)
  | inr l ↦ ground (arith, l)
]
step-Rises national (answers b (err x)) c i s = elim (Lane-cases b.lane) [
  | inl l ↦ ground (arith, l)
  | inr l ↦ ground (arith, l)
]
step-Rises site (cancels site) c i s = ground arith
step-Rises site (cancels national) c i s = ground arith
step-Rises national (cancels site) c i s = ground arith
step-Rises national (cancels national) c i s = ground arith

run-Rises :
    (lane : TransferLane) (es : List Event) (c : PackedSweepTransferClient)
    → IsLaned c
    → All IsPossible es
    → All Stays es
    → Rises lane c (run es c)
unfolding run
run-Rises lane [] c i p s = (refl, omega arith)
run-Rises lane (e ∷ es) c i p s =
    let here = step-Rises lane e c i s.0 in
    let rest = run-Rises lane es (step e c) (step-IsLaned e c p.0 i) p.1 s.1 in
    (rest.0 ∙ here.0, omega (arith, here.1, rest.1))

-- A `begin` whose lane has since taken a newer generation, in the same session: whatever happens until its answer
-- comes, the answer changes nothing, and a snapshot is refused as stale.
pub stale_begin_ignored :
    (b : Begin) (a : Answer TransferSnapshot) (es : List Event) (c : PackedSweepTransferClient)
    → IsLaned c
    → All IsPossible es
    → All Stays es
    → b.generation < (lane_state b.lane c).generation
    → let d = run es c in
      ((begin_answered b a d).1 ≡ d)
      × ((s : TransferSnapshot) → (begin_answered b (ok s) d).0 ≡ err stale_response)
unfolding begin_answered is_current
stale_begin_ignored b (err e) es c i p s h =
    let (same, above) = run-Rises b.lane es c i p s in
    (ground (arith, above, h), λ x. ground (arith, above, h))
stale_begin_ignored b (ok x) es c i p s h =
    let (same, above) = run-Rises b.lane es c i p s in
    (ground (arith, above, h), λ y. ground (arith, above, h))

-- What is called and answered on one lane leaves the other as it was: a new observation of a site does not stop
-- the National transfers.
pub other_lane_untouched :
    (c : PackedSweepTransferClient) (b : Begin) (a : Answer TransferSnapshot) (generation : ℕ)
    → ((step (begins site generation) c).national_state ≡ c.national_state)
      × ((step (begins national generation) c).site_state ≡ c.site_state)
      × ((step (cancels site) c).national_state ≡ c.national_state)
      × ((step (cancels national) c).site_state ≡ c.site_state)
      × (b.lane ≡ site → (step (answers b a) c).national_state ≡ c.national_state)
      × (b.lane ≡ national → (step (answers b a) c).site_state ≡ c.site_state)
unfolding step begin_generation begin_answered cancel_generation set_lane
other_lane_untouched c b (ok s) generation = ground arith
other_lane_untouched c b (err e) generation = ground arith
