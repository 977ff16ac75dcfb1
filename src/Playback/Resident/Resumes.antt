-- ===== src/Playback/Resident/Resumes.antt =====
-- src/playback/ResidentPlaybackController.ts: an update of the history honours what the operator asked for meanwhile.
use mistr.Prelude.{
  if◌then◌else◌, Result-cases, ok, ℕ, ◌≤◌, ◌≡◌, refl, sym, ◌∙◌, subst, ◌≢◌, inl, inr, Bool, true,
  false, none, some, List, [], ◌∷◌, arith,
}
use mistr.Playback.Resident.{
  call, calls, ResidentPlaybackController, Call, plays, pauses, disposes, fires, scrubs,
  ResidentFrame, RadarPaintReceipt, is_authoritative, start_playing, resume_task,
}
use mistr.Playback.Resident.Update.{
  should_resume_after_mutation, restore, Meeting, UpdateError, resume_if,
}

-- What the operator's calls leave alone.
abbrev pub Keeps : ResidentPlaybackController → ResidentPlaybackController → Type 0
Keeps c d = (d.frames ≡ c.frames) × (d.operation ≡ c.operation) × (d.last_receipt ≡ c.last_receipt)

call-Keeps : (x : Call) (c : ResidentPlaybackController) → Keeps c (call x c)
unfolding call
call-Keeps plays c = ground arith
call-Keeps pauses c = ground arith
call-Keeps disposes c = ground arith
call-Keeps fires c = ground arith
call-Keeps (scrubs index) c = ground arith

pub calls-Keeps : (xs : List Call) (c : ResidentPlaybackController) → Keeps c (calls xs c)
unfolding calls
calls-Keeps [] c = (refl, refl, refl)
calls-Keeps (x ∷ xs) c =
    let a = call-Keeps x c in let b = calls-Keeps xs (call x c) in (b.0 ∙ a.0, b.1 ∙ a.1, b.2 ∙ a.2)

-- A controller that plays during an update was asked to, since the revision `revision`.
abbrev pub Asked : Bool → ℕ → ResidentPlaybackController → Type 0
Asked was revision c =
    (revision ≤ c.intent_revision)
    × (c.playing ≡ true → should_resume_after_mutation was revision c ≡ true)

call-Asked :
    (was : Bool) (revision : ℕ) (x : Call) (c : ResidentPlaybackController)
    → Asked was revision c
    → Asked was revision (call x c)
unfolding call should_resume_after_mutation
call-Asked was revision plays c h = ground (arith, h)
call-Asked was revision pauses c h = ground (arith, h)
call-Asked was revision disposes c h = ground (arith, h)
call-Asked was revision fires c h = ground (arith, h)
call-Asked was revision (scrubs index) c h = ground (arith, h)

pub calls-Asked :
    (was : Bool) (revision : ℕ) (xs : List Call) (c : ResidentPlaybackController)
    → Asked was revision c
    → Asked was revision (calls xs c)
unfolding calls
calls-Asked was revision [] c h = h
calls-Asked was revision (x ∷ xs) c h =
    calls-Asked was revision xs (call x c) (call-Asked was revision x c h)

-- No timer runs while an operation is pending, and playback waits for it.
abbrev pub Waits : ResidentPlaybackController → Type 0
Waits c =
    (c.operation ≡ true)
    × (c.timer ≡ false)
    × (c.playing ≡ true → (c.awaits_operation ≡ true) × (c.disposed ≡ false))

call-Waits : (x : Call) (c : ResidentPlaybackController) → Waits c → Waits (call x c)
unfolding call
call-Waits plays c h = ground (arith, h)
call-Waits pauses c h = ground (arith, h)
call-Waits disposes c h = ground (arith, h)
call-Waits fires c h = ground (arith, h)
call-Waits (scrubs index) c h = ground (arith, h)

pub calls-Waits : (xs : List Call) (c : ResidentPlaybackController) → Waits c → Waits (calls xs c)
unfolding calls
calls-Waits [] c h = h
calls-Waits (x ∷ xs) c h = calls-Waits xs (call x c) (call-Waits x c h)

-- The fields that decide whether playback resumes.
abbrev pub SameIntent : ResidentPlaybackController → ResidentPlaybackController → Type 0
SameIntent c d =
    (d.disposed ≡ c.disposed)
    × (d.intent_revision ≡ c.intent_revision)
    × (d.operator_wants_playing ≡ c.operator_wants_playing)

SameIntent-should_resume :
    (was : Bool) (revision : ℕ) (c d : ResidentPlaybackController)
    → SameIntent c d
    → should_resume_after_mutation was revision d ≡ should_resume_after_mutation was revision c
unfolding should_resume_after_mutation
SameIntent-should_resume was revision c d h = rw (h.0, h.1, h.2)

resume_if-plays :
    (was : Bool) (revision : ℕ) (c : ResidentPlaybackController)
    → Asked was revision c
    → let wanted = should_resume_after_mutation was revision c in
      let d = resume_if wanted c in Keeps c d × SameIntent c d × (d.playing ≡ wanted)
unfolding resume_if should_resume_after_mutation start_playing
resume_if-plays was revision c h = ground (arith, h)

resume_task-Keeps :
    (waits : Bool) (c : ResidentPlaybackController)
    → let d = resume_task waits c in Keeps c d × SameIntent c d × (d.playing ≡ c.playing)
unfolding resume_task
resume_task-Keeps waits c = ground arith

-- Playback resumes as asked, and the task behind the operation changes nothing but the timer.
pub resumed-plays :
    (was waits : Bool) (revision : ℕ) (c : ResidentPlaybackController)
    → Asked was revision c
    → let d = resume_task waits (resume_if (should_resume_after_mutation was revision c) c) in
      Keeps c d
      × (revision ≤ d.intent_revision)
      × (d.playing ≡ should_resume_after_mutation was revision d)
resumed-plays was waits revision c h =
    let b = resume_if (should_resume_after_mutation was revision c) c in
    let d = resume_task waits b in
    let (k, i, p) = resume_if-plays was revision c h in
    let (k', i', p') = resume_task-Keeps waits b in
    let same : SameIntent c d = (i'.0 ∙ i.0, i'.1 ∙ i.1, i'.2 ∙ i.2) in
    (
      (k'.0 ∙ k.0, k'.1 ∙ k.1, k'.2 ∙ k.2),
      omega (arith, h.0, same.1),
      p' ∙ p ∙ sym (SameIntent-should_resume was revision c d same),
    )

still_plays :
    (stopped playing : Bool) → (if stopped then false else playing) ≡ true → playing ≡ true
still_plays true playing h = absurd (ground (arith, h))
still_plays false playing h = h

module _ {E : Type 0} (m : Meeting E) where
  -- A failed update: the frames are back, nothing is pending, and playback is not on against the operator.
  abbrev pub Failed : List ResidentFrame → Bool → ℕ → ResidentPlaybackController → Type 0
  Failed previous was revision d =
      (d.frames ≡ previous) × (d.operation ≡ false) × Asked was revision d

  pub restore-Failed :
      (previous : List ResidentFrame) (e : UpdateError E) (was : Bool) (revision : ℕ)
      (c : ResidentPlaybackController)
      → Asked was revision c
      → Failed previous was revision (restore m previous e was revision c).1
  unfolding restore should_resume_after_mutation
  restore-Failed previous e was revision c h =
      let start = record c {
        frames = previous;
        last_receipt = none;
        operation = true;
        awaits_operation = false;
      } in
      let pending = calls m.during_restoration start in
      let keeps = calls-Keeps m.during_restoration start in
      let asked = calls-Asked was revision m.during_restoration start h in
      let settled = record pending { operation = false; awaits_operation = false } in
      let out = restore m previous e was revision c in
      elim (Result-cases m.restoration) [
        | inr (f, w) ↦
            let wanted = should_resume_after_mutation was revision settled in
            let b = resume_if wanted settled in
            let d = record b { playing = if pending.awaits_operation then false else b.playing } in
            let is_d : out.1 ≡ d = rw (w, restore) in
            let (k, i, p) = resume_if-plays was revision settled asked in
            let same = SameIntent-should_resume was revision settled d i in
            let asks : d.playing ≡ true → should_resume_after_mutation was revision d ≡ true =
              λ t. same ∙ sym p ∙ still_plays pending.awaits_operation b.playing t in
            subst (Failed previous was revision) (sym is_d)
              (k.0 ∙ keeps.0, k.1, (omega (arith, asked.0, i.1), asks))
        | inl (receipt, w) ↦
            let noted = record settled {
              last_receipt =
                  if is_authoritative receipt m.restored_renderer then some receipt else none;
            } in
            let wanted = should_resume_after_mutation was revision noted in
            let d = resume_task pending.awaits_operation (resume_if wanted noted) in
            let is_d : out.1 ≡ d = rw (w, restore) in
            let (k, r, p) = resumed-plays was pending.awaits_operation revision noted asked in
            subst (Failed previous was revision) (sym is_d)
              (k.0 ∙ keeps.0, k.1, (r, λ t. sym p ∙ t))
      ]

  pub restore-throws :
      (previous : List ResidentFrame) (e : UpdateError E) (was : Bool) (revision : ℕ)
      (c : ResidentPlaybackController) (receipt : RadarPaintReceipt)
      → (restore m previous e was revision c).0 ≢ ok receipt
  unfolding restore
  restore-throws previous e was revision c receipt h = ground (arith, h)
