-- ===== src/Playback/Resident/Swap.antt =====
-- src/playback/ResidentPlaybackController.ts: what an update of the history leaves, from the swap of its
-- frames on.
use mistr.Prelude.{
  if◌then◌else◌, ok, err, ℕ, ◌≡◌, sym, ap, ◌∙◌, subst, Bool, true, false, some, List, ◌∷◌, arith,
}
use mistr.Playback.Resident.{
  is_authoritative, schedule_next, stop_playing, fail_operation, ResidentFrame, RadarPaintReceipt,
  ResidentPlaybackController, resume_task, calls,
}
use mistr.Playback.Resident.Update.{
  should_resume_after_mutation, paint_result, settle_paint, swap, Meeting, disposed_controller,
  resume_if, restore, UpdateError,
}
use mistr.Playback.Resident.Resumes.{Keeps, Asked, calls-Keeps, calls-Asked, resumed-plays}

pub stop_playing-Asked :
    (c : ResidentPlaybackController)
    → c.disposed ≡ false
    → Asked c.playing c.intent_revision (stop_playing c)
      × ((stop_playing c).timer ≡ false)
      × ((stop_playing c).playing ≡ false)
      × Keeps c (stop_playing c)
unfolding stop_playing should_resume_after_mutation
stop_playing-Asked c h = ground (arith, h)

-- The controller when the paint of an update is pending, and the calls meanwhile.
schedule_if-Asked :
    (scheduled was : Bool) (revision : ℕ) (c : ResidentPlaybackController)
    → Asked was revision c
    → let d = if scheduled then schedule_next c else c in Asked was revision d × Keeps c d
unfolding schedule_next should_resume_after_mutation
schedule_if-Asked scheduled was revision c h = ground (arith, h)

module _ {E : Type 0} (m : Meeting E) where
  pub paint_result-ok :
      (receipt : RadarPaintReceipt)
      → paint_result m ≡ ok receipt
      → (m.paint ≡ ok receipt) × (is_authoritative receipt m.painted_renderer ≡ true)
  unfolding paint_result
  paint_result-ok receipt h = ground (arith, h)

  pub settle_paint-Asked :
      (was : Bool) (revision : ℕ) (c : ResidentPlaybackController)
      → Asked was revision c
      → Asked was revision (settle_paint m c) × ((settle_paint m c).operation ≡ false)
  unfolding settle_paint should_resume_after_mutation fail_operation
  settle_paint-Asked was revision c h = ground (arith, h)

  pub settle_paint-ok :
      (receipt : RadarPaintReceipt) (c : ResidentPlaybackController)
      → m.paint ≡ ok receipt
      → is_authoritative receipt m.painted_renderer ≡ true
      → settle_paint m c ≡ record c { operation = false; last_receipt = some receipt }
  unfolding settle_paint
  settle_paint-ok receipt c h a = rw (h, settle_paint, a)

  -- A finished update: the new frames, the receipt of their paint, and playback as the operator wants it.
  abbrev pub Finished : RadarPaintReceipt → Bool → ℕ → ResidentPlaybackController → Type 0
  Finished receipt was revision d =
      (d.frames ≡ m.frame ∷ m.frames)
      × (d.operation ≡ false)
      × (d.last_receipt ≡ some receipt)
      × (is_authoritative receipt m.painted_renderer ≡ true)
      × (d.playing ≡ should_resume_after_mutation was revision d)

  -- The controller while the paint of an update is pending, at its end.
  abbrev pub painting : Bool → ResidentPlaybackController → ResidentPlaybackController
  painting scheduled c =
      let started = record c {
        frames = m.frame ∷ m.frames;
        operation = true;
        awaits_operation = false;
      } in
      calls m.during_paint (if scheduled then schedule_next started else started)

  abbrev pub unattached : ResidentPlaybackController → ResidentPlaybackController
  unattached c = record c { awaits_operation = false }

  pub swap-gone :
      (previous : List ResidentFrame) (was : Bool) (revision : ℕ) (scheduled : Bool)
      (c : ResidentPlaybackController)
      → c.disposed ≡ true
      → swap m previous was revision scheduled c
        ≡ restore m previous disposed_controller was revision c
  unfolding swap
  swap-gone previous was revision scheduled c h = rw (h, swap)

  pub swap-failed :
      (previous : List ResidentFrame) (was : Bool) (revision : ℕ) (scheduled : Bool)
      (c : ResidentPlaybackController) (f : UpdateError E)
      → c.disposed ≡ false
      → paint_result m ≡ err f
      → swap m previous was revision scheduled c
        ≡ restore m previous f was revision (settle_paint m (painting scheduled c))
  unfolding swap
  swap-failed previous was revision scheduled c f h w = ground (arith, h, w)

  pub swap-painted :
      (previous : List ResidentFrame) (was : Bool) (revision : ℕ) (scheduled : Bool)
      (c : ResidentPlaybackController) (receipt : RadarPaintReceipt)
      → c.disposed ≡ false
      → paint_result m ≡ ok receipt
      → let pending = painting scheduled c in
        let free = unattached (settle_paint m pending) in
        swap m previous was revision scheduled c ≡ (
          ok receipt,
          resume_task pending.awaits_operation
              (resume_if (should_resume_after_mutation was revision free) free),
        )
  unfolding swap
  swap-painted previous was revision scheduled c receipt h w = ground (arith, h, w)

  pub painting-Asked :
      (was : Bool) (revision : ℕ) (scheduled : Bool) (c : ResidentPlaybackController)
      → Asked was revision c
      → let d = painting scheduled c in Asked was revision d × (d.frames ≡ m.frame ∷ m.frames)
  unfolding should_resume_after_mutation
  painting-Asked was revision scheduled c h =
      let started = record c {
        frames = m.frame ∷ m.frames;
        operation = true;
        awaits_operation = false;
      } in
      let (a, k) = schedule_if-Asked scheduled was revision started h in
      let d = if scheduled then schedule_next started else started in
      (calls-Asked was revision m.during_paint d a, (calls-Keeps m.during_paint d).0 ∙ k.0)

  pub swap-Finished :
      (previous : List ResidentFrame) (was : Bool) (revision : ℕ) (scheduled : Bool)
      (c : ResidentPlaybackController) (receipt : RadarPaintReceipt)
      → Asked was revision c
      → c.disposed ≡ false
      → paint_result m ≡ ok receipt
      → Finished receipt was revision (swap m previous was revision scheduled c).1
  unfolding should_resume_after_mutation
  swap-Finished previous was revision scheduled c receipt h here w =
      let pending = painting scheduled c in
      let (asked, frames) = painting-Asked was revision scheduled c h in
      let (paint, authoritative) = paint_result-ok receipt w in
      let painted : ResidentPlaybackController = record pending {
        operation = false;
        last_receipt = some receipt;
        awaits_operation = false;
      } in
      let is_painted : unattached (settle_paint m pending) ≡ painted =
        ap unattached (settle_paint-ok receipt pending paint authoritative) in
      let waits = pending.awaits_operation in
      let d =
        resume_task waits (resume_if (should_resume_after_mutation was revision painted) painted) in
      let is_d : (swap m previous was revision scheduled c).1 ≡ d =
        ap (λ x. x.1) (swap-painted previous was revision scheduled c receipt here w)
        ∙ ap (λ x. resume_task waits (resume_if (should_resume_after_mutation was revision x) x))
            is_painted in
      let (k, r, p) = resumed-plays was waits revision painted asked in
      subst (Finished receipt was revision) (sym is_d) (k.0 ∙ frames, k.1, k.2, authoritative, p)
