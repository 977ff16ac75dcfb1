-- ===== src/Playback/Resident/Timer.antt =====
-- src/playback/ResidentPlaybackController.ts: behind an update of the history, playback goes on.
use mistr.Prelude.{
  Bool-cases, ◌>>◌, Result-cases, ok, ℕ, ◌≡◌, refl, sym, ap, ◌∙◌, subst, inl, inr, Bool, true,
  false, List, ◌∷◌, arith,
}
use mistr.Playback.Resident.{
  schedule_next, start_playing, stop_playing, resume_task, calls, ResidentFrame, RadarPaintReceipt,
  ResidentPlaybackController,
}
use mistr.Playback.Resident.Update.{
  Updated, should_resume_after_mutation, resume_if, as_callback, selected_after, paint_result,
  settle_paint, swap, begin_swap, update_resident_history_now, Meeting, disposed_controller,
}
use mistr.Playback.Resident.Resumes.{Waits, calls-Waits, restore-throws}
use mistr.Playback.Resident.Swap.{
  stop_playing-Asked, paint_result-ok, settle_paint-ok, unattached, swap-gone, swap-failed,
  swap-painted,
}

resumed-schedules :
    (wanted : Bool) (c painted : ResidentPlaybackController)
    → Waits c
    → painted.operation ≡ false
    → painted.playing ≡ c.playing
    → painted.timer ≡ c.timer
    → painted.disposed ≡ c.disposed
    → let d = resume_task c.awaits_operation (resume_if wanted painted) in d.timer ≡ d.playing
unfolding resume_task resume_if start_playing schedule_next
resumed-schedules true c painted h free p t gone = ground (arith, h, free, p, t, gone)
resumed-schedules false c painted h free p t gone = ground (arith, h, free, p, t, gone)

module _ {E : Type 0} (m : Meeting E) where
  swap-schedules :
      (previous : List ResidentFrame) (was : Bool) (revision : ℕ) (c : ResidentPlaybackController)
      (receipt : RadarPaintReceipt)
      → c.timer ≡ false
      → c.playing ≡ false
      → (swap m previous was revision false c).0 ≡ ok receipt
      → let d = (swap m previous was revision false c).1 in d.timer ≡ d.playing
  swap-schedules previous was revision c receipt quiet silent e =
      let started = record c {
        frames = m.frame ∷ m.frames;
        operation = true;
        awaits_operation = false;
      } in
      let pending = calls m.during_paint started in
      let waits : Waits started = (refl, quiet, λ p. absurd (ground (arith, p, silent))) in
      let waiting = calls-Waits m.during_paint started waits in
      elim (Bool-cases c.disposed) [
        | inl gone ↦ absurd (
            restore-throws m previous disposed_controller was revision c receipt
              (sym (ap (λ x. x.0) (swap-gone m previous was revision false c gone)) ∙ e))
        | inr here ↦ elim (Result-cases (paint_result m)) [
          | inr (f, w) ↦ absurd (
              restore-throws m previous f was revision (settle_paint m pending) receipt
                (sym (ap (λ x. x.0) (swap-failed m previous was revision false c f here w)) ∙ e))
          | inl (receipt', w) ↦
              let (paint, authoritative) = paint_result-ok m receipt' w in
              let settled = settle_paint-ok m receipt' pending paint authoritative in
              let free = unattached m (settle_paint m pending) in
              let wanted = should_resume_after_mutation was revision free in
              let painted =
                ap (λ x. x.1) (swap-painted m previous was revision false c receipt' here w) in
              subst (λ (d : ResidentPlaybackController). d.timer ≡ d.playing) (sym painted)
                (resumed-schedules wanted pending free waiting (ap (λ x. x.operation) settled)
                  (ap (λ x. x.playing) settled) (ap (λ x. x.timer) settled)
                  (ap (λ x. x.disposed) settled))
        ]
      ]

  -- If no operation is pending when an update of the history starts, and the update returns, the timer of the
  -- next frame is set exactly if playback is on: whatever was asked meanwhile, playback does not stand still.
  pub update-schedules :
      (c : ResidentPlaybackController) (receipt : RadarPaintReceipt)
      → c.disposed ≡ false
      → c.operation ≡ false
      → (update_resident_history_now m c).0 ≡ ok receipt
      → let d = (update_resident_history_now m c).1 in d.timer ≡ d.playing
  unfolding update_resident_history_now begin_swap
  update-schedules c receipt here free e =
      let (asked, quiet, silent, keeps) = stop_playing-Asked c here in
      let stopped = stop_playing c in
      let out = update_resident_history_now m c in
      let selected =
        selected_after c.playing c.frames m.renderer.selected_observation_id m.frame m.frames in
      let swapped = swap m c.frames c.playing c.intent_revision false stopped in
      elim (Result-cases
        (as_callback m.first_before_commit >> as_callback (m.update_resident_history selected))) [
          | inr (f, w) ↦ absurd (ground (arith, here, free, e, w))
          | inl (u, w) ↦
              let same : out ≡ swapped = ground (arith, here, free, w) in
              subst (λ (x : Updated E). x.1.timer ≡ x.1.playing) (sym same)
                (swap-schedules c.frames c.playing c.intent_revision stopped receipt quiet silent
                  (sym (ap (λ x. x.0) same) ∙ e))
        ]
