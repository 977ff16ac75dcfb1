-- ===== src/Playback/Resident/Tests.antt =====
-- A history of two frames to which a third comes: the theorems on src/playback/ResidentPlaybackController.ts applied
-- to it. Errors are numbers.
use mistr.Prelude.{ok, err, ℕ, String, ◌≡◌, refl, Bool, true, false, none, some, List, [], ◌∷◌}
use mistr.Playback.Resident.{
  ResidentFrame, RadarPaintReceipt, RendererSnapshot, ResidentPlaybackController, Call, plays,
  is_authoritative, schedule_next, start_playing, stop_playing, resume_task, calls,
}
use mistr.Playback.Resident.Update.{
  update_resident_history_now, Meeting, should_resume_after_mutation, resume_if, selected_after,
}
use mistr.Playback.Resident.Timer.{update-schedules}

abbrev frame_at : String → ℕ → ResidentFrame
frame_at id time = record { observation_id = id; observed_at_unix_ms = time }

abbrev renderer_at : ℕ → RendererSnapshot
renderer_at sequence = record {
  generation = 4;
  context_epoch = 1;
  selected_observation_id = "b";
  selection_sequence = sequence;
}

abbrev receipt_at : ℕ → RadarPaintReceipt
receipt_at sequence = record {
  generation = 4;
  context_epoch = 1;
  observation_id = "b";
  selection_sequence = sequence;
}

abbrev third_frame : List Call → List Call → Meeting ℕ
third_frame before during = record {
  frame = frame_at "a" 100;
  frames = frame_at "b" 200 ∷ frame_at "c" 300 ∷ [];
  renderer = renderer_at 6;
  in_flight = record {
    meanwhile = before;
    succeeds = true;
    of_timer = false;
    accepted = some (receipt_at 6);
  };
  first_before_commit = ok tt;
  update_resident_history = λ selected. ok tt;
  during_paint = during;
  paint = ok (receipt_at 7);
  painted_renderer = renderer_at 7;
  second_before_commit = ok tt;
  commit_replacement = ok tt;
  during_restoration = [];
  restoration = err 1;
  restored_renderer = renderer_at 7;
}

abbrev two_frames : Bool → ResidentPlaybackController
two_frames operation = record {
  frames = frame_at "a" 100 ∷ frame_at "b" 200 ∷ [];
  playing = false;
  disposed = false;
  timer = false;
  operation = operation;
  awaits_operation = false;
  last_receipt = none;
  intent_revision = 3;
  operator_wants_playing = false;
}

third_frame_painted :
    (update_resident_history_now (third_frame [] (plays ∷ [])) (two_frames false)).0
    ≡ ok (receipt_at 7)
unfolding update_resident_history_now is_authoritative selected_after calls stop_playing
    start_playing schedule_next resume_task resume_if should_resume_after_mutation
third_frame_painted = refl

update-schedules_example :
    let d = (update_resident_history_now (third_frame [] (plays ∷ [])) (two_frames false)).1 in
    d.timer ≡ d.playing
update-schedules_example =
    update-schedules (third_frame [] (plays ∷ [])) (two_frames false) (receipt_at 7) refl refl
      third_frame_painted

-- Play is asked for while a scrub is still to be painted and the update waits for it: the update returns with
-- playback on, and no timer.
play_stands_still :
    let (r, d) = update_resident_history_now (third_frame (plays ∷ []) []) (two_frames true) in
    (r ≡ ok (receipt_at 7)) × (d.playing ≡ true) × (d.operation ≡ false) × (d.timer ≡ false)
unfolding update_resident_history_now is_authoritative selected_after calls stop_playing
    start_playing schedule_next resume_task resume_if should_resume_after_mutation
play_stands_still = (refl, refl, refl, refl)
