-- ===== src/Playback/Resident/Update.antt =====
-- src/playback/ResidentPlaybackController.ts: `updateResidentHistoryNow`, of a renderer that is not recovering. What
-- reaches the controller at each `await`, and what the awaited operation comes to, is an argument. Callbacks of one
-- settled operation run in the order in which they were attached to it: the update's first, then `startPlaying`'s.
use mistr.Prelude.{
  ◌==◌, if◌then◌else◌, ◌>>=◌, ◌>>◌, require, Result, ok, err, any, last, ℕ, String, Bool, true,
  false, not, ◌&&◌, Option, none, some, List, [], ◌∷◌, str_eq,
}
use mistr.Playback.Resident.{
  is_authoritative, schedule_next, start_playing, stop_playing, resume_task, fail_operation, calls,
  ResidentFrame, RadarPaintReceipt, RendererSnapshot, ResidentPlaybackController, Call,
}

-- What an update meets. `in_flight` is about an operation that is pending when the update starts: the calls until
-- it settles, whether it succeeds, whether it is the timer's, which schedules the next frame behind it or stops,
-- and the receipt that it accepts. The new frames are `frame ∷ frames`.
pub record InFlight : Type 0 where
  pub meanwhile : List Call
  pub succeeds : Bool
  pub of_timer : Bool
  pub accepted : Option RadarPaintReceipt

pub record Meeting (E : Type 0) : Type 0 where
  pub frame : ResidentFrame
  pub frames : List ResidentFrame
  pub renderer : RendererSnapshot
  pub in_flight : InFlight
  pub first_before_commit : Result E (Unit {0})
  pub update_resident_history : String → Result E (Unit {0})
  pub during_paint : List Call
  pub paint : Result E RadarPaintReceipt
  pub painted_renderer : RendererSnapshot
  pub second_before_commit : Result E (Unit {0})
  pub commit_replacement : Result E (Unit {0})
  pub during_restoration : List Call
  pub restoration : Result E RadarPaintReceipt
  pub restored_renderer : RendererSnapshot

pub data UpdateError (E : Type 0) : Type 0 where
  held not_authoritative disposed_controller : UpdateError E
  callback : E → UpdateError E
  rollback_failed : UpdateError E

abbrev pub Updated : Type 0 → Type 0
Updated E = Result (UpdateError E) RadarPaintReceipt × ResidentPlaybackController

unfoldable pub should_resume_after_mutation : Bool → ℕ → ResidentPlaybackController → Bool
should_resume_after_mutation was_playing revision c =
    if c.disposed
    then false
    else if c.intent_revision == revision
    then was_playing
    else c.operator_wants_playing

unfoldable pub resume_if : Bool → ResidentPlaybackController → ResidentPlaybackController
resume_if true c = start_playing c
resume_if false c = c

abbrev pub as_callback : {E A : Type 0} → Result E A → Result (UpdateError E) A
as_callback (ok a) = ok a
as_callback (err e) = err (callback e)

-- The frame that an update selects: the newest if playback was paused there, else the one that was selected, if
-- it is still there, else the first of `frame ∷ frames`.
unfoldable pub selected_after :
    Bool → List ResidentFrame → String → ResidentFrame → List ResidentFrame → String
selected_after playing previous selected frame frames =
    if not playing
      && elim previous [ [] ↦ false | p ∷ ps ↦ str_eq selected (last p ps).observation_id ]
    then (last frame frames).observation_id
    else if any (λ f. str_eq f.observation_id selected) (frame ∷ frames)
    then selected
    else frame.observation_id

module _ {E : Type 0} (m : Meeting E) where
  -- `establishInitialPaint` from its `await` on, and the calls up to the commit of the replacement.
  unfoldable pub paint_result : Result (UpdateError E) RadarPaintReceipt
  paint_result = do
    receipt ← as_callback m.paint
    require (is_authoritative receipt m.painted_renderer) not_authoritative
    as_callback m.second_before_commit
    as_callback m.commit_replacement
    ok receipt

  -- The operation of the paint settles; what waits for a success is still to run.
  unfoldable pub settle_paint : ResidentPlaybackController → ResidentPlaybackController
  settle_paint c = elim m.paint [
    | err e ↦ fail_operation c
    | ok receipt ↦ record c {
      operation = false;
      last_receipt =
          if is_authoritative receipt m.painted_renderer then some receipt else c.last_receipt;
    }
  ]

  -- The `catch` block: the previous frames are restored.
  unfoldable pub restore :
      List ResidentFrame → UpdateError E → Bool → ℕ → ResidentPlaybackController → Updated E
  unfolding should_resume_after_mutation resume_if
  restore previous error was_playing revision c =
      let pending = calls m.during_restoration (record c {
        frames = previous;
        last_receipt = none;
        operation = true;
        awaits_operation = false;
      }) in
      let settled = record pending { operation = false; awaits_operation = false } in
      elim m.restoration [
        | err e ↦
            let resumed =
              resume_if (should_resume_after_mutation was_playing revision settled) settled in
            (
              err rollback_failed,
              record resumed {
                playing = if pending.awaits_operation then false else resumed.playing;
              },
            )
        | ok receipt ↦
            let accepted = is_authoritative receipt m.restored_renderer in
            let noted = record settled { last_receipt = if accepted then some receipt else none } in
            let resumed =
              resume_if (should_resume_after_mutation was_playing revision noted) noted in
            (
              err (if accepted then error else rollback_failed),
              resume_task pending.awaits_operation resumed,
            )
      ]

  -- From the swap of the frames on. `scheduled` is the task of the timer's operation, which runs when the paint is
  -- already pending; there, a task of `startPlaying` has no effect.
  unfoldable pub swap :
      List ResidentFrame → Bool → ℕ → Bool → ResidentPlaybackController → Updated E
  unfolding paint_result settle_paint restore
  swap previous was_playing revision scheduled c =
      let started = record c {
        frames = m.frame ∷ m.frames;
        operation = true;
        awaits_operation = false;
      } in
      let pending = calls m.during_paint (if scheduled then schedule_next started else started) in
      let settled = settle_paint pending in
      if c.disposed
      then restore previous disposed_controller was_playing revision c
      else elim paint_result [
        | ok receipt ↦
            let free = record settled { awaits_operation = false } in
            let resumed = resume_if (should_resume_after_mutation was_playing revision free) free in
            (ok receipt, resume_task pending.awaits_operation resumed)
        | err e ↦ restore previous e was_playing revision settled
      ]

  -- Behind the hold of `start`, the controller before it: the calls up to the swap. `waits` is the task of
  -- `startPlaying` on an operation that was in flight.
  unfoldable pub begin_swap :
      ResidentPlaybackController → Bool → Bool → ResidentPlaybackController → Updated E
  unfolding swap selected_after
  begin_swap start waits scheduled c =
      let selected =
        selected_after start.playing start.frames m.renderer.selected_observation_id m.frame
          m.frames in
      elim (as_callback m.first_before_commit >> as_callback (m.update_resident_history selected)) [
        | err e ↦ (err e, resume_task waits (if scheduled then schedule_next c else c))
        | ok _ ↦ swap start.frames start.playing start.intent_revision scheduled c
      ]

  unfoldable pub or_last :
      Option RadarPaintReceipt → Option RadarPaintReceipt → Option RadarPaintReceipt
  or_last none before = before
  or_last (some receipt) before = some receipt

  unfoldable pub update_resident_history_now : ResidentPlaybackController → Updated E
  unfolding begin_swap or_last
  update_resident_history_now c =
      let stopped = stop_playing c in
      let pending = calls m.in_flight.meanwhile stopped in
      let settled = record pending {
        operation = false;
        awaits_operation = false;
        last_receipt = or_last m.in_flight.accepted pending.last_receipt;
      } in
      let failed = fail_operation pending in
      if c.disposed
      then (err disposed_controller, c)
      else if not c.operation
      then begin_swap c false false stopped
      else if m.in_flight.succeeds
      then begin_swap c pending.awaits_operation m.in_flight.of_timer settled
      else (
        err held,
        record failed { playing = if m.in_flight.of_timer then false else failed.playing },
      )
