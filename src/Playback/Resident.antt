-- ===== src/Playback/Resident.antt =====
-- src/playback/ResidentPlaybackController.ts: playback over the resident frames of a Site, as a record with one
-- function for each method, up to its first `await`. `layer.getSnapshot()` is an argument of the functions that
-- call it. The snapshots that `emit` reports are left out; so are the counts of transitions, which only they show.
pub mod Update
pub mod Resumes
pub mod Swap
pub mod Outcome
pub mod Timer
pub mod Tests
use mathlib.Core.Option
use mistr.Prelude.{
  ltb, ◌==◌, if◌then◌else◌, length, get_elem?, last, ℕ, ◌+◌, ◌%◌, String, Bool, true, false, not,
  ◌&&◌, ◌||◌, Option, none, some, List, [], ◌∷◌, map, str_eq,
}

pub record ResidentFrame : Type 0 where
  pub observation_id : String
  pub observed_at_unix_ms : ℕ

pub record RadarPaintReceipt : Type 0 where
  pub generation : ℕ
  pub context_epoch : ℕ
  pub observation_id : String
  pub selection_sequence : ℕ

pub record RendererSnapshot : Type 0 where
  pub generation : ℕ
  pub context_epoch : ℕ
  pub selected_observation_id : String
  pub selection_sequence : ℕ

-- `operation` and `timer` tell whether there is one. `awaits_operation` says that `startPlaying` waits for the
-- operation, to schedule the next frame behind it.
pub record ResidentPlaybackController : Type 0 where
  pub frames : List ResidentFrame
  pub playing : Bool
  pub disposed : Bool
  pub timer : Bool
  pub operation : Bool
  pub awaits_operation : Bool
  pub last_receipt : Option RadarPaintReceipt
  pub intent_revision : ℕ
  pub operator_wants_playing : Bool

-- The condition of `assertReceipt`, negated.
unfoldable pub is_authoritative : RadarPaintReceipt → RendererSnapshot → Bool
is_authoritative receipt renderer =
    receipt.generation == renderer.generation
    && receipt.context_epoch == renderer.context_epoch
    && str_eq receipt.observation_id renderer.selected_observation_id
    && receipt.selection_sequence == renderer.selection_sequence

unfoldable pub schedule_next : ResidentPlaybackController → ResidentPlaybackController
schedule_next c = if not c.playing || c.disposed then c else record c { timer = true }

unfoldable pub start_playing : ResidentPlaybackController → ResidentPlaybackController
unfolding schedule_next
start_playing c =
    if c.playing || c.disposed
    then c
    else if c.operation
    then record c { playing = true; awaits_operation = true }
    else schedule_next (record c { playing = true })

unfoldable pub stop_playing : ResidentPlaybackController → ResidentPlaybackController
stop_playing c = if c.disposed then c else record c { playing = false; timer = false }

-- A disposed controller throws.
unfoldable pub play : ResidentPlaybackController → ResidentPlaybackController
unfolding start_playing
play c =
    if c.disposed
    then c
    else start_playing
        (record c { intent_revision = c.intent_revision + 1; operator_wants_playing = true })

unfoldable pub pause : ResidentPlaybackController → ResidentPlaybackController
unfolding stop_playing
pause c =
    stop_playing
      (record c { intent_revision = c.intent_revision + 1; operator_wants_playing = false })

unfoldable pub dispose : ResidentPlaybackController → ResidentPlaybackController
unfolding pause
dispose c = record (pause c) { disposed = true }

-- `scrub` up to its waits; an index out of range, or a disposed controller, throws.
unfoldable pub scrub : ℕ → ResidentPlaybackController → ResidentPlaybackController
unfolding stop_playing
scrub index c =
    if c.disposed || not (ltb index (length c.frames))
    then c
    else stop_playing
        (record c { intent_revision = c.intent_revision + 1; operator_wants_playing = false })

-- The timer fires while an operation is pending: `select` throws, and playback stops.
unfoldable pub fire_pending : ResidentPlaybackController → ResidentPlaybackController
fire_pending c = if c.timer then record c { timer = false; playing = false } else c

-- The microtask of `startPlaying` behind an operation that succeeded, if it waits for one.
unfoldable pub resume_task : Bool → ResidentPlaybackController → ResidentPlaybackController
unfolding schedule_next
resume_task waits c = if waits && c.playing && not c.operation then schedule_next c else c

-- The operation fails: `startPlaying`, if it waits for it, stops.
unfoldable pub fail_operation : ResidentPlaybackController → ResidentPlaybackController
fail_operation c = record c {
  operation = false;
  awaits_operation = false;
  playing = if c.awaits_operation then false else c.playing;
}

-- What may reach the controller while an operation is pending.
pub data Call : Type 0 where
  plays pauses disposes fires : Call
  scrubs : ℕ → Call

unfoldable pub call : Call → ResidentPlaybackController → ResidentPlaybackController
unfolding play pause dispose scrub fire_pending
call plays c = play c
call pauses c = pause c
call disposes c = dispose c
call fires c = fire_pending c
call (scrubs index) c = scrub index c

unfoldable pub calls : List Call → ResidentPlaybackController → ResidentPlaybackController
unfolding call
calls [] c = c
calls (x ∷ xs) c = calls xs (call x c)

-- `dwellForCurrent`, of the frames `frame ∷ frames`.
unfoldable pub dwell_for_current : ℕ → ℕ → ResidentFrame → List ResidentFrame → RendererSnapshot → ℕ
dwell_for_current dwell_ms latest_dwell_ms frame frames renderer =
    if str_eq renderer.selected_observation_id (last frame frames).observation_id
    then latest_dwell_ms
    else dwell_ms

unfoldable pub find_index : String → List ResidentFrame → Option ℕ
find_index id [] = none
find_index id (frame ∷ frames) =
    if str_eq frame.observation_id id
    then some 0
    else Option.map (λ i. i + 1) (find_index id frames)

-- `advanceOnce` up to `select`: the next frame, and whether it completes a cycle; or the throw.
unfoldable pub advance_once : List ResidentFrame → RendererSnapshot → Option (ResidentFrame × Bool)
unfolding find_index
advance_once frames renderer = elim (find_index renderer.selected_observation_id frames) [
  | none ↦ none
  | some current ↦
      let next = (current + 1) % length frames in
      Option.map (λ frame. (frame, next == 0)) (get_elem? frames next)
]
