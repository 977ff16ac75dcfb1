-- ===== src/Transfer/Lanes.antt =====
-- src/packed-sweep/transferClient.ts: the session, the lanes and the generations of `PackedSweepTransferClient`. Its
-- methods are functions up to the `await` of the backend, and from there on; the backend's answer is an argument. The
-- release acknowledgements stand in Acks; the requests that a generation makes are left out.
pub mod Laws
mod Tests
use mistr.Prelude.{
  ltb, leb, ◌==◌, if◌then◌else◌, is_safe_integer, Result, ok, err, ℕ, Bool, true, false, not, ◌&&◌,
  ◌||◌, Option, none, some, List, [], ◌∷◌,
}

pub data TransferLane : Type 0 where
  site : TransferLane
  national : TransferLane

pub record LaneState : Type 0 where
  pub generation : ℕ
  pub active : Bool

-- A lane that the answer lacks is `none`.
pub record TransferSnapshot : Type 0 where
  pub session : ℕ
  pub site_lane : Option LaneState
  pub national_lane : Option LaneState

pub data TransferClientErrorCode : Type 0 where
  session_not_open invalid_generation generation_not_active : TransferClientErrorCode
  stale_response invoke_failed : TransferClientErrorCode

-- `session` is 0 as long as none is open.
pub record PackedSweepTransferClient : Type 0 where
  pub session : ℕ
  pub max_generation : ℕ
  pub site_state : LaneState
  pub national_state : LaneState

unfoldable pub lane_state : TransferLane → PackedSweepTransferClient → LaneState
lane_state site c = c.site_state
lane_state national c = c.national_state

unfoldable pub set_lane :
    TransferLane → LaneState → PackedSweepTransferClient → PackedSweepTransferClient
set_lane site l c = record c { site_state = l }
set_lane national l c = record c { national_state = l }

unfoldable pub snapshot_lane : TransferLane → TransferSnapshot → Option LaneState
snapshot_lane site s = s.site_lane
snapshot_lane national s = s.national_lane

abbrev pub Answer : Type 0 → Type 0
Answer A = Result TransferClientErrorCode A

abbrev pub idle_lane : LaneState
idle_lane = record { generation = 0; active = false }

unfoldable pub is_idle : Option LaneState → Bool
is_idle none = false
is_idle (some l) = l.generation == 0 && not l.active

-- `open` behind the `await`: the snapshot of a new session, in which both lanes are idle.
unfoldable pub open_session :
    Answer TransferSnapshot
    → PackedSweepTransferClient
    → Answer TransferSnapshot × PackedSweepTransferClient
unfolding is_idle
open_session (err e) c = (err e, c)
open_session (ok s) c =
    if not (is_safe_integer s.session && ltb 0 s.session)
      || not (is_idle s.site_lane && is_idle s.national_lane)
    then (err invoke_failed, c)
    else (
      ok s,
      record {
        session = s.session;
        max_generation = 0;
        site_state = idle_lane;
        national_state = idle_lane;
      },
    )

-- What a `begin` remembers while it waits.
pub record Begin : Type 0 where
  pub session : ℕ
  pub lane : TransferLane
  pub generation : ℕ

-- `begin` up to the `await` of the backend: the lane takes the generation, and is not active.
unfoldable pub begin_generation :
    TransferLane → ℕ → PackedSweepTransferClient → Answer Begin × PackedSweepTransferClient
unfolding set_lane
begin_generation lane generation c =
    if c.session == 0
    then (err session_not_open, c)
    else if not (is_safe_integer generation && ltb 0 generation)
    then (err invalid_generation, c)
    else if leb generation c.max_generation
    then (err invalid_generation, c)
    else (
      ok (record { session = c.session; lane = lane; generation = generation }),
      set_lane lane (record { generation = generation; active = false })
          (record c { max_generation = generation }),
    )

unfoldable pub is_begun : ℕ → Option LaneState → Bool
is_begun generation none = false
is_begun generation (some l) = l.generation == generation && l.active

-- The test whether a `begin` is still the lane's.
unfoldable pub is_current : Begin → PackedSweepTransferClient → Bool
unfolding lane_state
is_current b c = c.session == b.session && (lane_state b.lane c).generation == b.generation

-- `begin` behind the `await`.
unfoldable pub begin_answered :
    Begin
    → Answer TransferSnapshot
    → PackedSweepTransferClient
    → Answer TransferSnapshot × PackedSweepTransferClient
unfolding is_current is_begun snapshot_lane set_lane lane_state
begin_answered b (err e) c = (
  err e,
  if is_current b c
      then set_lane b.lane
          (record { generation = (lane_state b.lane c).generation; active = false }) c
      else c,
)
begin_answered b (ok s) c =
    let generation = (lane_state b.lane c).generation in
    if not (is_current b c)
    then (err stale_response, c)
    else if not (s.session == b.session && is_begun b.generation (snapshot_lane b.lane s))
    then (err invoke_failed, set_lane b.lane (record { generation = generation; active = false }) c)
    else (ok s, set_lane b.lane (record { generation = generation; active = true }) c)

-- `cancel` up to the `await`: the generation whose cancellation the backend is told.
unfoldable pub cancel_generation :
    TransferLane → PackedSweepTransferClient → Answer ℕ × PackedSweepTransferClient
unfolding lane_state set_lane
cancel_generation lane c =
    let l = lane_state lane c in
    if c.session == 0
    then (err session_not_open, c)
    else if not l.active || l.generation == 0
    then (err generation_not_active, c)
    else (ok l.generation, set_lane lane (record { generation = l.generation; active = false }) c)

pub data Event : Type 0 where
  opens : Answer TransferSnapshot → Event
  begins : TransferLane → ℕ → Event
  answers : Begin → Answer TransferSnapshot → Event
  cancels : TransferLane → Event

unfoldable pub step : Event → PackedSweepTransferClient → PackedSweepTransferClient
unfolding open_session begin_generation begin_answered cancel_generation
step (opens answer) c = (open_session answer c).1
step (begins lane generation) c = (begin_generation lane generation c).1
step (answers b answer) c = (begin_answered b answer c).1
step (cancels lane) c = (cancel_generation lane c).1

unfoldable pub run : List Event → PackedSweepTransferClient → PackedSweepTransferClient
unfolding step
run [] c = c
run (e ∷ es) c = run es (step e c)
