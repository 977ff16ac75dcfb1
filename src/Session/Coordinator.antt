-- ===== src/Session/Coordinator.antt =====
-- src/radar-session/RadarSessionCoordinator.ts: the class, one function for each method. A method that may
-- throw returns a `Result`: it throws before its first assignment, so the state is then the old one. What the
-- callbacks are called with is the field `log`, newest first; they are taken to return.
use mistr.Prelude.{
  ltb, ◌==◌, if◌then◌else◌, ◌>>=◌, ◌>>◌, increment, Result, ok, any, ℕ, max, String, Bool, true,
  false, not, ◌&&◌, ◌||◌, Option, none, some, List, [], ◌∷◌, ◌++◌,
}
use mistr.Sites.{RadarSiteOption}
use mistr.Session.Source.{
  RadarSourceKey, RadarPaintIdentity, SessionError, same_radar_source, assert_source_key,
  assert_generation, assert_paint_identity,
}

pub record RadarSourceTransition : Type 0 where
  pub id : ℕ
  pub requested_source : RadarSourceKey
  pub generation : ℕ
  pub persist_on_paint : Bool

pub record RadarSessionSnapshot : Type 0 where
  pub generation : ℕ
  pub requested_source : Option RadarSourceKey
  pub painted : Option RadarPaintIdentity
  pub transition : Option RadarSourceTransition
  pub last_failure : Option String

-- A call of a callback: a snapshot handed to a listener, or a source handed to `persistPaintedSource`.
pub data Event : Type 0 where
  notified : ℕ → RadarSessionSnapshot → Event
  persisted : RadarSourceKey → Event

pub record RadarSessionCoordinator : Type 0 where
  pub listeners : List ℕ
  pub persists : Bool
  pub generation : ℕ
  pub transition_sequence : ℕ
  pub transition : Option RadarSourceTransition
  pub painted : Option RadarPaintIdentity
  pub last_failure : Option String
  pub log : List Event

pub record TransitionOptions : Type 0 where
  pub persist_on_paint : Option Bool
  pub resident_generation : Option ℕ

unfoldable pub new : Bool → RadarSessionCoordinator
new persists = record {
  listeners = [];
  persists = persists;
  generation = 0;
  transition_sequence = 0;
  transition = none;
  painted = none;
  last_failure = none;
  log = [];
}

abbrev pub requested : Option RadarSourceTransition → Option RadarSourceKey
requested none = none
requested (some t) = some t.requested_source

unfoldable pub snapshot : RadarSessionCoordinator → RadarSessionSnapshot
snapshot c = record {
  generation = c.generation;
  requested_source = requested c.transition;
  painted = c.painted;
  transition = c.transition;
  last_failure = c.last_failure;
}

unfoldable pub deliver : RadarSessionSnapshot → List ℕ → List Event → List Event
deliver s [] log = log
deliver s (l ∷ ls) log = deliver s ls (notified l s ∷ log)

unfoldable pub emit : RadarSessionCoordinator → RadarSessionCoordinator
emit c = record c { log = deliver (snapshot c) c.listeners c.log }

abbrev pub or_true : Option Bool → Bool
or_true none = true
or_true (some b) = b

-- The generation of the new transition, with the coordinator's own.
unfoldable pub choose_generation :
    RadarSessionCoordinator → ℕ → Option ℕ → Result SessionError (ℕ × ℕ)
choose_generation c minimum none = let g = max (increment c.generation) minimum in ok (g, g)
choose_generation c minimum (some resident) = do
  assert_generation resident
  ok (resident, c.generation)

unfoldable pub begin_transition :
    List RadarSiteOption
    → RadarSourceKey
    → ℕ
    → TransitionOptions
    → RadarSessionCoordinator
    → Result SessionError (RadarSourceTransition × RadarSessionCoordinator)
unfolding choose_generation
begin_transition sites source minimum options c = do
  assert_source_key sites source
  assert_generation minimum
  (generation, own) ← choose_generation c minimum options.resident_generation
  let t : RadarSourceTransition = record {
    id = increment c.transition_sequence;
    requested_source = source;
    generation = generation;
    persist_on_paint = or_true options.persist_on_paint;
  }
  ok (
    t,
    emit (record c {
      generation = own;
      transition_sequence = increment c.transition_sequence;
      transition = some t;
      last_failure = none;
    }),
  )

unfoldable pub is_current : RadarSessionCoordinator → RadarSourceTransition → Bool
is_current c t = elim c.transition [
  | none ↦ false
  | some u ↦
      u.id == t.id
      && u.generation == t.generation
      && same_radar_source u.requested_source t.requested_source
]

unfoldable pub persist : Bool → RadarSourceKey → RadarSessionCoordinator → RadarSessionCoordinator
persist on_paint source c =
    if on_paint && c.persists then record c { log = persisted source ∷ c.log } else c

unfoldable pub accept_paint :
    List RadarSiteOption
    → RadarSourceTransition
    → RadarPaintIdentity
    → RadarSessionCoordinator
    → Result SessionError (Bool × RadarSessionCoordinator)
accept_paint sites t receipt c = do
  assert_paint_identity sites receipt
  ok (
      if not (is_current c t)
      then (false, c)
      else if not (receipt.generation == t.generation)
          || not (same_radar_source receipt.source t.requested_source)
      then (false, c)
      else (
        true,
        persist t.persist_on_paint receipt.source (
            emit (record c {
              painted = some receipt;
              generation = max c.generation receipt.generation;
              transition = none;
              last_failure = none;
            })),
      ))

-- `error` is the message that the source reads off what was thrown.
unfoldable pub fail_transition :
    RadarSourceTransition → String → RadarSessionCoordinator → Bool × RadarSessionCoordinator
fail_transition t error c =
    if not (is_current c t)
    then (false, c)
    else (true, emit (record c { transition = none; last_failure = some error }))

unfoldable pub cancel_pending :
    ℕ → RadarSessionCoordinator → Result SessionError RadarSessionCoordinator
cancel_pending minimum c = do
  assert_generation minimum
  ok (
      emit (record c {
        generation = max c.generation minimum;
        transition = none;
        last_failure = none;
      }))

unfoldable pub establish_painted_source :
    List RadarSiteOption
    → RadarPaintIdentity
    → RadarSessionCoordinator
    → Result SessionError RadarSessionCoordinator
establish_painted_source sites receipt c = do
  assert_paint_identity sites receipt
  ok (
      emit (record c {
        generation = max c.generation receipt.generation;
        painted = some receipt;
        last_failure = none;
      }))

-- The renderer's callback must not settle the transition itself.
unfoldable pub awaits : Option RadarSourceTransition → RadarPaintIdentity → Bool
awaits none receipt = false
awaits (some t) receipt =
    t.generation == receipt.generation && same_radar_source t.requested_source receipt.source

unfoldable pub advances :
    Option RadarPaintIdentity → Option RadarSourceTransition → RadarPaintIdentity → Bool
unfolding awaits
advances none transition receipt = false
advances (some p) transition receipt =
    if not (same_radar_source p.source receipt.source)
    then false
    else if awaits transition receipt
    then false
    else not (ltb receipt.generation p.generation)

unfoldable pub synchronize_paint :
    List RadarSiteOption
    → RadarPaintIdentity
    → RadarSessionCoordinator
    → Result SessionError (Bool × RadarSessionCoordinator)
synchronize_paint sites receipt c = do
  assert_paint_identity sites receipt
  ok (
      if advances c.painted c.transition receipt
      then (
        true,
        emit
            (record c { generation = max c.generation receipt.generation; painted = some receipt }),
      )
      else (false, c))

-- `listeners` is a `Set`: a listener that is there already is not added again, and is told all the same.
unfoldable pub subscribe : ℕ → RadarSessionCoordinator → RadarSessionCoordinator
subscribe l c = record c {
  listeners = if any (λ k. k == l) c.listeners then c.listeners else c.listeners ++ l ∷ [];
  log = notified l (snapshot c) ∷ c.log;
}

unfoldable pub remove : ℕ → List ℕ → List ℕ
remove l [] = []
remove l (k ∷ ks) = let rest = remove l ks in if k == l then rest else k ∷ rest

-- The function that `subscribe` returns.
unfoldable pub unsubscribe : ℕ → RadarSessionCoordinator → RadarSessionCoordinator
unsubscribe l c = record c { listeners = remove l c.listeners }
