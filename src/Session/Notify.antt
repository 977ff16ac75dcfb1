-- ===== src/Session/Notify.antt =====
-- src/radar-session/RadarSessionCoordinator.ts: what the listeners have been told.
use mistr.Prelude.{
  ◌==◌, if◌then◌else◌, any, ℕ, ◌≡◌, refl, Bool, true, not, ◌&&◌, ◌||◌, Option, none, some, List, [],
  ◌∷◌, ◌++◌, arith,
}
use mistr.Sites.{RadarSiteOption}
use mistr.Session.Source.{RadarSourceKey}
use mistr.Session.Coordinator.{
  snapshot, deliver, emit, persist, RadarSessionSnapshot, Event, RadarSessionCoordinator, notified,
  persisted, begin_transition, accept_paint, fail_transition, cancel_pending,
  establish_painted_source, synchronize_paint, subscribe, remove, unsubscribe,
}
use mistr.Session.Calls.{
  step, run, Call, begins, accepts, fails, cancels, establishes, synchronizes, subscribes,
  unsubscribes,
}

-- The snapshot that listener `l` was handed last; the log is newest first.
unfoldable pub latest : ℕ → List Event → Option RadarSessionSnapshot
latest l [] = none
latest l (notified k s ∷ log) = let rest = latest l log in if k == l then some s else rest
latest l (persisted source ∷ log) = latest l log

abbrev pub listening : ℕ → List ℕ → Bool
listening l = any (λ k. k == l)

latest-deliver :
    (l : ℕ) (s : RadarSessionSnapshot) (ls : List ℕ) (log : List Event)
    → latest l (deliver s ls log) ≡ (if listening l ls then some s else latest l log)
unfolding latest deliver
latest-deliver l s [] log = refl
latest-deliver l s (k ∷ ls) log = ground (arith, latest-deliver l s ls (notified k s ∷ log))

-- Listener `l`, if it is subscribed, was last told the state as it is.
abbrev pub IsTold : ℕ → RadarSessionCoordinator → Type 0
IsTold l c = listening l c.listeners ≡ true → latest l c.log ≡ some (snapshot c)

emit-IsTold : (l : ℕ) (c : RadarSessionCoordinator) → IsTold l (emit c)
unfolding emit snapshot
emit-IsTold l c h = ground (arith, latest-deliver l (snapshot c) c.listeners c.log)

persist-IsTold :
    (l : ℕ) (on_paint : Bool) (source : RadarSourceKey) (c : RadarSessionCoordinator)
    → IsTold l c
    → IsTold l (persist on_paint source c)
unfolding persist snapshot latest
persist-IsTold l on_paint source c h k = ground arith

listening-append : (l k : ℕ) (ls : List ℕ) → listening l (ls ++ k ∷ []) ≡ (listening l ls || k == l)
listening-append l k [] = ground arith
listening-append l k (x ∷ ls) = ground (arith, listening-append l k ls)

listening-remove :
    (l k : ℕ) (ls : List ℕ) → listening l (remove k ls) ≡ (listening l ls && not (k == l))
unfolding remove
listening-remove l k [] = refl
listening-remove l k (x ∷ ls) = ground (arith, listening-remove l k ls)

subscribe-IsTold : (l k : ℕ) (c : RadarSessionCoordinator) → IsTold l c → IsTold l (subscribe k c)
unfolding subscribe snapshot latest
subscribe-IsTold l k c h m = ground (arith, listening-append l k c.listeners)

unsubscribe-IsTold :
    (l k : ℕ) (c : RadarSessionCoordinator) → IsTold l c → IsTold l (unsubscribe k c)
unfolding unsubscribe snapshot
unsubscribe-IsTold l k c h m = ground (arith, listening-remove l k c.listeners)

step-IsTold :
    (sites : List RadarSiteOption) (call : Call) (l : ℕ) (c : RadarSessionCoordinator)
    → IsTold l c
    → IsTold l (step sites call c)
unfolding step begin_transition accept_paint fail_transition cancel_pending establish_painted_source
    synchronize_paint
step-IsTold sites (begins source minimum options) l c h = grind (arith, emit-IsTold)
step-IsTold sites (accepts t receipt) l c h = grind (arith, emit-IsTold, persist-IsTold)
step-IsTold sites (fails t error) l c h = grind (arith, emit-IsTold)
step-IsTold sites (cancels minimum) l c h = grind (arith, emit-IsTold)
step-IsTold sites (establishes receipt) l c h = grind (arith, emit-IsTold)
step-IsTold sites (synchronizes receipt) l c h = grind (arith, emit-IsTold)
step-IsTold sites (subscribes k) l c h = subscribe-IsTold l k c h
step-IsTold sites (unsubscribes k) l c h = unsubscribe-IsTold l k c h

-- If listener `l` was last told the state as it is, in case it is subscribed, that holds after any calls too: a
-- listener that is subscribed has been handed, as its last snapshot, the state as it is.
pub run-IsTold :
    (sites : List RadarSiteOption) (calls : List Call) (l : ℕ) (c : RadarSessionCoordinator)
    → IsTold l c
    → IsTold l (run sites calls c)
unfolding run
run-IsTold sites [] l c h = h
run-IsTold sites (call ∷ calls) l c h =
    run-IsTold sites calls l (step sites call c) (step-IsTold sites call l c h)
