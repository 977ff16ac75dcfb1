-- ===== src/National/Loops.antt =====
-- src/national-radar/National{Polling,Backfill,Finalize,Rollback}Loop.ts: the loops of a National session. Their
-- callbacks are arguments: each answers at a time that grows from call to call, so an answer may depend on all
-- that has happened. A loop runs on `rounds`; a run that spends them all is `unfinished`.
pub mod Settle
pub mod Backfill
pub mod Polling
use mistr.Prelude.{Option, List, ◌∷◌}

-- What a run came to, and the calls that it made.
pub data Ended {ℓ} (E : Type 0) (A : Type ℓ) : Type ℓ where
  returned : A → Ended E A
  threw : E → Ended E A
  unfinished : Ended E A

-- What is thrown: an argument that is out of range, an error of a callback, or the caller's cancellation
-- error, which is told the last failure.
pub data Thrown (E : Type 0) : Type 0 where
  range_error : Thrown E
  error : E → Thrown E
  cancellation_error : Option E → Thrown E

abbrev pub after {ℓ κ} : {A : Type ℓ} {R : Type κ} → A → R × List A → R × List A
after a (r, actions) = (r, a ∷ actions)
