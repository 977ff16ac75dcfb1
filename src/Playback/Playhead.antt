-- ===== src/Playback/Playhead.antt =====
-- src/playback/playheadCarry.ts: how an incoming source adopts the outgoing playhead. Times are whole
-- milliseconds.
pub mod Nearest
pub mod Carry
use mathlib.Core.Option
use mistr.Prelude.{
  ltb, leb, if◌then◌else◌, length, get_or, ℕ, zero, suc, ◌+◌, ◌-◌, ◌/◌, Bool, not, ◌&&◌, Option,
  none, some, List, [], ◌∷◌, map,
}

pub record CarriedPlayhead : Type 0 where
  pub observed_at_unix_ms : ℕ
  pub playing : Bool
  pub at_newest : Bool

pub data PlayheadCarryStep : Type 0 where
  done wait : PlayheadCarryStep
  apply : Option ℕ → Bool → PlayheadCarryStep

-- `times[i]` where `i` is in range.
abbrev pub at : List ℕ → ℕ → ℕ
at times i = get_or times i 0

-- `while (high - low > 1)`, with fuel.
unfoldable pub bisect : ℕ → List ℕ → ℕ → ℕ → ℕ → Option (ℕ × ℕ)
bisect zero times target low high = none
bisect (suc fuel) times target low high =
    let middle = (low + high) / 2 in
    let right = bisect fuel times target middle high in
    let left = bisect fuel times target low middle in
    if ltb 1 (high - low)
    then (if leb (at times middle) target then right else left)
    else some (low, high)

unfoldable pub nearer : List ℕ → ℕ → ℕ × ℕ → ℕ
nearer times target (low, high) =
    if leb (target - at times low) (at times high - target) then low else high

-- `none` is the source's -1. The interval shrinks in each round, so its length is enough fuel.
unfoldable pub nearest_frame_index : List ℕ → ℕ → Option ℕ
nearest_frame_index [] target = none
nearest_frame_index (t ∷ ts) target =
    if leb target t
    then some 0
    else if leb (at (t ∷ ts) (length ts)) target
    then some (length ts)
    else Option.map (nearer (t ∷ ts) target)
        (bisect (suc (length ts)) (t ∷ ts) target 0 (length ts))

unfoldable pub plan_playhead_carry : CarriedPlayhead → List ℕ → Bool → PlayheadCarryStep
plan_playhead_carry carry times history_complete =
    if not carry.playing && carry.at_newest
    then done
    else if ltb (length times) (if carry.playing then 2 else 1)
    then (if history_complete then done else wait)
    else if not carry.playing && ltb carry.observed_at_unix_ms (at times 0) && not history_complete
    then wait
    else apply (nearest_frame_index times carry.observed_at_unix_ms) carry.playing
