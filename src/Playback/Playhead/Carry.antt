-- ===== src/Playback/Playhead/Carry.antt =====
-- src/playback/playheadCarry.ts: what `planPlayheadCarry` decides.
use mistr.Prelude.{
  length, ℕ, ◌≤◌, ◌<◌, ◌≡◌, ◌∙◌, ◌≢◌, Bool, true, false, not, ◌&&◌, Option, some, List, [], ◌∷◌,
  arith,
}
use mistr.Playback.Playhead.{
  at, nearest_frame_index, plan_playhead_carry, CarriedPlayhead, wait, apply,
}
use mistr.Playback.Playhead.Nearest.{IsAscending, nearest_frame_index-IsNearest, IsNearest}

plan_apply :
    (carry : CarriedPlayhead) (times : List ℕ) (complete play : Bool) (o : Option ℕ)
    → plan_playhead_carry carry times complete ≡ apply o play
    → (o ≡ nearest_frame_index times carry.observed_at_unix_ms)
      × (play ≡ carry.playing)
      × (0 < length times)
      × (carry.playing ≡ false → complete ≡ false → at times 0 ≤ carry.observed_at_unix_ms)
unfolding plan_playhead_carry
plan_apply carry times complete play o h = ground arith

-- Over strictly ascending times, a jump goes to the nearest resident frame and keeps the loop running or
-- paused as it was. A paused playhead jumps, while history still loads, only once it reaches back to the
-- carried time.
pub carry_applies-IsNearest :
    (carry : CarriedPlayhead) (times : List ℕ) (complete play : Bool) (o : Option ℕ)
    → IsAscending times
    → plan_playhead_carry carry times complete ≡ apply o play
    → (i : ℕ) × (o ≡ some i)
      × IsNearest times carry.observed_at_unix_ms i
      × (play ≡ carry.playing)
      × (carry.playing ≡ false → complete ≡ false → at times 0 ≤ carry.observed_at_unix_ms)
carry_applies-IsNearest carry [] complete play o asc h =
    absurd (omega (arith, (plan_apply carry [] complete play o h).2))
carry_applies-IsNearest carry (t ∷ ts) complete play o asc h =
    let p = plan_apply carry (t ∷ ts) complete play o h in
    let (i, e, near) = nearest_frame_index-IsNearest t ts carry.observed_at_unix_ms asc in
    (i, p.0 ∙ e, near, p.1, p.3)

-- Once history is complete the carry is settled: it never waits, and it jumps whenever there are frames enough
-- and the playhead was not paused at the newest.
pub carry_settles :
    (carry : CarriedPlayhead) (times : List ℕ)
    → (plan_playhead_carry carry times true ≢ wait)
      × (2 ≤ length times
          → (not carry.playing && carry.at_newest) ≡ false
          → plan_playhead_carry carry times true
            ≡ apply (nearest_frame_index times carry.observed_at_unix_ms) carry.playing)
unfolding plan_playhead_carry
carry_settles carry times = ground arith
