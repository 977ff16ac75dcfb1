-- ===== src/Live/History.antt =====
-- src/live/liveHistory.ts: `beginLiveHistory`, `appendLiveHistory` and `prependLiveHistory`. A history is never
-- changed in place: each function returns the new list, oldest frame first.
pub mod Spec
pub mod Laws
pub mod Outcomes
use mistr.Prelude.{
  leb, ◌==◌, if◌then◌else◌, ◌>>=◌, ◌>>◌, require, throw_if, Result, ok, err, length, take, drop,
  any, last, ℕ, suc, ◌-◌, String, Bool, true, false, ◌&&◌, Option, none, some, List, [], ◌∷◌, ◌++◌,
  map, str_eq,
}
use mistr.Sites.{RadarSiteOption}
use mistr.Live.Frame.{
  assert_renderer_generation, with_renderer_generation, assert_live_reflectivity, generation_number,
  assert_same_render_key, RadarSweepCpuModel, HistoryError, bad_limit, bad_size, mixed_generations,
  not_chronological, not_newer, at_capacity, not_older,
}

abbrev pub max_live_history_frames : ℕ
max_live_history_frames = 60

pub record LiveHistoryUpdate (F : Type 0) : Type 0 where
  pub frames : List (RadarSweepCpuModel F)
  pub appended : Bool
  pub evicted_observation_ids : List String

pub record LiveHistoryPrependUpdate (F : Type 0) : Type 0 where
  pub frames : List (RadarSweepCpuModel F)
  pub prepended : Bool

-- `index > 0 && frame.observedAtUnixMs <= current[index - 1].observedAtUnixMs`, of the time before, if any.
abbrev pub is_out_of_order : Option ℕ → ℕ → Bool
is_out_of_order none now = false
is_out_of_order (some before) now = leb now before

module _ {F : Type 0} (sites : List RadarSiteOption) where
  unfoldable pub begin_live_history :
      RadarSweepCpuModel F → ℕ → Result HistoryError (List (RadarSweepCpuModel F))
  begin_live_history model g = do
    assert_renderer_generation g
    assert_live_reflectivity sites model
    ok (with_renderer_generation model g ∷ [])

  -- The loop over `current` that both functions begin with.
  unfoldable pub check_frames :
      ℕ → Option ℕ → List (RadarSweepCpuModel F) → Result HistoryError (Unit {0})
  check_frames g before [] = ok tt
  check_frames g before (frame ∷ frames) = do
    assert_live_reflectivity sites frame
    generation ← generation_number frame
    require (generation == g) mixed_generations
    throw_if (is_out_of_order before frame.observed_at_unix_ms) not_chronological
    check_frames g (some frame.observed_at_unix_ms) frames

abbrev pub has_observation : {F : Type 0} → String → List (RadarSweepCpuModel F) → Bool
has_observation id = any (λ frame. str_eq frame.observation_id id)

module _ {F : Type 0} (same : F → F → Bool) (sites : List RadarSiteOption) where
  -- The checks that the two functions share, of `current[0]` and the frames after it. They return the
  -- generation of the history.
  unfoldable pub check_history :
      RadarSweepCpuModel F
      → List (RadarSweepCpuModel F)
      → RadarSweepCpuModel F
      → ℕ
      → Result HistoryError ℕ
  check_history first rest incoming limit = do
    require (leb (suc (length rest)) limit) bad_size
    g ← generation_number first
    check_frames sites g none (first ∷ rest)
    assert_live_reflectivity sites incoming
    assert_same_render_key same first incoming
    ok g

  unfoldable pub append_frame :
      RadarSweepCpuModel F
      → List (RadarSweepCpuModel F)
      → RadarSweepCpuModel F
      → ℕ
      → ℕ
      → Result HistoryError (LiveHistoryUpdate F)
  append_frame first rest incoming limit g =
      if has_observation incoming.observation_id (first ∷ rest)
      then ok (record { frames = first ∷ rest; appended = false; evicted_observation_ids = [] })
      else if leb incoming.observed_at_unix_ms (last first rest).observed_at_unix_ms
      then err not_newer
      else (let combined : List (RadarSweepCpuModel F) =
            first ∷ rest ++ with_renderer_generation incoming g ∷ [] in
          ok (record {
            frames = drop (length combined - limit) combined;
            appended = true;
            evicted_observation_ids =
                map (λ frame. frame.observation_id) (take (length combined - limit) combined);
          }))

  unfoldable pub append_live_history :
      List (RadarSweepCpuModel F)
      → RadarSweepCpuModel F
      → ℕ
      → Result HistoryError (LiveHistoryUpdate F)
  append_live_history current incoming limit = do
    require (leb 1 limit && leb limit max_live_history_frames) bad_limit
    elim current [
      | [] ↦ err bad_size
      | first ∷ rest ↦
          check_history first rest incoming limit >>= append_frame first rest incoming limit
    ]

  unfoldable pub prepend_frame :
      RadarSweepCpuModel F
      → List (RadarSweepCpuModel F)
      → RadarSweepCpuModel F
      → ℕ
      → ℕ
      → Result HistoryError (LiveHistoryPrependUpdate F)
  prepend_frame first rest incoming limit g =
      if has_observation incoming.observation_id (first ∷ rest)
      then ok (record { frames = first ∷ rest; prepended = false })
      else if leb limit (suc (length rest))
      then err at_capacity
      else if leb first.observed_at_unix_ms incoming.observed_at_unix_ms
      then err not_older
      else ok
          (record { frames = with_renderer_generation incoming g ∷ first ∷ rest; prepended = true })

  unfoldable pub prepend_live_history :
      List (RadarSweepCpuModel F)
      → RadarSweepCpuModel F
      → ℕ
      → Result HistoryError (LiveHistoryPrependUpdate F)
  prepend_live_history current incoming limit = do
    require (leb 1 limit && leb limit max_live_history_frames) bad_limit
    elim current [
      | [] ↦ err bad_size
      | first ∷ rest ↦
          check_history first rest incoming limit >>= prepend_frame first rest incoming limit
    ]
