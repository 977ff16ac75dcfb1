-- ===== src/Live/History/Outcomes.antt =====
-- src/live/liveHistory.ts: the outcomes of `appendLiveHistory` and `prependLiveHistory` on any arguments.
use mistr.Prelude.{
  Ensures, Ensures-ok, Result-cases, ok, length, take, drop, last, ℕ, ◌-◌, ◌≤◌, ◌<◌, ◌≡◌, refl, ◌⊎◌,
  inl, inr, Bool, true, false, List, [], ◌∷◌, ◌++◌, map, arith,
}
use mistr.Sites.{RadarSiteOption}
use mistr.Live.Frame.{
  with_renderer_generation, is_live_reflectivity, same_render_key, RadarSweepCpuModel,
}
use mistr.Live.History.{
  max_live_history_frames, has_observation, check_history, append_frame, append_live_history,
  prepend_frame, prepend_live_history, LiveHistoryUpdate, LiveHistoryPrependUpdate,
}
use mistr.Live.History.Spec.{IsHistory}
use mistr.Live.History.Laws.{
  with_renderer_generation-IsFrame, with_renderer_generation_fields, check_history_sound,
  check_history_complete, Appends, append_frame-Appends, IsChecked,
}

module _ {F : Type 0} (same : F → F → Bool) (sites : List RadarSiteOption) where
  -- Whenever `appendLiveHistory` returns, it was given a history of at most `limit` frames, and returns one:
  -- the same one if the observation is resident, else the old frames and the new one, less at most one frame
  -- that is evicted at the old end.
  pub append_live_history-Appends :
      (current : List (RadarSweepCpuModel F)) (incoming : RadarSweepCpuModel F) (limit : ℕ)
      (u : LiveHistoryUpdate F)
      → append_live_history same sites current incoming limit ≡ ok u
      → (g : ℕ) × IsHistory sites limit g current × Appends same sites current incoming limit g u
  unfolding append_live_history
  append_live_history-Appends [] incoming limit u h = ground arith
  append_live_history-Appends (first ∷ rest) incoming limit u h =
      elim (Result-cases (check_history same sites first rest incoming limit)) [
        | inl (g, e) ↦
            let c = check_history_sound same sites first rest incoming limit g e in
            (
              g,
              c.history,
              Ensures-ok (Appends same sites (first ∷ rest) incoming limit g) _
                  (append_frame-Appends same sites first rest incoming limit g (ground arith) c)
                  (ground arith),
            )
        | inr (x, e) ↦ ground arith
      ]

  -- On a history within its limit, which is at most 60, a live reflectivity frame of the same render key
  -- that is not resident and is newer than the newest is always taken.
  pub append_live_history_takes :
      (first : RadarSweepCpuModel F) (rest : List (RadarSweepCpuModel F))
      (incoming : RadarSweepCpuModel F) (limit g : ℕ)
      → limit ≤ max_live_history_frames
      → IsHistory sites limit g (first ∷ rest)
      → is_live_reflectivity sites incoming ≡ true
      → same_render_key same first incoming ≡ true
      → has_observation incoming.observation_id (first ∷ rest) ≡ false
      → (last first rest).observed_at_unix_ms < incoming.observed_at_unix_ms
      → (u : LiveHistoryUpdate F) × (append_live_history same sites (first ∷ rest) incoming limit
          ≡ ok u)
        × (u.appended ≡ true)
  unfolding append_live_history append_frame
  append_live_history_takes first rest incoming limit g p h live key absent newer =
      let combined : List (RadarSweepCpuModel F) =
        (first ∷ rest) ++ with_renderer_generation incoming g ∷ [] in
      (
        record {
          frames = drop (length combined - limit) combined;
          appended = true;
          evicted_observation_ids =
              map (λ frame. frame.observation_id) (take (length combined - limit) combined);
        },
        ground (
          arith,
          check_history_complete same sites first rest incoming limit g
              (record { history = h; live = live; keyed = key }),
        ),
        refl,
      )

  -- What a successful `prependLiveHistory` returns: the same history if the observation is resident, else the
  -- frame, under the history's generation, before all the old frames, none of which is lost.
  abbrev pub Prepends :
      List (RadarSweepCpuModel F)
      → RadarSweepCpuModel F
      → ℕ
      → ℕ
      → LiveHistoryPrependUpdate F
      → Type 0
  Prepends current incoming limit g u =
      IsHistory sites limit g u.frames
      × (((has_observation incoming.observation_id current ≡ true)
            × (u.prepended ≡ false)
            × (u.frames ≡ current))
          ⊎ ((has_observation incoming.observation_id current ≡ false)
              × (u.prepended ≡ true)
              × (u.frames ≡ with_renderer_generation incoming g ∷ current)))

  prepend_frame-Prepends :
      (first : RadarSweepCpuModel F) (rest : List (RadarSweepCpuModel F))
      (incoming : RadarSweepCpuModel F) (limit g : ℕ)
      → IsChecked same sites first rest incoming limit g
      → Ensures
          (Prepends (first ∷ rest) incoming limit g)
          (prepend_frame same sites first rest incoming limit g)
  unfolding prepend_frame
  prepend_frame-Prepends first rest incoming limit g c = ground (
    arith,
    with_renderer_generation_fields g incoming,
    with_renderer_generation-IsFrame sites g incoming c.live,
  )

  -- Whenever `prependLiveHistory` returns, it was given a history of at most `limit` frames, and returns one:
  -- the same one if the observation is resident, else the frame, under the history's generation, before all the
  -- old frames, none of which is lost.
  pub prepend_live_history-Prepends :
      (current : List (RadarSweepCpuModel F)) (incoming : RadarSweepCpuModel F) (limit : ℕ)
      (u : LiveHistoryPrependUpdate F)
      → prepend_live_history same sites current incoming limit ≡ ok u
      → (g : ℕ) × IsHistory sites limit g current × Prepends current incoming limit g u
  unfolding prepend_live_history
  prepend_live_history-Prepends [] incoming limit u h = ground arith
  prepend_live_history-Prepends (first ∷ rest) incoming limit u h =
      elim (Result-cases (check_history same sites first rest incoming limit)) [
        | inl (g, e) ↦
            let c = check_history_sound same sites first rest incoming limit g e in
            (
              g,
              c.history,
              Ensures-ok (Prepends (first ∷ rest) incoming limit g) _
                  (prepend_frame-Prepends first rest incoming limit g c) (ground arith),
            )
        | inr (x, e) ↦ ground arith
      ]
