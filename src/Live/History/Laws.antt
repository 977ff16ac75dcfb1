-- ===== src/Live/History/Laws.antt =====
-- src/live/liveHistory.ts: what `appendLiveHistory` and `prependLiveHistory` return.
use mistr.Prelude.{
  leb, Bool-cases, Ensures, ok, length, take, drop, last, length-append, take-append-drop,
  length-take, length-drop, All-append, All-drop, ℕ, suc, ◌+◌, ◌-◌, ◌≤◌, ◌<◌, ◌≡◌, refl, ◌⊎◌, inl,
  inr, Bool, true, false, none, List, [], ◌∷◌, ◌++◌, map, arith,
}
use mistr.Sites.{RadarSiteOption}
use mistr.Live.Frame.{
  is_live_reflectivity, assert_live_reflectivity, generation_number, same_render_key,
  assert_same_render_key, RadarSweepCpuModel, with_renderer_generation,
}
use mistr.Live.History.{check_history, has_observation, append_frame, LiveHistoryUpdate}
use mistr.Live.History.Spec.{
  IsFrame, check_frames_sound, check_frames_complete, Ascending-drop, Ascending-append, IsHistory,
}

module _ {F : Type 0} where
  pub with_renderer_generation-IsFrame :
      (sites : List RadarSiteOption) (g : ℕ) (x : RadarSweepCpuModel F)
      → is_live_reflectivity sites x ≡ true
      → IsFrame sites g (with_renderer_generation x g)
  unfolding with_renderer_generation is_live_reflectivity
  with_renderer_generation-IsFrame sites g x h = ground arith

  pub with_renderer_generation_fields :
      (g : ℕ) (x : RadarSweepCpuModel F)
      → ((with_renderer_generation x g).observed_at_unix_ms ≡ x.observed_at_unix_ms)
        × ((with_renderer_generation x g).observation_id ≡ x.observation_id)
  unfolding with_renderer_generation
  with_renderer_generation_fields g x = ground arith

module _ {F : Type 0} (same : F → F → Bool) (sites : List RadarSiteOption) where
  -- What passes the shared checks.
  pub record IsChecked (first : RadarSweepCpuModel F) (rest : List (RadarSweepCpuModel F))
      (incoming : RadarSweepCpuModel F) (limit g : ℕ) : Type 0 where
    pub history : IsHistory sites limit g (first ∷ rest)
    pub live : is_live_reflectivity sites incoming ≡ true
    pub keyed : same_render_key same first incoming ≡ true

  pub check_history_sound :
      (first : RadarSweepCpuModel F) (rest : List (RadarSweepCpuModel F))
      (incoming : RadarSweepCpuModel F) (limit g : ℕ)
      → check_history same sites first rest incoming limit ≡ ok g
      → IsChecked first rest incoming limit g
  unfolding check_history generation_number assert_live_reflectivity assert_same_render_key
  check_history_sound first rest incoming limit g h =
      ground (arith, check_frames_sound sites first.generation none (first ∷ rest))

  pub check_history_complete :
      (first : RadarSweepCpuModel F) (rest : List (RadarSweepCpuModel F))
      (incoming : RadarSweepCpuModel F) (limit g : ℕ)
      → IsChecked first rest incoming limit g
      → check_history same sites first rest incoming limit ≡ ok g
  unfolding check_history generation_number assert_live_reflectivity assert_same_render_key
  check_history_complete first rest incoming limit g c =
      ground (arith, check_frames_complete sites g none (first ∷ rest))

  append-IsHistory :
      (first : RadarSweepCpuModel F) (rest : List (RadarSweepCpuModel F))
      (incoming : RadarSweepCpuModel F) (limit g n : ℕ)
      → 1 ≤ limit
      → n ≡ suc (length rest) + 1 - limit
      → IsChecked first rest incoming limit g
      → (last first rest).observed_at_unix_ms < incoming.observed_at_unix_ms
      → IsHistory sites limit g
          (drop n ((first ∷ rest) ++ with_renderer_generation incoming g ∷ []))
  append-IsHistory first rest incoming limit g n p e c h = record {
    nonempty = omega (arith, combined_length, length-drop n combined);
    bounded = omega (arith, combined_length, length-drop n combined);
    positive = c.history.positive;
    safe = c.history.safe;
    members = All-drop (IsFrame sites g) n _ (
        All-append (IsFrame sites g) (first ∷ rest) _ c.history.members
          (with_renderer_generation-IsFrame sites g incoming c.live, tt));
    ascending = Ascending-drop n _ (
        Ascending-append none first rest _ (rw (with_renderer_generation_fields g incoming).0 h)
          c.history.ascending);
  }
    where
      combined : List (RadarSweepCpuModel F)
      combined = (first ∷ rest) ++ with_renderer_generation incoming g ∷ []

      combined_length : length combined ≡ suc (length rest) + 1
      combined_length = length-append (first ∷ rest) (with_renderer_generation incoming g ∷ [])

  -- What a successful `appendLiveHistory` returns. The history that it was given was one. An observation that
  -- is resident already changes nothing. Any other becomes the newest frame, under the history's generation:
  -- old and new frames are the evicted ones, oldest first and one at most, followed by the new history.
  abbrev pub Appends :
      List (RadarSweepCpuModel F) → RadarSweepCpuModel F → ℕ → ℕ → LiveHistoryUpdate F → Type 0
  Appends current incoming limit g u =
      IsHistory sites limit g u.frames
      × (((has_observation incoming.observation_id current ≡ true)
            × (u.appended ≡ false)
            × (u.frames ≡ current)
            × (u.evicted_observation_ids ≡ []))
          ⊎ ((evicted : List (RadarSweepCpuModel F)) × (has_observation incoming.observation_id
                  current
                ≡ false)
              × (u.appended ≡ true)
              × (evicted ++ u.frames ≡ current ++ with_renderer_generation incoming g ∷ [])
              × (u.evicted_observation_ids ≡ map (λ frame. frame.observation_id) evicted)
              × (length evicted ≤ 1)))

  append_new-Appends :
      (first : RadarSweepCpuModel F) (rest : List (RadarSweepCpuModel F))
      (incoming : RadarSweepCpuModel F) (limit g n : ℕ)
      → 1 ≤ limit
      → n ≡ length ((first ∷ rest) ++ with_renderer_generation incoming g ∷ []) - limit
      → IsChecked first rest incoming limit g
      → has_observation incoming.observation_id (first ∷ rest) ≡ false
      → (last first rest).observed_at_unix_ms < incoming.observed_at_unix_ms
      → let combined = (first ∷ rest) ++ with_renderer_generation incoming g ∷ [] in
        Appends (first ∷ rest) incoming limit g (record {
          frames = drop n combined;
          appended = true;
          evicted_observation_ids = map (λ frame. frame.observation_id) (take n combined);
        })
  append_new-Appends first rest incoming limit g n p e c absent h =
      let combined : List (RadarSweepCpuModel F) =
        (first ∷ rest) ++ with_renderer_generation incoming g ∷ [] in
      let size : length combined ≡ suc (length rest) + 1 =
        length-append (first ∷ rest) (with_renderer_generation incoming g ∷ []) in
      (
        append-IsHistory first rest incoming limit g n p (omega arith) c h,
        inr (
          take n combined,
          absent,
          refl,
          take-append-drop n combined,
          refl,
          omega (arith, length-take n combined, c.history.bounded),
        ),
      )

  pub append_frame-Appends :
      (first : RadarSweepCpuModel F) (rest : List (RadarSweepCpuModel F))
      (incoming : RadarSweepCpuModel F) (limit g : ℕ)
      → 1 ≤ limit
      → IsChecked first rest incoming limit g
      → Ensures
          (Appends (first ∷ rest) incoming limit g)
          (append_frame same sites first rest incoming limit g)
  unfolding append_frame
  append_frame-Appends first rest incoming limit g p c =
      elim (Bool-cases (has_observation incoming.observation_id (first ∷ rest))) [
        | inl found ↦ rw (found, append_frame) (c.history, inl (found, refl, refl, refl))
        | inr absent ↦
            elim (Bool-cases
              (leb incoming.observed_at_unix_ms (last first rest).observed_at_unix_ms)) [
                | inl old ↦ rw (absent, append_frame, old) tt
                | inr newer ↦
                    rw (absent, append_frame, newer)
                      (append_new-Appends first rest incoming limit g _ p refl c absent
                        (ground arith))
              ]
      ]
