-- ===== src/Live/Tests.antt =====
-- Concrete histories, displays and requests: each theorem on src/live applied to one of them.
use mistr.Prelude.{◌==◌, ℕ, String, refl, Bool, true, List, [], ◌∷◌, arith}
use mistr.Sites.{RadarSiteOption, is_supported_radar_site}
use mistr.Live.Frame.{
  nexrad_level2_chunks, RadarSweepCpuModel, reflectivity, dbz, with_renderer_generation,
  is_live_reflectivity, assert_live_reflectivity, generation_number, same_render_key,
  assert_same_render_key,
}
use mistr.Live.History.{
  append_live_history, check_frames, check_history, append_frame, prepend_frame,
  prepend_live_history,
}
use mistr.Live.History.Spec.{IsHistory}
use mistr.Live.History.Laws.{Appends}
use mistr.Live.History.Outcomes.{
  append_live_history-Appends, Prepends, prepend_live_history-Prepends,
}

abbrev one_site : List RadarSiteOption
one_site = record { id = "KTLX"; name = "Oklahoma City" } ∷ []

abbrev same_number : ℕ → ℕ → Bool
same_number a b = a == b

abbrev frame_at : ℕ → String → ℕ → RadarSweepCpuModel ℕ
frame_at generation observation_id time = record {
  generation = generation;
  observation_id = observation_id;
  site_icao = "KTLX";
  product = reflectivity;
  units = dbz;
  source_kind = nexrad_level2_chunks;
  observed_at_unix_ms = time;
  scale = 2;
  offset = 66;
  center_longitude = 97;
  center_latitude = 35;
}

abbrev frames_here : List (RadarSweepCpuModel ℕ)
frames_here = frame_at 4 "a" 100 ∷ frame_at 4 "b" 200 ∷ []

frames_here-IsHistory : IsHistory one_site 2 4 frames_here
unfolding is_live_reflectivity is_supported_radar_site
frames_here-IsHistory = record {
  nonempty = omega arith;
  bounded = omega arith;
  positive = omega arith;
  safe = omega arith;
  members = ((refl, refl), ((refl, refl), tt));
  ascending = (omega arith, tt);
}

append_live_history-Appends_example :
    (g : ℕ) × IsHistory one_site 2 g frames_here
    × Appends same_number one_site frames_here (frame_at 9 "c" 300) 2 g (record {
      frames = frame_at 4 "b" 200 ∷ frame_at 4 "c" 300 ∷ [];
      appended = true;
      evicted_observation_ids = "a" ∷ [];
    })
unfolding append_live_history check_history generation_number check_frames assert_live_reflectivity
    is_live_reflectivity is_supported_radar_site assert_same_render_key same_render_key append_frame
    with_renderer_generation
append_live_history-Appends_example =
    append_live_history-Appends same_number one_site frames_here (frame_at 9 "c" 300) 2
      (record {
        frames = frame_at 4 "b" 200 ∷ frame_at 4 "c" 300 ∷ [];
        appended = true;
        evicted_observation_ids = "a" ∷ [];
      })
      refl

prepend_live_history-Prepends_example :
    (g : ℕ) × IsHistory one_site 3 g frames_here
    × Prepends same_number one_site frames_here
        (frame_at 9 "z" 50)
        3
        g
        (record { frames = frame_at 4 "z" 50 ∷ frames_here; prepended = true })
unfolding prepend_live_history check_history generation_number check_frames assert_live_reflectivity
    is_live_reflectivity is_supported_radar_site assert_same_render_key same_render_key
    prepend_frame with_renderer_generation
prepend_live_history-Prepends_example =
    prepend_live_history-Prepends same_number one_site frames_here (frame_at 9 "z" 50) 3
      (record { frames = frame_at 4 "z" 50 ∷ frames_here; prepended = true }) refl
