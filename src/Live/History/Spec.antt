-- ===== src/Live/History/Spec.antt =====
-- src/live/liveHistory.ts: what a live history is, written apart from the code that checks it.
use mistr.Prelude.{
  unsafe_from, ok, length, drop, last, All, ℕ, zero, suc, ◌≤◌, ◌<◌, ◌≡◌, refl, true, Option, none,
  some, List, [], ◌∷◌, ◌++◌, arith,
}
use mistr.Sites.{RadarSiteOption}
use mistr.Live.Frame.{
  is_live_reflectivity, assert_live_reflectivity, generation_number, RadarSweepCpuModel,
}
use mistr.Live.History.{check_frames}

module _ {F : Type 0} where
  -- Times rise strictly, from after `before` on.
  abbrev pub Ascending : Option ℕ → List (RadarSweepCpuModel F) → Type 0
  Ascending before [] = Unit {0}
  Ascending none (frame ∷ frames) = Ascending (some frame.observed_at_unix_ms) frames
  Ascending (some before) (frame ∷ frames) =
      (before < frame.observed_at_unix_ms) × Ascending (some frame.observed_at_unix_ms) frames

  -- Level II reflectivity of a supported site, under generation `g`.
  abbrev pub IsFrame : List RadarSiteOption → ℕ → RadarSweepCpuModel F → Type 0
  IsFrame sites g frame = (is_live_reflectivity sites frame ≡ true) × (frame.generation ≡ g)

  pub record IsHistory (sites : List RadarSiteOption) (limit g : ℕ)
      (frames : List (RadarSweepCpuModel F)) : Type 0 where
    pub nonempty : 1 ≤ length frames
    pub bounded : length frames ≤ limit
    pub positive : 1 ≤ g
    pub safe : g < unsafe_from
    pub members : All (IsFrame sites g) frames
    pub ascending : Ascending none frames

  pub check_frames_sound :
      (sites : List RadarSiteOption) (g : ℕ) (before : Option ℕ)
      (frames : List (RadarSweepCpuModel F))
      → check_frames sites g before frames ≡ ok tt
      → All (IsFrame sites g) frames × Ascending before frames
  unfolding check_frames generation_number assert_live_reflectivity
  check_frames_sound sites g before [] h = (tt, tt)
  check_frames_sound sites g none (frame ∷ frames) h =
      ground (arith, check_frames_sound sites g (some frame.observed_at_unix_ms) frames)
  check_frames_sound sites g (some before) (frame ∷ frames) h =
      ground (arith, check_frames_sound sites g (some frame.observed_at_unix_ms) frames)

  pub check_frames_complete :
      (sites : List RadarSiteOption) (g : ℕ) (before : Option ℕ)
      (frames : List (RadarSweepCpuModel F))
      → 1 ≤ g
      → g < unsafe_from
      → All (IsFrame sites g) frames
      → Ascending before frames
      → check_frames sites g before frames ≡ ok tt
  unfolding check_frames generation_number assert_live_reflectivity
  check_frames_complete sites g before [] p q m a = refl
  check_frames_complete sites g none (frame ∷ frames) p q m a =
      ground
        (arith, check_frames_complete sites g (some frame.observed_at_unix_ms) frames p q m.1 a)
  check_frames_complete sites g (some before) (frame ∷ frames) p q m a =
      ground
        (arith, check_frames_complete sites g (some frame.observed_at_unix_ms) frames p q m.1 a.1)

  pub Ascending-later :
      (before : ℕ) (frames : List (RadarSweepCpuModel F))
      → Ascending (some before) frames
      → Ascending none frames
  Ascending-later before [] a = tt
  Ascending-later before (frame ∷ frames) a = a.1

  pub Ascending-drop :
      (n : ℕ) (frames : List (RadarSweepCpuModel F))
      → Ascending none frames
      → Ascending none (drop n frames)
  Ascending-drop zero frames a = a
  Ascending-drop (suc n) [] a = tt
  Ascending-drop (suc n) (frame ∷ frames) a =
      Ascending-drop n frames (Ascending-later frame.observed_at_unix_ms frames a)

  pub Ascending-append :
      (before : Option ℕ) (first : RadarSweepCpuModel F) (rest : List (RadarSweepCpuModel F))
      (x : RadarSweepCpuModel F)
      → (last first rest).observed_at_unix_ms < x.observed_at_unix_ms
      → Ascending before (first ∷ rest)
      → Ascending before ((first ∷ rest) ++ x ∷ [])
  Ascending-append none first [] x h a = (h, tt)
  Ascending-append (some before) first [] x h a = (a.0, (h, tt))
  Ascending-append none first (next ∷ rest) x h a =
      Ascending-append (some first.observed_at_unix_ms) next rest x h a
  Ascending-append (some before) first (next ∷ rest) x h a =
      (a.0, Ascending-append (some first.observed_at_unix_ms) next rest x h a.1)
