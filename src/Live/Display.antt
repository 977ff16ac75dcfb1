-- ===== src/Live/Display.antt =====
-- src/live/liveDisplayState.ts: what is displayed of a live site. The fields `retainLastComplete`,
-- `nextFallback` and `terminalFallback` of the fallback policy have literal types and are left out.
pub mod Laws
pub mod Tests
use mistr.Prelude.{
  ltb, ◌==◌, if◌then◌else◌, ◌>>=◌, ◌>>◌, require, is_safe_integer, Result, ok, err, ℕ, String, Bool,
  true, false, not, ◌&&◌, Option, none, some, str_eq,
}

pub data RadarFrameSource : Type 0 where
  archive chunks : RadarFrameSource

pub record PaintedFrameTruth : Type 0 where
  pub observation_id : String
  pub site : String
  pub source : RadarFrameSource
  pub observed_at_unix_ms : ℕ
  pub painted_at_unix_ms : ℕ

-- `retainedSource`, where `none` is the text "none".
pub record LiveFallbackPolicy : Type 0 where
  pub retained_source : Option RadarFrameSource

-- The kinds of state with the fields of their own; `refreshing` has `freshOnly: true`.
pub data Kind : Type 0 where
  idle : Kind
  acquiring : String → Bool → Kind
  refreshing painted : String → PaintedFrameTruth → Kind
  degraded : String → String → Kind

pub record LiveDisplayState : Type 0 where
  pub kind : Kind
  pub generation : ℕ
  pub last_complete : Option PaintedFrameTruth
  pub fallback : LiveFallbackPolicy

pub data DisplayError : Type 0 where
  generation_must_advance no_painted_live_truth wrong_site_or_source : DisplayError

unfoldable pub fallback_for : Option PaintedFrameTruth → LiveFallbackPolicy
fallback_for none = record { retained_source = none }
fallback_for (some frame) = record { retained_source = some frame.source }

abbrev pub is_chunks : RadarFrameSource → Bool
is_chunks chunks = true
is_chunks archive = false

abbrev pub same_source : RadarFrameSource → RadarFrameSource → Bool
same_source chunks chunks = true
same_source archive archive = true
same_source _ _ = false

unfoldable pub same_frame_truth : Option PaintedFrameTruth → PaintedFrameTruth → Bool
same_frame_truth none right = false
same_frame_truth (some left) right =
    str_eq left.observation_id right.observation_id
    && str_eq left.site right.site
    && same_source left.source right.source
    && left.observed_at_unix_ms == right.observed_at_unix_ms
    && left.painted_at_unix_ms == right.painted_at_unix_ms

unfoldable pub initial_live_display : Option PaintedFrameTruth → LiveDisplayState
initial_live_display last_complete = record {
  kind = idle;
  generation = 0;
  last_complete = last_complete;
  fallback = fallback_for last_complete;
}

abbrev pub advances : LiveDisplayState → ℕ → Bool
advances state generation = is_safe_integer generation && ltb state.generation generation

unfoldable pub is_live_truth : PaintedFrameTruth → String → Bool
is_live_truth frame site = is_chunks frame.source && str_eq frame.site site

unfoldable pub refresh_from :
    Option PaintedFrameTruth → ℕ → String → Result DisplayError LiveDisplayState
refresh_from none generation site = err no_painted_live_truth
refresh_from (some live) generation site =
    if is_live_truth live site
    then ok (record {
      kind = refreshing site live;
      generation = generation;
      last_complete = some live;
      fallback = fallback_for (some live);
    })
    else err no_painted_live_truth

unfoldable pub begin_live_refresh :
    LiveDisplayState → ℕ → String → Result DisplayError LiveDisplayState
unfolding refresh_from
begin_live_refresh state generation site = do
  require (advances state generation) generation_must_advance
  refresh_from state.last_complete generation site

unfoldable pub begin_live_display :
    LiveDisplayState → ℕ → String → Bool → Result DisplayError LiveDisplayState
begin_live_display state generation site fresh_only = do
  require (advances state generation) generation_must_advance
  ok (record {
    kind = acquiring site fresh_only;
    generation = generation;
    last_complete = state.last_complete;
    fallback = fallback_for state.last_complete;
  })

-- The site of a state that still waits for its first or its next complete frame.
abbrev pub waiting_site : Kind → Option String
waiting_site (acquiring site fresh_only) = some site
waiting_site (refreshing site live) = some site
waiting_site _ = none

unfoldable pub publish_at :
    Option String → LiveDisplayState → ℕ → PaintedFrameTruth → Result DisplayError LiveDisplayState
publish_at none state generation frame = ok state
publish_at (some site) state generation frame =
    if not (generation == state.generation)
    then ok state
    else if not (is_live_truth frame site)
    then err wrong_site_or_source
    else ok (record {
      kind = painted site frame;
      generation = generation;
      last_complete = some frame;
      fallback = fallback_for (some frame);
    })

unfoldable pub publish_live_display :
    LiveDisplayState → ℕ → PaintedFrameTruth → Result DisplayError LiveDisplayState
unfolding publish_at
publish_live_display state generation frame =
    publish_at (waiting_site state.kind) state generation frame

unfoldable pub fail_at : Option String → LiveDisplayState → ℕ → String → LiveDisplayState
fail_at none state generation message = state
fail_at (some site) state generation message =
    if not (generation == state.generation) then state else record {
      kind = degraded site message;
      generation = generation;
      last_complete = state.last_complete;
      fallback = fallback_for state.last_complete;
    }

unfoldable pub fail_live_display : LiveDisplayState → ℕ → String → LiveDisplayState
unfolding fail_at
fail_live_display state generation message =
    fail_at (waiting_site state.kind) state generation message

-- The kind with its live frame replaced, where the new frame is of the requested site.
unfoldable pub adopt : Kind → PaintedFrameTruth → Kind
adopt (painted site live) frame =
    if is_live_truth frame site then painted site frame else painted site live
adopt (refreshing site live) frame =
    if is_live_truth frame site then refreshing site frame else refreshing site live
adopt kind frame = kind

unfoldable pub retain_painted_fallback : LiveDisplayState → PaintedFrameTruth → LiveDisplayState
unfolding adopt
retain_painted_fallback state frame =
    if same_frame_truth state.last_complete frame then state else record state {
      kind = adopt state.kind frame;
      last_complete = some frame;
      fallback = fallback_for (some frame);
    }
