-- ===== src/Live/Display/Tests.antt =====
-- A concrete display: each theorem on src/live/liveDisplayState.ts applied to it.
use mistr.Prelude.{true, none, [], ◌∷◌}
use mistr.Live.Display.{initial_live_display, PaintedFrameTruth, LiveDisplayState, chunks}
use mistr.Live.Display.Laws.{run, displays}

abbrev fresh_frame : PaintedFrameTruth
fresh_frame = record {
  observation_id = "a";
  site = "KTLX";
  source = chunks;
  observed_at_unix_ms = 1000;
  painted_at_unix_ms = 2000;
}

-- At generation 3, the display waits for a live frame of KTLX.
abbrev waiting_display : LiveDisplayState
waiting_display = run (displays 3 "KTLX" true ∷ []) (initial_live_display none)
