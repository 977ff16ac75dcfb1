-- ===== src/Live/Display/Laws.antt =====
-- src/live/liveDisplayState.ts: what holds of the display after any sequence of operations.
use mistr.Prelude.{
  Result, ok, err, last, ℕ, ◌≤◌, ◌<◌, String, ◌≡◌, refl, ◌≢◌, ◌⊎◌, Bool, true, Option, none, some,
  List, [], ◌∷◌, arith,
}
use mistr.Live.Display.{
  fallback_for, initial_live_display, is_live_truth, begin_live_refresh, begin_live_display,
  waiting_site, publish_live_display, fail_live_display, retain_painted_fallback, PaintedFrameTruth,
  Kind, LiveDisplayState, DisplayError, refreshing, painted,
}

pub data Call : Type 0 where
  refreshes : ℕ → String → Call
  displays : ℕ → String → Bool → Call
  publishes : ℕ → PaintedFrameTruth → Call
  fails : ℕ → String → Call
  retains : PaintedFrameTruth → Call

abbrev pub after : LiveDisplayState → Result DisplayError LiveDisplayState → LiveDisplayState
after state (ok next) = next
after state (err _) = state

unfoldable pub step : Call → LiveDisplayState → LiveDisplayState
step (refreshes generation site) state = after state (begin_live_refresh state generation site)
step (displays generation site fresh_only) state =
    after state (begin_live_display state generation site fresh_only)
step (publishes generation frame) state = after state (publish_live_display state generation frame)
step (fails generation message) state = fail_live_display state generation message
step (retains frame) state = retain_painted_fallback state frame

unfoldable pub run : List Call → LiveDisplayState → LiveDisplayState
run [] state = state
run (call ∷ calls) state = run calls (step call state)

-- The live frame of a kind is live truth of the site that it is about.
abbrev pub IsLiveKind : Kind → Type 0
IsLiveKind (refreshing site live) = is_live_truth live site ≡ true
IsLiveKind (painted site live) = is_live_truth live site ≡ true
IsLiveKind _ = Unit {0}

-- A complete frame was shown, where a live one is on display.
abbrev pub HasComplete : Kind → Option PaintedFrameTruth → Type 0
HasComplete (refreshing site live) last = last ≢ none
HasComplete (painted site live) last = last ≢ none
HasComplete _ last = Unit {0}

pub record IsTruthful (state : LiveDisplayState) : Type 0 where
  pub fallback_true : state.fallback ≡ fallback_for state.last_complete
  pub live_true : IsLiveKind state.kind
  pub complete : HasComplete state.kind state.last_complete

pub initial-IsTruthful :
    (last_complete : Option PaintedFrameTruth) → IsTruthful (initial_live_display last_complete)
unfolding initial_live_display
initial-IsTruthful last_complete = record { fallback_true = refl; live_true = tt; complete = tt }

generation-step :
    (call : Call) (state : LiveDisplayState) → state.generation ≤ (step call state).generation
unfolding step begin_live_refresh begin_live_display publish_live_display fail_live_display
    retain_painted_fallback
generation-step (refreshes generation site) state = ground arith
generation-step call state = ground arith

generation-run :
    (calls : List Call) (state : LiveDisplayState) → state.generation ≤ (run calls state).generation
unfolding run
generation-run [] state = omega arith
generation-run (call ∷ calls) state =
    omega (arith, generation-step call state, generation-run calls (step call state))

stale_call :
    (g : ℕ) (frame : PaintedFrameTruth) (message : String) (state : LiveDisplayState)
    → g < state.generation
    → (step (publishes g frame) state ≡ state) × (step (fails g message) state ≡ state)
unfolding step publish_live_display fail_live_display
stale_call g frame message state h = ground arith

-- A result of an older generation never shows: once the display is past generation `g`, whatever is done in
-- between, publishing and failing at `g` leave it as it is.
pub stale_generation_ignored :
    (calls : List Call) (g : ℕ) (frame : PaintedFrameTruth) (message : String)
    (state : LiveDisplayState)
    → g < state.generation
    → let later = run calls state in
      (step (publishes g frame) later ≡ later) × (step (fails g message) later ≡ later)
stale_generation_ignored calls g frame message state h =
    stale_call g frame message (run calls state) (omega (arith, generation-run calls state))

-- The frame is live truth of the site that was waited for, and is painted for it.
abbrev pub Shows : PaintedFrameTruth → Option String → LiveDisplayState → Type 0
Shows frame none next = ⊥
Shows frame (some site) next = (is_live_truth frame site ≡ true) × (next.kind ≡ painted site frame)

-- How an operation may change the last complete frame.
abbrev pub Completes : Call → LiveDisplayState → LiveDisplayState → Type 0
Completes (publishes g frame) state next =
    (g ≡ state.generation)
    × Shows frame (waiting_site state.kind) next
    × (next.last_complete ≡ some frame)
Completes (retains frame) state next =
    (next.generation ≡ state.generation) × (next.last_complete ≡ some frame)
Completes _ state next = ⊥

-- Each operation keeps the last complete frame, but for a publication at the generation of a state that waits
-- for a live frame of that site, which it then paints, and for a frame that the renderer reports as painted.
pub step-Completes :
    (call : Call) (state : LiveDisplayState)
    → ((step call state).last_complete ≡ state.last_complete)
      ⊎ Completes call state (step call state)
unfolding step begin_live_refresh begin_live_display publish_live_display fail_live_display
    retain_painted_fallback
step-Completes (refreshes generation site) state = ground arith
step-Completes call state = ground arith
