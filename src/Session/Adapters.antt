-- ===== src/Session/Adapters.antt =====
-- src/radar-session/SiteLevel2Session.ts and NationalMrmsSession.ts: `runTransition` and `start`. The wait for
-- `acquireAndPaint` is a gap in which other calls reach the coordinator: the list `meanwhile`. What is awaited
-- is the argument `outcome`. `hooks` holds the calls of the two callbacks, in order; they are taken to return.
-- The Site session is the one whose transition's source is a site. `show` is the text of a number in a template.
pub mod Ends
pub mod Laws
use mistr.Prelude.{
  if◌then◌else◌, Result, ok, err, ℕ, String, str_append, Bool, true, false, not, ◌&&◌, Option, none,
  List, [], ◌∷◌,
}
use mistr.Sites.{RadarSiteOption}
use mistr.Session.Source.{
  site_radar_source, RadarSourceKey, RadarPaintIdentity, SessionError, site, national,
  unsupported_site, bad_generation, missing_observation,
}
use mistr.Session.Coordinator.{
  begin_transition, is_current, accept_paint, fail_transition, RadarSourceTransition,
  RadarSessionCoordinator, TransitionOptions,
}
use mistr.Session.Calls.{run, Call}

-- What `acquireAndPaint` settles with: a value with its paint, or a thrown error. `message` is the message of an
-- `Error`, and `String(error)` of anything else. `superseded` tells whether it is a
-- `RadarSourceSupersededError`, `is_object` whether it can be marked in `supersededErrors`.
pub record ThrownError : Type 0 where
  pub message : String
  pub superseded : Bool
  pub is_object : Bool

pub data Outcome (T : Type 0) : Type 0 where
  acquired : T → RadarPaintIdentity → Outcome T
  rejected : ThrownError → Outcome T

-- The calls of `onPaintAccepted` and of the two sessions' `onTransitionFailed`.
pub data Hook (T : Type 0) : Type 0 where
  paint_accepted : T → RadarPaintIdentity → Hook T
  site_transition_failed : ThrownError → ℕ → String → Hook T
  national_transition_failed : ThrownError → ℕ → Hook T

-- What a session's promise settles with. A `marked` error is the one thrown, put into `supersededErrors`; one
-- that is replaced gives way to a new `RadarSourceSupersededError`.
pub data Settled (T : Type 0) : Type 0 where
  resolved : T → Settled T
  rethrown marked : ThrownError → Settled T
  replaced_by_superseded : ThrownError → Settled T
  refused : SessionError → Settled T

pub record Finished (T : Type 0) : Type 0 where
  pub settled : Settled T
  pub hooks : List (Hook T)
  pub coordinator : RadarSessionCoordinator

-- `new RadarSourceSupersededError(message)`.
abbrev pub radar_source_superseded_error : String → ThrownError
radar_source_superseded_error message = record {
  message = message;
  superseded = true;
  is_object = true;
}

-- The `Error` that `acceptPaint` throws.
unfoldable pub thrown_by_accept : SessionError → ThrownError
thrown_by_accept (unsupported_site icao) = record {
  message = str_append "unsupported NEXRAD site " icao;
  superseded = false;
  is_object = true;
}
thrown_by_accept bad_generation = record {
  message = "radar source generation must be a positive safe integer";
  superseded = false;
  is_object = true;
}
thrown_by_accept missing_observation = record {
  message = "radar paint identity requires an observation";
  superseded = false;
  is_object = true;
}

-- The call of `onTransitionFailed`.
abbrev pub failed_hook : {T : Type 0} → RadarSourceKey → ThrownError → ℕ → Hook T
failed_hook (site icao) e generation = site_transition_failed e generation icao
failed_hook national e generation = national_transition_failed e generation

module _ (show : ℕ → String) where
  -- The texts "site transition 3" and "National transition 3", and what follows.
  abbrev pub transition_text : RadarSourceKey → ℕ → String → String
  transition_text (site icao) id text = str_append "site transition " (str_append (show id) text)
  transition_text national id text = str_append "National transition " (str_append (show id) text)

  -- What `runTransition` throws when `acceptPaint` answers false.
  unfoldable pub superseded_error : RadarSourceKey → ℕ → ThrownError
  superseded_error source id =
      radar_source_superseded_error
        (transition_text source id " was superseded before paint acceptance")

  -- `markSuperseded`.
  unfoldable pub mark_superseded : {T : Type 0} → ThrownError → ℕ → Settled T
  mark_superseded e id =
      if e.is_object
      then marked e
      else replaced_by_superseded (
          radar_source_superseded_error (
            str_append "site transition " (
              str_append (show id)
                (str_append " was superseded before completion (" (str_append e.message ")")))))

  -- The `throw` at the end of each `catch`, as the two sessions write it.
  unfoldable pub rethrow_site : {T : Type 0} → ThrownError → ℕ → Bool → Settled T
  unfolding mark_superseded
  rethrow_site e id was_current =
      if not was_current && not e.superseded then mark_superseded e id else rethrown e

  unfoldable pub rethrow_national : {T : Type 0} → ThrownError → ℕ → Bool → Settled T
  rethrow_national e id was_current =
      if not was_current && not e.superseded
      then replaced_by_superseded (
          radar_source_superseded_error (
            str_append "National transition "
              (str_append (show id) " was superseded before completion")))
      else rethrown e

  abbrev pub rethrow : {T : Type 0} → RadarSourceKey → ThrownError → ℕ → Bool → Settled T
  rethrow (site icao) e id was_current = rethrow_site e id was_current
  rethrow national e id was_current = rethrow_national e id was_current

  module _ {T : Type 0} where
    -- The `catch` block.
    unfoldable pub recover :
        RadarSourceKey → RadarSourceTransition → ThrownError → RadarSessionCoordinator → Finished T
    unfolding rethrow_site rethrow_national
    recover source t e c = record {
      settled = rethrow source e t.id (is_current c t);
      hooks = if is_current c t then failed_hook source e t.generation ∷ [] else [];
      coordinator = (fail_transition t e.message c).1;
    }

    -- What follows the answer of `acceptPaint`.
    unfoldable pub after_accept :
        RadarSourceKey
        → RadarSourceTransition
        → T
        → RadarPaintIdentity
        → RadarSessionCoordinator
        → Result SessionError (Bool × RadarSessionCoordinator)
        → Finished T
    unfolding recover superseded_error thrown_by_accept
    after_accept source t value paint c (err e) = recover source t (thrown_by_accept e) c
    after_accept source t value paint c (ok (true, d)) = record {
      settled = resolved value;
      hooks = paint_accepted value paint ∷ [];
      coordinator = d;
    }
    after_accept source t value paint c (ok (false, d)) =
        recover source t (superseded_error source t.id) d

    unfoldable pub settle :
        List RadarSiteOption
        → RadarSourceKey
        → RadarSourceTransition
        → Outcome T
        → RadarSessionCoordinator
        → Finished T
    unfolding recover after_accept
    settle sites source t (rejected e) c = recover source t e c
    settle sites source t (acquired value paint) c =
        after_accept source t value paint c (accept_paint sites t paint c)

    unfoldable pub run_transition :
        List RadarSiteOption
        → RadarSourceKey
        → ℕ
        → TransitionOptions
        → List Call
        → Outcome T
        → RadarSessionCoordinator
        → Finished T
    unfolding settle
    run_transition sites source next options meanwhile outcome c =
        elim (begin_transition sites source next options c) [
          | err e ↦ record { settled = refused e; hooks = []; coordinator = c }
          | ok (t, d) ↦ settle sites source t outcome (run sites meanwhile d)
        ]

    -- `SiteLevel2Session.start` and `startWith`, which differ in where `acquireAndPaint` comes from.
    unfoldable pub start_site :
        (trim upper : String → String)
        → List RadarSiteOption
        → String
        → ℕ
        → TransitionOptions
        → List Call
        → Outcome T
        → RadarSessionCoordinator
        → Finished T
    unfolding run_transition
    start_site trim upper sites icao next options meanwhile outcome c =
        elim (site_radar_source trim upper sites icao) [
          | err e ↦ record { settled = refused e; hooks = []; coordinator = c }
          | ok source ↦ run_transition sites source next options meanwhile outcome c
        ]

    -- `NationalMrmsSession.start`.
    unfoldable pub start_national :
        List RadarSiteOption
        → Option ℕ
        → ℕ
        → List Call
        → Outcome T
        → RadarSessionCoordinator
        → Finished T
    unfolding run_transition
    start_national sites resident next meanwhile outcome c =
        run_transition sites national next
          (record { persist_on_paint = none; resident_generation = resident }) meanwhile outcome c
