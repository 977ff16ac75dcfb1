-- ===== src/Playback/Resident/Outcome.antt =====
-- src/playback/ResidentPlaybackController.ts: what an update of the history leaves.
use mistr.Prelude.{ok, err, ℕ, Bool, List}
use mistr.Playback.Resident.{ResidentFrame}
use mistr.Playback.Resident.Update.{Updated, Meeting}
use mistr.Playback.Resident.Resumes.{Failed}
use mistr.Playback.Resident.Swap.{Finished}

module _ {E : Type 0} (m : Meeting E) where
  -- Either the update finished, or it threw and is undone.
  unfoldable pub Ends : List ResidentFrame → Bool → ℕ → Updated E → Type 0
  Ends previous was revision (ok receipt, d) = Finished m receipt was revision d
  Ends previous was revision (err e, d) = Failed m previous was revision d
