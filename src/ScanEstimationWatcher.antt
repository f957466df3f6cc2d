-- ===== src/ScanEstimationWatcher.antt =====
-- The ScanEstimation controller, orchestrator/watcher/scanestimation/watcher.go: Reconcile.
pub mod Api
pub mod Steps
pub mod Create
pub mod Progress
pub mod Abort
pub mod Asks
pub mod Updates
pub mod Counts
pub mod Ends
mod Examples
use vmclarity.Prelude.{String, Bool, true, false, Option, none, some, List, [], ◌∷◌, if◌then◌else◌}
use vmclarity.Prelude.Int.{ℤ}
use vmclarity.Go.{
  Result, ok, err, panics, Act, pure, lift, deref, require, ◌>>=◌, ◌>>◌, failed_call,
}
use vmclarity.Goroutines.{GoStep}
use vmclarity.EstimationTypes.{ScanEstimation, ScanEstimationState, empty_scan_patch, is_timed_out}
use vmclarity.Status.ScanEstimationStatus
use Api.{Client, Call}
use Steps.{patch, reconcile_no_state, reconcile_pending, reconcile_done}
use Create.{reconcile_discovered}
use Progress.{reconcile_in_progress}
use Abort.{reconcile_aborted}

abbrev pub timed_out : ℤ → ScanEstimationState
timed_out now =
    ScanEstimationStatus.new now ScanEstimationStatus.State.failed ScanEstimationStatus.timeout
      (some "ScanEstimation has been timed out")

-- The first part of Reconcile. Unlike that of a Scan, the status that was read is kept.
unfoldable pub expire : Client → ScanEstimation → Act Call (Unit {0})
unfolding patch is_timed_out
expire c s =
    if is_timed_out c.now s c.timeout
    then (do
      id ← lift (deref s.id)
      patch c id (record empty_scan_patch { status = some (timed_out c.now) }))
    else pure tt

-- The `switch` on the state.
unfoldable pub dispatch :
    ScanEstimationStatus.State
    → Client
    → (List String → List GoStep)
    → ScanEstimation
    → Act Call (Unit {0})
dispatch ScanEstimationStatus.State.pending c schedule s = reconcile_pending c s
dispatch ScanEstimationStatus.State.discovered c schedule s = reconcile_discovered c s
dispatch ScanEstimationStatus.State.in_progress c schedule s = reconcile_in_progress c s
dispatch ScanEstimationStatus.State.aborted c schedule s = reconcile_aborted c schedule s
dispatch ScanEstimationStatus.State.done c schedule s = reconcile_done c s
dispatch ScanEstimationStatus.State.failed c schedule s = reconcile_done c s

-- By the status, set or not.
unfoldable pub by_status :
    Client
    → (List String → List GoStep)
    → ScanEstimation
    → Option ScanEstimationState
    → Act Call (Unit {0})
unfolding dispatch reconcile_no_state
by_status c schedule s none = reconcile_no_state c s
by_status c schedule s (some st) = dispatch st.state c schedule s

unfoldable pub reconcile : Client → (List String → List GoStep) → String → Act Call (Unit {0})
unfolding expire by_status
reconcile c schedule scan_estimation_id = do
  answer ← lift (require (c.get_scan_estimation scan_estimation_id) failed_call)
  s ← lift (require answer failed_call)
  expire c s
  by_status c schedule s s.status
