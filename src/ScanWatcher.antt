-- ===== src/ScanWatcher.antt =====
-- The Scan controller, orchestrator/watcher/scan/watcher.go: Reconcile.
pub mod Api
pub mod Summary
pub mod Create
pub mod Steps
pub mod Abort
pub mod Updates
mod Examples
use vmclarity.Prelude.{String, Bool, true, false, Option, none, some, List, [], ◌∷◌, if◌then◌else◌}
use vmclarity.Prelude.Int.{ℤ}
use vmclarity.Go.{
  Result, ok, err, panics, Act, pure, fail, lift, deref, require, ◌>>=◌, ◌>>◌, invalid, failed_call,
}
use vmclarity.ApiTypes.{Scan, ScanState, is_timed_out}
use vmclarity.Status.ScanStatus
use Api.{Client, Call, ScanPatch}
use Steps.{patch, reconcile_pending, reconcile_discovered, reconcile_in_progress}
use vmclarity.Goroutines.{GoStep}
use Abort.{reconcile_aborted}

abbrev pub timed_out : ℤ → ScanState
timed_out now = ScanStatus.new now ScanStatus.failed ScanStatus.timeout (some "Scan has timed out")

-- The first part of Reconcile: a Scan that has timed out is patched to Failed.
unfoldable pub expire : Client → Scan → Act Call Scan
unfolding patch is_timed_out
expire c scan =
    if is_timed_out c.now scan c.scan_timeout
    then (do
      id ← lift (deref scan.id)
      patch c id (record {
        status = some (timed_out c.now);
        summary = none;
        end_time = none;
        asset_ids = none;
      })
      pure (record scan { status = some (timed_out c.now) }))
    else pure scan

-- The `switch` on the state.
unfoldable pub dispatch :
    ScanStatus.State → Client → (List String → List GoStep) → Scan → Act Call (Unit {0})
dispatch ScanStatus.pending c schedule scan = reconcile_pending c scan
dispatch ScanStatus.discovered c schedule scan = reconcile_discovered c scan
dispatch ScanStatus.in_progress c schedule scan = reconcile_in_progress c scan
dispatch ScanStatus.aborted c schedule scan = reconcile_aborted c schedule scan
dispatch ScanStatus.done c schedule scan = pure tt
dispatch ScanStatus.failed c schedule scan = pure tt

unfoldable pub reconcile : Client → (List String → List GoStep) → String → Act Call (Unit {0})
unfolding expire dispatch
reconcile c schedule scan_id = do
  answer ← lift (require (c.get_scan scan_id) failed_call)
  fetched ← lift (require answer failed_call)
  scan ← expire c fetched
  status ← lift (require scan.status invalid)
  dispatch status.state c schedule scan
