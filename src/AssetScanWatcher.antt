-- ===== src/AssetScanWatcher.antt =====
-- The AssetScan controller, orchestrator/watcher/assetscan: Reconcile of watcher.go.
pub mod Api
pub mod Start
pub mod Finish
pub mod Updates
pub mod Resources
mod Examples
use vmclarity.Prelude.{String, Option, none, some, List, [], ◌∷◌}
use vmclarity.Go.{
  Result, ok, err, panics, Act, pure, fail, lift, deref, require, ◌>>=◌, ◌>>◌, invalid, failed_call,
}
use vmclarity.ApiTypes.{AssetScan, AssetScanState}
use vmclarity.Status.AssetScanStatus
use Api.{Client, Call}
use Start.{reconcile_pending, reconcile_scheduled}
use Finish.{reconcile_done_and_failed, reconcile_aborted}

-- The `switch` on the state.
unfoldable pub dispatch : AssetScanStatus.State → Client → AssetScan → Act Call (Unit {0})
dispatch AssetScanStatus.pending c a = reconcile_pending c a
dispatch AssetScanStatus.scheduled c a = reconcile_scheduled c a
dispatch AssetScanStatus.ready_to_scan c a = pure tt
dispatch AssetScanStatus.in_progress c a = pure tt
dispatch AssetScanStatus.aborted c a = reconcile_aborted c a
dispatch AssetScanStatus.done c a = reconcile_done_and_failed c a
dispatch AssetScanStatus.failed c a = reconcile_done_and_failed c a

unfoldable pub reconcile : Client → String → Act Call (Unit {0})
unfolding dispatch
reconcile c asset_scan_id = do
  a ← lift (require (c.get_asset_scan asset_scan_id) failed_call)
  status ← lift (require a.status invalid)
  dispatch status.state c a
