-- ===== src/ScanWatcher/Abort.antt =====
-- reconcileAborted of orchestrator/watcher/scan/watcher.go, whose goroutines share `err` and
-- `reconciliationFailed`. The order of their steps is a parameter, the schedule.
pub mod Race
pub mod Pending
use vmclarity.Prelude.{
  ℕ, zero, suc, String, Bool, true, false, not, ◌||◌, Option, none, some, List, [], ◌∷◌, ◌++◌,
  if◌then◌else◌,
}
use vmclarity.Prelude.Int.{ℤ}
use vmclarity.Go.{
  Result, ok, err, panics, Act, pure, fail, lift, call, deref, require, ◌>>=◌, ◌>>◌, invalid,
  failed_call,
}
use vmclarity.Goroutines.{GoStep, run_steps}
use vmclarity.ApiTypes.{Scan, AssetScan, AssetScanState}
use vmclarity.Status.ScanStatus
use vmclarity.Status.AssetScanStatus
use vmclarity.ScanWatcher.Api.{
  Client, Call, patch_asset_scan, ScanPatch, unfinished_of_scan, AssetScans,
}
use vmclarity.ScanWatcher.Steps.{patch}

-- The status that an AssetScan is patched with.
abbrev pub cancelled : Client → AssetScanState
cancelled c = AssetScanStatus.new c.now AssetScanStatus.aborted AssetScanStatus.cancellation none

-- The goroutines, by the steps of a schedule.
abbrev pub run_patches : Client → List GoStep → Bool → Bool → List Call × Bool
run_patches c =
    run_steps (λ id. patch_asset_scan id (cancelled c))
      (λ id. c.patches_asset_scan id (cancelled c))

-- The AssetScans without an ID are skipped.
unfoldable pub ids_of : List AssetScan → List String
ids_of [] = []
ids_of (a ∷ rest) = elim a.id [ none ↦ ids_of rest | some id ↦ id ∷ ids_of rest ]

-- The goroutines and `wg.Wait()`, for the answer's items, nil or not.
unfoldable pub abort_asset_scans :
    Client → (List String → List GoStep) → Option (List AssetScan) → Act Call (Unit {0})
unfolding run_steps ids_of
abort_asset_scans c schedule none = pure tt
abort_asset_scans c schedule (some items) =
    let (calls, failed) = run_patches c (schedule (ids_of items)) false false in
    (calls, if failed then err failed_call else ok tt)

unfoldable pub reconcile_aborted : Client → (List String → List GoStep) → Scan → Act Call (Unit {0})
unfolding patch abort_asset_scans
reconcile_aborted c schedule scan = do
  id ← lift (require scan.id invalid)
  answer ← lift (require (c.get_asset_scans (unfinished_of_scan id)) failed_call)
  abort_asset_scans c schedule answer.items
  patch c id (record {
    status = some (
        ScanStatus.new c.now ScanStatus.failed ScanStatus.cancellation
          (some "Scan has been aborted"));
    summary = none;
    end_time = some c.now;
    asset_ids = scan.asset_ids;
  })
