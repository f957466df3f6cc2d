-- ===== src/ScanEstimationWatcher/Abort.antt =====
-- reconcileAborted of orchestrator/watcher/scanestimation/watcher.go. The order of the steps of its
-- goroutines is a parameter, the schedule.
use vmclarity.Prelude.{String, false, Option, none, some, List, [], ◌∷◌, if◌then◌else◌}
use vmclarity.Go.{ok, err, Act, pure, lift, require, ◌>>=◌, ◌>>◌, invalid, failed_call}
use vmclarity.Goroutines.{GoStep, run_steps}
use vmclarity.EstimationTypes.{
  AssetScanEstimation, EstimationState, ScanEstimation, empty_scan_patch,
}
use vmclarity.Status.AssetScanEstimationStatus
use vmclarity.Status.ScanEstimationStatus
use vmclarity.ScanEstimationWatcher.Api.{Client, Call, patch_asset_scan_estimation, unfinished_of}
use vmclarity.ScanEstimationWatcher.Steps.{patch}

-- The status that an AssetScanEstimation is patched with.
abbrev pub cancelled : Client → EstimationState
cancelled c =
    AssetScanEstimationStatus.new c.now AssetScanEstimationStatus.State.aborted
      AssetScanEstimationStatus.Reason.cancellation none

-- The ones without an ID are skipped.
unfoldable pub ids_of : List AssetScanEstimation → List String
ids_of [] = []
ids_of (a ∷ rest) = elim a.id [ none ↦ ids_of rest | some id ↦ id ∷ ids_of rest ]

-- The goroutines and `wg.Wait()`, for the answer's items, nil or not.
unfoldable pub abort_jobs :
    Client → (List String → List GoStep) → Option (List AssetScanEstimation) → Act Call (Unit {0})
unfolding ids_of
abort_jobs c schedule none = pure tt
abort_jobs c schedule (some items) =
    let (calls, failed) =
      run_steps (λ id. patch_asset_scan_estimation id (cancelled c))
        (λ id. c.patches_asset id (cancelled c)) (schedule (ids_of items)) false false in
    (calls, if failed then err failed_call else ok tt)

unfoldable pub reconcile_aborted :
    Client → (List String → List GoStep) → ScanEstimation → Act Call (Unit {0})
unfolding patch abort_jobs
reconcile_aborted c schedule s = do
  id ← lift (require s.id invalid)
  answer ← lift (require (c.get_asset_scan_estimations (unfinished_of id)) failed_call)
  abort_jobs c schedule answer.items
  patch c id (record empty_scan_patch {
    end_time = some c.now;
    status = some (
        ScanEstimationStatus.new c.now ScanEstimationStatus.State.failed
          ScanEstimationStatus.Reason.aborted (some "ScanEstimation has been aborted"));
    asset_ids = s.asset_ids;
  })
