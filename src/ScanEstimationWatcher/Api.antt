-- ===== src/ScanEstimationWatcher/Api.antt =====
-- What the ScanEstimation controller (orchestrator/watcher/scanestimation) asks of the API client. The
-- answers in one run of Reconcile are a parameter.
use vmclarity.Prelude.{String, Bool, Option, List}
use vmclarity.Prelude.Int.{ℤ}
use vmclarity.EstimationTypes.{AssetScanEstimation, EstimationState, ScanEstimation}

-- The body of a PATCH has the fields of the object.
pub data Call : Type 0 where
  patch_scan_estimation : String → ScanEstimation → Call
  delete_scan_estimation : String → Call
  post_asset_scan_estimation : AssetScanEstimation → Call
  patch_asset_scan_estimation : String → EstimationState → Call

-- The two filters of GetAssetScanEstimations: all of a ScanEstimation, and those of it that are neither
-- Aborted nor Done.
pub data Query : Type 0 where
  of_scan_estimation unfinished_of : String → Query

-- The answer to a POST: the ID of the new object, the ID in an AssetScanEstimationConflictError, or
-- another error.
pub data Posted : Type 0 where
  created conflict : Option String → Posted
  refused : Posted

pub record AssetScanEstimations : Type 0 where
  pub count : Option ℤ
  pub items : Option (List AssetScanEstimation)

-- `none` and `false` are errors. `now` is every time.Now() of one run, `counts_text` the fmt.Sprintf of
-- the message of a finished estimation. The goroutines of reconcileDiscovered append to one slice
-- without a lock: `appended` is what the slice holds after them, from what they appended to it.
pub record Client : Type 0 where
  pub now : ℤ
  pub timeout : ℤ
  pub get_scan_estimation : String → Option (Option ScanEstimation)
  pub get_assets : String → Option (Option (List (Option String)))
  pub get_asset_scan_estimations : Query → Option AssetScanEstimations
  pub patches : String → ScanEstimation → Bool
  pub deletes : String → Bool
  pub posts : AssetScanEstimation → Posted
  pub patches_asset : String → EstimationState → Bool
  pub appended : List (Option String) → List (Option String)
  pub counts_text : ℤ → ℤ → ℤ → String
