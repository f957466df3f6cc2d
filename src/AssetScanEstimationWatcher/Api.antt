-- ===== src/AssetScanEstimationWatcher/Api.antt =====
-- What the AssetScanEstimation controller (orchestrator/watcher/assetscanestimation) calls: the API
-- client and the provider. Their answers in one run of Reconcile are a parameter.
use vmclarity.Prelude.{String, Bool, Option}
use vmclarity.Prelude.Int.{ℤ}
use vmclarity.ApiTypes.{AssetRelationship}
use vmclarity.EstimationTypes.{Estimation, AssetScanEstimation}

-- What Estimate returns, by the order of the errors.As tests: an estimation, a FatalError with its text, a
-- RetryableError with its duration, and another error.
pub data Answer : Type 0 where
  estimated : Estimation → Answer
  fatal : String → Answer
  retryable : ℤ → Answer
  other : Answer

-- The body of a PATCH has the fields of the object.
pub data Call : Type 0 where
  patch_estimation : String → AssetScanEstimation → Call
  delete_estimation : String → Call

-- `none` and `false` are errors. `now` is every time.Now() of one run. `converts` says whether ToAsset
-- succeeds, and `estimate` answers for the asset and the stats of its latest AssetScans.
pub record Client : Type 0 where
  pub now : ℤ
  pub get_estimation : String → Option AssetScanEstimation
  pub converts : AssetRelationship → Bool
  pub estimate : AssetRelationship → Answer
  pub patches : String → AssetScanEstimation → Bool
  pub deletes : String → Bool
