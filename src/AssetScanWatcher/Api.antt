-- ===== src/AssetScanWatcher/Api.antt =====
-- What the AssetScan controller (orchestrator/watcher/assetscan) calls: the API client and the provider.
-- Their answers in one run of Reconcile are a parameter.
use vmclarity.Prelude.{String, Bool, Option}
use vmclarity.Prelude.Int.{ℤ}
use vmclarity.ApiTypes.{AssetScan, AssetScanState, CleanupState, FamiliesConfig}

-- DeleteJobPolicyType; a value that is none of the three constants is `other_policy`.
pub data DeletePolicy : Type 0 where
  always never on_success other_policy : DeletePolicy

-- What a provider call returns, by the order of the errors.As tests: nil, a FatalError with its text, a
-- RetryableError with its duration, and another error with its text and the joined texts of what it wraps.
pub data Answer : Type 0 where
  accepted : Answer
  fatal : String → Answer
  retryable : ℤ → Answer
  other : String → String → Answer

-- The part of a ScanJobConfig that says what it is for.
pub record Job : Type 0 where
  pub asset_scan_id : String
  pub asset_id : String
  pub families : FamiliesConfig
  pub asset_info : Option String

pub data Call : Type 0 where
  run_asset_scan : Job → Call
  remove_asset_scan : Job → Call
  patch_status : String → AssetScanState → Call
  patch_cleanup : String → CleanupState → Call

-- `none` and `false` are errors. `running_of` is the Count of the AssetScans of a Scan that have started and
-- have still to be cleaned up; `get_asset` gives the AssetInfo; `marshals` says whether yaml.Marshal
-- succeeds on the scanner's config.
pub record Client : Type 0 where
  pub now : ℤ
  pub abort_timeout : ℤ
  pub delete_policy : DeletePolicy
  pub abort_text : String
  pub get_asset_scan : String → Option AssetScan
  pub running_of : String → Option (Option ℤ)
  pub get_asset : String → Option (Option String)
  pub marshals : FamiliesConfig → Bool
  pub runs : Job → Answer
  pub removes : Job → Answer
  pub patches_status : String → AssetScanState → Bool
  pub patches_cleanup : String → CleanupState → Bool
