-- ===== src/EstimationTypes.antt =====
-- The estimations of api/types/types.gen.go, with scanestimation.go and assetscanestimation.go: what a
-- scan of an asset, or of all assets in a scope, would take. Costs, which are floating point, are left
-- out.
use vmclarity.Prelude.{String, Bool, false, Option, none, some, List}
use vmclarity.Prelude.Int.{ℤ, ◌+ℤ◌, ltb_ℤ}
use vmclarity.ApiTypes.{AssetRelationship, AssetScanTemplate}
use vmclarity.ScanConfigWatcher.Api.{ScanTemplate}
use vmclarity.Status.{Status}
use vmclarity.Status.AssetScanEstimationStatus
use vmclarity.Status.ScanEstimationStatus

-- AssetScanEstimationStatus and ScanEstimationStatus.
abbrev pub EstimationState : Type 0
EstimationState = Status AssetScanEstimationStatus.State AssetScanEstimationStatus.Reason

abbrev pub ScanEstimationState : Type 0
ScanEstimationState = Status ScanEstimationStatus.State ScanEstimationStatus.Reason

pub record Estimation : Type 0 where
  pub duration : Option ℤ
  pub size : Option ℤ

-- `template` is AssetScanTemplate; `scan_estimation` is the relationship, whose ID may be nil.
pub record AssetScanEstimation : Type 0 where
  pub id : Option String
  pub asset : Option AssetRelationship
  pub template : Option AssetScanTemplate
  pub scan_estimation : Option (Option String)
  pub status : Option EstimationState
  pub estimation : Option Estimation
  pub start_time : Option ℤ
  pub end_time : Option ℤ
  pub delete_after : Option ℤ
  pub ttl_seconds : Option ℤ

abbrev pub empty_patch : AssetScanEstimation
empty_patch = record {
  id = none;
  asset = none;
  template = none;
  scan_estimation = none;
  status = none;
  estimation = none;
  start_time = none;
  end_time = none;
  delete_after = none;
  ttl_seconds = none;
}

pub record ScanEstimationSummary : Type 0 where
  pub jobs_completed : Option ℤ
  pub jobs_left : Option ℤ
  pub total_size : Option ℤ
  pub total_time : Option ℤ

-- `asset_scan_estimations` are the IDs of the relationships.
pub record ScanEstimation : Type 0 where
  pub id : Option String
  pub template : Option ScanTemplate
  pub status : Option ScanEstimationState
  pub asset_ids : Option (List String)
  pub asset_scan_estimations : Option (List (Option String))
  pub summary : Option ScanEstimationSummary
  pub start_time : Option ℤ
  pub end_time : Option ℤ
  pub delete_after : Option ℤ
  pub ttl_seconds : Option ℤ

abbrev pub empty_scan_patch : ScanEstimation
empty_scan_patch = record {
  id = none;
  template = none;
  status = none;
  asset_ids = none;
  asset_scan_estimations = none;
  summary = none;
  start_time = none;
  end_time = none;
  delete_after = none;
  ttl_seconds = none;
}

-- IsTimedOut; `now` is time.Now().
unfoldable pub is_timed_out : ℤ → ScanEstimation → ℤ → Bool
unfolding ◌+ℤ◌
is_timed_out now s timeout = elim s.start_time [
  | none ↦ false
  | some start ↦ ltb_ℤ (start +ℤ timeout) now
]

-- GetScope.
unfoldable pub get_scope : ScanEstimation → Option String
get_scope s = elim s.template [ none ↦ none | some t ↦ t.scope ]
