-- ===== src/AssetScanEstimationWatcher/Examples.antt =====
-- The theorems on the AssetScanEstimation controller at an estimation that ended at 1.
use vmclarity.Prelude.{refl, inr, true, false, none, some}
use vmclarity.Prelude.Int.{ℤ, pos}
use vmclarity.Status.AssetScanEstimationStatus
use vmclarity.EstimationTypes.{AssetScanEstimation, EstimationState}
use vmclarity.AssetScanEstimationWatcher.Api.{estimated, Client}
use vmclarity.AssetScanEstimationWatcher.{reconcile}
use vmclarity.AssetScanEstimationWatcher.Ends.{expires, Deadline, EndsBy}

abbrev aborted_state : EstimationState
aborted_state = record {
  state = AssetScanEstimationStatus.State.aborted;
  reason = AssetScanEstimationStatus.Reason.cancellation;
  message = none;
  last_transition_time = pos 0;
}

abbrev aborted_estimation : AssetScanEstimation
aborted_estimation = record {
  id = some "estimation";
  asset = none;
  template = none;
  scan_estimation = none;
  status = some aborted_state;
  estimation = none;
  start_time = some (pos 0);
  end_time = some (pos 1);
  delete_after = none;
  ttl_seconds = some (pos 60);
}

abbrev client : Client
client = record {
  now = pos 5;
  get_estimation = λ _. some aborted_estimation;
  converts = λ _. true;
  estimate = λ _. estimated (record { duration = none; size = none });
  patches = λ _ _. false;
  deletes = λ _. true;
}

-- It has failed at 1, and lives for two hours.
abbrev failed_estimation : AssetScanEstimation
failed_estimation = record aborted_estimation {
  status = some (record aborted_state { state = AssetScanEstimationStatus.State.failed });
  ttl_seconds = none;
}

abbrev failed_client : Client
failed_client = record client { get_estimation = λ _. some failed_estimation }

expires_example :
    (t : ℤ) × Deadline failed_client failed_estimation t
    × EndsBy failed_client failed_estimation "estimation" t (reconcile failed_client "estimation").0
expires_example =
    expires failed_client "estimation" "estimation" failed_estimation _ refl refl refl (inr refl)
