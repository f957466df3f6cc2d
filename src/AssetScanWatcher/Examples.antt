-- ===== src/AssetScanWatcher/Examples.antt =====
-- The theorems on the AssetScan controller at concrete AssetScans and answers.
use vmclarity.Prelude.{◌≡◌, ◌≢◌, ◌⊎◌, refl, string_eq, true, false, none, some, [], ◌∷◌, All}
use vmclarity.Prelude.Int.{pos, ltb_ℤ}
use vmclarity.Go.{ok}
use vmclarity.ApiTypes.{
  AssetScan, AssetScanState, CleanupState, Families, ScanRelationship, get_max_parallel_scanners,
}
use vmclarity.Status.AssetScanStatus
use vmclarity.Status.CleanupStatus
use vmclarity.AssetScanWatcher.Api.{Client, patch_cleanup, accepted, fatal, on_success}
use vmclarity.AssetScanWatcher.Start.{reconcile_pending, limiting_scan}
use vmclarity.AssetScanWatcher.Finish.{reconcile_done_and_failed}
use vmclarity.AssetScanWatcher.Updates.{Accepted, asset_scan_updates-Accepted}
use vmclarity.AssetScanWatcher.Resources.{maximum_holds, kept_resources, Starts}
use vmclarity.AssetScanWatcher.{reconcile}

abbrev no_status : Families
no_status = record {
  sbom = none;
  exploits = none;
  vulnerabilities = none;
  malware = none;
  rootkits = none;
  secrets = none;
  misconfigurations = none;
  info_finder = none;
}

abbrev scan : ScanRelationship
scan = record { id = "scan"; max_parallel_scanners = some (pos 2) }

abbrev waiting_cleanup : CleanupState
waiting_cleanup = record {
  state = CleanupStatus.pending;
  reason = CleanupStatus.asset_scan_created;
  message = none;
  last_transition_time = pos 0;
}

abbrev status_at : AssetScanStatus.State → AssetScanStatus.Reason → AssetScanState
status_at s r = record { state = s; reason = r; message = none; last_transition_time = pos 0 }

abbrev asset_scan : AssetScanState → AssetScan
asset_scan st = record {
  id = some "job";
  scan = some scan;
  asset = some (record { id = "vm"; info = some "info" });
  status = some st;
  cleanup = some waiting_cleanup;
  summary = none;
  families_config = some (record {
    sbom = none;
    exploits = none;
    vulnerabilities = none;
    malware = none;
    rootkits = none;
    secrets = none;
    misconfigurations = none;
    info_finder = none;
  });
  instance_config = none;
  families = no_status;
  findings_processed = none;
  stats = none;
  annotations = none;
}

-- A provider whose RunAssetScan fails for good.
abbrev client : AssetScan → Client
client a = record {
  now = pos 5;
  abort_timeout = pos 10;
  delete_policy = on_success;
  abort_text = "";
  get_asset_scan = λ _. some a;
  running_of = λ _. some (some (pos 1));
  get_asset = λ _. some (some "info");
  marshals = λ _. true;
  runs = λ _. fatal "no quota";
  removes = λ _. accepted;
  patches_status = λ _ _. true;
  patches_cleanup = λ _ _. true;
}

abbrev scheduled_job : AssetScan
scheduled_job = asset_scan (status_at AssetScanStatus.scheduled AssetScanStatus.provisioning)

asset_scan_updates-Accepted_example :
    All
      (Accepted
        (status_at AssetScanStatus.scheduled AssetScanStatus.provisioning)
        (some waiting_cleanup))
      (reconcile (client scheduled_job) "job").0
asset_scan_updates-Accepted_example =
    asset_scan_updates-Accepted (client scheduled_job) "job" scheduled_job
      (status_at AssetScanStatus.scheduled AssetScanStatus.provisioning) refl refl

abbrev pending_job : AssetScan
pending_job = asset_scan (status_at AssetScanStatus.pending AssetScanStatus.created)

maximum_holds_example :
    ((ltb_ℤ (pos 1) (get_max_parallel_scanners scan) ≡ false)
      × (reconcile_pending (client pending_job) pending_job ≡ ([], ok tt)))
    ⊎ ((ltb_ℤ (pos 1) (get_max_parallel_scanners scan) ≡ true)
        × Starts (client pending_job) "job" (reconcile_pending (client pending_job) pending_job))
unfolding limiting_scan
maximum_holds_example =
    maximum_holds (client pending_job) pending_job "job" scan (pos 1) refl refl refl

abbrev failed_job : AssetScan
failed_job = asset_scan (status_at AssetScanStatus.failed AssetScanStatus.error)

kept_resources_example :
    ((CleanupStatus.pending ≡ CleanupStatus.pending)
      × ((asked : CleanupState) × ((reconcile_done_and_failed (client failed_job) failed_job).0
            ≡ patch_cleanup "job" asked ∷ [])
          × (asked.state ≡ CleanupStatus.skipped)
          × (asked.reason ≡ CleanupStatus.delete_policy)))
    ⊎ ((CleanupStatus.pending ≢ CleanupStatus.pending)
        × (reconcile_done_and_failed (client failed_job) failed_job ≡ ([], ok tt)))
kept_resources_example =
    kept_resources (client failed_job) failed_job "job" scan
      (status_at AssetScanStatus.failed AssetScanStatus.error) waiting_cleanup refl refl refl refl
      refl
