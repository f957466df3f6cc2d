-- ===== src/ScanWatcher/Examples.antt =====
-- The theorems on the Scan controller at concrete Scans and answers.
use vmclarity.Prelude.{
  ◌≡◌, refl, String, ◌=?◌, string_eq, Bool, true, false, not, none, some, List, [], ◌∷◌, ◌++◌, All,
}
use vmclarity.Prelude.Int.{ℤ, pos, ◌+ℤ◌}
use vmclarity.Go.{err, failed_call}
use vmclarity.Goroutines.{one_by_one, Schedule, overlapped}
use vmclarity.ApiTypes.{
  Scan, ScanState, AssetScan, Totals, Families, is_timed_out, get_timeout_seconds,
}
use vmclarity.Status.ScanStatus
use vmclarity.Status.AssetScanStatus
use vmclarity.ScanWatcher.Api.{Client, ScanPatch, patch_asset_scan, created}
use vmclarity.ScanWatcher.Summary.{new_scan_summary, zero_totals}
use vmclarity.ScanWatcher.Abort.{run_patches, ids_of, cancelled, reconcile_aborted}
use vmclarity.ScanWatcher.Abort.Race.{
  abort_retries, abort_completes, abort_race, OfAssetScan, abort_patch,
}
use vmclarity.ScanWatcher.Updates.{updates-Accepted}
use vmclarity.ScanWatcher.Updates.Handlers.{Accepted}
use vmclarity.ScanWatcher.{reconcile}

abbrev status_at : ScanStatus.State → ScanStatus.Reason → ScanState
status_at s r = record { state = s; reason = r; message = none; last_transition_time = pos 0 }

-- A Scan that starts at 1 and may take one second.
abbrev scan_in : ScanState → Scan
scan_in st = record {
  id = some "scan";
  revision = none;
  name = some "nightly";
  scan_config = none;
  status = some st;
  scope = some "";
  asset_ids = some ("vm" ∷ []);
  template = none;
  start_time = some (pos 1);
  end_time = none;
  timeout_seconds = some (pos 1);
  max_parallel_scanners = none;
  summary = some new_scan_summary;
}

abbrev pub no_status : Families
no_status = record {
  sbom = none;
  exploits = none;
  vulnerabilities = none;
  malware = none;
  rootkits = none;
  secrets = none;
  misconfigurations = none;
  info_finder = none;
}

-- An AssetScan with the given totals.
abbrev pub job : String → AssetScanStatus.State → AssetScanStatus.Reason → Totals → AssetScan
job id s r found = record {
  id = some id;
  scan = none;
  asset = none;
  status = some (record { state = s; reason = r; message = none; last_transition_time = pos 0 });
  cleanup = none;
  summary = some found;
  families_config = none;
  instance_config = none;
  families = no_status;
  findings_processed = none;
  stats = none;
  annotations = none;
}

abbrev running_jobs : List AssetScan
running_jobs =
    job "a" AssetScanStatus.in_progress AssetScanStatus.scanner_is_running zero_totals
    ∷ job "b" AssetScanStatus.in_progress AssetScanStatus.scanner_is_running zero_totals
    ∷ []

-- The answers: the Scan, the jobs, and what the patches return.
abbrev client : ℤ → Scan → (String → ScanPatch → Bool) → (String → Bool) → Client
client now scan patches patches_job = record {
  now = now;
  scan_timeout = pos 1000;
  get_scan = λ _. some (some scan);
  get_assets = λ _. some (some (some "vm" ∷ []));
  get_asset_scans = λ _. some (record { count = some (pos 2); items = some running_jobs });
  patches_scan = patches;
  posts_asset_scan = λ _. created;
  patches_asset_scan = λ id _. patches_job id;
  counts_text = λ _ _ _. "";
}

abbrev accepting : Client
accepting =
    client (pos 5) (scan_in (status_at ScanStatus.discovered ScanStatus.assets_discovered))
      (λ _ _. true) (λ _. true)

updates-Accepted_example :
    All
      (Accepted (status_at ScanStatus.discovered ScanStatus.assets_discovered))
      (reconcile accepting one_by_one "scan").0
unfolding is_timed_out get_timeout_seconds ◌+ℤ◌
updates-Accepted_example =
    updates-Accepted accepting one_by_one "scan"
      (scan_in (status_at ScanStatus.discovered ScanStatus.assets_discovered))
      (status_at ScanStatus.discovered ScanStatus.assets_discovered) refl refl refl

abbrev aborted_scan : Scan
aborted_scan = scan_in (status_at ScanStatus.aborted ScanStatus.cancellation)

-- The patch of AssetScan "a" fails, or none does.
abbrev one_fails : Client
one_fails = client (pos 5) aborted_scan (λ _ _. true) (λ id. not (id =? "a"))

abbrev none_fails : Client
none_fails = client (pos 5) aborted_scan (λ _ _. true) (λ _. true)

abort_retries_example :
    ((reconcile_aborted one_fails one_by_one aborted_scan).1 ≡ err failed_call)
    × All OfAssetScan (reconcile_aborted one_fails one_by_one aborted_scan).0
unfolding ids_of
abort_retries_example =
    abort_retries one_fails aborted_scan "scan" running_jobs (some (pos 2)) refl refl refl

-- "a" has not started, and the server refuses its patch.
abbrev waiting_jobs : List AssetScan
waiting_jobs = job "a" AssetScanStatus.pending AssetScanStatus.created zero_totals ∷ []

abbrev waiting : Client
waiting = record one_fails {
  get_asset_scans = λ _. some (record { count = none; items = some waiting_jobs });
}

abort_completes_example :
    (reconcile_aborted none_fails one_by_one aborted_scan).0
    ≡ (run_patches none_fails (one_by_one (ids_of running_jobs)) false false).0
      ++ abort_patch none_fails aborted_scan "scan" ∷ []
unfolding ids_of one_by_one
abort_completes_example =
    abort_completes none_fails aborted_scan "scan" running_jobs (some (pos 2)) one_by_one refl refl
      (refl, (refl, tt))

abort_race_example :
    Schedule (ids_of running_jobs) 0 (overlapped "a" "b")
    × ((reconcile_aborted one_fails (λ _. overlapped "a" "b") aborted_scan).0
        ≡ patch_asset_scan "a" (cancelled one_fails)
          ∷ patch_asset_scan "b" (cancelled one_fails)
          ∷ abort_patch one_fails aborted_scan "scan"
          ∷ [])
unfolding ids_of
abort_race_example =
    abort_race one_fails aborted_scan "scan" "a" "b" running_jobs (some (pos 2)) refl refl refl refl
      refl
