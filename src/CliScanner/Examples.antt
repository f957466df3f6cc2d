-- ===== src/CliScanner/Examples.antt =====
-- The theorems on the command line scanner at one AssetScan and two families.
use vmclarity.Prelude.{◌≡◌, refl, ◌⊎◌, true, false, Option, none, some, List, [], ◌∷◌}
use vmclarity.Prelude.Int.{ℤ, pos}
use vmclarity.Go.{ok}
use vmclarity.ApiTypes.{AssetScan, AssetScanState, AssetScanStats, ScanTime}
use vmclarity.Status.AssetScanStatus
use vmclarity.CliScanner.State.{
  Client, Tick, finds, cancelled, wait_for_ready_state, mark_in_progress, patch,
  append_effective_config, other_annotations,
}
use vmclarity.CliScanner.Reports.{command_reports, EndsDone, EndsFailed}
use vmclarity.CliScanner.{Setup}

abbrev in_progress : AssetScanState
in_progress = record {
  state = AssetScanStatus.in_progress;
  reason = AssetScanStatus.scanner_is_running;
  message = none;
  last_transition_time = pos 0;
}

abbrev time : ScanTime
time = record { start_time = some (pos 1); end_time = none }

abbrev asset_scan : Option AssetScanStats → AssetScan
asset_scan stats = record {
  id = some "a";
  scan = none;
  asset = none;
  status = some in_progress;
  cleanup = none;
  summary = none;
  families_config = none;
  instance_config = none;
  families = record {
    sbom = none;
    exploits = none;
    vulnerabilities = none;
    malware = none;
    rootkits = none;
    secrets = none;
    misconfigurations = none;
    info_finder = none;
  };
  findings_processed = none;
  stats = stats;
  annotations = none;
}

abbrev started : AssetScan
started = asset_scan (some (record { general = some (record { scan_time = some time }) }))

abbrev client : AssetScan → Client
client a = record {
  now = pos 5;
  asset_scan_at = λ _. some a;
  patches_at = λ _ _. true;
  config_json = some "{}";
}

-- Packages and their vulnerabilities.
abbrev setup : AssetScan → Setup ℤ
setup a = record {
  client = client a;
  mounts = true;
  enabled = record {
    sbom = true;
    vulnerabilities = true;
    secrets = false;
    rootkits = false;
    malware = false;
    misconfiguration = false;
    info_finder = false;
    exploits = false;
  };
  cancels = λ _. false;
  runs = λ _ _. some (pos 0);
  exports = λ _ _. true;
  text = λ _. "";
}

abbrev ticks : List Tick
ticks = finds none ∷ finds (some (some in_progress)) ∷ []

marked : (mark_in_progress (client started)).1 ≡ ok tt
unfolding mark_in_progress patch append_effective_config other_annotations
marked = refl

ready : wait_for_ready_state ticks ≡ some true
unfolding wait_for_ready_state
ready = refl

command_reports_example :
    EndsDone (setup started) ticks in_progress ⊎ EndsFailed (setup started) ticks in_progress
command_reports_example =
    command_reports (setup started) ticks started started time time in_progress ready refl marked
      refl refl refl refl refl

aborted_early : wait_for_ready_state (cancelled ∷ []) ≡ some false
unfolding wait_for_ready_state
aborted_early = refl
