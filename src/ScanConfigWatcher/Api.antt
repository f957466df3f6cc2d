-- ===== src/ScanConfigWatcher/Api.antt =====
-- The ScanConfigs, and the API client of their controller (orchestrator/watcher/scanconfig): what one
-- run of Reconcile reads, and the answers to what it writes.
use vmclarity.Prelude.{String, Bool, Option, List}
use vmclarity.Prelude.Int.{ℤ}
use vmclarity.ApiTypes.{AssetScanTemplate, Scan}
use vmclarity.ScanWatcher.Api.{Posted}
use vmclarity.ScanConfigWatcher.Schedule.{Cron, RuntimeSchedule}

pub record ScanTemplate : Type 0 where
  pub asset_scan_template : Option AssetScanTemplate
  pub scope : Option String
  pub max_parallel_scanners : Option ℤ
  pub timeout_seconds : Option ℤ

pub record ScanConfig : Type 0 where
  pub id : Option String
  pub name : Option String
  pub disabled : Option Bool
  pub scheduled : Option RuntimeSchedule
  pub template : Option ScanTemplate

-- The body of a PATCH of a ScanConfig.
pub record ScanConfigPatch : Type 0 where
  pub disabled : Option Bool
  pub scheduled : Option RuntimeSchedule

pub data Call : Type 0 where
  patch_scan_config : String → ScanConfigPatch → Call
  post_scan : Scan → Call

pub record Scans : Type 0 where
  pub count : Option ℤ
  pub items : Option (List Scan)

-- `none` and `false` are errors. `now` is every time.Now() of one run; `scans_of` answers for the Scans of
-- a ScanConfig that are neither Done nor Failed; `parse_cron` is cronexpr.Parse.
pub record Client : Type 0 where
  pub now : ℤ
  pub poll_period : ℤ
  pub get_scan_config : String → Option (Option ScanConfig)
  pub scans_of : String → Option (Option Scans)
  pub posts_scan : Scan → Posted
  pub patches_scan_config : String → ScanConfigPatch → Bool
  pub parse_cron : String → Option Cron
  pub format_time : ℤ → String
