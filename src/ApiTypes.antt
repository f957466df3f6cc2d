-- ===== src/ApiTypes.antt =====
-- The objects of api/types/types.gen.go that the controllers read and write, with the getters of
-- scan.go, assetscan.go and families.go. A pointer is an `Option`, an int an integer in the range of
-- Go's int64, a time the nanoseconds since an epoch. Fields that no modelled code uses are left out.
use vmclarity.Prelude.{zero, suc, String, Bool, false, Option, none, some, List}
use vmclarity.Prelude.Int.{ℤ, pos, negsuc, ◌+ℤ◌, ltb_ℤ, seconds}
use vmclarity.Status.{Status}
use vmclarity.Status.ScanStatus
use vmclarity.Status.AssetScanStatus
use vmclarity.Status.CleanupStatus

-- ScanStatus, AssetScanStatus and ResourceCleanupStatus.
abbrev pub ScanState : Type 0
ScanState = Status ScanStatus.State ScanStatus.Reason

abbrev pub AssetScanState : Type 0
AssetScanState = Status AssetScanStatus.State AssetScanStatus.Reason

abbrev pub CleanupState : Type 0
CleanupState = Status CleanupStatus.State CleanupStatus.Reason

pub record VulnerabilitySummary : Type 0 where
  pub critical : Option ℤ
  pub high : Option ℤ
  pub medium : Option ℤ
  pub low : Option ℤ
  pub negligible : Option ℤ

-- ScanFindingsSummary, and the part of ScanSummary that has the same fields.
pub record Totals : Type 0 where
  pub exploits : Option ℤ
  pub info_finder : Option ℤ
  pub malware : Option ℤ
  pub misconfigurations : Option ℤ
  pub packages : Option ℤ
  pub rootkits : Option ℤ
  pub secrets : Option ℤ
  pub vulnerabilities : Option VulnerabilitySummary

pub record ScanSummary : Type 0 where
  pub jobs_completed : Option ℤ
  pub jobs_left : Option ℤ
  pub totals : Totals
  pub open totals use *

-- The config of one family: `Enabled` alone matters here.
pub record FamilyConfig : Type 0 where
  pub enabled : Option Bool

pub record FamiliesConfig : Type 0 where
  pub sbom : Option FamilyConfig
  pub exploits : Option FamilyConfig
  pub vulnerabilities : Option FamilyConfig
  pub malware : Option FamilyConfig
  pub rootkits : Option FamilyConfig
  pub secrets : Option FamilyConfig
  pub misconfigurations : Option FamilyConfig
  pub info_finder : Option FamilyConfig

-- IsEnabled of a family's config, nil or not.
unfoldable pub is_enabled : Option FamilyConfig → Bool
is_enabled none = false
is_enabled (some c) = elim c.enabled [ none ↦ false | some b ↦ b ]

pub record AssetScanTemplate : Type 0 where
  pub families : Option FamiliesConfig
  pub instance_config : Option String

pub record Scan : Type 0 where
  pub id : Option String
  pub revision : Option ℤ
  pub name : Option String
  pub scan_config : Option String
  pub status : Option ScanState
  pub scope : Option String
  pub asset_ids : Option (List String)
  pub template : Option AssetScanTemplate
  pub start_time : Option ℤ
  pub end_time : Option ℤ
  pub timeout_seconds : Option ℤ
  pub max_parallel_scanners : Option ℤ
  pub summary : Option ScanSummary

-- The state of one scanner family in an AssetScan.
pub data ScannerState : Type 0 where
  scanner_pending scanner_in_progress scanner_done scanner_failed scanner_skipped : ScannerState

pub data ScannerReason : Type 0 where
  not_scheduled scheduled scanning scanner_error scanner_success : ScannerReason

abbrev pub ScannerStatus : Type 0
ScannerStatus = Status ScannerState ScannerReason

-- The `Status` fields of Sbom, Exploits, …, InfoFinder.
pub record Families : Type 0 where
  pub sbom : Option ScannerStatus
  pub exploits : Option ScannerStatus
  pub vulnerabilities : Option ScannerStatus
  pub malware : Option ScannerStatus
  pub rootkits : Option ScannerStatus
  pub secrets : Option ScannerStatus
  pub misconfigurations : Option ScannerStatus
  pub info_finder : Option ScannerStatus

pub record ScanRelationship : Type 0 where
  pub id : String
  pub max_parallel_scanners : Option ℤ

-- `info` is AssetInfo, of which only its presence matters here.
pub record AssetRelationship : Type 0 where
  pub id : String
  pub info : Option String

-- An entry of Annotations.
pub record Annotation : Type 0 where
  pub key : Option String
  pub value : Option String

-- AssetScanScanTime.
pub record ScanTime : Type 0 where
  pub start_time : Option ℤ
  pub end_time : Option ℤ

-- AssetScanGeneralStats, and AssetScanStats without the statistics of the families.
pub record GeneralStats : Type 0 where
  pub scan_time : Option ScanTime

pub record AssetScanStats : Type 0 where
  pub general : Option GeneralStats

pub record AssetScan : Type 0 where
  pub id : Option String
  pub scan : Option ScanRelationship
  pub asset : Option AssetRelationship
  pub status : Option AssetScanState
  pub cleanup : Option CleanupState
  pub summary : Option Totals
  pub families_config : Option FamiliesConfig
  pub instance_config : Option String
  pub families : Families
  pub findings_processed : Option Bool
  pub stats : Option AssetScanStats
  pub annotations : Option (List Annotation)

-- DefaultMaxParallelScanners and `GetMaxParallelScanners`.
abbrev pub default_max_parallel_scanners : ℤ
default_max_parallel_scanners = pos 2

unfoldable pub get_max_parallel_scanners : ScanRelationship → ℤ
get_max_parallel_scanners s = elim s.max_parallel_scanners [
  | none ↦ default_max_parallel_scanners
  | some n ↦ n
]

-- GetTimeoutSeconds.
unfoldable pub get_timeout_seconds : Scan → ℤ
get_timeout_seconds s = elim s.timeout_seconds [ none ↦ pos 0 | some n ↦ n ]

-- The timeout that holds: TimeoutSeconds where it is positive, or the default.
abbrev timeout_of : ℤ → ℤ → ℤ
timeout_of default (pos zero) = default
timeout_of default (pos (suc n)) = seconds (suc n)
timeout_of default (negsuc n) = default

-- IsTimedOut; `now` is time.Now().
unfoldable pub is_timed_out : ℤ → Scan → ℤ → Bool
unfolding get_timeout_seconds seconds ◌+ℤ◌
is_timed_out now s default = elim s.start_time [
  | none ↦ false
  | some start ↦ ltb_ℤ (start +ℤ timeout_of default (get_timeout_seconds s)) now
]
