-- ===== src/ScanWatcher/Api.antt =====
-- The API client of the Scan controller (orchestrator/watcher/scan): its requests, and the answers
-- that one run of Reconcile gets. What the server makes of a request is not the controller's, so the
-- answers are a parameter: a record of functions, one for each request.
use vmclarity.Prelude.{String, Bool, Option, List}
use vmclarity.Prelude.Int.{ℤ}
use vmclarity.ApiTypes.{ScanState, AssetScanState, ScanSummary, Scan, AssetScan}

-- The fields that the controller sets in the body of a PATCH of a Scan.
pub record ScanPatch : Type 0 where
  pub status : Option ScanState
  pub summary : Option ScanSummary
  pub end_time : Option ℤ
  pub asset_ids : Option (List String)

-- The calls that write.
pub data Call : Type 0 where
  patch_scan : String → ScanPatch → Call
  post_asset_scan : AssetScan → Call
  patch_asset_scan : String → AssetScanState → Call

-- The two filters of GetAssetScans: all of a Scan, and those of it in no final state and not aborted.
pub data Query : Type 0 where
  of_scan unfinished_of_scan : String → Query

pub data Posted : Type 0 where
  created : Posted
  conflict : Option String → Posted
  refused : Posted

pub record AssetScans : Type 0 where
  pub count : Option ℤ
  pub items : Option (List AssetScan)

-- `none` and `false` are errors. `now` is time.Now(), `counts_text` the fmt.Sprintf of the message of
-- a finished Scan.
pub record Client : Type 0 where
  pub now : ℤ
  pub scan_timeout : ℤ
  pub get_scan : String → Option (Option Scan)
  pub get_assets : String → Option (Option (List (Option String)))
  pub get_asset_scans : Query → Option AssetScans
  pub patches_scan : String → ScanPatch → Bool
  pub posts_asset_scan : AssetScan → Posted
  pub patches_asset_scan : String → AssetScanState → Bool
  pub counts_text : ℤ → ℤ → ℤ → String
