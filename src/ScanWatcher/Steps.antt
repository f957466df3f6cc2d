-- ===== src/ScanWatcher/Steps.antt =====
-- reconcilePending, reconcileDiscovered and reconcileInProgress of orchestrator/watcher/scan/watcher.go.
-- The Scan that they are given comes from the API and is not nil.
use Prim.Native.String.{◌++◌ as ◌+++◌}
use vmclarity.Prelude.{
  String, not, Option, none, some, List, [], ◌∷◌, ◌=?◌, string_eq, if◌then◌else◌,
}
use vmclarity.Prelude.Int.{ℤ, pos, ◌-ℤ◌, int64, ltb_ℤ}
use vmclarity.Go.{
  Result, ok, err, panics, Act, pure, lift, call, deref, require, ◌>>=◌, ◌>>◌, invalid, failed_call,
}
use vmclarity.ApiTypes.{Scan, ScanState, ScanSummary}
use vmclarity.Status.ScanStatus
use vmclarity.ScanWatcher.Api.{Client, Call, patch_scan, ScanPatch, of_scan}
use vmclarity.ScanWatcher.Summary.{new_scan_summary, summarise}
use vmclarity.ScanWatcher.Create.{create_asset_scans_for_scan}

-- PatchScan of one Scan.
unfoldable pub patch : Client → String → ScanPatch → Act Call (Unit {0})
patch c id p = call (patch_scan id p) (c.patches_scan id p)

-- The filter text: assets that are not terminated, in the scope of the Scan if it has one.
unfoldable pub asset_filter : String → String
asset_filter scope =
    if not (scope =? "")
    then "(terminatedOn eq null) and (" +++ scope +++ ")"
    else "terminatedOn eq null"

-- The IDs of the assets; one that is nil is read.
unfoldable pub asset_ids : List (Option String) → Result (List String)
asset_ids [] = ok []
asset_ids (none ∷ rest) = panics
asset_ids (some id ∷ rest) = elim (asset_ids rest) [
  | ok ids ↦ ok (id ∷ ids)
  | err e ↦ err e
  | panics ↦ panics
]

-- What reconcilePending makes of the IDs.
unfoldable pub discovered : ℤ → Scan → List String → ScanPatch
discovered now scan [] = record {
  status = some (
      ScanStatus.new now ScanStatus.done ScanStatus.nothing_to_scan
        (some "No instances found in scope for Scan"));
  summary = none;
  end_time = none;
  asset_ids = scan.asset_ids;
}
discovered now scan (id ∷ ids) = record {
  status = some (
      ScanStatus.new now ScanStatus.discovered ScanStatus.assets_discovered
        (some "Assets for Scan are successfully discovered"));
  summary = none;
  end_time = none;
  asset_ids = some (id ∷ ids);
}

unfoldable pub reconcile_pending : Client → Scan → Act Call (Unit {0})
unfolding patch asset_filter asset_ids discovered
reconcile_pending c scan = do
  id ← lift (require scan.id invalid)
  scope ← lift (require scan.scope invalid)
  assets ← lift (require (c.get_assets (asset_filter scope)) failed_call)
  items ← lift (deref assets)
  ids ← lift (asset_ids items)
  patch c id (discovered c.now scan ids)

-- What reconcileDiscovered does after the AssetScans are created. The log line at the end prints
-- len(*scan.AssetIDs).
unfoldable pub start : Client → String → Scan → Act Call (Unit {0})
unfolding patch
start c id scan = do
  patch c id (record {
    status = some (ScanStatus.new c.now ScanStatus.in_progress ScanStatus.asset_scans_running none);
    summary = scan.summary;
    end_time = none;
    asset_ids = scan.asset_ids;
  })
  _ ← lift (deref scan.asset_ids)
  pure tt

unfoldable pub reconcile_discovered : Client → Scan → Act Call (Unit {0})
unfolding create_asset_scans_for_scan start
reconcile_discovered c scan = do
  id ← lift (require scan.id invalid)
  scan' ← create_asset_scans_for_scan c scan
  start c id scan'

-- The status at the end of reconcileInProgress, from the number of failed AssetScans and of all.
unfoldable pub final_status : Client → ℤ → ℤ → ScanState
unfolding int64 ◌-ℤ◌
final_status c failed count =
    let message = some (c.counts_text (int64 (count -ℤ failed)) failed count) in
    if ltb_ℤ (pos 0) failed
    then ScanStatus.new c.now ScanStatus.failed ScanStatus.error message
    else ScanStatus.new c.now ScanStatus.done ScanStatus.success message

-- The Scan after its jobs have been counted, as the patch that is sent.
unfoldable pub progressed : Client → Scan → ScanSummary → ℤ → ℤ → ℤ → ScanPatch
unfolding final_status
progressed c scan summary left failed count =
    if ltb_ℤ (pos 0) left
    then record {
      status = scan.status;
      summary = some summary;
      end_time = scan.end_time;
      asset_ids = scan.asset_ids;
    }
    else record {
      status = some (final_status c failed count);
      summary = some summary;
      end_time = some c.now;
      asset_ids = scan.asset_ids;
    }

unfoldable pub reconcile_in_progress : Client → Scan → Act Call (Unit {0})
unfolding patch progressed
reconcile_in_progress c scan = do
  id ← lift (require scan.id invalid)
  answer ← lift (require (c.get_asset_scans (of_scan id)) failed_call)
  count ← lift (require answer.count invalid)
  items ← lift (require answer.items invalid)
  counted ← lift (summarise new_scan_summary (pos 0) items)
  left ← lift (deref counted.0.jobs_left)
  patch c id (progressed c scan counted.0 left counted.1 count)
