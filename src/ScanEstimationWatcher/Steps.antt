-- ===== src/ScanEstimationWatcher/Steps.antt =====
-- reconcileNoState, reconcilePending and reconcileDone of orchestrator/watcher/scanestimation/watcher.go.
use vmclarity.Prelude.{
  String, Bool, true, false, Option, none, some, List, [], ◌∷◌, length, if◌then◌else◌,
}
use vmclarity.Prelude.Int.{ℤ, pos, ◌+ℤ◌, in_seconds, ltb_ℤ}
use vmclarity.Go.{Act, pure, lift, call, deref, require, or_default, ◌>>=◌, invalid, failed_call}
use vmclarity.EstimationTypes.{ScanEstimation, ScanEstimationState, empty_scan_patch, get_scope}
use vmclarity.Status.ScanEstimationStatus
use vmclarity.ScanWatcher.Steps.{asset_filter, asset_ids}
use vmclarity.ScanEstimationWatcher.Api.{
  Client, Call, patch_scan_estimation, delete_scan_estimation,
}

-- PatchScanEstimation.
unfoldable pub patch : Client → String → ScanEstimation → Act Call (Unit {0})
patch c id p = call (patch_scan_estimation id p) (c.patches id p)

-- DefaultScanEstimationTTLSeconds.
abbrev pub default_ttl : ℤ
default_ttl = pos 7200

unfoldable pub reconcile_no_state : Client → ScanEstimation → Act Call (Unit {0})
unfolding patch
reconcile_no_state c s = do
  id ← lift (require s.id invalid)
  patch c id (record empty_scan_patch {
    status = some (
        ScanEstimationStatus.new c.now ScanEstimationStatus.pending ScanEstimationStatus.created
          none);
  })

-- The status that reconcilePending asks for.
unfoldable pub discovery_status : ℤ → List String → ScanEstimationState
discovery_status now [] =
    ScanEstimationStatus.new now ScanEstimationStatus.done ScanEstimationStatus.nothing_to_estimate
      (some "No instances found in scope for Scan estimation")
discovery_status now (id ∷ ids) =
    ScanEstimationStatus.new now ScanEstimationStatus.State.discovered
      ScanEstimationStatus.successful_discovery
      (some "Assets for Scan estimation are successfully discovered")

-- The AssetIDs are replaced where an asset was found.
abbrev found_ids : ScanEstimation → List String → Option (List String)
found_ids s [] = s.asset_ids
found_ids s (id ∷ ids) = some (id ∷ ids)

unfoldable pub discovered : Client → ScanEstimation → List String → ScanEstimation
unfolding discovery_status
discovered c s ids = record empty_scan_patch {
  start_time = some c.now;
  ttl_seconds = some (or_default s.ttl_seconds default_ttl);
  asset_ids = found_ids s ids;
  status = some (discovery_status c.now ids);
  summary = some (record {
    jobs_completed = some (pos 0);
    jobs_left = some (pos (length ids));
    total_size = none;
    total_time = none;
  });
}

-- The filter of the assets is the one of a Scan.
unfoldable pub reconcile_pending : Client → ScanEstimation → Act Call (Unit {0})
unfolding patch discovered asset_filter asset_ids get_scope
reconcile_pending c s = do
  id ← lift (require s.id invalid)
  scope ← lift (require (get_scope s) invalid)
  assets ← lift (require (c.get_assets (asset_filter scope)) failed_call)
  items ← lift (deref assets)
  ids ← lift (asset_ids items)
  patch c id (discovered c s ids)

-- The time from which on an estimation that ended at `end` may be deleted.
unfoldable pub expiry : ℤ → ℤ → ℤ
unfolding ◌+ℤ◌ in_seconds
expiry end ttl = end +ℤ in_seconds ttl

-- The end and the TTL that reconcileDone goes on with.
abbrev pub end_of : Client → ScanEstimation → ℤ
end_of c s = or_default s.end_time c.now

abbrev pub ttl_of : ScanEstimation → ℤ
ttl_of s = or_default s.ttl_seconds default_ttl

unfoldable pub delete_if : Client → String → Bool → Act Call (Unit {0})
delete_if c id true = call (delete_scan_estimation id) (c.deletes id)
delete_if c id false = pure tt

-- The patch that sets DeleteAfter.
abbrev pub expiring : Client → ScanEstimation → ScanEstimation
expiring c s = record empty_scan_patch {
  delete_after = some (expiry (end_of c s) (ttl_of s));
  end_time = some (end_of c s);
  ttl_seconds = some (ttl_of s);
}

-- From DeleteAfter, set or not.
unfoldable pub finish : Client → ScanEstimation → String → Option ℤ → Act Call (Unit {0})
unfolding delete_if patch expiry
finish c s id (some t) = delete_if c id (ltb_ℤ t c.now)
finish c s id none =
    if ltb_ℤ (expiry (end_of c s) (ttl_of s)) c.now
    then delete_if c id true
    else patch c id (expiring c s)

unfoldable pub reconcile_done : Client → ScanEstimation → Act Call (Unit {0})
unfolding finish
reconcile_done c s = do id ← lift (require s.id invalid); finish c s id s.delete_after
