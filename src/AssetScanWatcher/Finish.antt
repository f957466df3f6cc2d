-- ===== src/AssetScanWatcher/Finish.antt =====
-- reconcileDoneAndFailed, cleanupResources and reconcileAborted of orchestrator/watcher/assetscan/watcher.go.
use vmclarity.Prelude.{Bool, Option, none, some, [], ◌∷◌, ◌=?◌, if◌then◌else◌}
use vmclarity.Prelude.Int.{ltb_ℤ, ◌+ℤ◌}
use vmclarity.Go.{
  Result, ok, err, panics, Act, pure, lift, call, deref, require, ◌>>=◌, invalid, failed_call,
  requeue_after,
}
use vmclarity.ApiTypes.{AssetScan, AssetScanState, CleanupState}
use vmclarity.Status.AssetScanStatus
use vmclarity.Status.CleanupStatus
use vmclarity.Status.CleanupStatus.{state_eq}
use vmclarity.Status.AssetScanStatus.{state_eq as asset_scan_state_eq}
use vmclarity.AssetScanWatcher.Api.{
  Client, Call, remove_asset_scan, patch_cleanup, Answer, accepted, fatal, retryable, other,
  DeletePolicy, always, never, on_success, other_policy,
}
use vmclarity.AssetScanWatcher.Start.{new_job_config, patch}

abbrev pub skipped : Client → CleanupState
skipped c = CleanupStatus.new c.now CleanupStatus.skipped CleanupStatus.delete_policy none

-- The cleanup status after the provider's answer.
unfoldable pub after_remove : Client → Answer → Result CleanupState
after_remove c accepted = ok (CleanupStatus.new c.now CleanupStatus.done CleanupStatus.success none)
after_remove c (fatal text) =
    ok (CleanupStatus.new c.now CleanupStatus.failed CleanupStatus.provider_error (some text))
after_remove c (retryable d) = err (requeue_after d)
after_remove c (other text joined) =
    ok (CleanupStatus.new c.now CleanupStatus.failed CleanupStatus.provider_error (some text))

-- The last branch of the `switch` on the policy.
unfoldable pub remove : Client → AssetScan → Act Call CleanupState
unfolding new_job_config after_remove
remove c a = do
  asset ← lift (deref a.asset)
  answer ← lift (require (c.get_asset asset.id) failed_call)
  info ← lift (require answer invalid)
  job ← new_job_config c a (some info)
  (remove_asset_scan job ∷ [], after_remove c (c.removes job))

-- Whether a Failed AssetScan keeps its resources.
unfoldable pub keeps_failed : Option AssetScanState → Result Bool
keeps_failed none = panics
keeps_failed (some s) = ok (s.state =? AssetScanStatus.failed)

-- The `switch` on the policy.
unfoldable pub clean_up_by : DeletePolicy → Client → AssetScan → Act Call CleanupState
clean_up_by never c a = pure (skipped c)
clean_up_by on_success c a = do
  keeps ← lift (keeps_failed a.status)
  if keeps then pure (skipped c) else remove c a
clean_up_by always c a = remove c a
clean_up_by other_policy c a = remove c a

unfoldable pub clean_up_resources : Client → AssetScan → Act Call (Unit {0})
clean_up_resources c a = do
  id ← lift (require a.id invalid)
  status ← clean_up_by c.delete_policy c a
  call (patch_cleanup id status) (c.patches_cleanup id status)

unfoldable pub reconcile_done_and_failed : Client → AssetScan → Act Call (Unit {0})
reconcile_done_and_failed c a = do
  _ ← lift (require a.scan invalid)
  cleanup ← lift (require a.cleanup invalid)
  if cleanup.state =? CleanupStatus.pending then clean_up_resources c a else pure tt

-- `abort_text` is the message that names the timeout.
unfoldable pub reconcile_aborted : Client → AssetScan → Act Call (Unit {0})
unfolding patch
reconcile_aborted c a = do
  id ← lift (require a.id invalid)
  status ← lift (require a.status invalid)
  if ltb_ℤ (status.last_transition_time +ℤ c.abort_timeout) c.now
      then patch c id (
          AssetScanStatus.new c.now AssetScanStatus.failed AssetScanStatus.abort_timeout
            (some c.abort_text))
      else pure tt
