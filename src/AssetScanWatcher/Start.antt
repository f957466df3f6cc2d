-- ===== src/AssetScanWatcher/Start.antt =====
-- newJobConfig of orchestrator/watcher/assetscan/helpers.go, and reconcilePending and reconcileScheduled of
-- watcher.go.
use vmclarity.Prelude.{
  String, Bool, false, not, Option, none, some, [], ◌∷◌, ◌=?◌, string_eq, if◌then◌else◌,
}
use vmclarity.Prelude.Int.{ℤ, pos, ltb_ℤ}
use vmclarity.Go.{
  Result, ok, err, Act, pure, fail, lift, call, deref, require, ◌>>=◌, ◌>>◌, invalid, failed_call,
  requeue_after,
}
use vmclarity.ApiTypes.{AssetScan, AssetScanState, ScanRelationship, get_max_parallel_scanners}
use vmclarity.Status.AssetScanStatus
use vmclarity.AssetScanWatcher.Api.{
  Client, Call, run_asset_scan, patch_status, Job, Answer, accepted, fatal, retryable, other,
}

-- NewFamiliesConfigFrom reads the families, and ScanMetadata the two IDs; nil is read.
unfoldable pub new_job_config : Client → AssetScan → Option String → Act Call Job
new_job_config c a info = do
  families ← lift (deref a.families_config)
  if c.marshals families then pure tt else fail invalid
  id ← lift (deref a.id)
  asset ← lift (deref a.asset)
  pure (record { asset_scan_id = id; asset_id = asset.id; families = families; asset_info = info })

unfoldable pub patch : Client → String → AssetScanState → Act Call (Unit {0})
patch c id s = call (patch_status id s) (c.patches_status id s)

-- The Scan that limits the AssetScans that run at once, if there is one.
unfoldable pub limiting_scan : Option ScanRelationship → Option ScanRelationship
limiting_scan none = none
limiting_scan (some s) =
    if s.id =? "" then none else elim s.max_parallel_scanners [ none ↦ none | some _ ↦ some s ]

-- Whether the maximum is reached.
unfoldable pub at_maximum : Client → Option ScanRelationship → Result Bool
unfolding get_max_parallel_scanners
at_maximum c none = ok false
at_maximum c (some s) = elim (c.running_of s.id) [
  | none ↦ err failed_call
  | some count ↦ elim count [
    | none ↦ err invalid
    | some running ↦ ok (not (ltb_ℤ running (get_max_parallel_scanners s)))
  ]
]

-- One second, in nanoseconds.
abbrev pub second : ℤ
second = pos 1000000000

unfoldable pub schedule : Client → String → Act Call (Unit {0})
unfolding patch
schedule c id = do
  patch c id (AssetScanStatus.new c.now AssetScanStatus.scheduled AssetScanStatus.provisioning none)
  fail (requeue_after second)

unfoldable pub reconcile_pending : Client → AssetScan → Act Call (Unit {0})
reconcile_pending c a = do
  id ← lift (require a.id invalid)
  full ← lift (at_maximum c (limiting_scan a.scan))
  if full then pure tt else schedule c id

-- The new status after the provider's answer; a RetryableError is returned as a RequeueAfterError.
unfoldable pub after_run : Client → Answer → Result AssetScanState
after_run c accepted =
    ok
      (AssetScanStatus.new c.now AssetScanStatus.ready_to_scan AssetScanStatus.resources_ready none)
after_run c (fatal text) =
    ok (AssetScanStatus.new c.now AssetScanStatus.failed AssetScanStatus.error (some text))
after_run c (retryable d) = err (requeue_after d)
after_run c (other text joined) =
    ok (AssetScanStatus.new c.now AssetScanStatus.failed AssetScanStatus.error (some joined))

unfoldable pub reconcile_scheduled : Client → AssetScan → Act Call (Unit {0})
unfolding new_job_config after_run patch
reconcile_scheduled c a = do
  id ← lift (require a.id invalid)
  asset ← lift (require a.asset invalid)
  info ← lift (require asset.info invalid)
  job ← new_job_config c a (some info)
  status ← (run_asset_scan job ∷ [], after_run c (c.runs job))
  patch c id status
