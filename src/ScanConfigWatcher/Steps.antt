-- ===== src/ScanConfigWatcher/Steps.antt =====
-- newScanFromScanConfig of orchestrator/watcher/scanconfig/helpers.go, and createScan, reconcileUnscheduled,
-- reconcileDue and reconcileOverdue of watcher.go.
use Prim.Native.String.{◌++◌ as ◌+++◌}
use vmclarity.Prelude.{String, true, none, some, [], ◌∷◌, length, if◌then◌else◌}
use vmclarity.Prelude.Int.{ℤ, pos, ltb_ℤ}
use vmclarity.Go.{
  Result, ok, err, panics, Act, pure, lift, call, deref, require, ◌>>=◌, ◌>>◌, failed_call,
}
use vmclarity.ApiTypes.{Scan}
use vmclarity.Status.ScanStatus
use vmclarity.ScanWatcher.Api.{Posted, created, conflict, refused}
use vmclarity.ScanWatcher.Summary.{new_scan_summary}
use vmclarity.ScanConfigWatcher.Schedule.{next_window, next_after, Plan}
use vmclarity.ScanConfigWatcher.Api.{
  Client, Call, patch_scan_config, post_scan, ScanConfig, ScanConfigPatch, Scans,
}

-- Every pointer that the code reads: Name, Scheduled, its OperationTime, Id and ScanTemplate.
unfoldable pub new_scan_from_scan_config : Client → ScanConfig → Result Scan
new_scan_from_scan_config c config =
    let read = (do
      name ← lift {C = Call} (deref config.name)
      scheduled ← lift (deref config.scheduled)
      time ← lift (deref scheduled.operation_time)
      id ← lift (deref config.id)
      template ← lift (deref config.template)
      pure (record {
        id = none;
        revision = none;
        name = some (name +++ "-" +++ c.format_time time);
        scan_config = some id;
        status = some (ScanStatus.new c.now ScanStatus.pending ScanStatus.created none);
        scope = template.scope;
        asset_ids = none;
        template = template.asset_scan_template;
        start_time = some c.now;
        end_time = none;
        timeout_seconds = template.timeout_seconds;
        max_parallel_scanners = template.max_parallel_scanners;
        summary = some new_scan_summary;
      })) in
    read.1

-- The number of Scans in progress: Count, or the length of Items.
unfoldable pub in_progress_count : Scans → Result ℤ
in_progress_count s = elim s.count [
  | some n ↦ ok n
  | none ↦ elim s.items [ none ↦ panics | some items ↦ ok (pos (length items)) ]
]

-- The answer to PostScan: a Scan that exists already is no error.
abbrev pub after_post : Posted → Result (Unit {0})
after_post created = ok tt
after_post (conflict (some id)) = ok tt
after_post (conflict none) = panics
after_post refused = err failed_call

unfoldable pub start_scan : Client → ScanConfig → Act Call (Unit {0})
start_scan c config = do
  scan ← lift (new_scan_from_scan_config c config)
  (post_scan scan ∷ [], after_post (c.posts_scan scan))

unfoldable pub create_scan : Client → ScanConfig → Act Call (Unit {0})
unfolding in_progress_count start_scan
create_scan c config = do
  id ← lift (deref config.id)
  answer ← lift (require (c.scans_of id) failed_call)
  scans ← lift (require answer failed_call)
  running ← lift (in_progress_count scans)
  if ltb_ℤ (pos 0) running then pure tt else start_scan c config

unfoldable pub patch : Client → String → ScanConfigPatch → Act Call (Unit {0})
patch c id p = call (patch_scan_config id p) (c.patches_scan_config id p)

unfoldable pub reconcile_unscheduled : Client → ScanConfig → Act Call (Unit {0})
unfolding patch
reconcile_unscheduled c config = do
  id ← lift (deref config.id)
  patch c id (record { disabled = some true; scheduled = none })

-- The patch to the next operation time after the window. `panics` stands for an operation time that is
-- nil, and for the loop of NextAfter where it does not end.
unfoldable pub reschedule : Client → ScanConfig → Plan → Act Call (Unit {0})
unfolding patch
reschedule c config plan = do
  time ← lift (deref plan.operation_time)
  next ← lift (deref (next_after (next_window plan.window).start time))
  scheduled ← lift (deref config.scheduled)
  id ← lift (deref config.id)
  patch c id (record {
    disabled = none;
    scheduled = some (record { cron_line = scheduled.cron_line; operation_time = some next.time });
  })

unfoldable pub reconcile_due : Client → ScanConfig → Plan → Act Call (Unit {0})
unfolding create_scan reschedule
reconcile_due c config plan = do create_scan c config; reschedule c config plan
