-- ===== src/ScanConfigWatcher.antt =====
-- The ScanConfig controller, orchestrator/watcher/scanconfig: Reconcile of watcher.go.
pub mod Schedule
pub mod Api
pub mod Steps
pub mod Due
mod Examples
use vmclarity.Prelude.{String, Bool, true, false, Option, none, some, List, [], ◌∷◌}
use vmclarity.Prelude.Int.{ℤ, ◌+ℤ◌, int64}
use vmclarity.Go.{
  Result, ok, err, panics, Act, pure, fail, lift, deref, require, ◌>>=◌, ◌>>◌, invalid, failed_call,
}
use Schedule.{
  Plan, ScheduleState, disabled, unscheduled, not_due, due, overdue, new_schedule,
  new_schedule_window,
}
use Api.{Client, Call, ScanConfig}
use Steps.{reconcile_unscheduled, reconcile_due, reschedule}

-- The `switch` on the state of the schedule.
unfoldable pub dispatch : ScheduleState → Client → ScanConfig → Plan → Act Call (Unit {0})
dispatch disabled c config plan = pure tt
dispatch not_due c config plan = pure tt
dispatch unscheduled c config plan = reconcile_unscheduled c config
dispatch due c config plan = reconcile_due c config plan
dispatch overdue c config plan = reschedule c config plan

unfoldable pub reconcile : Client → String → Act Call (Unit {0})
unfolding dispatch new_schedule new_schedule_window int64 ◌+ℤ◌
reconcile c scan_config_id = do
  answer ← lift (require (c.get_scan_config scan_config_id) failed_call)
  config ← lift (require answer failed_call)
  _ ← lift (require config.id invalid)
  plan ← lift (
      new_schedule c.parse_cron config.disabled config.scheduled
        (new_schedule_window c.now (int64 (c.poll_period +ℤ c.poll_period))))
  dispatch plan.state c config plan
