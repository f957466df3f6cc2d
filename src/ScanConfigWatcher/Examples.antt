-- ===== src/ScanConfigWatcher/Examples.antt =====
-- The theorems on the ScanConfig controller for a schedule that is due every ten nanoseconds.
use Prim.Native.Nat.{◌/◌, ◌*◌}
use vmclarity.Prelude.{suc, ◌≡◌, ◌⊎◌, inl, inr, refl, arith, true, none, some, [], ◌∷◌}
use vmclarity.Prelude.Int.{ℤ, pos, negsuc, ◌≤ℤ◌}
use vmclarity.Go.{ok}
use vmclarity.ApiTypes.{Scan}
use vmclarity.ScanWatcher.Api.{created}
use vmclarity.ScanConfigWatcher.Schedule.{
  Cron, ScheduleWindow, RuntimeSchedule, Plan, due, next_after,
}
use vmclarity.ScanConfigWatcher.Schedule.NextAfter.{Advances, Reached, at_time, next_after_reaches}
use vmclarity.ScanConfigWatcher.Api.{Client, post_scan, patch_scan_config, ScanConfig, ScanTemplate}
use vmclarity.ScanConfigWatcher.Steps.{create_scan, reschedule}
use vmclarity.ScanConfigWatcher.Due.{reschedule_moves_on, one_scan_at_a_time, to_time, IsNewScan}

-- The next multiple of ten; before the zero time, ten.
abbrev tens : Cron
tens (pos n) = pos (suc (n / 10) * 10)
tens (negsuc n) = pos 10

tens-Advances : Advances tens
tens-Advances (pos n) = inr (ground arith)
tens-Advances (negsuc n) = inr (ground arith)

abbrev window : ScheduleWindow
window = record { start = pos 35; end = pos 45 }

next_after_reaches_example :
    (r : ℤ) × (next_after (pos 45) (at_time tens (pos 10)) ≡ some (at_time tens r))
    × Reached tens (pos 45) (pos 10) r
next_after_reaches_example = next_after_reaches tens (pos 45) (pos 10) tens-Advances (ground arith)

abbrev schedule : RuntimeSchedule
schedule = record { cron_line = some "*/10"; operation_time = some (pos 40) }

abbrev template : ScanTemplate
template = record {
  asset_scan_template = none;
  scope = some "";
  max_parallel_scanners = none;
  timeout_seconds = none;
}

abbrev config : ScanConfig
config = record {
  id = some "config";
  name = some "nightly";
  disabled = none;
  scheduled = some schedule;
  template = some template;
}

abbrev client : Client
client = record {
  now = pos 40;
  poll_period = pos 5;
  get_scan_config = λ _. some (some config);
  scans_of = λ _. some (some (record { count = some (pos 0); items = none }));
  posts_scan = λ _. created;
  patches_scan_config = λ _ _. true;
  parse_cron = λ _. some tens;
  format_time = λ _. "40";
}

abbrev plan : Plan
plan = record { state = due; operation_time = some (at_time tens (pos 40)); window = window }

reschedule_moves_on_example :
    (t : ℤ) × ((reschedule client config plan).0
      ≡ patch_scan_config "config" (to_time (some "*/10") t) ∷ [])
    × Reached tens (pos 45) (pos 40) t
reschedule_moves_on_example =
    reschedule_moves_on client config plan tens (pos 40) "config" schedule tens-Advances
      (ground arith) refl refl refl

one_scan_at_a_time_example :
    ((pos 1 ≤ℤ pos 0) × (create_scan client config ≡ ([], ok tt)))
    ⊎ ((pos 0 ≤ℤ pos 0)
        × ((scan : Scan) × ((create_scan client config).0 ≡ post_scan scan ∷ [])
            × IsNewScan client "config" "nightly" (pos 40) template scan))
one_scan_at_a_time_example =
    one_scan_at_a_time client config "config" "nightly" schedule (pos 40) template refl refl refl
      refl refl (record { count = some (pos 0); items = none }) (pos 0) refl (inl refl)
