-- ===== src/ScanConfigWatcher/Due.antt =====
-- What Reconcile does for a ScanConfig that is due.
use Prim.Native.String.{◌++◌ as ◌+++◌}
use vmclarity.Prelude.{
  String, ◌≡◌, ◌≢◌, refl, ◌⊎◌, inl, inr, Bool, true, false, Option, none, some, List, [], ◌∷◌,
  arith, Bool-cases, length,
}
use vmclarity.Prelude.Int.{ℤ, pos, ◌≤ℤ◌, ltb_ℤ}
use vmclarity.Go.{ok, call}
use vmclarity.Status.ScanStatus
use vmclarity.ApiTypes.{Scan, ScanState}
use vmclarity.ScanConfigWatcher.Schedule.{
  Cron, ScheduleWindow, RuntimeSchedule, Plan, next_window, next_after, place, contains, due,
  advance,
}
use vmclarity.ScanConfigWatcher.Schedule.NextAfter.{Advances, Reached, at_time, next_after_reaches}
use vmclarity.ScanWatcher.Summary.{new_scan_summary}
use vmclarity.ScanConfigWatcher.Api.{
  Client, Call, patch_scan_config, post_scan, ScanConfig, ScanConfigPatch, ScanTemplate, Scans,
}
use vmclarity.ScanConfigWatcher.Steps.{
  create_scan, start_scan, in_progress_count, reschedule, patch, new_scan_from_scan_config,
}

-- The patch that sets an operation time and keeps the cron line.
abbrev pub to_time : Option String → ℤ → ScanConfigPatch
to_time line t = record {
  disabled = none;
  scheduled = some (record { cron_line = line; operation_time = some t });
}

-- A plan whose time has an expression of which Next gives later times or zero, and whose window does not
-- end at the zero time, for a ScanConfig that has an ID and a schedule: rescheduling sends one PATCH, which sets
-- a time that is not before the end of the window or is the expression's last, and that is the old time or follows a
-- time before the end of the window.
pub reschedule_moves_on :
    (c : Client) (config : ScanConfig) (plan : Plan) (cron : Cron) (a : ℤ) (id : String)
    (r : RuntimeSchedule)
    → Advances cron
    → plan.window.end ≢ pos 0
    → plan.operation_time ≡ some (at_time cron a)
    → config.id ≡ some id
    → config.scheduled ≡ some r
    → (t : ℤ) × ((reschedule c config plan).0 ≡ patch_scan_config id (to_time r.cron_line t) ∷ [])
      × Reached cron plan.window.end a t
unfolding reschedule next_window patch
reschedule_moves_on c config plan cron a id r adv h time known scheduled =
    let (t, e, reached) = next_after_reaches cron plan.window.end a adv h in (t, calls t e, reached)
  where
    patched : (b : Bool) (q : Call) → (call q b).0 ≡ q ∷ []
    patched true q = refl
    patched false q = refl

    calls :
        (t : ℤ)
        → next_after plan.window.end (at_time cron a) ≡ some (at_time cron t)
        → (reschedule c config plan).0 ≡ patch_scan_config id (to_time r.cron_line t) ∷ []
    calls t e = simp (time, e, scheduled, known) (patched _ _)

-- A time that lies at the end of the window is due, and NextAfter of the next window's start leaves it
-- as it is: the same time is due in the next run as well.
due_at_end_stays :
    (w : ScheduleWindow) (cron : Cron)
    → w.start ≤ℤ w.end
    → (place w (at_time cron w.end) ≡ due)
      × (next_after (next_window w).start (at_time cron w.end) ≡ some (at_time cron w.end))
unfolding place contains next_window next_after advance
due_at_end_stays w cron h = (ground arith, ground arith)

-- The answer to the query says that n Scans are in progress: by Count, or by its items.
abbrev pub InProgress : Scans → ℤ → Type 0
InProgress scans n =
    (scans.count ≡ some n)
    ⊎ ((scans.count ≡ none)
        × ((items : List Scan) × (scans.items ≡ some items) × (n ≡ pos (length items))))

-- A Scan of the ScanConfig that is to be run now.
abbrev pub IsNewScan : Client → String → String → ℤ → ScanTemplate → Scan → Type 0
IsNewScan c id name time template scan =
    (scan.scan_config ≡ some id)
    × (scan.name ≡ some (name +++ "-" +++ c.format_time time))
    × ((st : ScanState) × (scan.status ≡ some st) × (st.state ≡ ScanStatus.pending))
    × (scan.start_time ≡ some c.now)
    × (scan.end_time ≡ none)
    × (scan.scope ≡ template.scope)
    × (scan.timeout_seconds ≡ template.timeout_seconds)
    × (scan.max_parallel_scanners ≡ template.max_parallel_scanners)

counts_them : (scans : Scans) (n : ℤ) → InProgress scans n → in_progress_count scans ≡ ok n
unfolding in_progress_count
counts_them scans n (inl count) = rw count refl
counts_them scans n (inr (none_given, (items, listed, all))) = rw (none_given, listed, all) refl

module _ (c : Client) (config : ScanConfig) (id name : String) (r : RuntimeSchedule) (time : ℤ)
    (template : ScanTemplate) (known : config.id ≡ some id) (named : config.name ≡ some name)
    (scheduled : config.scheduled ≡ some r) (timed : r.operation_time ≡ some time)
    (templated : config.template ≡ some template) where
  makes_scan :
      (scan : Scan) × (new_scan_from_scan_config c config ≡ ok scan)
      × IsNewScan c id name time template scan
  unfolding new_scan_from_scan_config ScanStatus.new
  makes_scan = (
    record {
      id = none;
      revision = none;
      name = some (name +++ "-" +++ c.format_time time);
      scan_config = some id;
      status = some pending;
      scope = template.scope;
      asset_ids = none;
      template = template.asset_scan_template;
      start_time = some c.now;
      end_time = none;
      timeout_seconds = template.timeout_seconds;
      max_parallel_scanners = template.max_parallel_scanners;
      summary = some new_scan_summary;
    },
    rw (named, scheduled, timed, known, templated) refl,
    (refl, refl, (pending, refl, refl), refl, refl, refl, refl, refl),
  )
    where
      pending : ScanState
      pending = ScanStatus.new c.now ScanStatus.pending ScanStatus.created none

  -- For a ScanConfig that has an ID, a name, a schedule with a time and a template: where the API tells of n
  -- Scans of it in progress, createScan does nothing if n is above 0, and if not it posts one Scan, which
  -- is of the ScanConfig, is named after it and the time, is Pending, starts now, has no end, and has the
  -- scope, the timeout and the maximum of scanners of the template.
  pub one_scan_at_a_time :
      (scans : Scans) (n : ℤ)
      → c.scans_of id ≡ some (some scans)
      → InProgress scans n
      → ((pos 1 ≤ℤ n) × (create_scan c config ≡ ([], ok tt)))
        ⊎ ((n ≤ℤ pos 0)
            × ((scan : Scan) × ((create_scan c config).0 ≡ post_scan scan ∷ [])
                × IsNewScan c id name time template scan))
  unfolding create_scan start_scan
  one_scan_at_a_time scans n found running =
      let counted = counts_them scans n running in
      elim (Bool-cases (ltb_ℤ (pos 0) n)) [
        | inl more ↦ inl (ground arith, simp (known, found, counted, more) refl)
        | inr none_left ↦
            let (scan, made, new) = makes_scan in
            inr (ground arith, (scan, simp (known, found, counted, none_left, made) refl, new))
      ]
