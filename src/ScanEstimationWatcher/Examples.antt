-- ===== src/ScanEstimationWatcher/Examples.antt =====
-- The theorems on the ScanEstimation controller at concrete estimations and answers.
use vmclarity.Prelude.{
  String, ◌≡◌, refl, Bool, true, false, arith, ◌<◌, none, some, List, [], ◌∷◌, ◌+◌, All, length,
}
use vmclarity.Prelude.Int.{ℤ, pos, ◌+ℤ◌}
use vmclarity.Go.{err, ok, failed_call}
use vmclarity.Goroutines.{one_by_one}
use vmclarity.EstimationTypes.{
  AssetScanEstimation, empty_patch, ScanEstimation, ScanEstimationState, ScanEstimationSummary,
  empty_scan_patch, is_timed_out,
}
use vmclarity.ScanConfigWatcher.Api.{ScanTemplate}
use vmclarity.Status.AssetScanEstimationStatus
use vmclarity.Status.ScanEstimationStatus
use vmclarity.ScanEstimationWatcher.Api.{Client, created, patch_scan_estimation}
use vmclarity.ScanEstimationWatcher.Progress.{summarise, new_summary, reconcile_in_progress}
use vmclarity.ScanEstimationWatcher.Asks.{OfCall}
use vmclarity.ScanEstimationWatcher.Updates.{
  Accepts, estimation_updates-Accepts, done_never_deleted, timeout_patch,
}
use vmclarity.ScanEstimationWatcher.Counts.{estimation_counts, limit, IsReadable}
use vmclarity.ScanEstimationWatcher.Ends.{estimation_ends, EndsBy}
use vmclarity.ScanEstimationWatcher.{reconcile}

abbrev status_of : ScanEstimationStatus.State → ScanEstimationStatus.Reason → ScanEstimationState
status_of s r = record { state = s; reason = r; message = none; last_transition_time = pos 0 }

abbrev template_with : ℤ → ScanTemplate
template_with max = record {
  asset_scan_template = none;
  scope = some "";
  max_parallel_scanners = some max;
  timeout_seconds = none;
}

-- An estimation that started at 1.
abbrev estimation_in : ScanEstimationState → ℤ → ScanEstimation
estimation_in st max = record empty_scan_patch {
  id = some "estimation";
  template = some (template_with max);
  status = some st;
  asset_ids = some ("vm" ∷ []);
  start_time = some (pos 1);
  ttl_seconds = some (pos 60);
}

abbrev job : String → AssetScanEstimationStatus.State → AssetScanEstimation
job id st = record empty_patch {
  id = some id;
  status = some (record {
    state = st;
    reason = AssetScanEstimationStatus.Reason.error;
    message = none;
    last_transition_time = pos 0;
  });
  estimation = some (record { duration = some (pos 10); size = none });
}

abbrev jobs : List AssetScanEstimation
jobs =
    job "a" AssetScanEstimationStatus.State.failed
    ∷ job "b" AssetScanEstimationStatus.State.aborted
    ∷ []

abbrev client : ℤ → Bool → ScanEstimation → Client
client now patches s = record {
  now = now;
  timeout = pos 1000;
  get_scan_estimation = λ _. some (some s);
  get_assets = λ _. some (some (some "vm" ∷ []));
  get_asset_scan_estimations = λ _. some (record { count = some (pos 2); items = some jobs });
  patches = λ _ _. patches;
  deletes = λ _. true;
  posts = λ _. created (some "new");
  patches_asset = λ _ _. true;
  appended = λ ids. ids;
  counts_text = λ _ _ _. "";
}

abbrev running : ScanEstimation
running =
    estimation_in (status_of ScanEstimationStatus.in_progress ScanEstimationStatus.running) (pos 1)

abbrev finished : ScanEstimation
finished = estimation_in (status_of ScanEstimationStatus.done ScanEstimationStatus.success) (pos 1)

abbrev shared : ScanEstimation
shared =
    estimation_in (status_of ScanEstimationStatus.in_progress ScanEstimationStatus.running) (pos 2)

estimation_updates-Accepts_example :
    All
      (OfCall (Accepts (status_of ScanEstimationStatus.in_progress ScanEstimationStatus.running)))
      (reconcile (client (pos 5) true running) one_by_one "estimation").0
unfolding is_timed_out ◌+ℤ◌
estimation_updates-Accepts_example =
    estimation_updates-Accepts (client (pos 5) true running) one_by_one "estimation" running
      (status_of ScanEstimationStatus.in_progress ScanEstimationStatus.running) refl refl refl

done_never_deleted_example :
    reconcile (client (pos 2000) false finished) one_by_one "estimation"
    ≡ (timeout_patch (client (pos 2000) false finished) "estimation" ∷ [], err failed_call)
unfolding is_timed_out ◌+ℤ◌
done_never_deleted_example =
    done_never_deleted (client (pos 2000) false finished) one_by_one "estimation" "estimation"
      finished (status_of ScanEstimationStatus.done ScanEstimationStatus.success) (λ _ _. refl) refl
      refl refl refl

few : length jobs < limit
few = omega arith

readable : All IsReadable jobs
readable = (("a", _, refl, refl, λ _. (_, refl)), (("b", _, refl, refl, λ _. (_, refl)), tt))

estimation_counts_example :
    (t : ScanEstimationSummary) × (f : ℤ) × (summarise new_summary (pos 0) jobs ≡ ok (t, f))
    × (t.jobs_completed ≡ some (pos 2))
    × (t.jobs_left ≡ some (pos 0))
    × (f ≡ pos 1)
    × (2 + 0 ≡ 2)
estimation_counts_example = estimation_counts jobs few readable

estimation_ends_example :
    (p : ScanEstimation) × (st : ScanEstimationState) × ((reconcile_in_progress
        (client (pos 5) true running)
        running).0
      ≡ patch_scan_estimation "estimation" p ∷ [])
    × (p.status ≡ some st)
    × EndsBy 1 st
    × (p.end_time ≡ some (pos 5))
estimation_ends_example =
    estimation_ends (client (pos 5) true running) running "estimation" (template_with (pos 1))
      (pos 60) (pos 2) (job "a" AssetScanEstimationStatus.State.failed)
      (job "b" AssetScanEstimationStatus.State.aborted ∷ []) refl refl refl refl refl few readable
      refl
