-- ===== src/ScanEstimationWatcher/Progress.antt =====
-- reconcileInProgress of orchestrator/watcher/scanestimation/watcher.go, with
-- updateScanEstimationSummaryFromAssetScanEstimation and updateTotalScanTimeWithParallelScans. Go
-- compares the number of jobs with the maximum as float64, which is exact below 2^53.
use Prim.Native.Nat.{◌/◌}
use vmclarity.Prelude.{◌+◌, Option, none, some, List, [], ◌∷◌, if◌then◌else◌}
use vmclarity.Prelude.Int.{ℤ, pos, neg_part, pos_part, ◌-ℤ◌, add_int, int64, ltb_ℤ, eqb_ℤ}
use vmclarity.Go.{
  Result, ok, err, panics, Act, lift, deref, require, or_default, ◌>>=◌, invalid, failed_call,
}
use vmclarity.EstimationTypes.{
  AssetScanEstimation, Estimation, ScanEstimation, ScanEstimationState, ScanEstimationSummary,
  empty_scan_patch,
}
use vmclarity.Status.AssetScanEstimationStatus
use vmclarity.Status.ScanEstimationStatus
use vmclarity.ScanEstimationWatcher.Api.{Client, Call, of_scan_estimation}
use vmclarity.ScanEstimationWatcher.Steps.{patch, expiry}

-- Results without calls.
abbrev pub and_then {ℓ κ} : {A : Type ℓ} {B : Type κ} → Result A → (A → Result B) → Result B
and_then (ok a) f = f a
and_then (err e) f = err e
and_then panics f = panics

-- to.Ptr(*p + 1)
unfoldable pub increment : Option ℤ → Result (Option ℤ)
unfolding add_int
increment none = panics
increment (some n) = ok (some (add_int n (pos 1)))

unfoldable pub count_completed : ScanEstimationSummary → Result ScanEstimationSummary
unfolding increment
count_completed s = and_then (increment s.jobs_completed) λ n. ok (record s { jobs_completed = n })

-- The totals of a Done estimation, in which a field may be nil.
abbrev pub with_totals : ScanEstimationSummary → Estimation → ScanEstimationSummary
with_totals s e = record s {
  total_time = some (add_int (or_default s.total_time (pos 0)) (or_default e.duration (pos 0)));
  total_size = some (add_int (or_default s.total_size (pos 0)) (or_default e.size (pos 0)));
}

-- The `switch`: a Done estimation falls through to the counting.
unfoldable pub add_job :
    AssetScanEstimationStatus.State
    → ScanEstimationSummary
    → Option Estimation
    → Result ScanEstimationSummary
unfolding count_completed
add_job AssetScanEstimationStatus.State.pending s e =
    and_then (increment s.jobs_left) λ n. ok (record s { jobs_left = n })
add_job AssetScanEstimationStatus.State.done s none = panics
add_job AssetScanEstimationStatus.State.done s (some e) = count_completed (with_totals s e)
add_job AssetScanEstimationStatus.State.aborted s e = count_completed s
add_job AssetScanEstimationStatus.State.failed s e = count_completed s

abbrev pub count_failed : AssetScanEstimationStatus.State → ℤ → ℤ
count_failed AssetScanEstimationStatus.State.failed n = add_int n (pos 1)
count_failed _ n = n

-- The loop, from the summary and `failedAssetScanEstimations` so far. A missing status is an error.
unfoldable pub summarise :
    ScanEstimationSummary → ℤ → List AssetScanEstimation → Result (ScanEstimationSummary × ℤ)
unfolding add_job
summarise s failed [] = ok (s, failed)
summarise s failed (a ∷ rest) = and_then (require a.id invalid) λ id.
    and_then (require a.status invalid) λ st.
      and_then (add_job st.state s a.estimation)
        λ s'. summarise s' (count_failed st.state failed) rest

abbrev pub new_summary : ScanEstimationSummary
new_summary = record {
  jobs_completed = some (pos 0);
  jobs_left = some (pos 0);
  total_size = none;
  total_time = none;
}

-- a / b on Go's int, which rounds towards 0.
unfoldable pub quot_int : ℤ → ℤ → ℤ
unfolding int64 ◌-ℤ◌
quot_int a b =
    let q = (pos_part a + neg_part a) / (pos_part b + neg_part b) in
    if ltb_ℤ a (pos 0)
    then (if ltb_ℤ b (pos 0) then int64 (pos q) else int64 (pos 0 -ℤ pos q))
    else (if ltb_ℤ b (pos 0) then int64 (pos 0 -ℤ pos q) else int64 (pos q))

abbrev pub min_int : ℤ → ℤ → ℤ
min_int a b = if ltb_ℤ a b then a else b

-- Where more than one scanner may run, the total time is shared by those that do.
unfoldable pub shared_time : ScanEstimationSummary → ℤ → ℤ → Result ScanEstimationSummary
unfolding quot_int
shared_time s max completed =
    if ltb_ℤ (pos 1) max
    then and_then (deref s.total_time)
        (λ t. ok (record s { total_time = some (quot_int t (min_int max completed)) }))
    else ok s

-- The tests of updateTotalScanTimeWithParallelScans, whose Summary is not nil here.
unfoldable pub update_total_time :
    ScanEstimation → ScanEstimationSummary → Result ScanEstimationSummary
unfolding shared_time
update_total_time e s = and_then (require e.template invalid) λ template.
    and_then (require s.jobs_completed invalid) λ completed.
      if eqb_ℤ completed (pos 0)
      then err invalid
      else shared_time s (or_default template.max_parallel_scanners (pos 0)) completed

-- The status at the end, from the number of failed estimations and of all.
unfoldable pub final_status : Client → ℤ → ℤ → ScanEstimationState
unfolding int64 ◌-ℤ◌
final_status c failed count =
    let message = some (c.counts_text (int64 (count -ℤ failed)) failed count) in
    if ltb_ℤ (pos 0) failed
    then ScanEstimationStatus.new c.now ScanEstimationStatus.State.failed ScanEstimationStatus.error
        message
    else ScanEstimationStatus.new c.now ScanEstimationStatus.done ScanEstimationStatus.success
        message

-- The patch of an estimation with no job left; its TTL is read.
unfoldable pub ended :
    Client → ScanEstimation → ScanEstimationSummary → ℤ → ℤ → Result ScanEstimation
unfolding update_total_time final_status expiry
ended c e s failed count = and_then (update_total_time e s) λ s'.
    and_then (deref e.ttl_seconds) λ ttl. ok (record empty_scan_patch {
      delete_after = some (expiry c.now ttl);
      status = some (final_status c failed count);
      summary = some s';
      end_time = some c.now;
      asset_ids = e.asset_ids;
    })

-- The patch, from the jobs that are left.
unfoldable pub progressed :
    Client → ScanEstimation → ScanEstimationSummary → ℤ → ℤ → ℤ → Result ScanEstimation
unfolding ended
progressed c e s left failed count =
    if ltb_ℤ (pos 0) left
    then ok (record empty_scan_patch {
      delete_after = e.delete_after;
      status = e.status;
      summary = some s;
      end_time = e.end_time;
      asset_ids = e.asset_ids;
    })
    else ended c e s failed count

-- The log line reads both counters.
unfoldable pub reconcile_in_progress : Client → ScanEstimation → Act Call (Unit {0})
reconcile_in_progress c e = do
  id ← lift (require e.id invalid)
  answer ← lift (require (c.get_asset_scan_estimations (of_scan_estimation id)) failed_call)
  count ← lift (require answer.count invalid)
  items ← lift (require answer.items invalid)
  counted ← lift (summarise new_summary (pos 0) items)
  _ ← lift (deref counted.0.jobs_completed)
  left ← lift (deref counted.0.jobs_left)
  p ← lift (progressed c e counted.0 left counted.1 count)
  patch c id p
