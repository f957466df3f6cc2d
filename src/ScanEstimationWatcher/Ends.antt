-- ===== src/ScanEstimationWatcher/Ends.antt =====
-- How a ScanEstimation in progress ends (orchestrator/watcher/scanestimation/watcher.go).
use vmclarity.Prelude.{
  ℕ, zero, suc, ◌<◌, String, ◌≡◌, refl, ap, ◌∙◌, true, false, Option, none, some, List, [], ◌∷◌,
  arith, length, inl, inr, All, ◌⊎◌,
}
use vmclarity.Prelude.Int.{ℤ, pos, ltb_ℤ}
use vmclarity.Go.{Result, ok, err, panics, or_default}
use vmclarity.EstimationTypes.{
  Estimation, AssetScanEstimation, ScanEstimation, ScanEstimationState, ScanEstimationSummary,
  empty_scan_patch,
}
use vmclarity.ScanConfigWatcher.Api.{ScanTemplate}
use vmclarity.Status.AssetScanEstimationStatus
use vmclarity.Status.ScanEstimationStatus
use vmclarity.ScanEstimationWatcher.Api.{Client, of_scan_estimation, patch_scan_estimation}
use vmclarity.ScanEstimationWatcher.Steps.{patch, expiry}
use vmclarity.ScanEstimationWatcher.Progress.{
  add_job, count_completed, summarise, new_summary, and_then, reconcile_in_progress, progressed,
  ended, update_total_time, count_failed, shared_time, final_status,
}
use vmclarity.ScanEstimationWatcher.Counts.{
  IsReadable, limit, count_of, is_pending, is_failed, estimation_counts,
}

-- The patch of an estimation that has no job left.
abbrev end_patch : Client → ScanEstimation → ScanEstimationSummary → ℤ → ℤ → ℤ → ScanEstimation
end_patch c e s failed count ttl = record empty_scan_patch {
  delete_after = some (expiry c.now ttl);
  status = some (final_status c failed count);
  summary = some s;
  end_time = some c.now;
  asset_ids = e.asset_ids;
}

-- With one scanner at a time the total time stays as it is.
total_time_kept :
    (e : ScanEstimation) (template : ScanTemplate) (s : ScanEstimationSummary) (n : ℕ)
    → e.template ≡ some template
    → ltb_ℤ (pos 1) (or_default template.max_parallel_scanners (pos 0)) ≡ false
    → s.jobs_completed ≡ some (pos (suc n))
    → update_total_time e s ≡ ok s
unfolding update_total_time shared_time
total_time_kept e template s n t m k = ground arith

ended-one :
    (c : Client) (e : ScanEstimation) (template : ScanTemplate) (s : ScanEstimationSummary)
    (failed count ttl : ℤ) (n : ℕ)
    → e.template ≡ some template
    → ltb_ℤ (pos 1) (or_default template.max_parallel_scanners (pos 0)) ≡ false
    → e.ttl_seconds ≡ some ttl
    → s.jobs_completed ≡ some (pos (suc n))
    → progressed c e s (pos 0) failed count ≡ ok (end_patch c e s failed count ttl)
unfolding progressed ended
ended-one c e template s failed count ttl n t m l k =
    simp (total_time_kept e template s n t m k, l) refl

patch-calls :
    (c : Client) (id : String) (p : ScanEstimation)
    → (patch c id p).0 ≡ patch_scan_estimation id p ∷ []
unfolding patch
patch-calls c id p = ground arith

-- The state and the reason at the end, by the number of failed estimations.
abbrev pub EndsBy : ℕ → ScanEstimationState → Type 0
EndsBy failed st =
    ((0 < failed)
      × (st.state ≡ ScanEstimationStatus.State.failed)
      × (st.reason ≡ ScanEstimationStatus.error))
    ⊎ ((failed ≡ 0)
        × (st.state ≡ ScanEstimationStatus.done)
        × (st.reason ≡ ScanEstimationStatus.success))

final_status-EndsBy :
    (c : Client) (failed : ℕ) (count : ℤ) → EndsBy failed (final_status c (pos failed) count)
unfolding final_status ScanEstimationStatus.new
final_status-EndsBy c zero count = inr (refl, refl, refl)
final_status-EndsBy c (suc n) count = inl (omega arith, ground arith, ground arith)

-- A ScanEstimation that has an ID, a template with at most one scanner at a time and a TTL, of whose
-- AssetScanEstimations there is at least one and none is Pending, where each has an ID and a status, and an
-- estimation if it is Done: Reconcile sends one patch, which ends the ScanEstimation now, as Failed if
-- one of them failed and as Done if none did.
pub estimation_ends :
    (c : Client) (e : ScanEstimation) (id : String) (template : ScanTemplate) (ttl count : ℤ)
    (a : AssetScanEstimation) (rest : List AssetScanEstimation)
    → e.id ≡ some id
    → e.template ≡ some template
    → ltb_ℤ (pos 1) (or_default template.max_parallel_scanners (pos 0)) ≡ false
    → e.ttl_seconds ≡ some ttl
    → c.get_asset_scan_estimations (of_scan_estimation id)
      ≡ some (record { count = some count; items = some (a ∷ rest) })
    → length (a ∷ rest) < limit
    → All IsReadable (a ∷ rest)
    → count_of is_pending (a ∷ rest) ≡ 0
    → (p : ScanEstimation) × (st : ScanEstimationState) × ((reconcile_in_progress c e).0
        ≡ patch_scan_estimation id p ∷ [])
      × (p.status ≡ some st)
      × EndsBy (count_of is_failed (a ∷ rest)) st
      × (p.end_time ≡ some c.now)
unfolding reconcile_in_progress
estimation_ends c e id template ttl count a rest known t m l found small readable over =
    let (s, f, counted, completed, left, failed, all) =
      estimation_counts (a ∷ rest) small readable in
    (
      end_patch c e s (pos (count_of is_failed (a ∷ rest))) count ttl,
      final_status c (pos (count_of is_failed (a ∷ rest))) count,
      simp
          (
            known,
            found,
            counted,
            completed,
            left,
            failed,
            over,
            ended-one c e template s (pos (count_of is_failed (a ∷ rest))) count ttl (length rest) t
                m l (completed ∙ ap (λ n. some (pos n)) (omega arith)),
          )
          (patch-calls c id _),
      refl,
      final_status-EndsBy c (count_of is_failed (a ∷ rest)) count,
      refl,
    )

-- An estimation that ended without a result.
abbrev pub IsFruitless : AssetScanEstimation → Type 0
IsFruitless a = elim a.status [
  | none ↦ ⊥
  | some st ↦
      (st.state ≡ AssetScanEstimationStatus.State.failed)
      ⊎ (st.state ≡ AssetScanEstimationStatus.State.aborted)
]

-- The total time is set by a Done estimation only.
add_job-total :
    (st : AssetScanEstimationStatus.State) (s t : ScanEstimationSummary) (e : Option Estimation)
    → (st ≡ AssetScanEstimationStatus.State.failed) ⊎ (st ≡ AssetScanEstimationStatus.State.aborted)
    → add_job st s e ≡ ok t
    → t.total_time ≡ s.total_time
unfolding add_job count_completed
add_job-total st s t e (inl h) made = ground arith
add_job-total st s t e (inr h) made = ground arith

fruitless-total :
    (jobs : List AssetScanEstimation) (s t : ScanEstimationSummary) (failed f : ℤ)
    → All IsReadable jobs
    → All IsFruitless jobs
    → summarise s failed jobs ≡ ok (t, f)
    → t.total_time ≡ s.total_time
unfolding summarise
fruitless-total [] s t failed f r h e = ground arith
fruitless-total (a ∷ rest) s t failed f ((id, st, known, status, done), r) (h, hs) e =
    go (add_job st.state s a.estimation) refl (simp (known, status) at e)
      (λ s' later. fruitless-total rest s' t (count_failed st.state failed) f r hs later)
  where
    Rest : Result ScanEstimationSummary → Type 0
    Rest made = and_then made (λ s'. summarise s' (count_failed st.state failed) rest) ≡ ok (t, f)

    go :
        (made : Result ScanEstimationSummary)
        → add_job st.state s a.estimation ≡ made
        → Rest made
        → ((s' : ScanEstimationSummary) → Rest (ok s') → t.total_time ≡ s'.total_time)
        → t.total_time ≡ s.total_time
    go (ok s') made later others =
        others s' later ∙ add_job-total st.state s s' a.estimation (rw status at h) made
    go (err x) made later others = cc later
    go panics made later others = cc later

none_pending :
    (jobs : List AssetScanEstimation) → All IsFruitless jobs → count_of is_pending jobs ≡ 0
none_pending [] h = refl
none_pending (a ∷ rest) (h, hs) = ground (arith, none_pending rest hs)

panics_without_total :
    (c : Client) (e : ScanEstimation) (template : ScanTemplate) (s : ScanEstimationSummary)
    (failed count : ℤ) (n : ℕ)
    → e.template ≡ some template
    → ltb_ℤ (pos 1) (or_default template.max_parallel_scanners (pos 0)) ≡ true
    → s.jobs_completed ≡ some (pos (suc n))
    → s.total_time ≡ none
    → progressed c e s (pos 0) failed count ≡ panics
unfolding progressed ended update_total_time shared_time
panics_without_total c e template s failed count n t m k u = ground arith

-- A ScanEstimation that has an ID, a template that allows more than one scanner at a time, and at least
-- one AssetScanEstimation, where each has an ID and is Failed or Aborted: Reconcile reads the total
-- time, which no Done AssetScanEstimation has set, and panics without any call.
parallel_panics :
    (c : Client) (e : ScanEstimation) (id : String) (template : ScanTemplate) (count : ℤ)
    (a : AssetScanEstimation) (rest : List AssetScanEstimation)
    → e.id ≡ some id
    → e.template ≡ some template
    → ltb_ℤ (pos 1) (or_default template.max_parallel_scanners (pos 0)) ≡ true
    → c.get_asset_scan_estimations (of_scan_estimation id)
      ≡ some (record { count = some count; items = some (a ∷ rest) })
    → length (a ∷ rest) < limit
    → All IsReadable (a ∷ rest)
    → All IsFruitless (a ∷ rest)
    → reconcile_in_progress c e ≡ ([], panics)
unfolding reconcile_in_progress
parallel_panics c e id template count a rest known t m found small readable fruitless =
    let (s, f, counted, completed, left, failed, all) =
      estimation_counts (a ∷ rest) small readable in
    simp
      (
        known,
        found,
        counted,
        completed,
        left,
        failed,
        none_pending (a ∷ rest) fruitless,
        panics_without_total c e template s (pos (count_of is_failed (a ∷ rest))) count
            (length rest) t m
            (completed ∙ ap (λ n. some (pos n)) (omega (arith, none_pending (a ∷ rest) fruitless)))
            (fruitless-total (a ∷ rest) new_summary s (pos 0) f readable fruitless counted),
      )
      refl
