-- ===== src/ScanEstimationWatcher/Counts.antt =====
-- What reconcileInProgress of orchestrator/watcher/scanestimation/watcher.go makes of the
-- AssetScanEstimations that it counts.
use vmclarity.Prelude.{
  ℕ, suc, ◌+◌, ◌≤◌, ◌<◌, String, ◌≡◌, refl, sym, ap, ◌∙◌, Bool, true, false, Option, none, some,
  List, [], ◌∷◌, arith, length, if◌then◌else◌, All,
}
use vmclarity.Prelude.Int.{ℤ, pos, add_int-pos}
use vmclarity.Go.{ok}
use vmclarity.EstimationTypes.{
  AssetScanEstimation, EstimationState, Estimation, ScanEstimationSummary,
}
use vmclarity.Status.AssetScanEstimationStatus
use vmclarity.ScanEstimationWatcher.Progress.{
  increment, count_completed, add_job, summarise, new_summary, count_failed, with_totals,
}

-- An estimation that waits, and the other ones.
abbrev pub is_pending : AssetScanEstimationStatus.State → Bool
is_pending AssetScanEstimationStatus.State.pending = true
is_pending _ = false

abbrev pub not_pending : AssetScanEstimationStatus.State → Bool
not_pending AssetScanEstimationStatus.State.pending = false
not_pending _ = true

abbrev pub is_failed : AssetScanEstimationStatus.State → Bool
is_failed AssetScanEstimationStatus.State.failed = true
is_failed _ = false

abbrev pub count_of : (AssetScanEstimationStatus.State → Bool) → List AssetScanEstimation → ℕ
count_of p [] = 0
count_of p (a ∷ rest) =
    let n = count_of p rest in
    elim a.status [ none ↦ n | some st ↦ if p st.state then suc n else n ]

abbrev pub limit : ℕ
limit = 9223372036854775808

-- Each object has what the loop reads of it: an ID, a status, and the estimation if it is Done.
abbrev pub IsReadable : AssetScanEstimation → Type 0
IsReadable a =
    (id : String) × (st : EstimationState) × (a.id ≡ some id)
    × (a.status ≡ some st)
    × (st.state ≡ AssetScanEstimationStatus.State.done → (e : Estimation) × (a.estimation ≡ some e))

-- The summary has counted so far.
record Counts (s : ScanEstimationSummary) (failed : ℤ) (completed left bad : ℕ) : Type 0 where
  pub completed_is : s.jobs_completed ≡ some (pos completed)
  pub left_is : s.jobs_left ≡ some (pos left)
  pub failed_is : failed ≡ pos bad

bump_if : Bool → ℕ → ℕ
bump_if true n = suc n
bump_if false n = n

add_job-Counts :
    (st : AssetScanEstimationStatus.State) (s : ScanEstimationSummary) (e : Option Estimation)
    (failed : ℤ) (c l b : ℕ)
    → suc c < limit
    → suc l < limit
    → suc b < limit
    → (st ≡ AssetScanEstimationStatus.State.done → (x : Estimation) × (e ≡ some x))
    → Counts s failed c l b
    → (t : ScanEstimationSummary) × (add_job st s e ≡ ok t)
      × Counts t
          (count_failed st failed)
          (bump_if (not_pending st) c)
          (bump_if (is_pending st) l)
          (bump_if (is_failed st) b)
unfolding add_job count_completed increment bump_if
add_job-Counts AssetScanEstimationStatus.State.pending s e failed c l b hc hl hb d v =
    (record s { jobs_left = some (pos (suc l)) }, ground (arith, add_int-pos l 1), ground arith)
add_job-Counts AssetScanEstimationStatus.State.aborted s e failed c l b hc hl hb d v = (
  record s { jobs_completed = some (pos (suc c)) },
  ground (arith, add_int-pos c 1),
  ground arith,
)
add_job-Counts AssetScanEstimationStatus.State.failed s e failed c l b hc hl hb d v = (
  record s { jobs_completed = some (pos (suc c)) },
  ground (arith, add_int-pos c 1),
  ground (arith, add_int-pos b 1),
)
add_job-Counts AssetScanEstimationStatus.State.done s e failed c l b hc hl hb d v =
    let (x, ex) = d refl in
    (
      record (with_totals s x) { jobs_completed = some (pos (suc c)) },
      rw ex (ground (arith, add_int-pos c 1)),
      ground arith,
    )

bump-add :
    (p : AssetScanEstimationStatus.State → Bool) (a : AssetScanEstimation) (st : EstimationState)
    (rest : List AssetScanEstimation) (n : ℕ)
    → a.status ≡ some st
    → bump_if (p st.state) n + count_of p rest ≡ n + count_of p (a ∷ rest)
unfolding bump_if
bump-add p a st rest n e = ground arith

bump-le : (b : Bool) (n : ℕ) → bump_if b n ≤ suc n
unfolding bump_if
bump-le b n = ground arith

abbrev Counted : ScanEstimationSummary → ℤ → List AssetScanEstimation → ℕ → ℕ → ℕ → Type 0
Counted s failed jobs c l b =
    (t : ScanEstimationSummary) × (f : ℤ) × (summarise s failed jobs ≡ ok (t, f))
    × Counts t f (c + count_of not_pending jobs) (l + count_of is_pending jobs)
        (b + count_of is_failed jobs)

summarise-Counts :
    (jobs : List AssetScanEstimation) (s : ScanEstimationSummary) (failed : ℤ) (c l b : ℕ)
    → c + length jobs < limit
    → l + length jobs < limit
    → b + length jobs < limit
    → All IsReadable jobs
    → Counts s failed c l b
    → Counted s failed jobs c l b
unfolding summarise
summarise-Counts [] s failed c l b hc hl hb h v = (s, failed, refl, ground arith)
summarise-Counts (a ∷ rest) s failed c l b hc hl hb (h, hs) v =
    let (id, st, known, status, done) = h in
    let (s', added, v') =
      add_job-Counts st.state s a.estimation failed c l b (omega arith) (omega arith) (omega arith)
        done v in
    let (t, f, later, w) =
      summarise-Counts rest s' (count_failed st.state failed) (bump_if (not_pending st.state) c)
        (bump_if (is_pending st.state) l) (bump_if (is_failed st.state) b)
        (omega (arith, bump-le (not_pending st.state) c))
        (omega (arith, bump-le (is_pending st.state) l))
        (omega (arith, bump-le (is_failed st.state) b)) hs v' in
    (
      t,
      f,
      simp (known, status, added) later,
      rw
          (
            sym (bump-add not_pending a st rest c status),
            sym (bump-add is_pending a st rest l status),
            sym (bump-add is_failed a st rest b status),
          )
          w,
    )

-- For fewer than 2^63 AssetScanEstimations that have an ID and a status, and an estimation where they
-- are Done: the loop of reconcileInProgress succeeds, counts as left the Pending ones, as completed all
-- others and as failed the Failed ones, so that the jobs completed and left are all of them.
pub estimation_counts :
    (jobs : List AssetScanEstimation)
    → length jobs < limit
    → All IsReadable jobs
    → (t : ScanEstimationSummary) × (f : ℤ) × (summarise new_summary (pos 0) jobs ≡ ok (t, f))
      × (t.jobs_completed ≡ some (pos (count_of not_pending jobs)))
      × (t.jobs_left ≡ some (pos (count_of is_pending jobs)))
      × (f ≡ pos (count_of is_failed jobs))
      × (count_of not_pending jobs + count_of is_pending jobs ≡ length jobs)
estimation_counts jobs h readable =
    let (t, f, e, v) =
      summarise-Counts jobs new_summary (pos 0) 0 0 0 (omega arith) (omega arith) (omega arith)
        readable (record { completed_is = refl; left_is = refl; failed_is = refl }) in
    (
      t,
      f,
      e,
      v.completed_is ∙ ap (λ n. some (pos n)) (omega arith),
      v.left_is ∙ ap (λ n. some (pos n)) (omega arith),
      v.failed_is ∙ ap pos (omega arith),
      counts_add_up jobs readable,
    )
  where
    counts_add_up :
        (jobs : List AssetScanEstimation)
        → All IsReadable jobs
        → count_of not_pending jobs + count_of is_pending jobs ≡ length jobs
    counts_add_up [] h = refl
    counts_add_up (a ∷ rest) ((id, st, known, status, done), hs) =
        ground (arith, counts_add_up rest hs)
