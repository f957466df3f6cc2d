-- ===== src/ScanWatcher/Summary/Sums.antt =====
-- What the summary of a Scan counts and adds up.
use vmclarity.Prelude.{
  ℕ, suc, ◌+◌, ◌≤◌, ◌<◌, ◌≡◌, refl, Bool, true, false, none, some, List, [], ◌∷◌, arith, length,
  Option-cases, inl, inr,
}
use vmclarity.Prelude.Int.{ℤ, pos, add_int-pos}
use vmclarity.Go.{Result, ok, err, panics}
use vmclarity.ApiTypes.{Totals, ScanSummary, AssetScan, AssetScanState}
use vmclarity.Status.AssetScanStatus
use vmclarity.ScanWatcher.Summary.{
  new_scan_summary, add_ptr, add_job, update_scan_summary, summarise, count_failed, status_of,
}

-- An AssetScan that no longer runs, and one that failed.
abbrev pub is_finished : AssetScanStatus.State → Bool
is_finished AssetScanStatus.done = true
is_finished AssetScanStatus.failed = true
is_finished _ = false

abbrev pub is_failed : AssetScanStatus.State → Bool
is_failed AssetScanStatus.failed = true
is_failed _ = false

abbrev pub holds_of : (AssetScanStatus.State → Bool) → AssetScan → Bool
holds_of p a = elim a.status [ none ↦ false | some status ↦ p status.state ]

abbrev pub count_of : (AssetScan → Bool) → List AssetScan → ℕ
count_of p [] = 0
count_of p (a ∷ rest) = elim (p a) [ true ↦ suc (count_of p rest) | false ↦ count_of p rest ]

abbrev pub limit : ℕ
limit = 9223372036854775808

record Counts (s : ScanSummary) (failed : ℤ) (completed left bad : ℕ) : Type 0 where
  pub completed_is : s.jobs_completed ≡ some (pos completed)
  pub left_is : s.jobs_left ≡ some (pos left)
  pub failed_is : failed ≡ pos bad

-- One more job, finished or not.
bump_if : Bool → ℕ → ℕ
bump_if true n = suc n
bump_if false n = n

abbrev pub not_finished : AssetScanStatus.State → Bool
not_finished st = elim (is_finished st) [ true ↦ false | false ↦ true ]

add_job-Counts :
    (st : AssetScanStatus.State) (s t : ScanSummary) (r : Totals) (failed : ℤ) (c l b : ℕ)
    → suc c < limit
    → suc l < limit
    → suc b < limit
    → Counts s failed c l b
    → add_job st s r ≡ ok t
    → Counts t
        (count_failed st failed)
        (bump_if (is_finished st) c)
        (bump_if (not_finished st) l)
        (bump_if (is_failed st) b)
unfolding add_job add_ptr bump_if
add_job-Counts st s t r failed c l b hc hl hb v u =
    ground (arith, add_int-pos c 1, add_int-pos l 1, add_int-pos b 1)

-- What a successful round of the loop has read, and the round that follows it.
abbrev pub Round : ScanSummary → ℤ → AssetScan → List AssetScan → ScanSummary × ℤ → Type 0
Round s failed a rest r =
    (st : AssetScanState) × (found : Totals) × (s' : ScanSummary) × (a.status ≡ some st)
    × (a.summary ≡ some found)
    × (add_job st.state s found ≡ ok s')
    × (summarise s' (count_failed st.state failed) rest ≡ ok r)

pub summarise-cons :
    (s : ScanSummary) (failed : ℤ) (a : AssetScan) (rest : List AssetScan) (r : ScanSummary × ℤ)
    → summarise s failed (a ∷ rest) ≡ ok r
    → Round s failed a rest r
unfolding summarise update_scan_summary status_of
summarise-cons s failed a rest r e = elim (Option-cases a.status) [
  | inl es ↦ absurd (ground arith)
  | inr (st, es) ↦ elim (Option-cases a.summary) [
    | inl ef ↦ absurd (ground arith)
    | inr (found, ef) ↦ with_update st found es ef (add_job st.state s found) refl
  ]
]
  where
    with_update :
        (st : AssetScanState) (found : Totals)
        → a.status ≡ some st
        → a.summary ≡ some found
        → (u : Result ScanSummary) → add_job st.state s found ≡ u
        → Round s failed a rest r
    with_update st found es ef (ok s') eu = (st, found, s', es, ef, eu, ground arith)
    with_update st found es ef (err x) eu = absurd (ground arith)
    with_update st found es ef panics eu = absurd (ground arith)

bump_if-add :
    (p : AssetScanStatus.State → Bool) (a : AssetScan) (st : AssetScanState) (rest : List AssetScan)
    (n : ℕ)
    → a.status ≡ some st
    → bump_if (p st.state) n + count_of (holds_of p) rest ≡ n + count_of (holds_of p) (a ∷ rest)
unfolding bump_if
bump_if-add p a st rest n e = ground arith

bump_if-le : (b : Bool) (n : ℕ) → bump_if b n ≤ suc n
unfolding bump_if
bump_if-le b n = ground arith

summarise-Counts :
    (jobs : List AssetScan) (s t : ScanSummary) (failed f : ℤ) (c l b : ℕ)
    → c + length jobs < limit
    → l + length jobs < limit
    → b + length jobs < limit
    → Counts s failed c l b
    → summarise s failed jobs ≡ ok (t, f)
    → Counts t f
        (c + count_of (holds_of is_finished) jobs)
        (l + count_of (holds_of not_finished) jobs)
        (b + count_of (holds_of is_failed) jobs)
unfolding summarise
summarise-Counts [] s t failed f c l b hc hl hb v e = ground arith
summarise-Counts (a ∷ rest) s t failed f c l b hc hl hb v e =
    let (st, found, s', es, ef, eu, er) = summarise-cons s failed a rest (t, f) e in
    rw
      (
        ← bump_if-add is_finished a st rest c es,
        ← bump_if-add not_finished a st rest l es,
        ← bump_if-add is_failed a st rest b es,
      )
      (summarise-Counts rest s' t (count_failed st.state failed) f
        (bump_if (is_finished st.state) c) (bump_if (not_finished st.state) l)
        (bump_if (is_failed st.state) b) (omega (arith, bump_if-le (is_finished st.state) c))
        (omega (arith, bump_if-le (not_finished st.state) l))
        (omega (arith, bump_if-le (is_failed st.state) b))
        (add_job-Counts st.state s s' found failed c l b (omega arith) (omega arith) (omega arith) v
          eu)
        er)

-- Whenever the loop of reconcileInProgress succeeds on fewer than 2^63 AssetScans, the jobs completed
-- are the AssetScans that are Done or Failed, the jobs left all the others, and the failures counted
-- are those that are Failed.
pub summarise_counts :
    (jobs : List AssetScan) (t : ScanSummary) (f : ℤ)
    → length jobs < limit
    → summarise new_scan_summary (pos 0) jobs ≡ ok (t, f)
    → (t.jobs_completed ≡ some (pos (count_of (holds_of is_finished) jobs)))
      × (t.jobs_left ≡ some (pos (count_of (holds_of not_finished) jobs)))
      × (f ≡ pos (count_of (holds_of is_failed) jobs))
summarise_counts jobs t f h e =
    let c =
      summarise-Counts jobs new_scan_summary t (pos 0) f 0 0 0 (omega arith) (omega arith)
        (omega arith) (record { completed_is = refl; left_is = refl; failed_is = refl }) e in
    (ground (arith, c), ground (arith, c), ground (arith, c))
