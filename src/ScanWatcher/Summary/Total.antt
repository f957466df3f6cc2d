-- ===== src/ScanWatcher/Summary/Total.antt =====
-- When the loop of reconcileInProgress succeeds.
use vmclarity.Prelude.{
  String, ◌≡◌, refl, Bool, true, false, ◌&&◌, Option, none, some, List, [], ◌∷◌, arith, All,
}
use vmclarity.Prelude.Int.{ℤ, pos}
use vmclarity.Go.{Result, ok, err, panics}
use vmclarity.ApiTypes.{VulnerabilitySummary, Totals, ScanSummary, AssetScan, AssetScanState}
use vmclarity.Status.AssetScanStatus
use vmclarity.ScanWatcher.Summary.{
  new_scan_summary, add_ptr, add_vulnerabilities, add_totals, add_job, update_scan_summary,
  summarise, count_failed, status_of, count_left, count_completed,
}

abbrev is_set : Option ℤ → Bool
is_set none = false
is_set (some _) = true

abbrev vulnerabilities_set : Option VulnerabilitySummary → Bool
vulnerabilities_set none = false
vulnerabilities_set (some v) =
    is_set v.critical && is_set v.high && is_set v.medium && is_set v.low && is_set v.negligible

-- Every total is set.
abbrev pub totals_set : Totals → Bool
totals_set t =
    is_set t.exploits
    && is_set t.info_finder
    && is_set t.malware
    && is_set t.misconfigurations
    && is_set t.packages
    && is_set t.rootkits
    && is_set t.secrets
    && vulnerabilities_set t.vulnerabilities

abbrev set_result : Result Totals → Bool
set_result (ok t) = totals_set t
set_result (err _) = false
set_result panics = false

add_totals-set :
    (s r : Totals) → totals_set s ≡ true → totals_set r ≡ true → set_result (add_totals s r) ≡ true
unfolding add_totals add_vulnerabilities add_ptr
add_totals-set s r h k = ground arith

abbrev summary_set : ScanSummary → Bool
summary_set s = is_set s.jobs_completed && is_set s.jobs_left && totals_set s.totals

abbrev set_summary : Result ScanSummary → Bool
set_summary (ok s) = summary_set s
set_summary (err _) = false
set_summary panics = false

add_job-set :
    (st : AssetScanStatus.State) (s : ScanSummary) (r : Totals)
    → summary_set s ≡ true
    → totals_set r ≡ true
    → set_summary (add_job st s r) ≡ true
unfolding add_job count_left count_completed add_ptr
add_job-set st s r h k = ground (arith, add_totals-set s.totals r)

-- An AssetScan with an ID, a status and a summary in which every total is set.
abbrev pub IsReadable : AssetScan → Type 0
IsReadable a =
    ((id : String) × (a.id ≡ some id))
    × ((st : AssetScanState) × (a.status ≡ some st))
    × ((r : Totals) × (a.summary ≡ some r) × (totals_set r ≡ true))

status_of-some : (a : AssetScan) (st : AssetScanState) → a.status ≡ some st → status_of a ≡ ok st
unfolding status_of
status_of-some a st h = ground arith

summarise-set :
    (jobs : List AssetScan) (s : ScanSummary) (failed : ℤ)
    → summary_set s ≡ true
    → All IsReadable jobs
    → (r : ScanSummary × ℤ) × (summarise s failed jobs ≡ ok r)
unfolding summarise update_scan_summary
summarise-set [] s failed h v = ((s, failed), refl)
summarise-set (a ∷ rest) s failed h
      (((id, has_id), (st, has_status), (found, has_summary, set)), v) =
    go (λ s' k. summarise-set rest s' (count_failed st.state failed) k v) (add_job st.state s found)
      refl (add_job-set st.state s found h set)
  where
    go :
        ((s' : ScanSummary)
          → summary_set s' ≡ true
          → (r : ScanSummary × ℤ) × (summarise s' (count_failed st.state failed) rest ≡ ok r))
        → (o : Result ScanSummary) → add_job st.state s found ≡ o
        → set_summary o ≡ true
        → (r : ScanSummary × ℤ) × (summarise s failed (a ∷ rest) ≡ ok r)
    go others (ok s') e k =
        let (r, later) = others s' k in
        (r, simp (has_id, has_summary, status_of-some a st has_status, e) later)
    go others (err x) e k = absurd (ground arith)
    go others panics e k = absurd (ground arith)

-- The loop of reconcileInProgress succeeds for every list of AssetScans that have an ID, a status and a
-- summary in which every total is set.
pub summarise_succeeds :
    (jobs : List AssetScan)
    → All IsReadable jobs
    → (r : ScanSummary × ℤ) × (summarise new_scan_summary (pos 0) jobs ≡ ok r)
summarise_succeeds jobs v = summarise-set jobs new_scan_summary (pos 0) refl v
