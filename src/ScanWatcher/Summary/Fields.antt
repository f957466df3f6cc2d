-- ===== src/ScanWatcher/Summary/Fields.antt =====
-- The totals of findings in the summary of a Scan, field by field.
use native.Mathlib.Nat.{add-zero, zero-add, add_assoc}
use vmclarity.Prelude.{
  ℕ, ◌+◌, ◌<◌, ◌≡◌, ◌≢◌, refl, true, false, Option, none, some, List, [], ◌∷◌, arith, All,
  Bool-cases, inl, inr, if◌then◌else◌,
}
use vmclarity.Prelude.Int.{ℤ, pos, add_int-pos}
use vmclarity.Go.{ok}
use vmclarity.ApiTypes.{VulnerabilitySummary, Totals, ScanSummary, AssetScan, AssetScanState}
use vmclarity.Status.AssetScanStatus
use vmclarity.ScanWatcher.Summary.{
  new_scan_summary, add_ptr, add_totals, add_job, summarise, count_failed,
}
use vmclarity.ScanWatcher.Summary.Sums.{is_finished, summarise-cons, limit}

-- A field of the new totals is the sum of that field of the two summaries.
abbrev AddsUp : (Totals → Option ℤ) → Type 0
AddsUp field = (s r t : Totals) → add_totals s r ≡ ok t → add_ptr (field s) (field r) ≡ ok (field t)

-- A field of the vulnerabilities, where there are any.
abbrev pub of_vulnerabilities : (VulnerabilitySummary → Option ℤ) → Totals → Option ℤ
of_vulnerabilities field s = elim s.vulnerabilities [ none ↦ none | some v ↦ field v ]

-- The totals that are added up: all but that of the negligible vulnerabilities.
pub data Total : Type 0 where
  exploits info_finder malware misconfigurations packages rootkits secrets : Total
  critical high medium low : Total

abbrev pub total_of : Total → Totals → Option ℤ
total_of exploits s = s.exploits
total_of info_finder s = s.info_finder
total_of malware s = s.malware
total_of misconfigurations s = s.misconfigurations
total_of packages s = s.packages
total_of rootkits s = s.rootkits
total_of secrets s = s.secrets
total_of critical s = of_vulnerabilities (λ v. v.critical) s
total_of high s = of_vulnerabilities (λ v. v.high) s
total_of medium s = of_vulnerabilities (λ v. v.medium) s
total_of low s = of_vulnerabilities (λ v. v.low) s

-- The totals that updating makes of two summaries are the sums of the two.
total_of-AddsUp : (k : Total) → AddsUp (total_of k)
unfolding add_totals
total_of-AddsUp exploits s r t e = ground arith
total_of-AddsUp info_finder s r t e = ground arith
total_of-AddsUp malware s r t e = ground arith
total_of-AddsUp misconfigurations s r t e = ground arith
total_of-AddsUp packages s r t e = ground arith
total_of-AddsUp rootkits s r t e = ground arith
total_of-AddsUp secrets s r t e = ground arith
total_of-AddsUp critical s r t e = ground arith
total_of-AddsUp high s r t e = ground arith
total_of-AddsUp medium s r t e = ground arith
total_of-AddsUp low s r t e = ground arith

new_summary-zero : (k : Total) → total_of k new_scan_summary.totals ≡ some (pos 0)
new_summary-zero exploits = refl
new_summary-zero info_finder = refl
new_summary-zero malware = refl
new_summary-zero misconfigurations = refl
new_summary-zero packages = refl
new_summary-zero rootkits = refl
new_summary-zero secrets = refl
new_summary-zero critical = refl
new_summary-zero high = refl
new_summary-zero medium = refl
new_summary-zero low = refl

-- The new total of negligible vulnerabilities is the old total of critical ones and the new number of
-- negligible ones; where the two old totals differ, it is not the sum that is meant.
negligible_from_critical :
    (s r t : Totals) (c g n : ℕ)
    → add_totals s r ≡ ok t
    → of_vulnerabilities (λ v. v.critical) s ≡ some (pos c)
    → of_vulnerabilities (λ v. v.negligible) s ≡ some (pos g)
    → of_vulnerabilities (λ v. v.negligible) r ≡ some (pos n)
    → c + n < limit
    → c ≢ g
    → (of_vulnerabilities (λ v. v.negligible) t ≡ some (pos (c + n)))
      × (of_vulnerabilities (λ v. v.negligible) t ≢ some (pos (g + n)))
unfolding add_totals add_ptr
negligible_from_critical s r t c g n e hc hg hn h ne =
    (ground (arith, add_int-pos c n), λ bad. ground (arith, add_int-pos c n))

-- The sum of a value over the AssetScans that are finished.
abbrev pub sum_finished : (AssetScan → ℕ) → List AssetScan → ℕ
sum_finished value [] = 0
sum_finished value (a ∷ rest) =
    (elim a.status [ none ↦ 0 | some st ↦ if is_finished st.state then value a else 0 ])
    + sum_finished value rest

abbrev pub HasValue : (Totals → Option ℤ) → (AssetScan → ℕ) → AssetScan → Type 0
HasValue field value a = (r : Totals) → a.summary ≡ some r → field r ≡ some (pos (value a))

totals_finished :
    (st : AssetScanStatus.State) (s s' : ScanSummary) (r : Totals)
    → is_finished st ≡ true
    → add_job st s r ≡ ok s'
    → add_totals s.totals r ≡ ok s'.totals
unfolding add_job
totals_finished st s s' r h e = ground arith

totals_left :
    (st : AssetScanStatus.State) (s s' : ScanSummary) (r : Totals)
    → is_finished st ≡ false
    → add_job st s r ≡ ok s'
    → s'.totals ≡ s.totals
unfolding add_job
totals_left st s s' r h e = ground arith

add_ptr-pos :
    (x y z : Option ℤ) (m n : ℕ)
    → x ≡ some (pos m)
    → y ≡ some (pos n)
    → m + n < limit
    → add_ptr x y ≡ ok z
    → z ≡ some (pos (m + n))
unfolding add_ptr
add_ptr-pos x y z m n hx hy h e = ground (arith, add_int-pos m n)

module _ (field : Totals → Option ℤ) (adds : AddsUp field) (value : AssetScan → ℕ) where
  round_sum :
      (s s' : ScanSummary) (a : AssetScan) (st : AssetScanState) (r : Totals) (n : ℕ)
      → add_job st.state s r ≡ ok s'
      → field s.totals ≡ some (pos n)
      → field r ≡ some (pos (value a))
      → n + (if is_finished st.state then value a else 0) < limit
      → field s'.totals ≡ some (pos (n + (if is_finished st.state then value a else 0)))
  round_sum s s' a st r n e hs hr h = elim (Bool-cases (is_finished st.state)) [
    | inl fin ↦ rw fin (
        add_ptr-pos _ _ _ n (value a) hs hr (rw fin at h)
          (adds _ _ _ (totals_finished st.state s s' r fin e)))
    | inr left ↦ rw left (rw (totals_left st.state s s' r left e) (rw add-zero hs))
  ]

  summarise-sum :
      (jobs : List AssetScan) (s t : ScanSummary) (failed f : ℤ) (n : ℕ)
      → n + sum_finished value jobs < limit
      → All (HasValue field value) jobs
      → field s.totals ≡ some (pos n)
      → summarise s failed jobs ≡ ok (t, f)
      → field t.totals ≡ some (pos (n + sum_finished value jobs))
  unfolding summarise
  summarise-sum [] s t failed f n h v hs e = rw add-zero (ground arith)
  summarise-sum (a ∷ rest) s t failed f n h v hs e =
      let (st, r, s', es, er, eu, later) = summarise-cons s failed a rest (t, f) e in
      let bound : n + ((if is_finished st.state then value a else 0) + sum_finished value rest)
          < limit =
        rw es at h in
      rw es (
        rw (← add_assoc) (
          summarise-sum rest s' t (count_failed st.state failed) f
            (n + (if is_finished st.state then value a else 0)) (omega arith) v.1
            (round_sum s s' a st r n eu hs (v.0 r er) (omega arith)) later))

-- Whenever the loop of reconcileInProgress succeeds, each total of the summary (exploits, info finder,
-- malware, misconfigurations, packages, rootkits, secrets, and the critical, high, medium and low
-- vulnerabilities) is the sum of that total over the AssetScans that are Done or Failed, if these
-- values are not negative and their sum fits an int.
pub summarise_sums :
    (k : Total) (value : AssetScan → ℕ) (jobs : List AssetScan) (t : ScanSummary) (f : ℤ)
    → All (HasValue (total_of k) value) jobs
    → sum_finished value jobs < limit
    → summarise new_scan_summary (pos 0) jobs ≡ ok (t, f)
    → total_of k t.totals ≡ some (pos (sum_finished value jobs))
summarise_sums k value jobs t f v h e = rw (← zero-add (sum_finished value jobs)) (
    summarise-sum (total_of k) (total_of-AddsUp k) value jobs new_scan_summary t (pos 0) f 0
      (omega arith) v (new_summary-zero k) e)
