-- ===== src/ScanWatcher/Summary.antt =====
-- The summary of a Scan: newScanSummary and updateScanSummaryFromAssetScan of
-- orchestrator/watcher/scan/helpers.go, and the loop of reconcileInProgress over the AssetScans.
pub mod Sums
pub mod Fields
pub mod Total
mod Examples
use vmclarity.Prelude.{String, Bool, true, false, Option, none, some, List, [], ◌∷◌}
use vmclarity.Prelude.Int.{ℤ, pos, add_int}
use vmclarity.Go.{Result, ok, err, panics, invalid, deref, require}
use vmclarity.ApiTypes.{VulnerabilitySummary, Totals, ScanSummary, AssetScan, AssetScanState}
use vmclarity.Status.AssetScanStatus

-- Results without calls.
infixl 5 ◌>>=◌
abbrev ◌>>=◌ {ℓ κ} : {A : Type ℓ} {B : Type κ} → Result A → (A → Result B) → Result B
ok a >>= f = f a
err e >>= f = err e
panics >>= f = panics

abbrev pub zero_vulnerabilities : VulnerabilitySummary
zero_vulnerabilities = record {
  critical = some (pos 0);
  high = some (pos 0);
  medium = some (pos 0);
  low = some (pos 0);
  negligible = some (pos 0);
}

-- newAssetScanSummary; newScanSummary is this with the two counters of jobs.
abbrev pub zero_totals : Totals
zero_totals = record {
  exploits = some (pos 0);
  info_finder = some (pos 0);
  malware = some (pos 0);
  misconfigurations = some (pos 0);
  packages = some (pos 0);
  rootkits = some (pos 0);
  secrets = some (pos 0);
  vulnerabilities = some zero_vulnerabilities;
}

abbrev pub new_scan_summary : ScanSummary
new_scan_summary = record {
  jobs_completed = some (pos 0);
  jobs_left = some (pos 0);
  totals = zero_totals;
}

-- to.Ptr(*a + *b)
pub add_ptr : Option ℤ → Option ℤ → Result (Option ℤ)
unfolding add_int
add_ptr (some a) (some b) = ok (some (add_int a b))
add_ptr _ _ = panics

-- The new VulnerabilityScanSummary. The last field starts from the critical total, as it stands in
-- the source.
pub add_vulnerabilities : VulnerabilitySummary → VulnerabilitySummary → Result VulnerabilitySummary
unfolding add_ptr
add_vulnerabilities s r = do
  critical ← add_ptr s.critical r.critical
  high ← add_ptr s.high r.high
  low ← add_ptr s.low r.low
  medium ← add_ptr s.medium r.medium
  negligible ← add_ptr s.critical r.negligible
  ok (record {
    critical = critical;
    high = high;
    medium = medium;
    low = low;
    negligible = negligible;
  })

pub add_totals : Totals → Totals → Result Totals
unfolding add_vulnerabilities
add_totals s r = do
  exploits ← add_ptr s.exploits r.exploits
  info_finder ← add_ptr s.info_finder r.info_finder
  malware ← add_ptr s.malware r.malware
  misconfigurations ← add_ptr s.misconfigurations r.misconfigurations
  packages ← add_ptr s.packages r.packages
  rootkits ← add_ptr s.rootkits r.rootkits
  secrets ← add_ptr s.secrets r.secrets
  sv ← deref s.vulnerabilities
  rv ← deref r.vulnerabilities
  vulnerabilities ← add_vulnerabilities sv rv
  ok (record {
    exploits = exploits;
    info_finder = info_finder;
    malware = malware;
    misconfigurations = misconfigurations;
    packages = packages;
    rootkits = rootkits;
    secrets = secrets;
    vulnerabilities = some vulnerabilities;
  })

pub count_left : ScanSummary → Result ScanSummary
count_left s = do left ← add_ptr s.jobs_left (some (pos 1)); ok (record s { jobs_left = left })

pub count_completed : ScanSummary → Totals → Result ScanSummary
count_completed s r = do
  completed ← add_ptr s.jobs_completed (some (pos 1))
  totals ← add_totals s.totals r
  ok (record s { jobs_completed = completed; totals = totals })

-- The `switch` of updateScanSummaryFromAssetScan.
pub add_job : AssetScanStatus.State → ScanSummary → Totals → Result ScanSummary
unfolding count_left count_completed
add_job AssetScanStatus.done s r = count_completed s r
add_job AssetScanStatus.failed s r = count_completed s r
add_job AssetScanStatus.pending s r = count_left s
add_job AssetScanStatus.scheduled s r = count_left s
add_job AssetScanStatus.ready_to_scan s r = count_left s
add_job AssetScanStatus.in_progress s r = count_left s
add_job AssetScanStatus.aborted s r = count_left s

abbrev summary_or_new : Option ScanSummary → ScanSummary
summary_or_new none = new_scan_summary
summary_or_new (some s) = s

-- The error for a nil status prints the ID.
status_of : AssetScan → Result AssetScanState
status_of a = elim a.status [ none ↦ (do _ ← deref a.id; err invalid) | some status ↦ ok status ]

pub update_scan_summary : Option ScanSummary → AssetScan → Result ScanSummary
unfolding add_job status_of
update_scan_summary summary result = do
  r ← require result.summary invalid
  status ← status_of result
  add_job status.state (summary_or_new summary) r

abbrev pub count_failed : AssetScanStatus.State → ℤ → ℤ
count_failed AssetScanStatus.failed n = add_int n (pos 1)
count_failed _ n = n

-- The loop of reconcileInProgress, from the summary and `failedAssetScans` so far.
pub summarise : ScanSummary → ℤ → List AssetScan → Result (ScanSummary × ℤ)
unfolding add_int status_of
summarise s failed [] = ok (s, failed)
summarise s failed (a ∷ rest) = do
  _ ← require a.id invalid
  s' ← update_scan_summary (some s) a
  status ← status_of a
  summarise s' (count_failed status.state failed) rest
