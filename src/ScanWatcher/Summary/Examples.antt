-- ===== src/ScanWatcher/Summary/Examples.antt =====
-- The theorems on summaries at three AssetScans.
use vmclarity.Prelude.{ℕ, ◌≡◌, refl, arith, none, some, List, [], ◌∷◌}
use vmclarity.Prelude.Int.{ℤ, pos, negsuc, add_int, ◌+ℤ◌, int64}
use vmclarity.Go.{ok}
use vmclarity.ApiTypes.{ScanSummary, AssetScan, Totals}
use vmclarity.Status.AssetScanStatus
use vmclarity.ScanWatcher.Examples.{job}
use vmclarity.ScanWatcher.Summary.{
  new_scan_summary, zero_totals, add_totals, add_vulnerabilities, add_ptr, summarise,
  update_scan_summary, status_of, add_job, count_left, count_completed,
}
use vmclarity.ScanWatcher.Summary.Sums.{
  summarise_counts, holds_of, is_finished, not_finished, is_failed, count_of,
}
use vmclarity.ScanWatcher.Summary.Total.{summarise_succeeds}
use vmclarity.ScanWatcher.Summary.Fields.{Total, summarise_sums, sum_finished}

-- Three vulnerabilities are critical, and two are negligible.
abbrev found : Totals
found = record {
  exploits = some (pos 0);
  info_finder = some (pos 0);
  malware = some (pos 4);
  misconfigurations = some (pos 0);
  packages = some (pos 0);
  rootkits = some (pos 0);
  secrets = some (pos 0);
  vulnerabilities = some (record {
    critical = some (pos 3);
    high = some (pos 0);
    medium = some (pos 0);
    low = some (pos 0);
    negligible = some (pos 2);
  });
}

-- `found` twice, as the code adds it up.
abbrev found_twice : Totals
found_twice = record {
  exploits = some (pos 0);
  info_finder = some (pos 0);
  malware = some (pos 8);
  misconfigurations = some (pos 0);
  packages = some (pos 0);
  rootkits = some (pos 0);
  secrets = some (pos 0);
  vulnerabilities = some (record {
    critical = some (pos 6);
    high = some (pos 0);
    medium = some (pos 0);
    low = some (pos 0);
    negligible = some (pos 5);
  });
}

added : add_totals found found ≡ ok found_twice
unfolding add_totals add_vulnerabilities add_ptr add_int ◌+ℤ◌ int64
added = refl

abbrev jobs : List AssetScan
jobs =
    job "a" AssetScanStatus.done AssetScanStatus.success found
    ∷ job "b" AssetScanStatus.failed AssetScanStatus.error zero_totals
    ∷ job "c" AssetScanStatus.pending AssetScanStatus.created zero_totals
    ∷ []

-- The third negligible one is a critical one.
abbrev summary : ScanSummary
summary = record {
  jobs_completed = some (pos 2);
  jobs_left = some (pos 1);
  totals = record found {
    vulnerabilities = some (record {
      critical = some (pos 3);
      high = some (pos 0);
      medium = some (pos 0);
      low = some (pos 0);
      negligible = some (pos 3);
    });
  };
}

summarised : summarise new_scan_summary (pos 0) jobs ≡ ok (summary, pos 1)
unfolding summarise update_scan_summary status_of add_job count_left count_completed add_totals
    add_vulnerabilities add_ptr add_int ◌+ℤ◌ int64
summarised = refl

summarise_counts_example :
    (summary.jobs_completed ≡ some (pos (count_of (holds_of is_finished) jobs)))
    × (summary.jobs_left ≡ some (pos (count_of (holds_of not_finished) jobs)))
    × (pos 1 ≡ pos (count_of (holds_of is_failed) jobs))
summarise_counts_example = summarise_counts jobs summary (pos 1) (ground arith) summarised

-- The malware of an AssetScan.
abbrev malware_of : AssetScan → ℕ
malware_of a = elim a.summary [
  | none ↦ 0
  | some r ↦ elim r.malware [ none ↦ 0 | some n ↦ elim n [ pos m ↦ m | negsuc m ↦ 0 ] ]
]

value_of :
    (found : Totals) (n : ℕ)
    → found.malware ≡ some (pos n)
    → (r : Totals) → some found ≡ some r
    → r.malware ≡ some (pos n)
value_of found n h r e = ground arith

summarise_sums_example : summary.totals.malware ≡ some (pos (sum_finished malware_of jobs))
summarise_sums_example =
    summarise_sums Total.malware malware_of jobs summary (pos 1)
      (value_of found 4 refl, (value_of zero_totals 0 refl, (value_of zero_totals 0 refl, tt)))
      (ground arith) summarised

summarise_succeeds_example :
    (r : ScanSummary × ℤ) × (summarise new_scan_summary (pos 0) jobs ≡ ok r)
summarise_succeeds_example = summarise_succeeds jobs (
  ((("a", refl), (_, refl), (found, refl, refl))),
  (
    ((("b", refl), (_, refl), (zero_totals, refl, refl))),
    (((("c", refl), (_, refl), (zero_totals, refl, refl))), tt),
  ),
)
