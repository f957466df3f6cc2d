-- ===== src/Processor/Examples.antt =====
-- The theorems on the processor at concrete AssetScans, and an environment that has its laws.
use Prim.Native.String.{◌++◌ as ◌<>◌, len}
use text.Mathlib.TextPositions.{len-append}
use vmclarity.Prelude.{
  ℕ, String, ◌≡◌, refl, ap, ◌+◌, ◌<◌, false, Option, none, some, List, [], ◌∷◌, any, All, arith,
  ◌≢◌, ◌==◌, if◌then◌else◌, ◌=?◌, =?_iff, string_eq, Bool-cases, inl, inr,
}
use vmclarity.Prelude.Int.{ℤ, pos}
use vmclarity.Go.{ok, panics}
use vmclarity.ApiTypes.{ScannerStatus, Totals, scanner_done, scanner_success}
use vmclarity.Findings.{
  FindingInfo, PackageInfo, exploit, info_finder, malware, misconfiguration, a_package, rootkit,
  secret, vulnerability, packages, rootkits, secrets, generate_key, Key, package_key, key_eq,
  finding_type_eq, FindingType-discrete, Key-discrete,
}
use text.Mathlib.TextEquality.{eq_iff}
use vmclarity.Processor.Store.{
  in_seconds, Env, World, Finding, FamilyResult, ScanResult, Answer, answered, lost, M,
  get_findings, query, post_finding, patch_finding, write, get_asset, patch_asset,
}
use vmclarity.Processor.Family.{
  newer_existing_finding_time, reconcile_to_findings, oldest, get_existing_findings_for_scan,
  existing_map, add_existing, lookup, save_items, save_item, invalidate_older_findings_by_type,
  invalidate_all, get_active_findings_by_type,
}
use vmclarity.Processor.Tags.{IsLawful}
use vmclarity.Processor.Distinct.{NoDuplicates}
use vmclarity.Processor.Reruns.{ReportsOnce, reconcile-NoDuplicates}
use vmclarity.Processor.Rootkits.{rootkits_panic, secrets_panic}
use vmclarity.Processor.Older.{Settled, no_older_active}
use vmclarity.Processor.{reconcile, reconcile_rootkits, reconcile_secrets, items_of, total}

-- A text that is longer than all others together.
joined : List String → String
joined [] = "n"
joined (x ∷ xs) = x <> joined xs

total_len : List String → ℕ
total_len [] = 0
total_len (x ∷ xs) = len x + total_len xs

len-joined : (xs : List String) → len (joined xs) ≡ total_len xs + 1
unfolding joined total_len
len-joined [] = refl
len-joined (x ∷ xs) = omega (arith, len-append x (joined xs), len-joined xs)

shorter : (s : String) (xs : List String) → total_len xs < len s → any (λ x. x =? s) xs ≡ false
unfolding total_len
shorter s [] h = refl
shorter s (x ∷ xs) h = elim (Bool-cases (x =? s)) [
  | inl same ↦ absurd (omega (arith, ap len ((=?_iff x s).0 same)))
  | inr other ↦ rw other (shorter s xs (omega arith))
]

-- A JSON merge patch: a field that the body omits keeps its value.
module _ {A : Type 0} where
  abbrev kept : Option A → Option A → Option A
  kept old none = old
  kept old (some a) = some a

abbrev merge_packages : Option PackageInfo → Option PackageInfo → Option PackageInfo
merge_packages (some p) (some q) =
    some (record { name = kept p.name q.name; version = kept p.version q.version })
merge_packages p q = kept p q

merge_patch : FindingInfo → FindingInfo → FindingInfo
merge_patch (exploit i) (exploit j) = exploit (record {
  source_db = kept i.source_db j.source_db;
  cve_id = kept i.cve_id j.cve_id;
  urls = kept i.urls j.urls;
})
merge_patch (info_finder i) (info_finder j) = info_finder (record {
  scanner_name = kept i.scanner_name j.scanner_name;
  info_type = kept i.info_type j.info_type;
  content = kept i.content j.content;
  path = kept i.path j.path;
})
merge_patch (malware i) (malware j) = malware (record {
  malware_name = kept i.malware_name j.malware_name;
  malware_type = kept i.malware_type j.malware_type;
  path = kept i.path j.path;
  rule_name = kept i.rule_name j.rule_name;
})
merge_patch (misconfiguration i) (misconfiguration j) = misconfiguration (record {
  scanner_name = kept i.scanner_name j.scanner_name;
  id = kept i.id j.id;
  message = kept i.message j.message;
})
merge_patch (a_package i) (a_package j) =
    a_package (record { name = kept i.name j.name; version = kept i.version j.version })
merge_patch (rootkit i) (rootkit j) = rootkit (record {
  rootkit_name = kept i.rootkit_name j.rootkit_name;
  rootkit_type = kept i.rootkit_type j.rootkit_type;
  message = kept i.message j.message;
})
merge_patch (secret i) (secret j) = secret (record {
  fingerprint = kept i.fingerprint j.fingerprint;
  start_column = kept i.start_column j.start_column;
  end_column = kept i.end_column j.end_column;
})
merge_patch (vulnerability i) (vulnerability j) = vulnerability (record {
  vulnerability_name = kept i.vulnerability_name j.vulnerability_name;
  package_info = merge_packages i.package_info j.package_info;
  severity = kept i.severity j.severity;
})
merge_patch _ new = new

merge_patch_key :
    (digest : List String → String) (old new : FindingInfo) (k : Key)
    → generate_key digest old ≡ some k
    → generate_key digest new ≡ some k
    → generate_key digest (merge_patch old new) ≡ some k
unfolding generate_key merge_patch
merge_patch_key digest (exploit i) (exploit j) k h g = ground arith
merge_patch_key digest (info_finder i) (info_finder j) k h g = ground arith
merge_patch_key digest (malware i) (malware j) k h g = ground arith
merge_patch_key digest (misconfiguration i) (misconfiguration j) k h g = ground arith
merge_patch_key digest (a_package i) (a_package j) k h g = ground arith
merge_patch_key digest (rootkit i) (rootkit j) k h g = ground arith
merge_patch_key digest (secret i) (secret j) k h g = ground arith
merge_patch_key digest (vulnerability i) (vulnerability j) k h g = ground arith
merge_patch_key digest old new k h g = ground arith

-- The call that posts the second package is lost.
abbrev loses_one : ℕ → Answer
loses_one n = if n == 4 then lost else answered

abbrev answers_all : ℕ → Answer
answers_all n = answered

abbrev env : (ℕ → Answer) → (ℤ → ℤ) → Env
env answers read = record {
  answers = answers;
  new_id = joined;
  merge = merge_patch;
  digest = joined;
  read = read;
}

env-IsLawful : (answers : ℕ → Answer) (read : ℤ → ℤ) → IsLawful (env answers read)
env-IsLawful answers read = record {
  fresh = λ xs. shorter (joined xs) xs (omega (arith, len-joined xs));
  merge_key = λ old new k. merge_patch_key joined old new k;
}

abbrev done_status : ScannerStatus
done_status = record {
  state = scanner_done;
  reason = scanner_success;
  message = none;
  last_transition_time = pos 0;
}

abbrev nothing : {I : Type 0} → Option (FamilyResult I)
nothing = some (record { status = none; items = none })

abbrev package_of : String → PackageInfo
package_of name = record { name = some name; version = some "1" }

-- It ends one and a half seconds after the start of the clock.
abbrev scan_result : ScanResult
scan_result = record {
  id = "scan";
  asset = some "vm";
  last_transition_time = some (pos 1500000000);
  findings_processed = none;
  vulnerabilities = nothing;
  sbom =
      some
        (record { status = some done_status; items = some (package_of "a" ∷ package_of "b" ∷ []) });
  exploits = nothing;
  secrets = nothing;
  malware = nothing;
  rootkits = nothing;
  misconfigurations = nothing;
  info_finder = nothing;
}

abbrev finding_of : String → ℤ → FindingInfo → Finding
finding_of scan t info = record {
  id = "f";
  asset_id = "vm";
  found_by = scan;
  found_on = t;
  invalidated_on = none;
  info = info;
}

abbrev world_with : Finding → World
world_with f = record {
  findings = f ∷ [];
  assets = λ a. if a =? "vm" then some none else none;
  scans = λ a. if a =? "scan" then some scan_result else none;
  calls = 0;
}

-- The scan has its first package already.
abbrev half_done : World
half_done = world_with (finding_of "scan" (pos 1500000000) (a_package (package_of "a")))

lossy : Env
lossy = env loses_one (λ t. t)

half_done-NoDuplicates : NoDuplicates lossy half_done.findings
unfolding generate_key lossy
half_done-NoDuplicates = record {
  keyed = ((package_key "a" "1", refl), tt);
  tags = λ s k. (λ t. (λ at. t, tt), tt);
  single = λ s k. ground arith;
}

scan_result-ReportsOnce : ReportsOnce lossy scan_result
unfolding generate_key lossy
scan_result-ReportsOnce = record {
  vulnerability_keys = λ k. omega arith;
  package_keys =
      λ k. ground (arith, =?_iff (package_key "a" "1") k, =?_iff (package_key "b" "1") k, differ);
  exploit_keys = λ k. omega arith;
  secret_keys = λ k. omega arith;
  malware_keys = λ k. omega arith;
  rootkit_keys = λ k. omega arith;
  misconfiguration_keys = λ k. omega arith;
  info_finder_keys = λ k. omega arith;
}
  where
    differ : package_key "a" "1" ≢ package_key "b" "1"
    differ h = ground (arith, eq_iff "a" "b")

reconcile-NoDuplicates_example : NoDuplicates lossy (reconcile lossy "scan" half_done).0.findings
unfolding lossy
reconcile-NoDuplicates_example =
    reconcile-NoDuplicates lossy (env-IsLawful loses_one (λ t. t)) "scan" half_done
      (λ s read. rw (← same_scan s read) scan_result-ReportsOnce) half_done-NoDuplicates
  where
    same_scan : (s : ScanResult) → some scan_result ≡ some s → scan_result ≡ s
    same_scan s h = cc h

abbrev with_rootkit : World
with_rootkit = world_with (
    finding_of "scan" (pos 1500000000)
      (rootkit (record { rootkit_name = some "r"; rootkit_type = some "t"; message = some "m" })))

rootkits_panic_example :
    ((reconcile_rootkits lossy scan_result with_rootkit).1 ≡ panics)
    × ((reconcile_rootkits lossy scan_result with_rootkit).0.findings ≡ with_rootkit.findings)
unfolding lossy
rootkits_panic_example =
    rootkits_panic lossy scan_result with_rootkit (pos 1500000000) "vm" refl refl refl refl
      (rw ((=?_iff rootkits rootkits).1 refl) (omega arith))

abbrev with_secret : World
with_secret = world_with (
    finding_of "scan" (pos 1500000000) (
      secret (record {
        fingerprint = some "s";
        start_column = some (pos 1);
        end_column = some (pos 9);
      })))

secrets_panic_example :
    ((reconcile_secrets lossy scan_result with_secret).1 ≡ panics)
    × ((reconcile_secrets lossy scan_result with_secret).0.findings ≡ with_secret.findings)
unfolding lossy
secrets_panic_example =
    secrets_panic lossy scan_result with_secret (pos 1500000000) "vm" refl refl refl refl
      (rw ((=?_iff secrets secrets).1 refl) (omega arith))

-- An older scan has left a package.
abbrev older_one : World
older_one = world_with (finding_of "older" (pos 1) (a_package (package_of "a")))

reliable : Env
reliable = env answers_all (λ t. t)

abbrev count_packages : String → Totals → M Totals
count_packages = total reliable packages (λ n t. record t { packages = some n })

no_older_active_example :
    All
      (Settled reliable packages "vm" (pos 1500000000))
      (reconcile_to_findings reliable packages count_packages
        (items_of a_package scan_result.sbom)
        scan_result
        older_one).0.findings
unfolding reliable in_seconds reconcile_to_findings newer_existing_finding_time get_findings query
    oldest get_existing_findings_for_scan existing_map add_existing lookup save_items save_item
    generate_key post_finding patch_finding write invalidate_older_findings_by_type invalidate_all
    get_asset patch_asset get_active_findings_by_type joined FindingType-discrete Key-discrete
no_older_active_example =
    no_older_active reliable packages "vm" (pos 1500000000) count_packages
      (items_of a_package scan_result.sbom) scan_result counts older_one tt refl refl ends
  where
    counts : (old : Totals) (w : World) → (count_packages "vm" old w).0.findings ≡ w.findings
    counts old w = refl

    ends :
        (reconcile_to_findings reliable packages count_packages
          (items_of a_package scan_result.sbom)
          scan_result
          older_one).1
        ≡ ok tt
    ends = refl
