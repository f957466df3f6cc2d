-- ===== src/Processor.antt =====
-- orchestrator/processor/assetscan: Reconcile of processor.go, which turns the results of an AssetScan
-- into findings, one family after the other.
pub mod Store
pub mod Family
pub mod Tags
pub mod Existing
pub mod Items
pub mod Distinct
pub mod Reruns
pub mod Rootkits
pub mod Older
mod Examples
use vmclarity.Prelude.{
  String, Bool, true, false, Option, none, some, List, [], ◌∷◌, ◌&&◌, length, map, ◌=?◌,
  if◌then◌else◌,
}
use vmclarity.Prelude.Int.{ℤ, pos}
use vmclarity.Go.{Result, ok, err, panics, failed_call}
use vmclarity.ApiTypes.{Totals, VulnerabilitySummary, ScannerState, scanner_done, ScannerStatus}
use vmclarity.Findings.{
  FindingInfo, FindingType, exploits, info_finders, malwares, misconfigurations, packages, rootkits,
  secrets, vulnerabilities, exploit, info_finder, malware, misconfiguration, a_package, rootkit,
  secret, vulnerability, Severity, critical, high, medium, low, negligible, severity_eq,
}
use Store.{
  Env, Finding, FamilyResult, ScanResult, M, ◌>>=◌, ◌>>◌, pure, lift, get_findings, get_asset_scan,
  patch_asset_scan,
}
use Family.{reconcile_to_findings, get_active_findings_by_type, is_of, is_unset}

-- The items of a result, where it and its list are not nil.
abbrev pub items_of : {I : Type 0} → (I → FindingInfo) → Option (FamilyResult I) → List FindingInfo
items_of c none = []
items_of c (some r) = elim r.items [ none ↦ [] | some is ↦ map c is ]

abbrev has_severity : Severity → FindingInfo → Bool
has_severity s (vulnerability i) = elim i.severity [ none ↦ false | some t ↦ t =? s ]
has_severity s _ = false

is_done : ScannerState → Bool
is_done scanner_done = true
is_done _ = false

unfoldable pub status_completed_with_no_errors : Option ScannerStatus → Bool
unfolding is_done
status_completed_with_no_errors none = false
status_completed_with_no_errors (some s) = is_done s.state

-- One of the eight tests of Reconcile: a family with no result is a nil pointer that is read.
unfoldable pub if_completed : {I : Type 0} → Option (FamilyResult I) → M (Unit {0}) → M (Unit {0})
unfolding status_completed_with_no_errors
if_completed none m = lift panics
if_completed (some r) m = if status_completed_with_no_errors r.status then m else pure tt

abbrev pub is_true : Option Bool → Bool
is_true (some true) = true
is_true _ = false

module _ (e : Env) where
  -- Counts the active findings of a type, and sets their total.
  abbrev pub total : FindingType → (ℤ → Totals → Totals) → String → Totals → M Totals
  total k set asset_id t = do n ← get_active_findings_by_type e k asset_id; pure (set n t)

  unfoldable pub reconcile_packages : ScanResult → M (Unit {0})
  reconcile_packages s =
      reconcile_to_findings e packages (total packages (λ n t. record t { packages = some n }))
        (items_of a_package s.sbom) s

  unfoldable pub reconcile_exploits : ScanResult → M (Unit {0})
  reconcile_exploits s =
      reconcile_to_findings e exploits (total exploits (λ n t. record t { exploits = some n }))
        (items_of exploit s.exploits) s

  unfoldable pub reconcile_secrets : ScanResult → M (Unit {0})
  reconcile_secrets s =
      reconcile_to_findings e secrets (total secrets (λ n t. record t { secrets = some n }))
        (items_of secret s.secrets) s

  unfoldable pub reconcile_malware : ScanResult → M (Unit {0})
  reconcile_malware s =
      reconcile_to_findings e malwares (total malwares (λ n t. record t { malware = some n }))
        (items_of malware s.malware) s

  unfoldable pub reconcile_rootkits : ScanResult → M (Unit {0})
  reconcile_rootkits s =
      reconcile_to_findings e rootkits (total rootkits (λ n t. record t { rootkits = some n }))
        (items_of rootkit s.rootkits) s

  unfoldable pub reconcile_misconfigurations : ScanResult → M (Unit {0})
  reconcile_misconfigurations s =
      reconcile_to_findings e misconfigurations
        (total misconfigurations (λ n t. record t { misconfigurations = some n }))
        (items_of misconfiguration s.misconfigurations) s

  unfoldable pub reconcile_info_finders : ScanResult → M (Unit {0})
  reconcile_info_finders s =
      reconcile_to_findings e info_finders
        (total info_finders (λ n t. record t { info_finder = some n }))
        (items_of info_finder s.info_finder) s

  unfoldable pub get_active_vulnerability_findings_count : String → Severity → M ℤ
  get_active_vulnerability_findings_count asset_id severity = do
    active ← get_findings e (λ f.
        is_of vulnerabilities asset_id f
        && is_unset f.invalidated_on
        && has_severity severity f.info)
    pure (pos (length active))

  unfoldable pub vulnerability_totals : String → Totals → M Totals
  unfolding get_active_vulnerability_findings_count
  vulnerability_totals asset_id t = do
    criticals ← get_active_vulnerability_findings_count asset_id critical
    highs ← get_active_vulnerability_findings_count asset_id high
    mediums ← get_active_vulnerability_findings_count asset_id medium
    lows ← get_active_vulnerability_findings_count asset_id low
    negligibles ← get_active_vulnerability_findings_count asset_id negligible
    pure (record t {
      vulnerabilities = some (record {
        critical = some criticals;
        high = some highs;
        medium = some mediums;
        low = some lows;
        negligible = some negligibles;
      });
    })

  unfoldable pub reconcile_vulnerabilities : ScanResult → M (Unit {0})
  reconcile_vulnerabilities s =
      reconcile_to_findings e vulnerabilities vulnerability_totals
        (items_of vulnerability s.vulnerabilities) s

  unfoldable pub reconcile_families : ScanResult → M (Unit {0})
  unfolding if_completed
  reconcile_families s = do
    if_completed s.vulnerabilities (reconcile_vulnerabilities s)
    if_completed s.sbom (reconcile_packages s)
    if_completed s.exploits (reconcile_exploits s)
    if_completed s.secrets (reconcile_secrets s)
    if_completed s.malware (reconcile_malware s)
    if_completed s.rootkits (reconcile_rootkits s)
    if_completed s.misconfigurations (reconcile_misconfigurations s)
    if_completed s.info_finder (reconcile_info_finders s)

  unfoldable pub process : ScanResult → M (Unit {0})
  process s = if is_true s.findings_processed then pure tt else do
    reconcile_families s
    patch_asset_scan e s.id (record s { findings_processed = some true })

  unfoldable pub reconcile : String → M (Unit {0})
  unfolding process
  reconcile asset_scan_id = do s ← get_asset_scan e asset_scan_id; process s

-- The IDs of the AssetScans that GetItems lists: a missing one is a nil pointer that is read.
ids_read : List (Option String) → Result (List String)
ids_read [] = ok []
ids_read (none ∷ rest) = panics
ids_read (some id ∷ rest) = elim (ids_read rest) [
  | ok ids ↦ ok (id ∷ ids)
  | err e ↦ err e
  | panics ↦ panics
]

-- GetItems, from the answer to its GET: `none` is an error, and a nil list is read.
unfoldable pub get_items : Option (Option (List (Option String))) → Result (List String)
unfolding ids_read
get_items none = err failed_call
get_items (some none) = panics
get_items (some (some items)) = ids_read items
