-- ===== src/Processor/Reruns.antt =====
-- Reconcile of processor.go: the table of findings after any run of it.
use vmclarity.Prelude.{
  String, ◌≡◌, refl, ◌≤◌, Bool, true, false, Option, none, some, List, [], ◌∷◌, map, All, count_by,
  if◌then◌else◌,
}
use vmclarity.Prelude.Int.{ℤ}
use vmclarity.ApiTypes.{Totals}
use vmclarity.Go.{ok, panics}
use vmclarity.Findings.{
  FindingInfo, FindingType, Key, type_of, exploits, info_finders, malwares, misconfigurations,
  packages, rootkits, secrets, vulnerabilities, exploit, info_finder, malware, misconfiguration,
  a_package, rootkit, secret, vulnerability, Severity, critical, high, medium, low, negligible,
}
use vmclarity.Processor.Store.{
  Env, World, M, FamilyResult, ScanResult, ◌>>◌, pure, query, get_findings, get_asset_scan,
  patch_asset_scan, continue-then, read_by, Answer, answered, refused, lost, found,
}
use vmclarity.Processor.Family.{get_active_findings_by_type}
use vmclarity.Processor.Tags.{IsLawful, has_key}
use vmclarity.Processor.Distinct.{
  NoDuplicates, Keeps, keep_bind, keep_pure, keep_query, keep_write, reconcile_to_findings-Keeps,
}
use vmclarity.Processor.{
  items_of, total, if_completed, is_true, status_completed_with_no_errors, reconcile_packages,
  reconcile_exploits, reconcile_secrets, reconcile_malware, reconcile_rootkits,
  reconcile_misconfigurations, reconcile_info_finders, vulnerability_totals,
  get_active_vulnerability_findings_count, reconcile_vulnerabilities, reconcile_families, process,
  reconcile,
}

module _ (e : Env) where
  abbrev Once : List FindingInfo → Type 0
  Once is = (k : Key) → count_by (has_key e k) is ≤ 1

  -- Each family of the AssetScan reports a key once.
  pub record ReportsOnce (s : ScanResult) : Type 0 where
    pub vulnerability_keys : Once (items_of vulnerability s.vulnerabilities)
    pub package_keys : Once (items_of a_package s.sbom)
    pub exploit_keys : Once (items_of exploit s.exploits)
    pub secret_keys : Once (items_of secret s.secrets)
    pub malware_keys : Once (items_of malware s.malware)
    pub rootkit_keys : Once (items_of rootkit s.rootkits)
    pub misconfiguration_keys : Once (items_of misconfiguration s.misconfigurations)
    pub info_finder_keys : Once (items_of info_finder s.info_finder)

  map-type :
      {I : Type 0} (c : I → FindingInfo) (t : FindingType) (is : List I)
      → ((i : I) → type_of (c i) ≡ t)
      → All (λ i. type_of i ≡ t) (map c is)
  map-type c t [] h = tt
  map-type c t (i ∷ is) h = (h i, map-type c t is h)

  items_of-type :
      {I : Type 0} (c : I → FindingInfo) (t : FindingType) (r : Option (FamilyResult I))
      → ((i : I) → type_of (c i) ≡ t)
      → All (λ i. type_of i ≡ t) (items_of c r)
  items_of-type c t none h = tt
  items_of-type {I = I} c t (some r) h = by_items r.items
    where
      by_items :
          (o : Option (List I))
          → All (λ i. type_of i ≡ t) (elim o [ none ↦ [] | some is ↦ map c is ])
      by_items none = tt
      by_items (some is) = map-type c t is h

  keep_count : (k : FindingType) (id : String) → Keeps e (get_active_findings_by_type e k id)
  unfolding get_active_findings_by_type get_findings
  keep_count k id = keep_bind e (keep_query e _) (λ fs. keep_pure e (ok _))

  keep_total :
      (k : FindingType) (set : ℤ → Totals → Totals) (id : String) (t : Totals)
      → Keeps e (total e k set id t)
  keep_total k set id t = keep_bind e (keep_count k id) (λ n. keep_pure e (ok _))

  keep_severity :
      (id : String) (s : Severity) → Keeps e (get_active_vulnerability_findings_count e id s)
  unfolding get_active_vulnerability_findings_count get_findings
  keep_severity id s = keep_bind e (keep_query e _) (λ fs. keep_pure e (ok _))

  scan-Keeps : (id : String) → Keeps e (get_asset_scan e id)
  unfolding get_asset_scan
  scan-Keeps id = keep_query e _

  module _ (lawful : IsLawful e) where
    completed-Keeps :
        {I : Type 0} (r : Option (FamilyResult I)) (m : M (Unit {0}))
        → Keeps e m
        → Keeps e (if_completed r m)
    unfolding if_completed
    completed-Keeps none m h = keep_pure e panics
    completed-Keeps (some r) m h = if_done (status_completed_with_no_errors r.status)
      where
        if_done : (b : Bool) → Keeps e (if b then m else pure tt)
        if_done true = h
        if_done false = keep_pure e (ok tt)

    packages-Keeps : (s : ScanResult) → ReportsOnce s → Keeps e (reconcile_packages e s)
    unfolding reconcile_packages
    packages-Keeps s once =
        reconcile_to_findings-Keeps e lawful packages _ (items_of a_package s.sbom) s
          (keep_total packages (λ n t. record t { packages = some n }))
          (items_of-type a_package packages s.sbom (λ i. refl)) once.package_keys

    exploits-Keeps : (s : ScanResult) → ReportsOnce s → Keeps e (reconcile_exploits e s)
    unfolding reconcile_exploits
    exploits-Keeps s once =
        reconcile_to_findings-Keeps e lawful exploits _ (items_of exploit s.exploits) s
          (keep_total exploits (λ n t. record t { exploits = some n }))
          (items_of-type exploit exploits s.exploits (λ i. refl)) once.exploit_keys

    secrets-Keeps : (s : ScanResult) → ReportsOnce s → Keeps e (reconcile_secrets e s)
    unfolding reconcile_secrets
    secrets-Keeps s once =
        reconcile_to_findings-Keeps e lawful secrets _ (items_of secret s.secrets) s
          (keep_total secrets (λ n t. record t { secrets = some n }))
          (items_of-type secret secrets s.secrets (λ i. refl)) once.secret_keys

    malware-Keeps : (s : ScanResult) → ReportsOnce s → Keeps e (reconcile_malware e s)
    unfolding reconcile_malware
    malware-Keeps s once =
        reconcile_to_findings-Keeps e lawful malwares _ (items_of malware s.malware) s
          (keep_total malwares (λ n t. record t { malware = some n }))
          (items_of-type malware malwares s.malware (λ i. refl)) once.malware_keys

    rootkits-Keeps : (s : ScanResult) → ReportsOnce s → Keeps e (reconcile_rootkits e s)
    unfolding reconcile_rootkits
    rootkits-Keeps s once =
        reconcile_to_findings-Keeps e lawful rootkits _ (items_of rootkit s.rootkits) s
          (keep_total rootkits (λ n t. record t { rootkits = some n }))
          (items_of-type rootkit rootkits s.rootkits (λ i. refl)) once.rootkit_keys

    misconfigurations-Keeps :
        (s : ScanResult) → ReportsOnce s → Keeps e (reconcile_misconfigurations e s)
    unfolding reconcile_misconfigurations
    misconfigurations-Keeps s once =
        reconcile_to_findings-Keeps e lawful misconfigurations _
          (items_of misconfiguration s.misconfigurations) s
          (keep_total misconfigurations (λ n t. record t { misconfigurations = some n }))
          (items_of-type misconfiguration misconfigurations s.misconfigurations (λ i. refl))
          once.misconfiguration_keys

    info_finders-Keeps : (s : ScanResult) → ReportsOnce s → Keeps e (reconcile_info_finders e s)
    unfolding reconcile_info_finders
    info_finders-Keeps s once =
        reconcile_to_findings-Keeps e lawful info_finders _ (items_of info_finder s.info_finder) s
          (keep_total info_finders (λ n t. record t { info_finder = some n }))
          (items_of-type info_finder info_finders s.info_finder (λ i. refl)) once.info_finder_keys

    vulnerability_totals-Keeps : (id : String) (t : Totals) → Keeps e (vulnerability_totals e id t)
    unfolding vulnerability_totals
    vulnerability_totals-Keeps id t = keep_bind e (keep_severity id critical) λ _.
        keep_bind e (keep_severity id high) λ _. keep_bind e (keep_severity id medium) λ _.
          keep_bind e (keep_severity id low)
            λ _. keep_bind e (keep_severity id negligible) λ _. keep_pure e (ok _)

    vulnerabilities-Keeps :
        (s : ScanResult) → ReportsOnce s → Keeps e (reconcile_vulnerabilities e s)
    unfolding reconcile_vulnerabilities
    vulnerabilities-Keeps s once =
        reconcile_to_findings-Keeps e lawful vulnerabilities (vulnerability_totals e)
          (items_of vulnerability s.vulnerabilities) s vulnerability_totals-Keeps
          (items_of-type vulnerability vulnerabilities s.vulnerabilities (λ i. refl))
          once.vulnerability_keys

    families-Keeps : (s : ScanResult) → ReportsOnce s → Keeps e (reconcile_families e s)
    unfolding reconcile_families
    families-Keeps s once =
        keep_bind e (completed-Keeps s.vulnerabilities _ (vulnerabilities-Keeps s once)) λ _.
          keep_bind e (completed-Keeps s.sbom _ (packages-Keeps s once)) λ _.
            keep_bind e (completed-Keeps s.exploits _ (exploits-Keeps s once)) λ _.
              keep_bind e (completed-Keeps s.secrets _ (secrets-Keeps s once)) λ _.
                keep_bind e (completed-Keeps s.malware _ (malware-Keeps s once)) λ _.
                  keep_bind e (completed-Keeps s.rootkits _ (rootkits-Keeps s once)) λ _.
                    keep_bind e
                      (completed-Keeps s.misconfigurations _ (misconfigurations-Keeps s once))
                      λ _. completed-Keeps s.info_finder _ (info_finders-Keeps s once)

    keep_processed : (id : String) (s : ScanResult) → Keeps e (patch_asset_scan e id s)
    unfolding patch_asset_scan
    keep_processed id s = keep_write e _ (λ w. refl)

    process-Keeps : (s : ScanResult) → ReportsOnce s → Keeps e (process e s)
    unfolding process
    process-Keeps s once = if_new (is_true s.findings_processed)
      where
        if_new :
            (b : Bool)
            → Keeps e (
                if b
                then pure tt
                else (reconcile_families e s
                    >> patch_asset_scan e s.id (record s { findings_processed = some true })))
        if_new true = keep_pure e (ok tt)
        if_new false = keep_bind e (families-Keeps s once) (λ _. keep_processed s.id _)

    scan_read :
        (id : String) (w : World) (s : ScanResult)
        → (get_asset_scan e id w).1 ≡ ok s
        → w.scans id ≡ some s
    unfolding get_asset_scan query
    scan_read id w s h = by_answer (e.answers w.calls) (w.scans id) h
      where
        by_answer : (a : Answer) (o : Option ScanResult) → read_by a (found o) ≡ ok s → o ≡ some s
        by_answer answered (some x) g = cc g
        by_answer answered none g = cc g
        by_answer refused o g = cc g
        by_answer lost o g = cc g

    -- Where a new UUID is no ID of the table and a PATCH of a finding by one with the same key keeps the
    -- key: whatever the answers to the calls of Reconcile are, lost ones included, and where each family
    -- of the AssetScan reports a key once, a table of findings in which no scan has two findings with
    -- one key is left as such a table.
    pub reconcile-NoDuplicates :
        (asset_scan_id : String) (w : World)
        → ((s : ScanResult) → w.scans asset_scan_id ≡ some s → ReportsOnce s)
        → NoDuplicates e w.findings
        → NoDuplicates e (reconcile e asset_scan_id w).0.findings
    unfolding reconcile
    reconcile-NoDuplicates asset_scan_id w once v =
        continue-then (λ w. NoDuplicates e w.findings) (get_asset_scan e asset_scan_id w)
          (process e) (keep_read.keeps w v)
          λ s read.
            (process-Keeps s (once s (scan_read asset_scan_id w s read))).keeps
              (get_asset_scan e asset_scan_id w).0 (keep_read.keeps w v)
      where
        keep_read : Keeps e (get_asset_scan e asset_scan_id)
        keep_read = scan-Keeps asset_scan_id
