-- ===== src/ScanWatcher/Create.antt =====
-- The AssetScans of a Scan: newAssetScanFromScan of helpers.go, createAssetScanForAsset and
-- createAssetScansForScan of watcher.go.
use vmclarity.Prelude.{
  ℕ, zero, suc, ◌+◌, String, Option, none, some, List, [], ◌∷◌, length, if◌then◌else◌,
}
use vmclarity.Prelude.Int.{ℤ, pos}
use vmclarity.Go.{Result, ok, err, panics, Act, pure, lift, ◌>>=◌, invalid, failed_call}
use vmclarity.ApiTypes.{
  FamilyConfig, FamiliesConfig, Scan, ScannerStatus, scanner_pending, scanner_skipped,
  not_scheduled, scheduled, AssetScan, is_enabled,
}
use vmclarity.Status.{new_status}
use vmclarity.Status.AssetScanStatus
use vmclarity.Status.CleanupStatus
use vmclarity.ScanWatcher.Api.{Client, Call, post_asset_scan, Posted, created, conflict, refused}
use vmclarity.ScanWatcher.Summary.{zero_totals}

unfoldable pub map_family_config : ℤ → Option FamilyConfig → ScannerStatus
unfolding is_enabled new_status
map_family_config now config =
    if is_enabled config
    then new_status now scanner_pending scheduled none
    else new_status now scanner_skipped not_scheduled none

-- The families of a template that has a config.
abbrev configured : FamiliesConfig → Option String → String → String → ℤ → AssetScan
configured families instance_config scan_id asset_id now = record {
  id = none;
  scan = some (record { id = scan_id; max_parallel_scanners = none });
  asset = some (record { id = asset_id; info = none });
  status = some (AssetScanStatus.new now AssetScanStatus.pending AssetScanStatus.created none);
  cleanup =
      some (CleanupStatus.new now CleanupStatus.pending CleanupStatus.asset_scan_created none);
  summary = some zero_totals;
  families_config = some families;
  instance_config = instance_config;
  families = record {
    sbom = some (map_family_config now families.sbom);
    exploits = some (map_family_config now families.exploits);
    vulnerabilities = some (map_family_config now families.vulnerabilities);
    malware = some (map_family_config now families.malware);
    rootkits = some (map_family_config now families.rootkits);
    secrets = some (map_family_config now families.secrets);
    misconfigurations = some (map_family_config now families.misconfigurations);
    info_finder = some (map_family_config now families.info_finder);
  };
  findings_processed = none;
  stats = none;
  annotations = none;
}

-- A template, or its families, may be missing; an ID that is nil is read.
unfoldable pub new_asset_scan_from_scan : ℤ → Scan → String → Result AssetScan
new_asset_scan_from_scan now scan asset_id = elim scan.template [
  | none ↦ err invalid
  | some template ↦ elim template.families [
    | none ↦ err invalid
    | some families ↦ elim scan.id [
      | none ↦ panics
      | some scan_id ↦ ok (configured families template.instance_config scan_id asset_id now)
    ]
  ]
]

-- The answer to PostAssetScan: an AssetScan that exists already is no error.
after_post : Posted → Result (Unit {0})
after_post created = ok tt
after_post (conflict (some id)) = ok tt
after_post (conflict none) = panics
after_post refused = err failed_call

unfoldable pub post : Client → AssetScan → Act Call (Unit {0})
unfolding after_post
post c a = (post_asset_scan a ∷ [], after_post (c.posts_asset_scan a))

-- The error path prints *scan.Id.
abbrev generated : Option String → Result AssetScan → Result AssetScan
generated id (ok a) = ok a
generated none (err e) = panics
generated (some _) (err e) = err e
generated id panics = panics

unfoldable pub create_asset_scan_for_asset : Client → Scan → String → Act Call (Unit {0})
unfolding new_asset_scan_from_scan post
create_asset_scan_for_asset c scan asset_id = do
  a ← lift (generated scan.id (new_asset_scan_from_scan c.now scan asset_id))
  post c a

-- A goroutine sends its error on the channel `errs`; a panic ends the process.
abbrev pub settle : Result (Unit {0}) → Result ℕ
settle (ok _) = ok 0
settle (err e) = ok 1
settle panics = panics

-- One goroutine, and the ones after it.
abbrev pub collect : Act Call (Unit {0}) → Act Call ℕ → Act Call ℕ
collect one others = do n ← (one.0, settle one.1); m ← others; pure (n + m)

-- The goroutines, in the order of the list: they share nothing but the channel, of which only the
-- number of errors matters here.
unfoldable pub create_all : Client → Scan → List String → Act Call ℕ
unfolding create_asset_scan_for_asset
create_all c scan [] = pure 0
create_all c scan (id ∷ ids) =
    collect (create_asset_scan_for_asset c scan id) (create_all c scan ids)

abbrev pub with_jobs_left : Scan → ℕ → Result Scan
with_jobs_left scan n = elim scan.summary [
  | none ↦ panics
  | some s ↦ ok (record scan { summary = some (record s { jobs_left = some (pos n) }) })
]

abbrev pub after_errors : Scan → ℕ → ℕ → Result Scan
after_errors scan total zero = with_jobs_left scan total
after_errors scan total (suc _) = elim scan.id [ none ↦ panics | some _ ↦ err failed_call ]

-- For the Scan's AssetIDs, nil or not.
abbrev pub create_listed : Client → Scan → Option (List String) → Act Call Scan
create_listed c scan none = pure scan
create_listed c scan (some ids) =
    create_all c scan ids >>= λ n. lift (after_errors scan (length ids) n)

unfoldable pub create_asset_scans_for_scan : Client → Scan → Act Call Scan
create_asset_scans_for_scan c scan = create_listed c scan scan.asset_ids
