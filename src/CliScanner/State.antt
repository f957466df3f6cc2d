-- ===== src/CliScanner/State.antt =====
-- The state of the AssetScan that the command line scanner reports, cli/state/vmclarity.go.
use vmclarity.Prelude.{
  String, Bool, true, false, Option, none, some, List, [], ◌∷◌, ◌++◌, ◌=?◌, string_eq,
  if◌then◌else◌,
}
use vmclarity.Prelude.Int.{ℤ}
use vmclarity.Go.{
  Result, ok, err, panics, Act, pure, lift, call, require, ◌>>=◌, invalid, failed_call,
}
use vmclarity.ApiTypes.{
  AssetScan, AssetScanState, Annotation, Families, ScannerStatus, scanner_in_progress, scanning,
}
use vmclarity.Status.{new_status}
use vmclarity.Status.AssetScanStatus
use vmclarity.CliScanner.Families.{
  FamilyType, sbom, vulnerabilities, secrets, rootkits, malware, misconfiguration, info_finder,
  exploits,
}

-- The reports of one scan, each of which reads the AssetScan anew.
pub data Report : Type 0 where
  in_progress done failed : Report
  family : FamilyType → Report

-- What GetAssetScan returns for each report, whether the PATCH succeeds, and `config_json` the families
-- config as json.Marshal prints it.
pub record Client : Type 0 where
  pub now : ℤ
  pub asset_scan_at : Report → Option AssetScan
  pub patches_at : Report → AssetScan → Bool
  pub config_json : Option String

-- The body of a PATCH is the whole object.
pub data Call : Type 0 where
  patch_asset_scan : Report → AssetScan → Call

unfoldable pub patch : Client → Report → AssetScan → Act Call (Unit {0})
patch c r a = call (patch_asset_scan r a) (c.patches_at r a)

-- What a tick of the timer finds, and the end of the context.
pub data Tick : Type 0 where
  finds : Option (Option AssetScanState) → Tick
  cancelled : Tick

abbrev by_state : AssetScanStatus.State → Option Bool → Option Bool
by_state AssetScanStatus.pending rest = rest
by_state AssetScanStatus.scheduled rest = rest
by_state AssetScanStatus.aborted rest = rest
by_state AssetScanStatus.ready_to_scan rest = some true
by_state AssetScanStatus.in_progress rest = some true
by_state AssetScanStatus.done rest = some false
by_state AssetScanStatus.failed rest = some false

-- WaitForReadyState: `none` while it waits, and whether it returns no error.
unfoldable pub wait_for_ready_state : List Tick → Option Bool
wait_for_ready_state [] = none
wait_for_ready_state (cancelled ∷ ticks) = some false
wait_for_ready_state (finds none ∷ ticks) = wait_for_ready_state ticks
wait_for_ready_state (finds (some none) ∷ ticks) = some false
wait_for_ready_state (finds (some (some status)) ∷ ticks) =
    let rest = wait_for_ready_state ticks in by_state status.state rest

abbrev pub effective_key : String
effective_key = "openclarity.io/vmclarity-scanner/config"

-- The annotations but the one of the effective config; a key that is nil is read.
unfoldable pub other_annotations : List Annotation → Result (List Annotation)
other_annotations [] = ok []
other_annotations (a ∷ rest) = elim a.key [
  | none ↦ panics
  | some key ↦ elim (other_annotations rest) [
    | ok more ↦ ok (if key =? effective_key then more else a ∷ more)
    | err e ↦ err e
    | panics ↦ panics
  ]
]

abbrev listed : Option (List Annotation) → List Annotation
listed none = []
listed (some l) = l

-- appendEffectiveScanConfigAnnotation.
unfoldable pub append_effective_config :
    Option (List Annotation) → Option String → Act Call (List Annotation)
unfolding other_annotations
append_effective_config annotations config = do
  others ← lift (other_annotations (listed annotations))
  text ← lift (require config invalid)
  pure (others ++ record { key = some effective_key; value = some text } ∷ [])

-- MarkInProgress.
unfoldable pub mark_in_progress : Client → Act Call (Unit {0})
unfolding patch append_effective_config
mark_in_progress c = do
  a ← lift (require (c.asset_scan_at in_progress) failed_call)
  annotations ← append_effective_config a.annotations c.config_json
  patch c in_progress (record a {
    stats = some (record {
      general =
          some (record { scan_time = some (record { start_time = some c.now; end_time = none }) });
    });
    status = some (
        AssetScanStatus.new c.now AssetScanStatus.in_progress AssetScanStatus.scanner_is_running
          none);
    annotations = some annotations;
  })

-- assetScan.Stats.General.ScanTime.EndTime = now
unfoldable pub stop_clock : ℤ → AssetScan → Result AssetScan
stop_clock now a = elim a.stats [
  | none ↦ panics
  | some stats ↦ elim stats.general [
    | none ↦ panics
    | some general ↦ elim general.scan_time [
      | none ↦ panics
      | some time ↦ ok (record a {
        stats = some (record {
          general = some (record {
            scan_time = some (record { start_time = time.start_time; end_time = some now });
          });
        });
      })
    ]
  ]
]

-- MarkDone.
unfoldable pub mark_done : Client → Act Call (Unit {0})
unfolding patch stop_clock
mark_done c = do
  a ← lift (require (c.asset_scan_at done) failed_call)
  stopped ← lift (stop_clock c.now a)
  patch c done (record stopped {
    status = some (AssetScanStatus.new c.now AssetScanStatus.done AssetScanStatus.success none);
  })

-- MarkFailed.
unfoldable pub mark_failed : Client → String → Act Call (Unit {0})
unfolding patch stop_clock
mark_failed c message = do
  a ← lift (require (c.asset_scan_at failed) failed_call)
  stopped ← lift (stop_clock c.now a)
  patch c failed (record stopped {
    status =
        some
          (AssetScanStatus.new c.now AssetScanStatus.failed AssetScanStatus.error (some message));
  })

abbrev in_progress_status : ℤ → ScannerStatus
in_progress_status now = new_status now scanner_in_progress scanning none

-- The field that each of the eight mark…ScanInProgress sets.
unfoldable pub with_family : FamilyType → ScannerStatus → Families → Families
with_family sbom st f = record f { sbom = some st }
with_family vulnerabilities st f = record f { vulnerabilities = some st }
with_family secrets st f = record f { secrets = some st }
with_family rootkits st f = record f { rootkits = some st }
with_family malware st f = record f { malware = some st }
with_family misconfiguration st f = record f { misconfigurations = some st }
with_family info_finder st f = record f { info_finder = some st }
with_family exploits st f = record f { exploits = some st }

-- MarkFamilyScanInProgress.
unfoldable pub mark_family : Client → FamilyType → Act Call (Unit {0})
unfolding patch with_family
mark_family c f = do
  a ← lift (require (c.asset_scan_at (family f)) failed_call)
  patch c (family f) (record a { families = with_family f (in_progress_status c.now) a.families })
