-- ===== src/Status/Tables.antt =====
-- The five tables of api/types under any history of requested updates: how far a state is from the
-- end of its table, and so how often it can still change.
use mathlib.Core.List.{Mem}
use vmclarity.Prelude.{ℕ, ◌-◌, ◌≤◌, ◌<◌, ◌≡◌, true, List, arith, any, Mem→any, ◌=?◌}
use vmclarity.Status.{Status}
use vmclarity.Status.History.{Merges, changes, changes_bounded}
use vmclarity.Status.ScanStatus
use vmclarity.Status.AssetScanStatus
use vmclarity.Status.CleanupStatus
use vmclarity.Status.AssetScanEstimationStatus
use vmclarity.Status.ScanEstimationStatus
use vmclarity.Status.ScanStatus.{state_eq as scan_state_eq, reason_eq as scan_reason_eq}
use vmclarity.Status.AssetScanStatus.{
  state_eq as asset_scan_state_eq, reason_eq as asset_scan_reason_eq,
}
use vmclarity.Status.CleanupStatus.{state_eq as cleanup_state_eq, reason_eq as cleanup_reason_eq}
use vmclarity.Status.AssetScanEstimationStatus.{
  state_eq as asset_scan_estimation_state_eq, reason_eq as asset_scan_estimation_reason_eq,
}
use vmclarity.Status.ScanEstimationStatus.{
  state_eq as scan_estimation_state_eq, reason_eq as scan_estimation_reason_eq,
}

abbrev pub scan_rank : ScanStatus.State → ℕ
scan_rank ScanStatus.pending = 0
scan_rank ScanStatus.discovered = 1
scan_rank ScanStatus.in_progress = 2
scan_rank ScanStatus.aborted = 3
scan_rank ScanStatus.failed = 4
scan_rank ScanStatus.done = 4

scan_climbs_test :
    (s t : ScanStatus.State)
    → any (λ x. x =? t) (ScanStatus.transitions s) ≡ true
    → scan_rank s < scan_rank t
unfolding ScanStatus.transitions
scan_climbs_test s t h = ground arith

scan_climbs :
    (s t : ScanStatus.State) → Mem t (ScanStatus.machine.transitions s) → scan_rank s < scan_rank t
unfolding ScanStatus.machine
scan_climbs s t e = scan_climbs_test s t (Mem→any t (ScanStatus.transitions s) e)

scan_capped : (s : ScanStatus.State) → scan_rank s ≤ 4
scan_capped s = ground arith

-- Where a merge takes state and reason from the update: a Scan changes its state at most 4 times,
-- whatever updates are requested, and at most as often as its rank is below 4.
pub scan_changes :
    (merge : Status ScanStatus.State ScanStatus.Reason
      → Status ScanStatus.State ScanStatus.Reason
      → Status ScanStatus.State ScanStatus.Reason)
    → Merges merge
    → (a : Status ScanStatus.State ScanStatus.Reason)
      (bs : List (Status ScanStatus.State ScanStatus.Reason))
    → changes merge ScanStatus.machine a bs ≤ 4 - scan_rank a.state
scan_changes merge laws a bs =
    changes_bounded merge laws ScanStatus.machine scan_rank 4 scan_climbs scan_capped a bs

abbrev pub asset_scan_rank : AssetScanStatus.State → ℕ
asset_scan_rank AssetScanStatus.pending = 0
asset_scan_rank AssetScanStatus.scheduled = 1
asset_scan_rank AssetScanStatus.ready_to_scan = 2
asset_scan_rank AssetScanStatus.in_progress = 3
asset_scan_rank AssetScanStatus.aborted = 4
asset_scan_rank AssetScanStatus.failed = 5
asset_scan_rank AssetScanStatus.done = 5

asset_scan_climbs_test :
    (s t : AssetScanStatus.State)
    → any (λ x. x =? t) (AssetScanStatus.transitions s) ≡ true
    → asset_scan_rank s < asset_scan_rank t
unfolding AssetScanStatus.transitions
asset_scan_climbs_test s t h = ground arith

asset_scan_climbs :
    (s t : AssetScanStatus.State)
    → Mem t (AssetScanStatus.machine.transitions s)
    → asset_scan_rank s < asset_scan_rank t
unfolding AssetScanStatus.machine
asset_scan_climbs s t e = asset_scan_climbs_test s t (Mem→any t (AssetScanStatus.transitions s) e)

asset_scan_capped : (s : AssetScanStatus.State) → asset_scan_rank s ≤ 5
asset_scan_capped s = ground arith

-- Where a merge takes state and reason from the update: an AssetScan changes its state at most 5 times,
-- whatever updates are requested, and at most as often as its rank is below 5.
pub asset_scan_changes :
    (merge : Status AssetScanStatus.State AssetScanStatus.Reason
      → Status AssetScanStatus.State AssetScanStatus.Reason
      → Status AssetScanStatus.State AssetScanStatus.Reason)
    → Merges merge
    → (a : Status AssetScanStatus.State AssetScanStatus.Reason)
      (bs : List (Status AssetScanStatus.State AssetScanStatus.Reason))
    → changes merge AssetScanStatus.machine a bs ≤ 5 - asset_scan_rank a.state
asset_scan_changes merge laws a bs =
    changes_bounded merge laws AssetScanStatus.machine asset_scan_rank 5 asset_scan_climbs
      asset_scan_capped a bs

abbrev pub cleanup_rank : CleanupStatus.State → ℕ
cleanup_rank CleanupStatus.pending = 0
cleanup_rank CleanupStatus.skipped = 1
cleanup_rank CleanupStatus.failed = 1
cleanup_rank CleanupStatus.done = 1

cleanup_climbs_test :
    (s t : CleanupStatus.State)
    → any (λ x. x =? t) (CleanupStatus.transitions s) ≡ true
    → cleanup_rank s < cleanup_rank t
unfolding CleanupStatus.transitions
cleanup_climbs_test s t h = ground arith

cleanup_climbs :
    (s t : CleanupStatus.State)
    → Mem t (CleanupStatus.machine.transitions s)
    → cleanup_rank s < cleanup_rank t
unfolding CleanupStatus.machine
cleanup_climbs s t e = cleanup_climbs_test s t (Mem→any t (CleanupStatus.transitions s) e)

cleanup_capped : (s : CleanupStatus.State) → cleanup_rank s ≤ 1
cleanup_capped s = ground arith

-- Where a merge takes state and reason from the update: a resource cleanup changes its state at most once,
-- whatever updates are requested, and at most as often as its rank is below 1.
pub cleanup_changes :
    (merge : Status CleanupStatus.State CleanupStatus.Reason
      → Status CleanupStatus.State CleanupStatus.Reason
      → Status CleanupStatus.State CleanupStatus.Reason)
    → Merges merge
    → (a : Status CleanupStatus.State CleanupStatus.Reason)
      (bs : List (Status CleanupStatus.State CleanupStatus.Reason))
    → changes merge CleanupStatus.machine a bs ≤ 1 - cleanup_rank a.state
cleanup_changes merge laws a bs =
    changes_bounded merge laws CleanupStatus.machine cleanup_rank 1 cleanup_climbs cleanup_capped a
      bs

abbrev pub asset_scan_estimation_rank : AssetScanEstimationStatus.State → ℕ
asset_scan_estimation_rank AssetScanEstimationStatus.pending = 0
asset_scan_estimation_rank AssetScanEstimationStatus.failed = 1
asset_scan_estimation_rank AssetScanEstimationStatus.done = 1
asset_scan_estimation_rank AssetScanEstimationStatus.aborted = 2

asset_scan_estimation_climbs_test :
    (s t : AssetScanEstimationStatus.State)
    → any (λ x. x =? t) (AssetScanEstimationStatus.transitions s) ≡ true
    → asset_scan_estimation_rank s < asset_scan_estimation_rank t
unfolding AssetScanEstimationStatus.transitions
asset_scan_estimation_climbs_test s t h = ground arith

asset_scan_estimation_climbs :
    (s t : AssetScanEstimationStatus.State)
    → Mem t (AssetScanEstimationStatus.machine.transitions s)
    → asset_scan_estimation_rank s < asset_scan_estimation_rank t
unfolding AssetScanEstimationStatus.machine
asset_scan_estimation_climbs s t e =
    asset_scan_estimation_climbs_test s t (Mem→any t (AssetScanEstimationStatus.transitions s) e)

asset_scan_estimation_capped :
    (s : AssetScanEstimationStatus.State) → asset_scan_estimation_rank s ≤ 2
asset_scan_estimation_capped s = ground arith

-- Where a merge takes state and reason from the update: an AssetScanEstimation changes its state at most 2 times,
-- whatever updates are requested, and at most as often as its rank is below 2.
pub asset_scan_estimation_changes :
    (merge : Status AssetScanEstimationStatus.State AssetScanEstimationStatus.Reason
      → Status AssetScanEstimationStatus.State AssetScanEstimationStatus.Reason
      → Status AssetScanEstimationStatus.State AssetScanEstimationStatus.Reason)
    → Merges merge
    → (a : Status AssetScanEstimationStatus.State AssetScanEstimationStatus.Reason)
      (bs : List (Status AssetScanEstimationStatus.State AssetScanEstimationStatus.Reason))
    → changes merge AssetScanEstimationStatus.machine a bs ≤ 2 - asset_scan_estimation_rank a.state
asset_scan_estimation_changes merge laws a bs =
    changes_bounded merge laws AssetScanEstimationStatus.machine asset_scan_estimation_rank 2
      asset_scan_estimation_climbs asset_scan_estimation_capped a bs

abbrev pub scan_estimation_rank : ScanEstimationStatus.State → ℕ
scan_estimation_rank ScanEstimationStatus.pending = 0
scan_estimation_rank ScanEstimationStatus.discovered = 1
scan_estimation_rank ScanEstimationStatus.in_progress = 2
scan_estimation_rank ScanEstimationStatus.aborted = 3
scan_estimation_rank ScanEstimationStatus.failed = 4
scan_estimation_rank ScanEstimationStatus.done = 4

scan_estimation_climbs_test :
    (s t : ScanEstimationStatus.State)
    → any (λ x. x =? t) (ScanEstimationStatus.transitions s) ≡ true
    → scan_estimation_rank s < scan_estimation_rank t
unfolding ScanEstimationStatus.transitions
scan_estimation_climbs_test s t h = ground arith

scan_estimation_climbs :
    (s t : ScanEstimationStatus.State)
    → Mem t (ScanEstimationStatus.machine.transitions s)
    → scan_estimation_rank s < scan_estimation_rank t
unfolding ScanEstimationStatus.machine
scan_estimation_climbs s t e =
    scan_estimation_climbs_test s t (Mem→any t (ScanEstimationStatus.transitions s) e)

scan_estimation_capped : (s : ScanEstimationStatus.State) → scan_estimation_rank s ≤ 4
scan_estimation_capped s = ground arith

-- Where a merge takes state and reason from the update: a ScanEstimation changes its state at most 4 times,
-- whatever updates are requested, and at most as often as its rank is below 4.
pub scan_estimation_changes :
    (merge : Status ScanEstimationStatus.State ScanEstimationStatus.Reason
      → Status ScanEstimationStatus.State ScanEstimationStatus.Reason
      → Status ScanEstimationStatus.State ScanEstimationStatus.Reason)
    → Merges merge
    → (a : Status ScanEstimationStatus.State ScanEstimationStatus.Reason)
      (bs : List (Status ScanEstimationStatus.State ScanEstimationStatus.Reason))
    → changes merge ScanEstimationStatus.machine a bs ≤ 4 - scan_estimation_rank a.state
scan_estimation_changes merge laws a bs =
    changes_bounded merge laws ScanEstimationStatus.machine scan_estimation_rank 4
      scan_estimation_climbs scan_estimation_capped a bs
