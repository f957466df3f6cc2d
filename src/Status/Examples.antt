-- ===== src/Status/Examples.antt =====
-- The theorems on statuses at those of a Scan and of an AssetScan.
use vmclarity.Prelude.{◌-◌, ◌≤◌, ◌≡◌, refl, ◌↔◌, ◌⊎◌, none, some, [], ◌∷◌, any→Mem}
use vmclarity.Prelude.Int.{pos}
use vmclarity.Status.{Status, is_valid_transition}
use vmclarity.Status.Laws.{SameStatus, IsEdge, HasReason, is_valid_transition_iff}
use vmclarity.Status.History.{Merges, requests, changes, requests-HasReason}
use vmclarity.Status.Tables.{scan_changes, scan_rank}
use vmclarity.Status.ScanStatus
use vmclarity.Status.ScanStatus.{state_eq, reason_eq}
use vmclarity.Status.AssetScanStatus
use vmclarity.Status.AssetScanStatus.{
  state_eq as asset_scan_state_eq, reason_eq as asset_scan_reason_eq,
}

abbrev ScanState : Type 0
ScanState = Status ScanStatus.State ScanStatus.Reason

abbrev AssetScanState : Type 0
AssetScanState = Status AssetScanStatus.State AssetScanStatus.Reason

abbrev pending_scan : ScanState
pending_scan = record {
  state = ScanStatus.pending;
  reason = ScanStatus.created;
  message = none;
  last_transition_time = pos 1;
}

abbrev discovered_scan : ScanState
discovered_scan = record {
  state = ScanStatus.discovered;
  reason = ScanStatus.assets_discovered;
  message = some "found";
  last_transition_time = pos 2;
}

abbrev done_scan : ScanState
done_scan = record {
  state = ScanStatus.done;
  reason = ScanStatus.success;
  message = none;
  last_transition_time = pos 3;
}

-- A merge keeps the stored message where the patch has none.
abbrev merge : {S R : Type 0} → Status S R → Status S R → Status S R
merge a b = record b { message = elim b.message [ none ↦ a.message | some m ↦ some m ] }

merge-Merges : {S R : Type 0} → Merges (merge {S = S} {R = R})
merge-Merges = record { merged_state = λ a b. refl; merged_reason = λ a b. refl }

is_valid_transition_iff_example :
    (is_valid_transition ScanStatus.machine pending_scan discovered_scan ≡ none) ↔ (
      SameStatus pending_scan discovered_scan
      ⊎ IsEdge ScanStatus.machine pending_scan discovered_scan)
is_valid_transition_iff_example =
    is_valid_transition_iff ScanStatus.machine pending_scan discovered_scan

requests-HasReason_example :
    HasReason ScanStatus.machine
      (requests merge ScanStatus.machine pending_scan (discovered_scan ∷ done_scan ∷ []))
unfolding ScanStatus.machine ScanStatus.reasons
requests-HasReason_example =
    requests-HasReason merge merge-Merges ScanStatus.machine pending_scan
      (discovered_scan ∷ done_scan ∷ []) (any→Mem ScanStatus.created (ScanStatus.created ∷ []) refl)

scan_changes_example :
    changes merge ScanStatus.machine pending_scan (discovered_scan ∷ done_scan ∷ [])
    ≤ 4 - scan_rank ScanStatus.pending
scan_changes_example =
    scan_changes merge merge-Merges pending_scan (discovered_scan ∷ done_scan ∷ [])

abbrev scheduled : AssetScanState
scheduled = record {
  state = AssetScanStatus.scheduled;
  reason = AssetScanStatus.provisioning;
  message = none;
  last_transition_time = pos 2;
}

abbrev ready : AssetScanState
ready = record {
  state = AssetScanStatus.ready_to_scan;
  reason = AssetScanStatus.resources_ready;
  message = none;
  last_transition_time = pos 3;
}
