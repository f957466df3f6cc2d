-- ===== src/ScanWatcher/Abort/Pending.antt =====
-- reconcileAborted with AssetScans that have not started: its filter selects them, and the table of
-- assetscanstatus.go does not let them become Aborted.
use vmclarity.Prelude.{
  String, ◌≡◌, ◌⊎◌, inl, inr, refl, true, false, Option, none, some, List, ◌∷◌, arith, any, All,
  Mem→any,
}
use vmclarity.Prelude.Int.{ℤ}
use vmclarity.Go.{err, failed_call}
use vmclarity.Goroutines.{one_by_one}
use vmclarity.ApiTypes.{Scan, AssetScan, AssetScanState}
use vmclarity.Status.Laws.{is_valid_transition_iff}
use vmclarity.Status.AssetScanStatus
use vmclarity.Status.AssetScanStatus.{state_eq, reason_eq}
use vmclarity.ScanWatcher.Api.{Client, unfinished_of_scan}
use vmclarity.ScanWatcher.Abort.{cancelled, ids_of, reconcile_aborted}
use vmclarity.ScanWatcher.Abort.Race.{fails, OfAssetScan, abort_retries}

-- The table has no edge to Aborted from Pending or Scheduled.
no_abort :
    (c : Client) (st : AssetScanState)
    → (st.state ≡ AssetScanStatus.pending) ⊎ (st.state ≡ AssetScanStatus.scheduled)
    → ¬ (AssetScanStatus.check st (cancelled c) ≡ none)
unfolding AssetScanStatus.check AssetScanStatus.machine AssetScanStatus.transitions
    AssetScanStatus.new
no_abort c st (inl h) accepted =
    elim ((is_valid_transition_iff AssetScanStatus.machine st (cancelled c)).0 accepted) [
      | inl same ↦ cc (h, same.0)
      | inr edge ↦
          cc (
            rw h at (Mem→any AssetScanStatus.aborted (AssetScanStatus.transitions st.state) edge.1))
    ]
no_abort c st (inr h) accepted =
    elim ((is_valid_transition_iff AssetScanStatus.machine st (cancelled c)).0 accepted) [
      | inl same ↦ cc (h, same.0)
      | inr edge ↦
          cc (
            rw h at (Mem→any AssetScanStatus.aborted (AssetScanStatus.transitions st.state) edge.1))
    ]

first_fails :
    (c : Client) (a : AssetScan) (rest : List AssetScan) (i : String)
    → a.id ≡ some i
    → fails c i ≡ true
    → any (fails c) (ids_of (a ∷ rest)) ≡ true
unfolding ids_of
first_fails c a rest i known bad = ground arith

-- An aborted Scan, of which the API lists first an AssetScan that is Pending or Scheduled, where the server
-- refuses what its check refuses, and the goroutines run one after the other: reconcileAborted returns an error and
-- does not touch the Scan.
abort_waits :
    (c : Client) (scan : Scan) (id : String) (a : AssetScan) (rest : List AssetScan)
    (count : Option ℤ) (i : String) (st : AssetScanState)
    → scan.id ≡ some id
    → c.get_asset_scans (unfinished_of_scan id)
      ≡ some (record { count = count; items = some (a ∷ rest) })
    → a.id ≡ some i
    → (st.state ≡ AssetScanStatus.pending) ⊎ (st.state ≡ AssetScanStatus.scheduled)
    → (¬ (AssetScanStatus.check st (cancelled c) ≡ none)
        → c.patches_asset_scan i (cancelled c) ≡ false)
    → ((reconcile_aborted c one_by_one scan).1 ≡ err failed_call)
      × All OfAssetScan (reconcile_aborted c one_by_one scan).0
abort_waits c scan id a rest count i st known listed job state obeys =
    abort_retries c scan id (a ∷ rest) count known listed
      (first_fails c a rest i job (rw (obeys (no_abort c st state)) refl))
