-- ===== src/ScanWatcher/Updates.antt =====
-- The status updates that the Scan controller sends, against the check that the API server makes of
-- them (scanstatus.go).
pub mod Handlers
use vmclarity.Prelude.{
  ℕ, String, ◌≡◌, refl, true, false, Option, none, some, List, [], ◌∷◌, ◌+◌, length, arith, All,
  any, ◌=?◌, Mem→any, inl, inr,
}
use vmclarity.Prelude.Int.{ℤ, pos, ◌-ℤ◌, int64}
use vmclarity.Go.{
  err, deref, failed_call, Act, All-bind, All-call, OnlyCalls, only_bind, only_lift, only, ◌>>=◌,
  pure, lift, require, invalid,
}
use vmclarity.Goroutines.{GoStep, run_steps-All}
use vmclarity.ApiTypes.{Scan, AssetScan, ScanState, ScanSummary, is_timed_out}
use vmclarity.Status.{is_valid_reason, is_valid_status_transition}
use vmclarity.Status.Laws.{is_valid_transition_iff, accept_edge, accept_same}
use vmclarity.Status.ScanStatus
use vmclarity.Status.ScanStatus.{state_eq, reason_eq}
use vmclarity.ScanWatcher.Api.{
  Client, Call, ScanPatch, patch_scan, patch_asset_scan, unfinished_of_scan, of_scan,
}
use vmclarity.ScanWatcher.Steps.{
  patch, reconcile_pending, reconcile_discovered, start, reconcile_in_progress, discovered,
  progressed, final_status,
}
use vmclarity.ScanWatcher.Summary.{summarise, new_scan_summary}
use vmclarity.ScanWatcher.Create.{
  create_all, collect, settle, after_errors, create_listed, create_asset_scan_for_asset,
  create_asset_scans_for_scan, post,
}
use vmclarity.ScanWatcher.Abort.{ids_of, cancelled, abort_asset_scans, reconcile_aborted}
use vmclarity.ScanWatcher.{timed_out, reconcile, dispatch, expire}
use vmclarity.ScanWatcher.Updates.Handlers.{
  Accepted, no_edge, pending-Accepted, discovered-Accepted, in_progress-Accepted, aborted-Accepted,
}

dispatch-Accepted :
    (s : ScanStatus.State) (c : Client) (schedule : List String → List GoStep) (scan : Scan)
    (st : ScanState)
    → scan.status ≡ some st
    → st.state ≡ s
    → All (Accepted st) (dispatch s c schedule scan).0
unfolding dispatch
dispatch-Accepted ScanStatus.pending c schedule scan st e h = pending-Accepted c scan st h
dispatch-Accepted ScanStatus.discovered c schedule scan st e h = discovered-Accepted c scan st h
dispatch-Accepted ScanStatus.in_progress c schedule scan st e h = in_progress-Accepted c scan st e h
dispatch-Accepted ScanStatus.aborted c schedule scan st e h = aborted-Accepted c schedule scan st h
dispatch-Accepted ScanStatus.done c schedule scan st e h = tt
dispatch-Accepted ScanStatus.failed c schedule scan st e h = tt

-- For a Scan that has a status and has not timed out, the API server's check accepts every status of the
-- Scan that Reconcile asks for, from the status that Reconcile read.
pub updates-Accepted :
    (c : Client) (schedule : List String → List GoStep) (scan_id : String) (scan : Scan)
    (st : ScanState)
    → c.get_scan scan_id ≡ some (some scan)
    → is_timed_out c.now scan c.scan_timeout ≡ false
    → scan.status ≡ some st
    → All (Accepted st) (reconcile c schedule scan_id).0
unfolding reconcile expire
updates-Accepted c schedule scan_id scan st found fresh e =
    simp (found, fresh, e) (dispatch-Accepted st.state c schedule scan st e refl)

-- A Discovered Scan that has an ID and has timed out, where PatchScan of it fails for a status that the
-- server's check refuses: every run of Reconcile makes one call, which asks for Failed, and ends with
-- its error. So the Scan stays Discovered.
pub discovered_timeout_stuck :
    (c : Client) (schedule : List String → List GoStep) (scan_id id : String) (scan : Scan)
    (st : ScanState)
    → ((p : ScanPatch) → ¬ Accepted st (patch_scan id p) → c.patches_scan id p ≡ false)
    → c.get_scan scan_id ≡ some (some scan)
    → is_timed_out c.now scan c.scan_timeout ≡ true
    → scan.id ≡ some id
    → st.state ≡ ScanStatus.discovered
    → reconcile c schedule scan_id ≡ (
      patch_scan id (record {
        status = some (timed_out c.now);
        summary = none;
        end_time = none;
        asset_ids = none;
      })
          ∷ [],
      err failed_call,
    )
unfolding reconcile expire patch ScanStatus.new
discovered_timeout_stuck c schedule scan_id id scan st obeys found late e h =
    simp (found, late, e, obeys expiry refused) refl
  where
    expiry : ScanPatch
    expiry = record {
      status = some (timed_out c.now);
      summary = none;
      end_time = none;
      asset_ids = none;
    }

    refused : ¬ Accepted st (patch_scan id expiry)
    refused a = no_edge st (timed_out c.now) h refl a
