-- ===== src/CliScanner/Reports.antt =====
-- What the command `scan` reports of the AssetScan (cli/cmd/scan/scan.go and cli/state/vmclarity.go).
pub mod Calls
use mathlib.Core.List.{append_assoc}
use vmclarity.Prelude.{
  String, ◌≡◌, refl, sym, ◌∙◌, ◌⊎◌, inl, inr, true, false, none, some, List, [], ◌∷◌, ◌++◌, arith,
}
use vmclarity.Prelude.Int.{ℤ}
use vmclarity.Go.{ok, err, panics, Act, ◌>>◌}
use vmclarity.ApiTypes.{AssetScan, AssetScanState, ScanTime}
use vmclarity.Status.{is_valid_reason}
use vmclarity.Status.Laws.{accept_move}
use vmclarity.Status.AssetScanStatus
use vmclarity.Status.AssetScanStatus.{state_eq, reason_eq}
use vmclarity.CliScanner.Families.{RunError, new_manager}
use vmclarity.CliScanner.State.{
  Client, Call, Report, done, failed, patch_asset_scan, patch, Tick, wait_for_ready_state,
  mark_in_progress, mark_done, mark_failed, stop_clock,
}
use vmclarity.CliScanner.Runs.{AllOk, run_ok_iff}
use vmclarity.CliScanner.{
  Setup, runner, run_errors, report, family_calls, scan_families, after_wait, scan_command,
}
use vmclarity.CliScanner.Reports.Calls.{
  HasClock, done_status, failed_status, last_body, mark_done-calls, mark_failed-calls, bind-calls,
}

module _ {R : Type 0} (s : Setup R) where
  -- The calls of a run of the command that gets as far as its last report.
  abbrev pub Reported : List Tick → AssetScanState → Type 0
  Reported ticks status =
      (before : List Call) × (r : Report) × (b : AssetScan) × (m : Act Call (Unit {0}))
      × (scan_command s ticks ≡ some m)
      × (m.0 ≡ before ++ patch_asset_scan r b ∷ [])
      × (b.status ≡ some status)

  goes_on :
      (ticks : List Tick)
      → wait_for_ready_state ticks ≡ some true
      → s.mounts ≡ true
      → scan_command s ticks ≡ some (scan_families s)
  unfolding scan_command after_wait
  goes_on ticks waited mounted = rw (scan_command, waited, after_wait, mounted) refl

  scan_families-calls :
      (r : Report) (b : AssetScan)
      → (mark_in_progress s.client).1 ≡ ok tt
      → (report s (run_errors s)).0 ≡ patch_asset_scan r b ∷ []
      → (scan_families s).0
        ≡ ((mark_in_progress s.client).0 ++ family_calls s (new_manager s.enabled))
          ++ patch_asset_scan r b ∷ []
  unfolding scan_families
  scan_families-calls r b marked last =
      bind-calls (mark_in_progress s.client)
        ((family_calls s (new_manager s.enabled), ok tt) >> report s (run_errors s)) marked
      ∙ rw last (
          sym (
            append_assoc (mark_in_progress s.client).0 (family_calls s (new_manager s.enabled))
              (patch_asset_scan r b ∷ [])))

  report-Reported :
      (ticks : List Tick) (r : Report) (b : AssetScan) (status : AssetScanState)
      → wait_for_ready_state ticks ≡ some true
      → s.mounts ≡ true
      → (mark_in_progress s.client).1 ≡ ok tt
      → (report s (run_errors s)).0 ≡ patch_asset_scan r b ∷ []
      → b.status ≡ some status
      → Reported ticks status
  report-Reported ticks r b status waited mounted marked last is = (
    (mark_in_progress s.client).0 ++ family_calls s (new_manager s.enabled),
    r,
    b,
    scan_families s,
    goes_on ticks waited mounted,
    scan_families-calls r b marked last,
    is,
  )

  -- The reports after Run, from its errors.
  report-done :
      (errors : List RunError) (a : AssetScan) (time : ScanTime)
      → errors ≡ []
      → s.client.asset_scan_at done ≡ some a
      → HasClock a time
      → (report s errors).0
        ≡ patch_asset_scan done (last_body s.client.now a time (done_status s.client.now)) ∷ []
  unfolding report
  report-done [] a time e got clock = mark_done-calls s.client a time got clock
  report-done (x ∷ xs) a time e got clock = cc e

  report-failed :
      (errors : List RunError) (a : AssetScan) (time : ScanTime)
      → ¬ (errors ≡ [])
      → s.client.asset_scan_at failed ≡ some a
      → HasClock a time
      → (message : String) × ((report s errors).0
          ≡ patch_asset_scan failed
              (last_body s.client.now a time (failed_status s.client.now message))
            ∷ [])
  unfolding report
  report-failed [] a time e got clock = absurd (e refl)
  report-failed (x ∷ xs) a time e got clock =
      (s.text (x ∷ xs), mark_failed-calls s.client (s.text (x ∷ xs)) a time got clock)

accepts_done :
    (now : ℤ) (st : AssetScanState)
    → st.state ≡ AssetScanStatus.in_progress
    → AssetScanStatus.check st (done_status now) ≡ none
unfolding AssetScanStatus.check AssetScanStatus.new AssetScanStatus.machine is_valid_reason
accepts_done now st h =
    accept_move AssetScanStatus.machine st (done_status now) AssetScanStatus.in_progress h refl refl

accepts_failed :
    (now : ℤ) (message : String) (st : AssetScanState)
    → st.state ≡ AssetScanStatus.in_progress
    → AssetScanStatus.check st (failed_status now message) ≡ none
unfolding AssetScanStatus.check AssetScanStatus.new AssetScanStatus.machine is_valid_reason
accepts_failed now message st h =
    accept_move AssetScanStatus.machine st (failed_status now message) AssetScanStatus.in_progress h
      refl refl

abbrev pub EndsDone : {R : Type 0} → Setup R → List Tick → AssetScanState → Type 0
EndsDone s ticks st =
    AllOk (runner s) (new_manager s.enabled) []
    × Reported s ticks (done_status s.client.now)
    × (AssetScanStatus.check st (done_status s.client.now) ≡ none)

abbrev pub EndsFailed : {R : Type 0} → Setup R → List Tick → AssetScanState → Type 0
EndsFailed s ticks st =
    (¬ AllOk (runner s) (new_manager s.enabled) [])
    × ((message : String) × Reported s ticks (failed_status s.client.now message)
        × (AssetScanStatus.check st (failed_status s.client.now message) ≡ none))

-- Where the AssetScan becomes ready, the volumes are mounted and MarkInProgress succeeds, and the
-- AssetScan that MarkDone or MarkFailed reads has the clock that MarkInProgress has started: the last
-- report is Done if every enabled family is started, not cancelled, runs without error and is exported,
-- and Failed if not. The server's check accepts it from an AssetScan in progress.
pub command_reports :
    {R : Type 0} (s : Setup R) (ticks : List Tick) (a b : AssetScan) (t u : ScanTime)
    (st : AssetScanState)
    → wait_for_ready_state ticks ≡ some true
    → s.mounts ≡ true
    → (mark_in_progress s.client).1 ≡ ok tt
    → s.client.asset_scan_at done ≡ some a
    → HasClock a t
    → s.client.asset_scan_at failed ≡ some b
    → HasClock b u
    → st.state ≡ AssetScanStatus.in_progress
    → EndsDone s ticks st ⊎ EndsFailed s ticks st
command_reports s ticks a b t u st waited mounted marked got clock got' clock' running =
    by_errors (run_errors s) refl
  where
    by_errors :
        (errors : List RunError)
        → run_errors s ≡ errors
        → EndsDone s ticks st ⊎ EndsFailed s ticks st
    by_errors [] e = inl (
      (run_ok_iff (runner s) (new_manager s.enabled) []).0 e,
      report-Reported s ticks done (last_body s.client.now a t (done_status s.client.now))
          (done_status s.client.now) waited mounted marked
          (report-done s (run_errors s) a t e got clock) refl,
      accepts_done s.client.now st running,
    )
    by_errors (x ∷ xs) e =
        let bad : ¬ (run_errors s ≡ []) = λ h. cc (h, e) in
        let (message, last) = report-failed s (run_errors s) b u bad got' clock' in
        inr (
          λ all. bad ((run_ok_iff (runner s) (new_manager s.enabled) []).1 all),
          (
            message,
            report-Reported s ticks failed
                (last_body s.client.now b u (failed_status s.client.now message))
                (failed_status s.client.now message) waited mounted marked last refl,
            accepts_failed s.client.now message st running,
          ),
        )

no_clock-panics : (now : ℤ) (a : AssetScan) → a.stats ≡ none → stop_clock now a ≡ panics
unfolding stop_clock
no_clock-panics now a fresh = ground arith

mark_failed-panics :
    (c : Client) (message : String) (a : AssetScan)
    → c.asset_scan_at failed ≡ some a
    → a.stats ≡ none
    → mark_failed c message ≡ ([], panics)
unfolding mark_failed
mark_failed-panics c message a got fresh = simp (got, no_clock-panics c.now a fresh) refl

-- Where WaitForReadyState returns an error, as it does when the scan is aborted before it has started,
-- and the AssetScan that is read has no statistics: the command panics in MarkFailed, and nothing is
-- reported.
early_failure_panics :
    {R : Type 0} (s : Setup R) (ticks : List Tick) (a : AssetScan)
    → wait_for_ready_state ticks ≡ some false
    → s.client.asset_scan_at failed ≡ some a
    → a.stats ≡ none
    → scan_command s ticks ≡ some ([], panics)
unfolding scan_command after_wait
early_failure_panics s ticks a waited got fresh =
    rw
      (
        scan_command,
        waited,
        mark_failed-panics s.client "failed to wait for AssetScan being ready to scan" a got fresh,
      )
      refl
