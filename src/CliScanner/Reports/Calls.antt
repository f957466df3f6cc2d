-- ===== src/CliScanner/Reports/Calls.antt =====
-- The calls of MarkDone and MarkFailed where they have a clock to stop (cli/state/vmclarity.go).
use vmclarity.Prelude.{String, ◌≡◌, refl, none, some, [], ◌∷◌, ◌++◌, arith}
use vmclarity.Prelude.Int.{ℤ}
use vmclarity.Go.{ok, err, panics, Act, ◌>>◌}
use vmclarity.ApiTypes.{AssetScan, AssetScanState, ScanTime}
use vmclarity.Status.AssetScanStatus
use vmclarity.Status.AssetScanStatus.{state_eq, reason_eq}
use vmclarity.CliScanner.State.{
  Client, Call, Report, done, failed, patch_asset_scan, patch, mark_done, mark_failed, stop_clock,
}

-- The clock that MarkInProgress starts.
abbrev pub HasClock : AssetScan → ScanTime → Type 0
HasClock a time = a.stats ≡ some (record { general = some (record { scan_time = some time }) })

abbrev pub done_status : ℤ → AssetScanState
done_status now = AssetScanStatus.new now AssetScanStatus.done AssetScanStatus.success none

abbrev pub failed_status : ℤ → String → AssetScanState
failed_status now message =
    AssetScanStatus.new now AssetScanStatus.failed AssetScanStatus.error (some message)

-- The last report, with a status.
abbrev pub last_body : ℤ → AssetScan → ScanTime → AssetScanState → AssetScan
last_body now a time status = record a {
  stats = some (record {
    general = some (record {
      scan_time = some (record { start_time = time.start_time; end_time = some now });
    });
  });
  status = some status;
}

patch-calls :
    (c : Client) (r : Report) (a : AssetScan) → (patch c r a).0 ≡ patch_asset_scan r a ∷ []
unfolding patch
patch-calls c r a = ground arith

stop_clock-ok :
    (now : ℤ) (a : AssetScan) (time : ScanTime)
    → HasClock a time
    → stop_clock now a
      ≡ ok (record a {
        stats = some (record {
          general = some (record {
            scan_time = some (record { start_time = time.start_time; end_time = some now });
          });
        });
      })
unfolding stop_clock
stop_clock-ok now a time clock = ground arith

pub mark_done-calls :
    (c : Client) (a : AssetScan) (time : ScanTime)
    → c.asset_scan_at done ≡ some a
    → HasClock a time
    → (mark_done c).0 ≡ patch_asset_scan done (last_body c.now a time (done_status c.now)) ∷ []
unfolding mark_done
mark_done-calls c a time got clock =
    simp (got, stop_clock-ok c.now a time clock) (patch-calls c done _)

pub mark_failed-calls :
    (c : Client) (message : String) (a : AssetScan) (time : ScanTime)
    → c.asset_scan_at failed ≡ some a
    → HasClock a time
    → (mark_failed c message).0
      ≡ patch_asset_scan failed (last_body c.now a time (failed_status c.now message)) ∷ []
unfolding mark_failed
mark_failed-calls c message a time got clock =
    simp (got, stop_clock-ok c.now a time clock) (patch-calls c failed _)

-- The calls of a chain whose first part returns.
pub bind-calls : (m k : Act Call (Unit {0})) → m.1 ≡ ok tt → (m >> k).0 ≡ m.0 ++ k.0
bind-calls (calls, ok u) k e = refl
bind-calls (calls, err x) k e = cc e
bind-calls (calls, panics) k e = cc e
