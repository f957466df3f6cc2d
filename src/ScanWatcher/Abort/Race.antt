-- ===== src/ScanWatcher/Abort/Race.antt =====
-- What the goroutines of reconcileAborted find out about their patches, by the order of their steps.
use vmclarity.Prelude.{
  String, ◌≡◌, refl, Bool, true, false, not, ◌||◌, Option, none, some, List, [], ◌∷◌, ◌++◌, arith,
  All, any,
}
use vmclarity.Prelude.Int.{ℤ}
use vmclarity.Go.{err, failed_call}
use vmclarity.Goroutines.{
  GoStep, Schedule, one_by_one, run_steps, one_by_one-steps, no_false_alarm, run_steps-All,
  assigned, overlapped, overlapped-Schedule,
}
use vmclarity.ApiTypes.{Scan, AssetScan}
use vmclarity.Status.ScanStatus
use vmclarity.ScanWatcher.Api.{Client, Call, patch_scan, patch_asset_scan, unfinished_of_scan}
use vmclarity.ScanWatcher.Steps.{patch}
use vmclarity.ScanWatcher.Abort.{
  cancelled, run_patches, ids_of, abort_asset_scans, reconcile_aborted,
}

abbrev pub fails : Client → String → Bool
fails c id = not (c.patches_asset_scan id (cancelled c))

patches_one_by_one :
    (c : Client) (ids : List String) (e f : Bool)
    → (run_patches c (one_by_one ids) e f).1 ≡ (f || any (fails c) ids)
patches_one_by_one c =
    one_by_one-steps (λ id. patch_asset_scan id (cancelled c))
      (λ id. c.patches_asset_scan id (cancelled c))

patches_pass :
    (c : Client) (steps : List GoStep)
    → All (λ id. fails c id ≡ false) (assigned steps)
    → (run_patches c steps false false).1 ≡ false
patches_pass c =
    no_false_alarm (λ id. patch_asset_scan id (cancelled c))
      (λ id. c.patches_asset_scan id (cancelled c))

-- A call that ends no Scan.
abbrev pub OfAssetScan : Call → Type 0
OfAssetScan (patch_asset_scan _ _) = Unit {0}
OfAssetScan _ = ⊥

run_steps-OfAssetScan :
    (c : Client) (steps : List GoStep) (e f : Bool) → All OfAssetScan (run_patches c steps e f).0
run_steps-OfAssetScan c steps e f =
    run_steps-All (λ id. patch_asset_scan id (cancelled c))
      (λ id. c.patches_asset_scan id (cancelled c)) OfAssetScan (λ _. tt) steps e f

-- The last patch of reconcileAborted.
abbrev pub abort_patch : Client → Scan → String → Call
abort_patch c scan id = patch_scan id (record {
  status = some (
      ScanStatus.new c.now ScanStatus.failed ScanStatus.cancellation
        (some "Scan has been aborted"));
  summary = none;
  end_time = some c.now;
  asset_ids = scan.asset_ids;
})

-- For a Scan that has an ID, whose AssetScans the API lists: where the goroutines run one after the other
-- and one of their patches fails, reconcileAborted returns
-- an error and does not touch the Scan, so that it is tried again.
pub abort_retries :
    (c : Client) (scan : Scan) (id : String) (items : List AssetScan) (count : Option ℤ)
    → scan.id ≡ some id
    → c.get_asset_scans (unfinished_of_scan id)
      ≡ some (record { count = count; items = some items })
    → any (fails c) (ids_of items) ≡ true
    → ((reconcile_aborted c one_by_one scan).1 ≡ err failed_call)
      × All OfAssetScan (reconcile_aborted c one_by_one scan).0
unfolding reconcile_aborted abort_asset_scans
abort_retries c scan id items count hi hg bad =
    rw (hi, hg, patches_one_by_one c (ids_of items) false false, bad)
      (refl, run_steps-OfAssetScan c (one_by_one (ids_of items)) false false)

-- For a Scan that has an ID, whose AssetScans the API lists: where no patch of the schedule fails, whatever
-- the schedule, the Scan is patched to Failed after all of its calls.
pub abort_completes :
    (c : Client) (scan : Scan) (id : String) (items : List AssetScan) (count : Option ℤ)
    (schedule : List String → List GoStep)
    → scan.id ≡ some id
    → c.get_asset_scans (unfinished_of_scan id)
      ≡ some (record { count = count; items = some items })
    → All (λ i. fails c i ≡ false) (assigned (schedule (ids_of items)))
    → (reconcile_aborted c schedule scan).0
      ≡ (run_patches c (schedule (ids_of items)) false false).0 ++ abort_patch c scan id ∷ []
unfolding reconcile_aborted abort_asset_scans patch
abort_completes c scan id items count schedule hi hg good =
    rw (hi, hg, patches_pass c (schedule (ids_of items)) good) (ground arith)

-- The race on `err`: of two AssetScans to abort the patch of the first fails, that of the second
-- succeeds, and there is a schedule by which the Scan is patched to Failed all the same.
pub abort_race :
    (c : Client) (scan : Scan) (id i j : String) (items : List AssetScan) (count : Option ℤ)
    → scan.id ≡ some id
    → c.get_asset_scans (unfinished_of_scan id)
      ≡ some (record { count = count; items = some items })
    → ids_of items ≡ i ∷ j ∷ []
    → fails c i ≡ true
    → fails c j ≡ false
    → Schedule (ids_of items) 0 (overlapped i j)
      × ((reconcile_aborted c (λ _. overlapped i j) scan).0
          ≡ patch_asset_scan i (cancelled c)
            ∷ patch_asset_scan j (cancelled c)
            ∷ abort_patch c scan id
            ∷ [])
unfolding reconcile_aborted abort_asset_scans patch run_steps
abort_race c scan id i j items count hi hg two bad good =
    (rw two (overlapped-Schedule i j), rw (hi, hg, good) (ground arith))
