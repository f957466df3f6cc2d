-- ===== src/AssetScanWatcher/Resources.antt =====
-- When the AssetScan controller creates and removes the resources of an AssetScan.
use vmclarity.Prelude.{
  String, ◌≡◌, ◌≢◌, refl, Bool, true, false, not, none, some, [], ◌∷◌, arith, ◌=?◌, =?_iff, ◌⊎◌,
  inl, inr, Bool-cases,
}
use vmclarity.Prelude.Int.{ℤ, ltb_ℤ}
use vmclarity.Go.{ok, err, call, failed_call, requeue_after, Act, pure}
use vmclarity.ApiTypes.{
  AssetScan, AssetScanState, CleanupState, ScanRelationship, get_max_parallel_scanners,
}
use vmclarity.Status.AssetScanStatus
use vmclarity.Status.AssetScanStatus.{state_eq}
use vmclarity.Status.CleanupStatus
use vmclarity.Status.CleanupStatus.{state_eq as cleanup_state_eq}
use vmclarity.AssetScanWatcher.Api.{
  Client, Call, patch_status, patch_cleanup, DeletePolicy, never, always, on_success, other_policy,
}
use vmclarity.AssetScanWatcher.Start.{
  reconcile_pending, at_maximum, limiting_scan, schedule, second, patch,
}
use vmclarity.AssetScanWatcher.Finish.{
  reconcile_done_and_failed, clean_up_resources, clean_up_by, keeps_failed, skipped,
}

counted_maximum :
    (c : Client) (scan : ScanRelationship) (n : ℤ)
    → c.running_of scan.id ≡ some (some n)
    → at_maximum c (some scan) ≡ ok (not (ltb_ℤ n (get_max_parallel_scanners scan)))
unfolding at_maximum
counted_maximum c scan n counted = rw (counted, at_maximum) refl

-- The first step of an AssetScan: one patch, and a RequeueAfterError where it succeeds.
abbrev pub Starts : Client → String → Act Call (Unit {0}) → Type 0
Starts c id m =
    (m.0
      ≡ patch_status id
          (AssetScanStatus.new c.now AssetScanStatus.scheduled AssetScanStatus.provisioning none)
        ∷ [])
    × ((m.1 ≡ err (requeue_after second)) ⊎ (m.1 ≡ err failed_call))

schedule-Starts : (c : Client) (id : String) → Starts c id (schedule c id)
unfolding schedule patch
schedule-Starts c id = ground arith

-- A Pending AssetScan of a Scan that limits its AssetScans, where the API counts `n` of them as running:
-- where `n` has reached the maximum, Reconcile makes no call and returns nil; below it, it asks for Scheduled, and
-- returns a RequeueAfterError of one second where that patch succeeds and an error where it fails.
pub maximum_holds :
    (c : Client) (a : AssetScan) (id : String) (scan : ScanRelationship) (n : ℤ)
    → a.id ≡ some id
    → limiting_scan a.scan ≡ some scan
    → c.running_of scan.id ≡ some (some n)
    → ((ltb_ℤ n (get_max_parallel_scanners scan) ≡ false) × (reconcile_pending c a ≡ ([], ok tt)))
      ⊎ ((ltb_ℤ n (get_max_parallel_scanners scan) ≡ true) × Starts c id (reconcile_pending c a))
unfolding reconcile_pending
maximum_holds c a id scan n known limited counted =
    elim (Bool-cases (ltb_ℤ n (get_max_parallel_scanners scan))) [
      | inr full ↦ inl (full, simp (known, limited, counted_maximum c scan n counted, full) refl)
      | inl room ↦ inr (
        room,
        simp (known, limited, counted_maximum c scan n counted, room) (schedule-Starts c id),
      )
    ]

-- The policy keeps the resources of an AssetScan: Never for all, OnSuccess for the Failed ones.
abbrev pub Keeps : DeletePolicy → AssetScanStatus.State → Type 0
Keeps never s = Unit {0}
Keeps on_success s = s ≡ AssetScanStatus.failed
Keeps always s = ⊥
Keeps other_policy s = ⊥

Keeps-skips :
    (c : Client) (a : AssetScan) (st : AssetScanState) (policy : DeletePolicy)
    → a.status ≡ some st
    → Keeps policy st.state
    → clean_up_by policy c a ≡ pure (skipped c)
unfolding clean_up_by keeps_failed
Keeps-skips c a st never status keeps = refl
Keeps-skips c a st on_success status keeps = simp (status, keeps) refl
Keeps-skips c a st always status keeps = elim keeps [ ]
Keeps-skips c a st other_policy status keeps = elim keeps [ ]

-- A Done or Failed AssetScan that has an ID, a Scan and a status, whose resources the policy keeps: while the
-- cleanup is Pending, the one call of reconcileDoneAndFailed asks for Skipped, with the reason
-- DeletePolicy; afterwards it makes no call.
pub kept_resources :
    (c : Client) (a : AssetScan) (id : String) (scan : ScanRelationship) (st : AssetScanState)
    (k : CleanupState)
    → a.id ≡ some id
    → a.scan ≡ some scan
    → a.status ≡ some st
    → a.cleanup ≡ some k
    → Keeps c.delete_policy st.state
    → ((k.state ≡ CleanupStatus.pending)
        × ((asked : CleanupState) × ((reconcile_done_and_failed c a).0
              ≡ patch_cleanup id asked ∷ [])
            × (asked.state ≡ CleanupStatus.skipped)
            × (asked.reason ≡ CleanupStatus.delete_policy)))
      ⊎ ((k.state ≢ CleanupStatus.pending) × (reconcile_done_and_failed c a ≡ ([], ok tt)))
unfolding reconcile_done_and_failed clean_up_resources CleanupStatus.new
kept_resources c a id scan st k known of_scan status cleanup keeps =
    elim (Bool-cases (k.state =? CleanupStatus.pending)) [
      | inl p ↦ inl (
        (=?_iff k.state CleanupStatus.pending).0 p,
        (
          skipped c,
          simp (known, of_scan, cleanup, p, Keeps-skips c a st c.delete_policy status keeps)
              (patched _ _),
          refl,
          refl,
        ),
      )
      | inr q ↦ inr (
        λ e. cc (q, (=?_iff k.state CleanupStatus.pending).1 e),
        simp (known, of_scan, cleanup, q) refl,
      )
    ]
  where
    patched : (b : Bool) (q : Call) → (call q b).0 ≡ q ∷ []
    patched true q = refl
    patched false q = refl
