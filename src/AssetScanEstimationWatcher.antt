-- ===== src/AssetScanEstimationWatcher.antt =====
-- The AssetScanEstimation controller, orchestrator/watcher/assetscanestimation: Reconcile of watcher.go
-- and its handlers.
pub mod Api
pub mod Ends
mod Examples
use vmclarity.Prelude.{
  ℕ, suc, ◌*◌, String, Bool, true, false, not, Option, none, some, List, [], ◌∷◌, if◌then◌else◌,
}
use vmclarity.Prelude.Int.{ℤ, pos, negsuc, ◌+ℤ◌, ◌-ℤ◌, int64, in_seconds, ltb_ℤ}
use vmclarity.Go.{
  Result, ok, err, panics, Act, pure, fail, lift, call, or_default, require, ◌>>=◌, ◌>>◌, invalid,
  failed_call, requeue_after,
}
use vmclarity.Status.AssetScanEstimationStatus
use vmclarity.EstimationTypes.{Estimation, AssetScanEstimation, EstimationState, empty_patch}
use Api.{
  Answer, estimated, fatal, retryable, other, Call, patch_estimation, delete_estimation, Client,
}

unfoldable pub patch : Client → String → AssetScanEstimation → Act Call (Unit {0})
patch c id p = call (patch_estimation id p) (c.patches id p)

-- DefaultAssetScanEstimationTTLSeconds.
abbrev pub default_ttl : ℤ
default_ttl = pos 7200

-- The time from which on an estimation that ended at `end` may be deleted.
unfoldable pub expiry : ℤ → Option ℤ → ℤ
unfolding ◌+ℤ◌ ◌-ℤ◌ int64
expiry end ttl = end +ℤ in_seconds (or_default ttl default_ttl)

delete_if : Client → String → Bool → Act Call (Unit {0})
delete_if c id true = call (delete_estimation id) (c.deletes id)
delete_if c id false = pure tt

-- The patch that sets DeleteAfter.
abbrev pub expiring : Client → AssetScanEstimation → AssetScanEstimation
expiring c e = record empty_patch {
  delete_after = some (expiry (or_default e.end_time c.now) e.ttl_seconds);
  end_time = some (or_default e.end_time c.now);
  ttl_seconds = some (or_default e.ttl_seconds default_ttl);
}

-- From DeleteAfter, set or not.
finish : Client → AssetScanEstimation → String → Option ℤ → Act Call (Unit {0})
unfolding delete_if patch
finish c e id (some t) = delete_if c id (ltb_ℤ t c.now)
finish c e id none =
    if ltb_ℤ (expiry (or_default e.end_time c.now) e.ttl_seconds) c.now
    then delete_if c id true
    else patch c id (expiring c e)

unfoldable pub reconcile_done : Client → AssetScanEstimation → Act Call (Unit {0})
unfolding finish
reconcile_done c e = do id ← lift (require e.id invalid); finish c e id e.delete_after

unfoldable pub reconcile_no_state : Client → AssetScanEstimation → Act Call (Unit {0})
unfolding patch
reconcile_no_state c e = do
  id ← lift (require e.id invalid)
  patch c id (record empty_patch {
    status = some (
        AssetScanEstimationStatus.new c.now AssetScanEstimationStatus.State.pending
          AssetScanEstimationStatus.Reason.created none);
  })

-- The status and the estimation after the provider's answer.
unfoldable pub after_estimate :
    Client → AssetScanEstimation → Answer → Result (EstimationState × Option Estimation)
after_estimate c e (estimated found) = ok (
  AssetScanEstimationStatus.new c.now AssetScanEstimationStatus.State.done
      AssetScanEstimationStatus.Reason.success none,
  some found,
)
after_estimate c e (fatal text) = ok (
  AssetScanEstimationStatus.new c.now AssetScanEstimationStatus.State.failed
      AssetScanEstimationStatus.Reason.error (some text),
  e.estimation,
)
after_estimate c e (retryable d) = err (requeue_after d)
after_estimate c e other = err failed_call

unfoldable pub reconcile_pending : Client → AssetScanEstimation → Act Call (Unit {0})
unfolding after_estimate patch
reconcile_pending c e = do
  id ← lift (require e.id invalid)
  asset ← lift (require e.asset invalid)
  _ ← lift (require asset.info invalid)
  if c.converts asset then pure tt else fail invalid
  outcome ← lift (after_estimate c e (c.estimate asset))
  patch c id (record empty_patch {
    start_time = some c.now;
    end_time = some c.now;
    delete_after = some (expiry c.now e.ttl_seconds);
    status = some outcome.0;
    estimation = outcome.1;
    ttl_seconds = some (or_default e.ttl_seconds default_ttl);
  })

unfoldable pub reconcile_aborted : Client → AssetScanEstimation → Act Call (Unit {0})
unfolding patch
reconcile_aborted c e = do
  id ← lift (require e.id invalid)
  _ ← lift (require e.status invalid)
  patch c id (record empty_patch {
    status = some (
        AssetScanEstimationStatus.new c.now AssetScanEstimationStatus.State.failed
          AssetScanEstimationStatus.Reason.aborted (some "asset scan estimation was aborted"));
  })

-- The `switch` on the state.
unfoldable pub dispatch :
    AssetScanEstimationStatus.State → Client → AssetScanEstimation → Act Call (Unit {0})
dispatch AssetScanEstimationStatus.State.pending c e = reconcile_pending c e
dispatch AssetScanEstimationStatus.State.aborted c e = reconcile_aborted c e
dispatch AssetScanEstimationStatus.State.failed c e = reconcile_done c e
dispatch AssetScanEstimationStatus.State.done c e = reconcile_done c e

-- By the status, set or not.
by_status : Client → AssetScanEstimation → Option EstimationState → Act Call (Unit {0})
unfolding dispatch reconcile_no_state
by_status c e none = reconcile_no_state c e
by_status c e (some s) = dispatch s.state c e

unfoldable pub reconcile : Client → String → Act Call (Unit {0})
unfolding by_status
reconcile c estimation_id = do
  e ← lift (require (c.get_estimation estimation_id) failed_call)
  by_status c e e.status
