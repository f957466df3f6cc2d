-- ===== src/AssetScanWatcher/Updates.antt =====
-- The status updates of the AssetScan controller, against the checks that the API server makes of them
-- (assetscanstatus.go and resourcecleanupstatus.go), and when it calls the provider.
use vmclarity.Prelude.{
  String, ◌≡◌, refl, Bool, true, false, Option, none, some, [], ◌∷◌, arith, All, any, ◌=?◌, =?_iff,
  if◌then◌else◌, inl, inr, Bool-cases,
}
use vmclarity.Go.{
  ok, deref, require, invalid, failed_call, Act, pure, All-call, OnlyCalls, only_bind, only_then,
  only_lift, only, Runs, bind-Runs, lift-Runs, OnlyCalls-Runs, lift,
}
use vmclarity.ApiTypes.{AssetScan, AssetScanState, CleanupState}
use vmclarity.Status.{is_valid_reason, is_valid_status_transition}
use vmclarity.Status.Laws.{accept_edge}
use vmclarity.Status.AssetScanStatus
use vmclarity.Status.AssetScanStatus.{state_eq, reason_eq}
use vmclarity.Status.CleanupStatus
use vmclarity.Status.CleanupStatus.{state_eq as cleanup_state_eq, reason_eq as cleanup_reason_eq}
use vmclarity.AssetScanWatcher.Api.{
  Client, Call, run_asset_scan, remove_asset_scan, patch_status, patch_cleanup, Answer, accepted,
  fatal, retryable, other, DeletePolicy, never, always, on_success, other_policy,
}
use vmclarity.AssetScanWatcher.Start.{
  reconcile_pending, reconcile_scheduled, new_job_config, after_run, at_maximum, limiting_scan,
  schedule, patch,
}
use vmclarity.AssetScanWatcher.Finish.{
  reconcile_done_and_failed, reconcile_aborted, clean_up_resources, clean_up_by, remove,
  after_remove, keeps_failed, skipped,
}
use vmclarity.AssetScanWatcher.{reconcile, dispatch}

-- The server accepts what a call asks for, from the status and the cleanup status that were read.
abbrev pub Accepted : AssetScanState → Option CleanupState → Call → Type 0
Accepted st cleanup (patch_status id b) = AssetScanStatus.check st b ≡ none
Accepted st none (patch_cleanup id b) = ⊥
Accepted st (some k) (patch_cleanup id b) = CleanupStatus.check k b ≡ none
Accepted st cleanup (run_asset_scan job) = Unit {0}
Accepted st cleanup (remove_asset_scan job) = Unit {0}

-- An edge of the tables, at the state that the AssetScan is known to have.
moves :
    (st b : AssetScanState) (s : AssetScanStatus.State)
    → st.state ≡ s
    → is_valid_reason AssetScanStatus.machine b ≡ none
    → any (λ t. t =? b.state) (AssetScanStatus.transitions s) ≡ true
    → AssetScanStatus.check st b ≡ none
unfolding AssetScanStatus.check is_valid_status_transition
moves st b s h r t = accept_edge AssetScanStatus.machine st b r (rw h (rw t refl))

cleans :
    (k b : CleanupState)
    → k.state ≡ CleanupStatus.pending
    → is_valid_reason CleanupStatus.machine b ≡ none
    → any (λ t. t =? b.state) (CleanupStatus.transitions CleanupStatus.pending) ≡ true
    → CleanupStatus.check k b ≡ none
unfolding CleanupStatus.check is_valid_status_transition
cleans k b h r t = accept_edge CleanupStatus.machine k b r (rw h (rw t refl))

pending-Accepted :
    (c : Client) (a : AssetScan) (st : AssetScanState) (k : Option CleanupState)
    → st.state ≡ AssetScanStatus.pending
    → All (Accepted st k) (reconcile_pending c a).0
unfolding reconcile_pending at_maximum limiting_scan schedule patch AssetScanStatus.new
    AssetScanStatus.machine is_valid_reason
pending-Accepted c a st k h = ground (
  arith,
  moves st (AssetScanStatus.new c.now AssetScanStatus.scheduled AssetScanStatus.provisioning none)
      AssetScanStatus.pending h refl refl,
)

-- Making the config of a job calls nothing.
job_calls :
    (P : Call → Type 0) (c : Client) (a : AssetScan) (info : Option String)
    → All P (new_job_config c a info).0
unfolding new_job_config
job_calls P c a info = ground arith

run-Accepted :
    (c : Client) (st b : AssetScanState) (answer : Answer)
    → st.state ≡ AssetScanStatus.scheduled
    → after_run c answer ≡ ok b
    → AssetScanStatus.check st b ≡ none
unfolding after_run AssetScanStatus.new AssetScanStatus.machine is_valid_reason
run-Accepted c st b accepted h e =
    moves st b AssetScanStatus.scheduled h (ground arith) (ground arith)
run-Accepted c st b (fatal text) h e =
    moves st b AssetScanStatus.scheduled h (ground arith) (ground arith)
run-Accepted c st b (retryable d) h e = cc
run-Accepted c st b (other text joined) h e =
    moves st b AssetScanStatus.scheduled h (ground arith) (ground arith)

scheduled-Accepted :
    (c : Client) (a : AssetScan) (st : AssetScanState) (k : Option CleanupState)
    → st.state ≡ AssetScanStatus.scheduled
    → All (Accepted st k) (reconcile_scheduled c a).0
unfolding reconcile_scheduled patch
scheduled-Accepted c a st k h = made.all_calls
  where
    made : OnlyCalls (Accepted st k) (reconcile_scheduled c a)
    made = only_lift (require a.id invalid) λ id. only_lift (require a.asset invalid) λ asset.
        only_lift (require asset.info invalid) λ info.
          only_bind (only (job_calls (Accepted st k) c a (some info))) λ job.
            only_then {m = (run_asset_scan job ∷ [], after_run c (c.runs job))} (only (tt, tt))
              λ b e. only (All-call (Accepted st k) _ _ (run-Accepted c st b (c.runs job) h e))

removed-Accepted :
    (c : Client) (k b : CleanupState) (answer : Answer)
    → k.state ≡ CleanupStatus.pending
    → after_remove c answer ≡ ok b
    → CleanupStatus.check k b ≡ none
unfolding after_remove CleanupStatus.new CleanupStatus.machine is_valid_reason
removed-Accepted c k b accepted h e = cleans k b h (ground arith) (ground arith)
removed-Accepted c k b (fatal text) h e = cleans k b h (ground arith) (ground arith)
removed-Accepted c k b (retryable d) h e = cc
removed-Accepted c k b (other text joined) h e = cleans k b h (ground arith) (ground arith)

-- The calls of the `switch` on the policy, and the cleanup status that it ends with.
abbrev CleansUp : AssetScanState → CleanupState → Act Call CleanupState → Type 0
CleansUp st k m = Runs (Accepted st (some k)) (λ b. CleanupStatus.check k b ≡ none) m

remove-CleansUp :
    (c : Client) (a : AssetScan) (st : AssetScanState) (k : CleanupState)
    → k.state ≡ CleanupStatus.pending
    → CleansUp st k (remove c a)
unfolding remove
remove-CleansUp c a st k h = lift-Runs (deref a.asset) λ asset.
    lift-Runs (require (c.get_asset asset.id) failed_call) λ answer.
      lift-Runs (require answer invalid) λ info.
        bind-Runs (OnlyCalls-Runs (only (job_calls (Accepted st (some k)) c a (some info))))
          λ job _. record {
            calls = (tt, tt);
            result = λ b e. removed-Accepted c k b (c.removes job) h e;
          }

skips :
    (c : Client) (st : AssetScanState) (k : CleanupState)
    → k.state ≡ CleanupStatus.pending
    → CleansUp st k (pure (skipped c))
unfolding CleanupStatus.new CleanupStatus.machine is_valid_reason
skips c st k h = record { calls = tt; result = λ b e. cleans k b h (ground arith) (ground arith) }

clean_up-CleansUp :
    (policy : DeletePolicy) (c : Client) (a : AssetScan) (st : AssetScanState) (k : CleanupState)
    → k.state ≡ CleanupStatus.pending
    → CleansUp st k (clean_up_by policy c a)
unfolding clean_up_by
clean_up-CleansUp never c a st k h = skips c st k h
clean_up-CleansUp on_success c a st k h = lift-Runs (keeps_failed a.status) λ keeps. branch keeps
  where
    branch : (keeps : Bool) → CleansUp st k (if keeps then pure (skipped c) else remove c a)
    branch true = skips c st k h
    branch false = remove-CleansUp c a st k h
clean_up-CleansUp always c a st k h = remove-CleansUp c a st k h
clean_up-CleansUp other_policy c a st k h = remove-CleansUp c a st k h

cleaned-Accepted :
    (c : Client) (a : AssetScan) (st : AssetScanState) (k : CleanupState)
    → k.state ≡ CleanupStatus.pending
    → OnlyCalls (Accepted st (some k)) (clean_up_resources c a)
unfolding clean_up_resources
cleaned-Accepted c a st k h = only_lift (require a.id invalid) λ id.
    only_then (only (clean_up-CleansUp c.delete_policy c a st k h).calls) λ b e. only (
      All-call (Accepted st (some k)) _ _
        ((clean_up-CleansUp c.delete_policy c a st k h).result b e))

finished-Accepted :
    (c : Client) (a : AssetScan) (st : AssetScanState)
    → OnlyCalls (Accepted st a.cleanup) (reconcile_done_and_failed c a)
unfolding reconcile_done_and_failed
finished-Accepted c a st = only_lift (require a.scan invalid) λ _.
    only_then {m = lift (require a.cleanup invalid)} (only tt)
      λ k e. by_state k (known a.cleanup k e)
  where
    known : (o : Option CleanupState) (k : CleanupState) → require o invalid ≡ ok k → o ≡ some k
    known o k e = ground arith

    by_state :
        (k : CleanupState)
        → a.cleanup ≡ some k
        → OnlyCalls
            (Accepted st a.cleanup)
            (if k.state =? CleanupStatus.pending then clean_up_resources c a else pure tt)
    by_state k e = elim (Bool-cases (k.state =? CleanupStatus.pending)) [
      | inl p ↦ only (
          simp (e, p)
            (cleaned-Accepted c a st k ((=?_iff k.state CleanupStatus.pending).0 p)).all_calls)
      | inr q ↦ only (rw q tt)
    ]

aborted-Accepted :
    (c : Client) (a : AssetScan) (st : AssetScanState) (k : Option CleanupState)
    → st.state ≡ AssetScanStatus.aborted
    → All (Accepted st k) (reconcile_aborted c a).0
unfolding reconcile_aborted patch AssetScanStatus.new AssetScanStatus.machine is_valid_reason
aborted-Accepted c a st k h = ground (
  arith,
  moves st
      (AssetScanStatus.new c.now AssetScanStatus.failed AssetScanStatus.abort_timeout
        (some c.abort_text))
      AssetScanStatus.aborted h refl refl,
)

dispatch-Accepted :
    (s : AssetScanStatus.State) (c : Client) (a : AssetScan) (st : AssetScanState)
    → st.state ≡ s
    → All (Accepted st a.cleanup) (dispatch s c a).0
unfolding dispatch
dispatch-Accepted AssetScanStatus.pending c a st h = pending-Accepted c a st a.cleanup h
dispatch-Accepted AssetScanStatus.scheduled c a st h = scheduled-Accepted c a st a.cleanup h
dispatch-Accepted AssetScanStatus.ready_to_scan c a st h = tt
dispatch-Accepted AssetScanStatus.in_progress c a st h = tt
dispatch-Accepted AssetScanStatus.aborted c a st h = aborted-Accepted c a st a.cleanup h
dispatch-Accepted AssetScanStatus.done c a st h = (finished-Accepted c a st).all_calls
dispatch-Accepted AssetScanStatus.failed c a st h = (finished-Accepted c a st).all_calls

-- For an AssetScan that has a status, the API server's checks accept every status and every cleanup
-- status that Reconcile asks for, from those that it read; and it asks for a cleanup status only where it
-- read one.
pub asset_scan_updates-Accepted :
    (c : Client) (asset_scan_id : String) (a : AssetScan) (st : AssetScanState)
    → c.get_asset_scan asset_scan_id ≡ some a
    → a.status ≡ some st
    → All (Accepted st a.cleanup) (reconcile c asset_scan_id).0
unfolding reconcile
asset_scan_updates-Accepted c asset_scan_id a st found e =
    simp (found, e) (dispatch-Accepted st.state c a st refl)
