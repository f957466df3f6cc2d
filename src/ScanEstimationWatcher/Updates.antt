-- ===== src/ScanEstimationWatcher/Updates.antt =====
-- The status updates that the ScanEstimation controller sends, against the check that the API server
-- makes of them (scanestimationstatus.go).
use vmclarity.Prelude.{
  String, ◌≡◌, refl, sym, ap, ◌∙◌, true, false, none, some, List, [], ◌∷◌, All, inl, inr,
}
use mathlib.Core.List.{not-mem-nil}
use vmclarity.Prelude.Int.{ℤ}
use vmclarity.Go.{err, failed_call}
use vmclarity.Goroutines.{GoStep}
use vmclarity.EstimationTypes.{ScanEstimation, ScanEstimationState, is_timed_out, empty_scan_patch}
use vmclarity.Status.Laws.{accept_move, accept_same, refuse_move, is_valid_transition_iff}
use vmclarity.Status.ScanEstimationStatus
use vmclarity.Status.ScanEstimationStatus.{state_eq, reason_eq}
use vmclarity.ScanEstimationWatcher.Api.{Client, Call, patch_scan_estimation}
use vmclarity.ScanEstimationWatcher.Steps.{patch}
use vmclarity.ScanEstimationWatcher.Asks.{OfStatus, OfCall, Asked, kept, moved, dispatch-OfCall}
use vmclarity.ScanEstimationWatcher.{dispatch, by_status, expire, reconcile, timed_out}

-- The server accepts the status from `st`.
abbrev pub Accepts : ScanEstimationState → ScanEstimationState → Type 0
Accepts st b = ScanEstimationStatus.check st b ≡ none

Asked-Accepts : (st b : ScanEstimationState) → Asked st b → Accepts st b
unfolding ScanEstimationStatus.check
Asked-Accepts st b (kept e) = rw e (accept_same ScanEstimationStatus.machine b)
Asked-Accepts st b (moved s h r t other) = accept_move ScanEstimationStatus.machine st b s h r t

-- For a ScanEstimation that has a status and has not timed out, the API server's check accepts every
-- status of it that Reconcile asks for, from the status that Reconcile read.
pub estimation_updates-Accepts :
    (c : Client) (schedule : List String → List GoStep) (id : String) (s : ScanEstimation)
    (st : ScanEstimationState)
    → c.get_scan_estimation id ≡ some (some s)
    → is_timed_out c.now s c.timeout ≡ false
    → s.status ≡ some st
    → All (OfCall (Accepts st)) (reconcile c schedule id).0
unfolding reconcile expire by_status
estimation_updates-Accepts c schedule id s st found fresh e =
    simp (found, fresh, e)
      (dispatch-OfCall (Accepts st) st (Asked-Accepts st) st.state c schedule s e refl)

-- Failed has no edge out, so that only the timeout itself is accepted again.
late-refused :
    (now : ℤ) (st b : ScanEstimationState)
    → ¬ (st.state ≡ ScanEstimationStatus.State.failed)
    → Asked st b
    → ¬ Accepts (timed_out now) b
unfolding ScanEstimationStatus.check ScanEstimationStatus.machine ScanEstimationStatus.transitions
    ScanEstimationStatus.new
late-refused now st b unfinished asked accepted =
    elim ((is_valid_transition_iff ScanEstimationStatus.machine (timed_out now) b).0 accepted) [
      | inl same ↦ elim asked [
        | kept e ↦ unfinished (ap (λ x. x.state) e ∙ sym (same.0))
        | moved s h r t other ↦ other (sym (same.1))
      ]
      | inr edge ↦ absurd (not-mem-nil (edge.1))
    ]

-- The first call of a run that finds the estimation timed out.
abbrev pub timeout_patch : Client → String → Call
timeout_patch c id =
    patch_scan_estimation id (record empty_scan_patch { status = some (timed_out c.now) })

-- A ScanEstimation that has an ID and a status other than Failed and has timed out, where the patch to
-- Failed succeeds: Reconcile goes on with the handler of the old state, and the server's check refuses,
-- from the status that the patch has set, every status that this handler asks for.
late_updates_refused :
    (c : Client) (schedule : List String → List GoStep) (id i : String) (s : ScanEstimation)
    (st : ScanEstimationState)
    → c.get_scan_estimation id ≡ some (some s)
    → is_timed_out c.now s c.timeout ≡ true
    → s.id ≡ some i
    → s.status ≡ some st
    → ¬ (st.state ≡ ScanEstimationStatus.State.failed)
    → c.patches i (record empty_scan_patch { status = some (timed_out c.now) }) ≡ true
    → ((reconcile c schedule id).0 ≡ timeout_patch c i ∷ (dispatch st.state c schedule s).0)
      × ((reconcile c schedule id).1 ≡ (dispatch st.state c schedule s).1)
      × All (OfCall (λ b. ¬ Accepts (timed_out c.now) b)) (dispatch st.state c schedule s).0
unfolding reconcile expire by_status patch
late_updates_refused c schedule id i s st found late known e unfinished patched = (
  simp (found, late, known, e, patched) refl,
  simp (found, late, known, e, patched) refl,
  dispatch-OfCall (λ b. ¬ Accepts (timed_out c.now) b) st
      (λ b asked. late-refused c.now st b unfinished asked) st.state c schedule s e refl,
)

-- A Done ScanEstimation that has an ID and whose start is longer ago than the timeout, where the server
-- refuses a status that its check refuses: every run of Reconcile ends with the error of the patch to
-- Failed, whatever DeleteAfter is, so that the estimation is not deleted.
pub done_never_deleted :
    (c : Client) (schedule : List String → List GoStep) (id i : String) (s : ScanEstimation)
    (st : ScanEstimationState)
    → ((p : ScanEstimation) → ¬ OfStatus (Accepts st) p → c.patches i p ≡ false)
    → c.get_scan_estimation id ≡ some (some s)
    → is_timed_out c.now s c.timeout ≡ true
    → s.id ≡ some i
    → st.state ≡ ScanEstimationStatus.done
    → reconcile c schedule id ≡ (timeout_patch c i ∷ [], err failed_call)
unfolding reconcile expire patch ScanEstimationStatus.check ScanEstimationStatus.new
    ScanEstimationStatus.machine ScanEstimationStatus.transitions
done_never_deleted c schedule id i s st obeys found late known h =
    simp
      (
        found,
        late,
        known,
        obeys (record empty_scan_patch { status = some (timed_out c.now) })
            (refuse_move ScanEstimationStatus.machine st (timed_out c.now) ScanEstimationStatus.done
              h (λ e. cc) refl),
      )
      refl
