-- ===== src/ScanEstimationWatcher/Asks.antt =====
-- The statuses of a ScanEstimation that the handlers of its controller ask for
-- (orchestrator/watcher/scanestimation/watcher.go).
use vmclarity.Prelude.{
  String, ◌≡◌, refl, true, false, Option, none, some, List, [], ◌∷◌, arith, length, All, Bool-cases,
  ◌⊎◌, ◌∙◌, inl, inr, any, ◌=?◌,
}
use vmclarity.Prelude.Int.{ℤ, pos, ltb_ℤ}
use vmclarity.Go.{
  ok, All-bind, All-call, OnlyCalls, only_bind, only_then, only_lift, only, ◌>>=◌, pure, lift,
  require, deref, invalid, failed_call,
}
use vmclarity.Goroutines.{GoStep, run_steps-All}
use vmclarity.EstimationTypes.{
  ScanEstimation, ScanEstimationState, ScanEstimationSummary, AssetScanEstimation, get_scope,
}
use vmclarity.Status.{is_valid_reason}
use vmclarity.Status.ScanEstimationStatus
use vmclarity.Status.ScanEstimationStatus.{state_eq, reason_eq}
use vmclarity.ScanWatcher.Steps.{asset_filter, asset_ids}
use vmclarity.ScanEstimationWatcher.Api.{
  Client, Call, patch_scan_estimation, patch_asset_scan_estimation, of_scan_estimation,
  unfinished_of,
}
use vmclarity.ScanEstimationWatcher.Steps.{
  patch, reconcile_pending, reconcile_done, discovered, discovery_status, finish, delete_if,
}
use vmclarity.ScanEstimationWatcher.Create.{
  create_for_asset, post, create_all, settle, create_listed, after_errors, start,
  reconcile_discovered,
}
use vmclarity.ScanEstimationWatcher.Progress.{
  progressed, ended, final_status, reconcile_in_progress, summarise, new_summary,
}
use vmclarity.ScanEstimationWatcher.Abort.{cancelled, ids_of, abort_jobs, reconcile_aborted}
use vmclarity.ScanEstimationWatcher.{dispatch}

-- What holds of the status that a patch asks for, if it asks for one.
abbrev pub OfStatus : (ScanEstimationState → Type 0) → ScanEstimation → Type 0
OfStatus P p = elim p.status [ none ↦ Unit {0} | some b ↦ P b ]

abbrev pub OfCall : (ScanEstimationState → Type 0) → Call → Type 0
OfCall P (patch_scan_estimation id p) = OfStatus P p
OfCall P _ = Unit {0}

-- The statuses that the handlers ask for, each from the state that it handles: the one that the
-- estimation has among them.
pub data Asked (st : ScanEstimationState) (b : ScanEstimationState) : Type 0 where
  kept : st ≡ b → Asked st b
  moved :
      (s : ScanEstimationStatus.State)
      → st.state ≡ s
      → is_valid_reason ScanEstimationStatus.machine b ≡ none
      → any (λ t. t =? b.state) (ScanEstimationStatus.transitions s) ≡ true
      → ¬ (b.reason ≡ ScanEstimationStatus.timeout)
      → Asked st b

module _ (P : ScanEstimationState → Type 0) where
  some-OfStatus :
      (p : ScanEstimation) (b : ScanEstimationState) → p.status ≡ some b → P b → OfStatus P p
  some-OfStatus p b e h = rw e h

  patch-OfCall :
      (c : Client) (id : String) (p : ScanEstimation)
      → OfStatus P p
      → All (OfCall P) (patch c id p).0
  unfolding patch
  patch-OfCall c id p h = All-call (OfCall P) (patch_scan_estimation id p) (c.patches id p) h

  -- Creating AssetScanEstimations asks for no status of a ScanEstimation.
  create_one-OfCall :
      (c : Client) (s : ScanEstimation) (id : String) → All (OfCall P) (create_for_asset c s id).0
  unfolding create_for_asset post
  create_one-OfCall c s id = ground arith

  create_all-OfCall :
      (c : Client) (s : ScanEstimation) (ids : List String) → All (OfCall P) (create_all c s ids).0
  unfolding create_all
  create_all-OfCall c s [] = tt
  create_all-OfCall c s (id ∷ ids) =
      let one = create_for_asset c s id in
      All-bind (OfCall P) (one.0, settle one.1) _ (create_one-OfCall c s id)
        (λ n _. All-bind (OfCall P) (create_all c s ids) _ (create_all-OfCall c s ids) (λ m _. tt))

  listed-OfCall :
      (c : Client) (s : ScanEstimation) (ids : Option (List String))
      → All (OfCall P) (create_listed c s ids).0
  unfolding create_listed
  listed-OfCall c s none = tt
  listed-OfCall c s (some ids) =
      All-bind (OfCall P) (create_all c s ids) (λ made. lift (after_errors c s (length ids) made))
        (create_all-OfCall c s ids) (λ made _. tt)

  jobs-OfCall :
      (c : Client) (schedule : List String → List GoStep)
      (items : Option (List AssetScanEstimation))
      → All (OfCall P) (abort_jobs c schedule items).0
  unfolding abort_jobs
  jobs-OfCall c schedule none = tt
  jobs-OfCall c schedule (some items) =
      run_steps-All (λ id. patch_asset_scan_estimation id (cancelled c))
        (λ id. c.patches_asset id (cancelled c)) (OfCall P) (λ _. tt) (schedule (ids_of items))
        false false

-- What holds of all that is asked from a state holds of what its handler asks for.
module _ (P : ScanEstimationState → Type 0) (st : ScanEstimationState)
    (ask : (b : ScanEstimationState) → Asked st b → P b) where
  discovery-OfStatus :
      (now : ℤ) (ids : List String)
      → st.state ≡ ScanEstimationStatus.pending
      → P (discovery_status now ids)
  unfolding discovery_status ScanEstimationStatus.new ScanEstimationStatus.machine
      ScanEstimationStatus.transitions is_valid_reason
  discovery-OfStatus now [] h = ask _ (moved ScanEstimationStatus.pending h refl refl (λ e. cc))
  discovery-OfStatus now (id ∷ ids) h =
      ask _ (moved ScanEstimationStatus.pending h refl refl (λ e. cc))

  pending-OfCall :
      (c : Client) (s : ScanEstimation)
      → st.state ≡ ScanEstimationStatus.pending
      → All (OfCall P) (reconcile_pending c s).0
  unfolding reconcile_pending discovered
  pending-OfCall c s h = made.all_calls
    where
      made : OnlyCalls (OfCall P) (reconcile_pending c s)
      made = only_lift (require s.id invalid) λ id.
          only_lift (require (get_scope s) invalid) λ scope.
            only_lift (require (c.get_assets (asset_filter scope)) failed_call) λ assets.
              only_lift (deref assets) λ items. only_lift (asset_ids items) λ ids.
                only (patch-OfCall P c id (discovered c s ids) (discovery-OfStatus c.now ids h))

  start-OfCall :
      (c : Client) (id : String) (s : ScanEstimation)
      → st.state ≡ ScanEstimationStatus.State.discovered
      → All (OfCall P) (start c id s).0
  unfolding start ScanEstimationStatus.new ScanEstimationStatus.machine
      ScanEstimationStatus.transitions is_valid_reason
  start-OfCall c id s h =
      All-bind (OfCall P) _ (λ _. lift (deref s.asset_ids) >>= λ _. pure tt)
        (patch-OfCall P c id _
          (ask _ (moved ScanEstimationStatus.State.discovered h refl refl (λ e. cc))))
        (λ _ _. All-bind (OfCall P) (lift (deref s.asset_ids)) (λ _. pure tt) tt (λ _ _. tt))

  discovered-OfCall :
      (c : Client) (s : ScanEstimation)
      → st.state ≡ ScanEstimationStatus.State.discovered
      → All (OfCall P) (reconcile_discovered c s).0
  unfolding reconcile_discovered
  discovered-OfCall c s h = made.all_calls
    where
      made : OnlyCalls (OfCall P) (reconcile_discovered c s)
      made = only_lift (require s.id invalid) λ id.
          only_bind (only (listed-OfCall P c s s.asset_ids)) λ s'. only (start-OfCall c id s' h)

  final-OfStatus :
      (c : Client) (failed count : ℤ)
      → st.state ≡ ScanEstimationStatus.in_progress
      → P (final_status c failed count)
  unfolding final_status ScanEstimationStatus.new ScanEstimationStatus.machine
      ScanEstimationStatus.transitions is_valid_reason
  final-OfStatus c failed count h = elim (Bool-cases (ltb_ℤ (pos 0) failed)) [
    | inl some_failed ↦
        rw some_failed (ask _ (moved ScanEstimationStatus.in_progress h refl refl (λ e. cc)))
    | inr none_failed ↦
        rw none_failed (ask _ (moved ScanEstimationStatus.in_progress h refl refl (λ e. cc)))
  ]

  ended-status :
      (c : Client) (e : ScanEstimation) (s : ScanEstimationSummary) (failed count : ℤ)
      (p : ScanEstimation)
      → ended c e s failed count ≡ ok p
      → p.status ≡ some (final_status c failed count)
  unfolding ended
  ended-status c e s failed count p h = ground arith

  progressed-status :
      (c : Client) (e : ScanEstimation) (s : ScanEstimationSummary) (left failed count : ℤ)
      (p : ScanEstimation)
      → progressed c e s left failed count ≡ ok p
      → (p.status ≡ e.status) ⊎ (p.status ≡ some (final_status c failed count))
  unfolding progressed
  progressed-status c e s left failed count p made = elim (Bool-cases (ltb_ℤ (pos 0) left)) [
    | inl running ↦ inl (ground arith)
    | inr over ↦ inr (ended-status c e s failed count p (rw over at made))
  ]

  progressed-OfStatus :
      (c : Client) (e : ScanEstimation) (s : ScanEstimationSummary) (left failed count : ℤ)
      (p : ScanEstimation)
      → e.status ≡ some st
      → st.state ≡ ScanEstimationStatus.in_progress
      → progressed c e s left failed count ≡ ok p
      → OfStatus P p
  progressed-OfStatus c e s left failed count p known h made =
      elim (progressed-status c e s left failed count p made) [
        | inl same ↦ some-OfStatus P p st (same ∙ known) (ask st (kept refl))
        | inr over ↦
            some-OfStatus P p (final_status c failed count) over (final-OfStatus c failed count h)
      ]

  in_progress-OfCall :
      (c : Client) (s : ScanEstimation)
      → s.status ≡ some st
      → st.state ≡ ScanEstimationStatus.in_progress
      → All (OfCall P) (reconcile_in_progress c s).0
  unfolding reconcile_in_progress
  in_progress-OfCall c s known h = made.all_calls
    where
      made : OnlyCalls (OfCall P) (reconcile_in_progress c s)
      made = only_lift (require s.id invalid) λ id.
          only_lift (require (c.get_asset_scan_estimations (of_scan_estimation id)) failed_call)
            λ answer. only_lift (require answer.count invalid) λ count.
              only_lift (require answer.items invalid) λ items.
                only_lift (summarise new_summary (pos 0) items) λ counted.
                  only_lift (deref counted.0.jobs_completed) λ _.
                    only_lift (deref counted.0.jobs_left) λ left.
                      only_then {m = lift (progressed c s counted.0 left counted.1 count)} (only tt)
                        λ p e. only (
                          patch-OfCall P c id p
                            (progressed-OfStatus c s counted.0 left counted.1 count p known h e))

  aborted-OfCall :
      (c : Client) (schedule : List String → List GoStep) (s : ScanEstimation)
      → st.state ≡ ScanEstimationStatus.State.aborted
      → All (OfCall P) (reconcile_aborted c schedule s).0
  unfolding reconcile_aborted ScanEstimationStatus.new ScanEstimationStatus.machine
      ScanEstimationStatus.transitions is_valid_reason
  aborted-OfCall c schedule s h = made.all_calls
    where
      made : OnlyCalls (OfCall P) (reconcile_aborted c schedule s)
      made = only_lift (require s.id invalid) λ id.
          only_lift (require (c.get_asset_scan_estimations (unfinished_of id)) failed_call)
            λ answer. only_bind (only (jobs-OfCall P c schedule answer.items)) λ _. only (
              patch-OfCall P c id _
                (ask _ (moved ScanEstimationStatus.State.aborted h refl refl (λ e. cc))))

  -- The patch of a finished estimation asks for no status.
  done-OfCall : (c : Client) (s : ScanEstimation) → All (OfCall P) (reconcile_done c s).0
  unfolding reconcile_done finish delete_if patch
  done-OfCall c s = ground arith

  pub dispatch-OfCall :
      (k : ScanEstimationStatus.State) (c : Client) (schedule : List String → List GoStep)
      (s : ScanEstimation)
      → s.status ≡ some st
      → st.state ≡ k
      → All (OfCall P) (dispatch k c schedule s).0
  unfolding dispatch
  dispatch-OfCall ScanEstimationStatus.State.pending c schedule s e h = pending-OfCall c s h
  dispatch-OfCall ScanEstimationStatus.State.discovered c schedule s e h = discovered-OfCall c s h
  dispatch-OfCall ScanEstimationStatus.State.in_progress c schedule s e h =
      in_progress-OfCall c s e h
  dispatch-OfCall ScanEstimationStatus.State.aborted c schedule s e h =
      aborted-OfCall c schedule s h
  dispatch-OfCall ScanEstimationStatus.State.done c schedule s e h = done-OfCall c s
  dispatch-OfCall ScanEstimationStatus.State.failed c schedule s e h = done-OfCall c s
