-- ===== src/AssetScanEstimationWatcher/Ends.antt =====
-- How an AssetScanEstimation ends: its deletion, and the patch of an Aborted one.
use vmclarity.Prelude.{
  String, ◌≡◌, ◌⊎◌, inl, inr, refl, true, false, Option, none, some, List, [], ◌∷◌, Mem→any, Bool,
  Bool-cases,
}
use vmclarity.Prelude.Int.{ℤ, pos, ltb_ℤ, in_seconds, ◌+ℤ◌}
use vmclarity.Go.{err, failed_call, or_default, call}
use vmclarity.Status.Laws.{is_valid_transition_iff}
use vmclarity.Status.AssetScanEstimationStatus
use vmclarity.Status.AssetScanEstimationStatus.{state_eq, reason_eq}
use vmclarity.EstimationTypes.{AssetScanEstimation, EstimationState, empty_patch}
use vmclarity.AssetScanEstimationWatcher.Api.{Client, Call, patch_estimation, delete_estimation}
use vmclarity.AssetScanEstimationWatcher.{
  reconcile, dispatch, reconcile_aborted, reconcile_done, finish, delete_if, expiry, default_ttl,
  expiring, patch, by_status,
}

-- The server accepts the status that a patch asks for, if it asks for one.
abbrev pub Accepts : EstimationState → AssetScanEstimation → Type 0
Accepts st p = elim p.status [
  | none ↦ Unit {0}
  | some b ↦ AssetScanEstimationStatus.check st b ≡ none
]

-- The tables have no edge from Aborted.
no_edge :
    (st b : EstimationState)
    → st.state ≡ AssetScanEstimationStatus.State.aborted
    → b.state ≡ AssetScanEstimationStatus.State.failed
    → ¬ (AssetScanEstimationStatus.check st b ≡ none)
unfolding AssetScanEstimationStatus.check AssetScanEstimationStatus.machine
    AssetScanEstimationStatus.transitions
no_edge st b h k accepted =
    elim ((is_valid_transition_iff AssetScanEstimationStatus.machine st b).0 accepted) [
      | inl same ↦ cc (h, k, same.0)
      | inr edge ↦
          cc (rw h at (Mem→any b.state (AssetScanEstimationStatus.transitions st.state) edge.1))
    ]

-- An Aborted AssetScanEstimation that has an ID, where the API server refuses a patch whose status its
-- check refuses: every run of Reconcile makes one call and ends with its error, so that the estimation stays Aborted.
abort_stuck :
    (c : Client) (estimation_id id : String) (e : AssetScanEstimation) (st : EstimationState)
    → ((p : AssetScanEstimation) → ¬ Accepts st p → c.patches id p ≡ false)
    → c.get_estimation estimation_id ≡ some e
    → e.id ≡ some id
    → e.status ≡ some st
    → st.state ≡ AssetScanEstimationStatus.State.aborted
    → (p : AssetScanEstimation) × (reconcile c estimation_id
        ≡ (patch_estimation id p ∷ [], err failed_call))
unfolding reconcile reconcile_aborted patch AssetScanEstimationStatus.new dispatch by_status
abort_stuck c estimation_id id e st obeys found known status aborted =
    (asked, simp (found, status, aborted, known, obeys asked refused) refl)
  where
    asked : AssetScanEstimation
    asked = record empty_patch {
      status = some (
          AssetScanEstimationStatus.new c.now AssetScanEstimationStatus.State.failed
            AssetScanEstimationStatus.Reason.aborted (some "asset scan estimation was aborted"));
    }

    refused : ¬ Accepts st asked
    refused a = no_edge st _ aborted refl a

-- The time when it ended: its EndTime, or now where it has none.
abbrev pub EndedAt : Client → AssetScanEstimation → ℤ → Type 0
EndedAt c e u = (e.end_time ≡ some u) ⊎ ((e.end_time ≡ none) × (u ≡ c.now))

-- Its time to live in seconds: the default of two hours where none is set.
abbrev pub LivesFor : AssetScanEstimation → ℤ → Type 0
LivesFor e s = (e.ttl_seconds ≡ some s) ⊎ ((e.ttl_seconds ≡ none) × (s ≡ pos 7200))

-- The time after which it is to be deleted: the one that is set, or its time to live after its end.
abbrev pub Deadline : Client → AssetScanEstimation → ℤ → Type 0
Deadline c e t =
    (e.delete_after ≡ some t)
    ⊎ ((e.delete_after ≡ none)
        × ((u : ℤ) × (s : ℤ) × EndedAt c e u × LivesFor e s × (t ≡ u +ℤ in_seconds s)))

-- The one call, or none, for a deadline.
abbrev pub EndsBy : Client → AssetScanEstimation → String → ℤ → List Call → Type 0
EndsBy c e id t calls =
    ((ltb_ℤ t c.now ≡ true) × (calls ≡ delete_estimation id ∷ []))
    ⊎ ((ltb_ℤ t c.now ≡ false) × (e.delete_after ≡ some t) × (calls ≡ []))
    ⊎ ((ltb_ℤ t c.now ≡ false)
        × (e.delete_after ≡ none)
        × ((p : AssetScanEstimation) × (calls ≡ patch_estimation id p ∷ [])
            × (p.delete_after ≡ some t)
            × EndedAt c e (or_default p.end_time (pos 0))
            × LivesFor e (or_default p.ttl_seconds (pos 0))
            × (p.status ≡ none)
            × (p.estimation ≡ none)))

module _ (c : Client) (e : AssetScanEstimation) (id : String) where
  ended_at : (o : Option ℤ) → e.end_time ≡ o → EndedAt c e (or_default o c.now)
  ended_at none unset = inr (unset, refl)
  ended_at (some u) set = inl set

  lives_for : (o : Option ℤ) → e.ttl_seconds ≡ o → LivesFor e (or_default o default_ttl)
  lives_for none unset = inr (unset, refl)
  lives_for (some s) set = inl set

  called : (q : Call) (answer : Bool) → (call q answer).0 ≡ q ∷ []
  called q true = refl
  called q false = refl

  -- The end and the time to live that the code computes with.
  abbrev end : ℤ
  end = or_default e.end_time c.now

  abbrev ttl : ℤ
  ttl = or_default e.ttl_seconds default_ttl

  finish-EndsBy :
      (o : Option ℤ)
      → e.delete_after ≡ o
      → (t : ℤ) × Deadline c e t × EndsBy c e id t (finish c e id o).0
  unfolding finish delete_if patch expiry
  finish-EndsBy none unset = (
    end +ℤ in_seconds ttl,
    inr (unset, (end, ttl, ended_at e.end_time refl, lives_for e.ttl_seconds refl, refl)),
    elim (Bool-cases (ltb_ℤ (end +ℤ in_seconds ttl) c.now)) [
      | inl late ↦ inl (late, rw late (called (delete_estimation id) (c.deletes id)))
      | inr early ↦ inr (
          inr (
            early,
            unset,
            (
              expiring c e,
              rw early (called (patch_estimation id (expiring c e)) (c.patches id (expiring c e))),
              refl,
              ended_at e.end_time refl,
              lives_for e.ttl_seconds refl,
              refl,
              refl,
            ),
          ))
    ],
  )
  finish-EndsBy (some t) set = (
    t,
    inl set,
    elim (Bool-cases (ltb_ℤ t c.now)) [
      | inl late ↦ inl (late, rw late (called (delete_estimation id) (c.deletes id)))
      | inr early ↦ inr (inl (early, set, rw early refl))
    ],
  )

-- A Done or Failed AssetScanEstimation that has an ID has a deadline: the time that is set to delete it
-- after, or else its time to live after its end. Reconcile deletes it where the deadline has passed. Before,
-- it makes no call if the time is set; if not it sends one patch, which sets the time to the deadline,
-- with the end and the time to live that it was made of, and asks for no status.
pub expires :
    (c : Client) (estimation_id id : String) (e : AssetScanEstimation) (st : EstimationState)
    → c.get_estimation estimation_id ≡ some e
    → e.id ≡ some id
    → e.status ≡ some st
    → (st.state ≡ AssetScanEstimationStatus.State.done)
      ⊎ (st.state ≡ AssetScanEstimationStatus.State.failed)
    → (t : ℤ) × Deadline c e t × EndsBy c e id t (reconcile c estimation_id).0
unfolding reconcile by_status dispatch reconcile_done
expires c estimation_id id e st found known status (inl finished) =
    simp (found, status, finished, known) (finish-EndsBy c e id e.delete_after refl)
expires c estimation_id id e st found known status (inr finished) =
    simp (found, status, finished, known) (finish-EndsBy c e id e.delete_after refl)
