-- ===== src/ScanWatcher/Updates/Handlers.antt =====
-- The statuses that each handler of the Scan controller asks for, against the check that the API server
-- makes of them (scanstatus.go).
use vmclarity.Prelude.{
  ℕ, String, ◌≡◌, refl, true, false, Option, none, some, List, [], ◌∷◌, ◌+◌, length, arith, All,
  any, ◌=?◌, Mem→any, inl, inr,
}
use vmclarity.Prelude.Int.{ℤ, pos, ◌-ℤ◌, int64}
use vmclarity.Go.{
  deref, failed_call, Act, All-bind, All-call, OnlyCalls, only_bind, only_lift, only, ◌>>=◌, pure,
  lift, require, invalid,
}
use vmclarity.Goroutines.{GoStep, run_steps-All}
use vmclarity.ApiTypes.{Scan, AssetScan, ScanState, ScanSummary}
use vmclarity.Status.{is_valid_reason, is_valid_status_transition}
use vmclarity.Status.Laws.{is_valid_transition_iff, accept_edge, accept_same}
use vmclarity.Status.ScanStatus
use vmclarity.Status.ScanStatus.{state_eq, reason_eq}
use vmclarity.ScanWatcher.Api.{
  Client, Call, patch_scan, patch_asset_scan, unfinished_of_scan, of_scan,
}
use vmclarity.ScanWatcher.Steps.{
  patch, reconcile_pending, reconcile_discovered, start, reconcile_in_progress, discovered,
  progressed, final_status,
}
use vmclarity.ScanWatcher.Summary.{summarise, new_scan_summary}
use vmclarity.ScanWatcher.Create.{
  create_all, collect, settle, after_errors, create_listed, create_asset_scan_for_asset,
  create_asset_scans_for_scan, post,
}
use vmclarity.ScanWatcher.Abort.{ids_of, cancelled, abort_asset_scans, reconcile_aborted}

-- The server accepts the status of the Scan that a call asks for, if it asks for one, from the status
-- `st`.
abbrev pub Accepted : ScanState → Call → Type 0
Accepted st (patch_scan id p) = elim p.status [
  | none ↦ Unit {0}
  | some b ↦ ScanStatus.check st b ≡ none
]
Accepted st _ = Unit {0}

-- An edge of the tables, at the state that the Scan is known to have.
moves :
    (st b : ScanState) (s : ScanStatus.State)
    → st.state ≡ s
    → is_valid_reason ScanStatus.machine b ≡ none
    → any (λ t. t =? b.state) (ScanStatus.transitions s) ≡ true
    → ScanStatus.check st b ≡ none
unfolding ScanStatus.check is_valid_status_transition
moves st b s h r t = accept_edge ScanStatus.machine st b r (rw h (rw t refl))

-- The tables have no edge from Discovered to Failed.
pub no_edge :
    (st b : ScanState)
    → st.state ≡ ScanStatus.discovered
    → b.state ≡ ScanStatus.failed
    → ¬ (ScanStatus.check st b ≡ none)
unfolding ScanStatus.check ScanStatus.machine ScanStatus.transitions
no_edge st b h k accepted = elim ((is_valid_transition_iff ScanStatus.machine st b).0 accepted) [
  | inl same ↦ cc (h, k, same.0)
  | inr edge ↦ cc (rw (h, k) at (Mem→any b.state (ScanStatus.transitions st.state) edge.1))
]

pub pending-Accepted :
    (c : Client) (scan : Scan) (st : ScanState)
    → st.state ≡ ScanStatus.pending
    → All (Accepted st) (reconcile_pending c scan).0
unfolding reconcile_pending patch discovered ScanStatus.new ScanStatus.machine is_valid_reason
pending-Accepted c scan st h = ground (
  arith,
  moves st
      (ScanStatus.new c.now ScanStatus.discovered ScanStatus.assets_discovered
        (some "Assets for Scan are successfully discovered"))
      ScanStatus.pending h refl refl,
  moves st
      (ScanStatus.new c.now ScanStatus.done ScanStatus.nothing_to_scan
        (some "No instances found in scope for Scan"))
      ScanStatus.pending h refl refl,
)

-- Creating AssetScans asks for no status of a Scan.
create_one-Accepted :
    (st : ScanState) (c : Client) (scan : Scan) (id : String)
    → All (Accepted st) (create_asset_scan_for_asset c scan id).0
unfolding create_asset_scan_for_asset post
create_one-Accepted st c scan id = ground arith

collect-All :
    (P : Call → Type 0) (one : Act Call (Unit {0})) (others : Act Call ℕ)
    → All P one.0
    → All P others.0
    → All P (collect one others).0
collect-All P one others h k =
    All-bind P (one.0, settle one.1) (λ n. others >>= λ m. pure (n + m)) h
      (λ n _. All-bind P others (λ m. pure (n + m)) k (λ m _. tt))

create_all-Accepted :
    (st : ScanState) (c : Client) (scan : Scan) (ids : List String)
    → All (Accepted st) (create_all c scan ids).0
unfolding create_all
create_all-Accepted st c scan [] = tt
create_all-Accepted st c scan (id ∷ ids) =
    collect-All (Accepted st) (create_asset_scan_for_asset c scan id) (create_all c scan ids)
      (create_one-Accepted st c scan id) (create_all-Accepted st c scan ids)

listed-Accepted :
    (st : ScanState) (c : Client) (scan : Scan) (ids : Option (List String))
    → All (Accepted st) (create_listed c scan ids).0
listed-Accepted st c scan none = tt
listed-Accepted st c scan (some ids) =
    All-bind (Accepted st) (create_all c scan ids) (λ n. lift (after_errors scan (length ids) n))
      (create_all-Accepted st c scan ids) (λ n _. tt)

created-Accepted :
    (st : ScanState) (c : Client) (scan : Scan)
    → All (Accepted st) (create_asset_scans_for_scan c scan).0
unfolding create_asset_scans_for_scan
created-Accepted st c scan = listed-Accepted st c scan scan.asset_ids

start-Accepted :
    (c : Client) (id : String) (scan : Scan) (st : ScanState)
    → st.state ≡ ScanStatus.discovered
    → All (Accepted st) (start c id scan).0
unfolding start patch ScanStatus.new ScanStatus.machine is_valid_reason
start-Accepted c id scan st h = ground (
  arith,
  moves st (ScanStatus.new c.now ScanStatus.in_progress ScanStatus.asset_scans_running none)
      ScanStatus.discovered h refl refl,
)

pub discovered-Accepted :
    (c : Client) (scan : Scan) (st : ScanState)
    → st.state ≡ ScanStatus.discovered
    → All (Accepted st) (reconcile_discovered c scan).0
unfolding reconcile_discovered
discovered-Accepted c scan st h =
    All-bind (Accepted st) (lift (require scan.id invalid))
      (λ id. create_asset_scans_for_scan c scan >>= λ s. start c id s) tt
      (λ id _.
        All-bind (Accepted st) (create_asset_scans_for_scan c scan) (λ s. start c id s)
          (created-Accepted st c scan) (λ s _. start-Accepted c id s st h))

progressed-Accepted :
    (c : Client) (id : String) (scan : Scan) (summary : ScanSummary) (left failed count : ℤ)
    (st : ScanState)
    → scan.status ≡ some st
    → st.state ≡ ScanStatus.in_progress
    → Accepted st (patch_scan id (progressed c scan summary left failed count))
unfolding progressed final_status ScanStatus.check ScanStatus.new ScanStatus.machine is_valid_reason
progressed-Accepted c id scan summary left failed count st e h = ground (
  arith,
  accept_same ScanStatus.machine st,
  moves st
      (ScanStatus.new c.now ScanStatus.failed ScanStatus.error
        (some (c.counts_text (int64 (count -ℤ failed)) failed count)))
      ScanStatus.in_progress h refl refl,
  moves st
      (ScanStatus.new c.now ScanStatus.done ScanStatus.success
        (some (c.counts_text (int64 (count -ℤ failed)) failed count)))
      ScanStatus.in_progress h refl refl,
)

pub in_progress-Accepted :
    (c : Client) (scan : Scan) (st : ScanState)
    → scan.status ≡ some st
    → st.state ≡ ScanStatus.in_progress
    → All (Accepted st) (reconcile_in_progress c scan).0
unfolding reconcile_in_progress patch
in_progress-Accepted c scan st e h = made.all_calls
  where
    made : OnlyCalls (Accepted st) (reconcile_in_progress c scan)
    made = only_lift (require scan.id invalid) λ id.
        only_lift (require (c.get_asset_scans (of_scan id)) failed_call) λ answer.
          only_lift (require answer.count invalid) λ count.
            only_lift (require answer.items invalid) λ items.
              only_lift (summarise new_scan_summary (pos 0) items) λ counted.
                only_lift (deref counted.0.jobs_left) λ left. only (
                  All-call (Accepted st) _ _
                    (progressed-Accepted c id scan counted.0 left counted.1 count st e h))

-- The patches of AssetScans ask for no status of the Scan.
abort_asset_scans-Accepted :
    (st : ScanState) (c : Client) (schedule : List String → List GoStep)
    (items : Option (List AssetScan))
    → All (Accepted st) (abort_asset_scans c schedule items).0
unfolding abort_asset_scans
abort_asset_scans-Accepted st c schedule none = tt
abort_asset_scans-Accepted st c schedule (some items) =
    run_steps-All (λ id. patch_asset_scan id (cancelled c))
      (λ id. c.patches_asset_scan id (cancelled c)) (Accepted st) (λ _. tt)
      (schedule (ids_of items)) false false

pub aborted-Accepted :
    (c : Client) (schedule : List String → List GoStep) (scan : Scan) (st : ScanState)
    → st.state ≡ ScanStatus.aborted
    → All (Accepted st) (reconcile_aborted c schedule scan).0
unfolding reconcile_aborted ScanStatus.new ScanStatus.machine is_valid_reason patch
aborted-Accepted c schedule scan st h = made.all_calls
  where
    made : OnlyCalls (Accepted st) (reconcile_aborted c schedule scan)
    made = only_lift (require scan.id invalid) λ id.
        only_lift (require (c.get_asset_scans (unfinished_of_scan id)) failed_call) λ answer.
          only_bind (only (abort_asset_scans-Accepted st c schedule answer.items)) λ _. only (
            All-call (Accepted st) _ _ (
              moves st
                (ScanStatus.new c.now ScanStatus.failed ScanStatus.cancellation
                  (some "Scan has been aborted"))
                ScanStatus.aborted h refl refl))
