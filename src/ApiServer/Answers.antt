-- ===== src/ApiServer/Answers.antt =====
-- What the handlers of Scans answer to a PATCH (api/server/scan_controller.go), and what the Scan
-- controller makes of it.
use vmclarity.Prelude.{
  String, ◌≡◌, refl, Bool, true, false, Option, none, some, List, [], ◌∷◌, Bool-cases, Option-cases,
  inl, inr, ◌=?◌, string_eq,
}
use vmclarity.Prelude.Int.{ℤ}
use vmclarity.Go.{err, failed_call}
use vmclarity.Goroutines.{GoStep}
use vmclarity.ApiTypes.{Scan, ScanState, is_timed_out}
use vmclarity.Status.ScanStatus
use vmclarity.ScanWatcher.Api.{Client, ScanPatch, patch_scan}
use vmclarity.ScanWatcher.Updates.{discovered_timeout_stuck}
use vmclarity.ScanWatcher.Updates.Handlers.{Accepted, no_edge}
use vmclarity.ScanWatcher.{reconcile, timed_out}
use vmclarity.ApiServer.Table.{
  Db, find, get_scan, update_scan, check_revision_etag, validate_scan_config_id,
}
use vmclarity.ApiServer.{
  Response, ok_scan, conflict, bad_request, panics, put_scans_scan_id, patch_scans_scan_id,
  answer_patch, same_id,
}

-- For a stored Scan that is found and has a status: a PATCH of it whose status the check refuses from the
-- stored one is answered with Bad Request and leaves the table.
pub patch_refuses :
    (db : Db) (t : List Scan) (id : String) (if_match : Option ℤ) (body stored : Scan)
    (old new : ScanState)
    → db.finds ≡ true
    → find id t ≡ some stored
    → stored.status ≡ some old
    → body.status ≡ some new
    → ¬ (ScanStatus.check old new ≡ none)
    → patch_scans_scan_id db t id if_match (some body) ≡ (t, bad_request)
unfolding patch_scans_scan_id get_scan
patch_refuses db t id if_match body stored old new finds found so sn refused =
    elim (Option-cases (ScanStatus.check old new)) [
      | inl accepted ↦ absurd (refused accepted)
      | inr (e, why) ↦ elim (Bool-cases (same_id body.id id)) [
        | inl same ↦ simp (same, finds, found, so, sn, why) refl
        | inr other ↦ simp other refl
      ]
    ]

-- The body of a PATCH that the controller sends.
abbrev pub to_body : ScanPatch → Scan
to_body p = record {
  id = none;
  revision = none;
  name = none;
  scan_config = none;
  status = p.status;
  scope = none;
  asset_ids = p.asset_ids;
  template = none;
  start_time = none;
  end_time = p.end_time;
  timeout_seconds = none;
  max_parallel_scanners = none;
  summary = p.summary;
}

abbrev pub is_ok : Response → Bool
is_ok (ok_scan s) = true
is_ok _ = false

-- A client whose Scans come from the table and whose patches go to it.
abbrev pub connected : Client → Db → List Scan → Client
connected c db t = record c {
  get_scan = λ id. elim (find id t) [ none ↦ none | some s ↦ some (some s) ];
  patches_scan = λ id p. is_ok (patch_scans_scan_id db t id none (some (to_body p))).1;
}

timed_out-failed : (now : ℤ) → (timed_out now).state ≡ ScanStatus.failed
unfolding ScanStatus.new
timed_out-failed now = refl

-- A Scan controller on a table of the server, where the queries by ID succeed: for a Discovered Scan of
-- the table that has timed out, a run of Reconcile makes one call, the patch to Failed, and ends
-- with its error, and the server leaves the table as it is.
pub timeout_goes_nowhere :
    (c : Client) (db : Db) (t : List Scan) (schedule : List String → List GoStep) (id : String)
    (scan : Scan) (st : ScanState)
    → db.finds ≡ true
    → find id t ≡ some scan
    → scan.id ≡ some id
    → scan.status ≡ some st
    → st.state ≡ ScanStatus.discovered
    → is_timed_out c.now scan c.scan_timeout ≡ true
    → (p : ScanPatch) × (asked : ScanState) × (p.status ≡ some asked)
      × (asked.state ≡ ScanStatus.failed)
      × (reconcile (connected c db t) schedule id ≡ (patch_scan id p ∷ [], err failed_call))
      × (patch_scans_scan_id db t id none (some (to_body p)) ≡ (t, bad_request))
timeout_goes_nowhere c db t schedule id scan st finds found named status discovered late = (
  expiry,
  timed_out c.now,
  refl,
  timed_out-failed c.now,
  discovered_timeout_stuck (connected c db t) schedule id id scan st obeys
      (rw (connected, found) refl) late named discovered,
  refuses expiry (timed_out c.now) refl
      (no_edge st (timed_out c.now) discovered (timed_out-failed c.now)),
)
  where
    expiry : ScanPatch
    expiry = record {
      status = some (timed_out c.now);
      summary = none;
      end_time = none;
      asset_ids = none;
    }

    refuses :
        (p : ScanPatch) (b : ScanState)
        → p.status ≡ some b
        → ¬ (ScanStatus.check st b ≡ none)
        → patch_scans_scan_id db t id none (some (to_body p)) ≡ (t, bad_request)
    refuses p b asked refused =
        patch_refuses db t id none (to_body p) scan st b finds found status asked refused

    obeys :
        (p : ScanPatch)
        → ¬ Accepted st (patch_scan id p)
        → (connected c db t).patches_scan id p ≡ false
    obeys p refused = elim (Option-cases p.status) [
      | inl silent ↦ absurd (refused (rw silent tt))
      | inr (b, asked) ↦ rw (refuses p b asked (λ e. refused (rw asked e))) refl
    ]

-- A PATCH that would change the config of a stored Scan, which is a bad request to the table, is
-- answered with Conflict and without that Scan; where the query succeeds, the PATCH has no status and no
-- If-Match, and the ID of the Scan is not empty.
pub config_change_conflict :
    (db : Db) (t : List Scan) (id : String) (body stored : Scan) (new old : String)
    → db.finds ≡ true
    → find id t ≡ some stored
    → (id =? "") ≡ false
    → body.id ≡ none
    → body.status ≡ none
    → body.scan_config ≡ some new
    → stored.scan_config ≡ some old
    → (new =? old) ≡ false
    → patch_scans_scan_id db t id none (some body) ≡ (t, conflict none)
unfolding patch_scans_scan_id get_scan update_scan answer_patch validate_scan_config_id
    check_revision_etag
config_change_conflict db t id body stored new old finds found named free silent c d change =
    elim (Bool-cases (new =? "")) [
      | inl blank ↦ simp (free, silent, finds, found, named, c, blank) refl
      | inr other ↦ simp (free, silent, finds, found, named, c, d, other, change) refl
    ]

-- A PUT without a status of a stored Scan, where the query succeeds, reads the error of a
-- query that had none.
pub put_needs_status :
    (db : Db) (t : List Scan) (id : String) (if_match : Option ℤ) (body stored : Scan)
    → db.finds ≡ true
    → find id t ≡ some stored
    → same_id body.id id ≡ true
    → body.status ≡ none
    → put_scans_scan_id db t id if_match (some body) ≡ (t, panics)
unfolding put_scans_scan_id get_scan
put_needs_status db t id if_match body stored finds found same silent =
    simp (same, finds, found, silent) refl
