-- ===== src/ApiServer.antt =====
-- The REST handlers of Scans, api/server/scan_controller.go, on the table of api/server/database/gorm.
-- Requests are served one after another: the code has no transaction around a request.
pub mod Table
pub mod Consistency
pub mod Done
pub mod Uniqueness
pub mod Revisions
pub mod Answers
mod Examples
use vmclarity.Prelude.{
  String, Bool, true, false, Option, none, some, List, [], ◌∷◌, ◌=?◌, string_eq, if◌then◌else◌,
}
use vmclarity.Prelude.Int.{ℤ}
use vmclarity.ApiTypes.{Scan, ScanState}
use vmclarity.Status.{Refusal}
use vmclarity.Status.ScanStatus
use vmclarity.Status.ScanStatus.{state_eq}
use Table.{
  Db, DbError, bad_request_error, conflict_error, precondition_error, not_found_error, other_error,
  DbResult, done, failed, crashed, get_scan, create_scan, update_scan, save_scan, delete_scan,
}

-- The status codes, with the Scan of the body. `conflict none` has the empty Scan; `panics` is a nil
-- pointer that is read.
pub data Response : Type 0 where
  ok_scan created : Scan → Response
  conflict : Option Scan → Response
  bad_request not_found precondition_failed internal_error deleted panics : Response

answer_post : List Scan → DbResult (List Scan × Scan) → List Scan × Response
answer_post t (done (t', scan)) = (t', created scan)
answer_post t (failed (conflict_error existing)) = (t, conflict (some existing))
answer_post t (failed bad_request_error) = (t, bad_request)
answer_post t (failed _) = (t, internal_error)
answer_post t crashed = (t, panics)

-- The `switch` on the initial state.
post_checked : Db → List Scan → Scan → Option ScanState → List Scan × Response
unfolding answer_post
post_checked db t scan none = (t, bad_request)
post_checked db t scan (some status) =
    if status.state =? ScanStatus.pending
    then answer_post t (create_scan db t scan)
    else (t, bad_request)

-- PostScans. The body is `none` where it cannot be bound.
unfoldable pub post_scans : Db → List Scan → Option Scan → List Scan × Response
unfolding post_checked
post_scans db t none = (t, bad_request)
post_scans db t (some scan) = post_checked db t scan scan.status

answer_get : List Scan → DbResult Scan → List Scan × Response
answer_get t (done scan) = (t, ok_scan scan)
answer_get t (failed not_found_error) = (t, not_found)
answer_get t (failed _) = (t, internal_error)
answer_get t crashed = (t, panics)

-- GetScansScanID.
unfoldable pub get_scans_scan_id : Db → List Scan → String → List Scan × Response
unfolding answer_get
get_scans_scan_id db t id = answer_get t (get_scan db t id)

answer_delete : List Scan → DbResult (List Scan) → List Scan × Response
answer_delete t (done t') = (t', deleted)
answer_delete t (failed not_found_error) = (t, not_found)
answer_delete t (failed _) = (t, internal_error)
answer_delete t crashed = (t, panics)

-- DeleteScansScanID.
unfoldable pub delete_scans_scan_id : Db → List Scan → String → List Scan × Response
unfolding answer_delete
delete_scans_scan_id db t id = answer_delete t (delete_scan db t id)

-- Both variables of PatchScansScanID are of type BadRequestError, and the first case is Conflict.
unfoldable pub answer_patch : List Scan → DbResult (List Scan × Scan) → List Scan × Response
answer_patch t (done (t', scan)) = (t', ok_scan scan)
answer_patch t (failed not_found_error) = (t, not_found)
answer_patch t (failed bad_request_error) = (t, conflict none)
answer_patch t (failed (conflict_error existing)) = (t, internal_error)
answer_patch t (failed precondition_error) = (t, precondition_failed)
answer_patch t (failed other_error) = (t, internal_error)
answer_patch t crashed = (t, panics)

unfoldable pub answer_put : List Scan → DbResult (List Scan × Scan) → List Scan × Response
answer_put t (done (t', scan)) = (t', ok_scan scan)
answer_put t (failed not_found_error) = (t, not_found)
answer_put t (failed (conflict_error existing)) = (t, conflict (some existing))
answer_put t (failed bad_request_error) = (t, bad_request)
answer_put t (failed precondition_error) = (t, precondition_failed)
answer_put t (failed other_error) = (t, internal_error)
answer_put t crashed = (t, panics)

-- From what the check of the status says.
abbrev patch_if : {E : Type 0} → Db → List Scan → Option ℤ → Scan → Option E → List Scan × Response
patch_if db t if_match scan (some refusal) = (t, bad_request)
patch_if db t if_match scan none = answer_patch t (update_scan db t if_match scan)

-- From the new status and the existing one.
abbrev patch_status :
    Db → List Scan → Option ℤ → Scan → Option ScanState → Option ScanState → List Scan × Response
patch_status db t if_match scan none old = answer_patch t (update_scan db t if_match scan)
patch_status db t if_match scan (some new) none = (t, internal_error)
patch_status db t if_match scan (some new) (some old) =
    patch_if db t if_match scan (ScanStatus.check old new)

-- From the existing Scan. GetScan returns ErrNotFound of the database package, and the handler tests
-- for ErrRecordNotFound of gorm.
abbrev patch_existing : Db → List Scan → Option ℤ → Scan → DbResult Scan → List Scan × Response
patch_existing db t if_match scan (done existing) =
    patch_status db t if_match scan scan.status existing.status
patch_existing db t if_match scan (failed e) = (t, internal_error)
patch_existing db t if_match scan crashed = (t, panics)

-- The ID of a body is nil or that of the URL.
abbrev pub same_id : Option String → String → Bool
same_id none id = true
same_id (some i) id = i =? id

-- PatchScansScanID.
unfoldable pub patch_scans_scan_id :
    Db → List Scan → String → Option ℤ → Option Scan → List Scan × Response
unfolding answer_patch
patch_scans_scan_id db t id if_match none = (t, bad_request)
patch_scans_scan_id db t id if_match (some scan) =
    if same_id scan.id id
    then patch_existing db t if_match (record scan { id = some id }) (get_scan db t id)
    else (t, bad_request)

abbrev put_if : {E : Type 0} → Db → List Scan → Option ℤ → Scan → Option E → List Scan × Response
put_if db t if_match scan (some refusal) = (t, bad_request)
put_if db t if_match scan none = answer_put t (save_scan db t if_match scan)

-- Without a new status the handler reads the error, which is nil.
abbrev put_status :
    Db → List Scan → Option ℤ → Scan → Option ScanState → Option ScanState → List Scan × Response
put_status db t if_match scan none old = (t, panics)
put_status db t if_match scan (some new) none = (t, internal_error)
put_status db t if_match scan (some new) (some old) =
    put_if db t if_match scan (ScanStatus.check old new)

abbrev put_existing : Db → List Scan → Option ℤ → Scan → DbResult Scan → List Scan × Response
put_existing db t if_match scan (done existing) =
    put_status db t if_match scan scan.status existing.status
put_existing db t if_match scan (failed e) = (t, internal_error)
put_existing db t if_match scan crashed = (t, panics)

-- PutScansScanID.
unfoldable pub put_scans_scan_id :
    Db → List Scan → String → Option ℤ → Option Scan → List Scan × Response
unfolding answer_put
put_scans_scan_id db t id if_match none = (t, bad_request)
put_scans_scan_id db t id if_match (some scan) =
    if same_id scan.id id
    then put_existing db t if_match (record scan { id = some id }) (get_scan db t id)
    else (t, bad_request)
