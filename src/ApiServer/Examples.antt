-- ===== src/ApiServer/Examples.antt =====
-- The theorems on the API server at a table of two Scans.
use vmclarity.Prelude.{
  String, ◌≡◌, refl, arith, true, false, ◌=?◌, =?_iff, string_eq, none, some, List, [], ◌∷◌,
}
use vmclarity.Prelude.Int.{pos, ◌+ℤ◌, add_int, int64}
use vmclarity.Go.{err, failed_call}
use vmclarity.Goroutines.{one_by_one}
use vmclarity.ApiTypes.{Scan, ScanState, is_timed_out, get_timeout_seconds}
use vmclarity.Status.ScanStatus
use vmclarity.ScanWatcher.Api.{Client, ScanPatch, patch_scan, created}
use vmclarity.ScanWatcher.{reconcile}
use vmclarity.ApiServer.Table.{
  Db, find, get_scan, update_scan, rivals, replace, check_revision_etag, bump_revision,
  validate_scan_config_id, check_uniqueness, is_running,
}
use vmclarity.ApiServer.Consistency.{IsConsistent}
use vmclarity.ApiServer.Uniqueness.{post, serve, serve-IsConsistent}
use vmclarity.ApiServer.Revisions.{get-patch, lost_update}
use vmclarity.ApiServer.Answers.{connected, to_body, timeout_goes_nowhere, config_change_conflict}
use vmclarity.ApiServer.{
  conflict, bad_request, ok_scan, patch_scans_scan_id, get_scans_scan_id, answer_patch,
}

abbrev discovered : ScanState
discovered = record {
  state = ScanStatus.discovered;
  reason = ScanStatus.assets_discovered;
  message = none;
  last_transition_time = pos 0;
}

-- A Scan of a config, which may take one second from 1 on.
abbrev scan_of : String → String → Scan
scan_of id config = record {
  id = some id;
  revision = some (pos 3);
  name = none;
  scan_config = some config;
  status = some discovered;
  scope = none;
  asset_ids = none;
  template = none;
  start_time = some (pos 1);
  end_time = none;
  timeout_seconds = some (pos 1);
  max_parallel_scanners = none;
  summary = none;
}

abbrev table : List Scan
table = scan_of "a" "nightly" ∷ scan_of "b" "weekly" ∷ []

-- A merge of the fields that the examples set.
abbrev merge_scans : Scan → Scan → Scan
merge_scans old new = record old { id = new.id; revision = new.revision; end_time = new.end_time }

abbrev db : Db
db = record { new_id = "c"; merge = merge_scans; finds = true; searches = true; writes = true }

no_clash : (x y k : String) → (x =? y) ≡ false → (x =? k) ≡ true → (y =? k) ≡ false
no_clash x y k other h = ground (arith, =?_iff x k, =?_iff y k, =?_iff x y)

table-IsConsistent : IsConsistent table
table-IsConsistent = (((λ id h. no_clash "a" "b" id refl h, λ sc h. alone sc h), tt), (tt, tt))
  where
    alone :
        (sc : String)
        → is_running sc (scan_of "a" "nightly") ≡ true
        → is_running sc (scan_of "b" "weekly") ≡ false
    alone sc h = ground (arith, no_clash "nightly" "weekly" sc refl)

serve-IsConsistent_example :
    IsConsistent (serve db table (post (some (record (scan_of "a" "nightly") { id = none })))).0
serve-IsConsistent_example =
    serve-IsConsistent db table (λ _ _ _ h. h) table-IsConsistent
      (post (some (record (scan_of "a" "nightly") { id = none }))) (refl, (refl, tt))

-- A PATCH that ends the Scan.
abbrev ending : Scan
ending =
    to_body (record { status = none; summary = none; end_time = some (pos 9); asset_ids = none })

abbrev ended : Scan
ended = record (scan_of "a" "nightly") { revision = some (pos 4); end_time = some (pos 9) }

first_applied : (patch_scans_scan_id db table "a" (some (pos 3)) (some ending)).1 ≡ ok_scan ended
unfolding patch_scans_scan_id get_scan find update_scan answer_patch check_revision_etag
    validate_scan_config_id check_uniqueness bump_revision rivals replace add_int int64 ◌+ℤ◌
first_applied = refl

get-patch_example :
    get_scans_scan_id db (patch_scans_scan_id db table "a" (some (pos 3)) (some ending)).0 "a"
    ≡ ((patch_scans_scan_id db table "a" (some (pos 3)) (some ending)).0, ok_scan ended)
get-patch_example =
    get-patch db db table "a" (some (pos 3)) ending ended (λ _ _ _ h. h) refl first_applied

lost_update_example :
    (patch_scans_scan_id db
      (patch_scans_scan_id db table "a" (some (pos 3)) (some ending)).0
      "a"
      (some (pos 3))
      (some ending)).0
    ≡ (patch_scans_scan_id db table "a" (some (pos 3)) (some ending)).0
lost_update_example =
    lost_update db db table "a" 3 ending ending ended (λ _ _ _ h. h) (λ _ _ _ h. h) (ground arith)
      first_applied

abbrev client : Client
client = record {
  now = pos 2000000002;
  scan_timeout = pos 1000;
  get_scan = λ _. none;
  get_assets = λ _. none;
  get_asset_scans = λ _. none;
  patches_scan = λ _ _. true;
  posts_asset_scan = λ _. created;
  patches_asset_scan = λ _ _. true;
  counts_text = λ _ _ _. "";
}

timeout_goes_nowhere_example :
    (p : ScanPatch) × (asked : ScanState) × (p.status ≡ some asked)
    × (asked.state ≡ ScanStatus.failed)
    × (reconcile (connected client db table) one_by_one "a"
        ≡ (patch_scan "a" p ∷ [], err failed_call))
    × (patch_scans_scan_id db table "a" none (some (to_body p)) ≡ (table, bad_request))
unfolding is_timed_out get_timeout_seconds ◌+ℤ◌ find
timeout_goes_nowhere_example =
    timeout_goes_nowhere client db table one_by_one "a" (scan_of "a" "nightly") discovered refl refl
      refl refl refl refl

-- The body that moves Scan "a" to another config.
abbrev moving : Scan
moving = record ending { scan_config = some "weekly" }

config_change_conflict_example :
    patch_scans_scan_id db table "a" none (some moving) ≡ (table, conflict none)
unfolding find
config_change_conflict_example =
    config_change_conflict db table "a" moving (scan_of "a" "nightly") "weekly" "nightly" refl refl
      refl refl refl refl refl refl
