-- ===== src/ApiServer/Table.antt =====
-- The table of Scans, api/server/database/gorm/scan.go with common.go: the rows in their order, each
-- the Scan of its JSON document. Marshalling and unmarshalling a Scan gives the same Scan.
use vmclarity.Prelude.{
  String, Bool, true, false, not, ◌&&◌, Option, none, some, List, [], ◌∷◌, ◌++◌, ◌=?◌, string_eq,
  if◌then◌else◌,
}
use vmclarity.Prelude.Int.{ℤ, pos, add_int, eqb_ℤ}
use vmclarity.ApiTypes.{Scan}

-- BadRequestError, ConflictError with the Scan that is returned beside it, PreconditionFailedError,
-- ErrNotFound, and any other error.
pub data DbError : Type 0 where
  bad_request_error : DbError
  conflict_error : Scan → DbError
  precondition_error not_found_error other_error : DbError

-- `crashed` is a nil pointer that is read.
pub data DbResult {ℓ} (A : Type ℓ) : Type ℓ where
  done : A → DbResult A
  failed : DbError → DbResult A
  crashed : DbResult A

infixl 5 ◌>>=◌ ◌>>◌
abbrev pub ◌>>=◌ {ℓ κ} : {A : Type ℓ} {B : Type κ} → DbResult A → (A → DbResult B) → DbResult B
done a >>= f = f a
failed e >>= f = failed e
crashed >>= f = crashed

abbrev pub ◌>>◌ {ℓ} : {B : Type ℓ} → DbResult (Unit {0}) → DbResult B → DbResult B
m >> k = m >>= λ _. k

-- uuid.New, jsonpatch.MergePatch on the documents, and whether the queries by ID, the other queries and
-- the writes succeed.
pub record Db : Type 0 where
  pub new_id : String
  pub merge : Scan → Scan → Scan
  pub finds : Bool
  pub searches : Bool
  pub writes : Bool

abbrev pub has_id : String → Scan → Bool
has_id id s = elim s.id [ none ↦ false | some i ↦ i =? id ]

-- The row with an ID.
unfoldable pub find : String → List Scan → Option Scan
find id [] = none
find id (s ∷ rest) = let later = find id rest in if has_id id s then some s else later

-- Save of the row with an ID, and Delete.
unfoldable pub replace : String → Scan → List Scan → List Scan
replace id new [] = []
replace id new (s ∷ rest) =
    let later = replace id new rest in if has_id id s then new ∷ rest else s ∷ later

unfoldable pub remove : String → List Scan → List Scan
remove id [] = []
remove id (s ∷ rest) = let later = remove id rest in if has_id id s then later else s ∷ later

abbrev found : Option Scan → DbResult Scan
found none = failed not_found_error
found (some s) = done s

-- GetScan and getExistingObjByID.
unfoldable pub get_scan : Db → List Scan → String → DbResult Scan
unfolding find
get_scan db t id = if db.finds then found (find id t) else failed other_error

-- Of the config `sc`, and running.
abbrev pub is_running : String → Scan → Bool
is_running sc s = elim s.scan_config [
  | none ↦ false
  | some c ↦ c =? sc && elim s.end_time [ none ↦ true | some t ↦ false ]
]

-- The other running Scans of a config.
unfoldable pub rivals : String → String → List Scan → List Scan
rivals id sc [] = []
rivals id sc (s ∷ rest) =
    let later = rivals id sc rest in
    if not (has_id id s) && is_running sc s then s ∷ later else later

abbrev verdict : Scan → List Scan → DbResult (Unit {0})
verdict scan [] = done tt
verdict scan (s ∷ rest) = elim scan.end_time [ none ↦ failed (conflict_error s) | some t ↦ done tt ]

abbrev check_config : Db → List Scan → Scan → Option String → Option String → DbResult (Unit {0})
check_config db t scan none id = done tt
check_config db t scan (some sc) none = crashed
check_config db t scan (some sc) (some id) =
    if db.searches then verdict scan (rivals id sc t) else failed other_error

-- checkUniqueness, where the Scan has a config.
unfoldable pub check_uniqueness : Db → List Scan → Scan → DbResult (Unit {0})
unfolding rivals
check_uniqueness db t scan = check_config db t scan scan.scan_config scan.id

abbrev pub written : Db → List Scan → Scan → DbResult (List Scan × Scan)
written db t scan = if db.writes then done (t, scan) else failed other_error

abbrev pub new_scan : Db → Scan → Scan
new_scan db scan = record scan { id = some db.new_id; revision = some (pos 1) }

-- CreateScan.
unfoldable pub create_scan : Db → List Scan → Scan → DbResult (List Scan × Scan)
create_scan db t scan = elim scan.id [
  | some id ↦ failed bad_request_error
  | none ↦
      check_uniqueness db t (new_scan db scan)
      >> written db (t ++ new_scan db scan ∷ []) (new_scan db scan)
]

-- checkRevisionEtag: the text of its error reads *revision.
unfoldable pub check_revision_etag : Option ℤ → Option ℤ → DbResult (Unit {0})
check_revision_etag none revision = done tt
check_revision_etag (some m) none = crashed
check_revision_etag (some m) (some r) = if eqb_ℤ m r then done tt else failed precondition_error

unfoldable pub bump_revision : Option ℤ → Option ℤ
unfolding add_int
bump_revision none = some (pos 1)
bump_revision (some r) = some (add_int r (pos 1))

-- validateScanConfigID, from the two configs; that of the stored Scan is read.
unfoldable pub validate_scan_config_id : Option String → Option String → DbResult (Unit {0})
validate_scan_config_id none old = done tt
validate_scan_config_id (some new) old = if new =? "" then failed bad_request_error else elim old [
  | none ↦ crashed
  | some c ↦ if new =? c then done tt else failed bad_request_error
]

abbrev pub required_id : Scan → DbResult String
required_id scan = elim scan.id [
  | none ↦ failed bad_request_error
  | some id ↦ if id =? "" then failed bad_request_error else done id
]

-- SaveScan.
unfoldable pub save_scan : Db → List Scan → Option ℤ → Scan → DbResult (List Scan × Scan)
save_scan db t if_match scan = do
  id ← required_id scan
  old ← get_scan db t id
  check_revision_etag if_match old.revision
  validate_scan_config_id scan.scan_config old.scan_config
  check_uniqueness db t scan
  let new = record scan { revision = bump_revision old.revision }
  written db (replace id new t) new

-- The document after a patch.
abbrev pub patched : Db → Scan → Scan → Scan
patched db old scan = db.merge old (record scan { revision = bump_revision old.revision })

-- UpdateScan.
unfoldable pub update_scan : Db → List Scan → Option ℤ → Scan → DbResult (List Scan × Scan)
update_scan db t if_match scan = do
  id ← required_id scan
  old ← get_scan db t id
  check_revision_etag if_match old.revision
  validate_scan_config_id scan.scan_config old.scan_config
  check_uniqueness db t (patched db old scan)
  written db (replace id (patched db old scan) t) (patched db old scan)

-- DeleteScan: a row that is not there is no error.
unfoldable pub delete_scan : Db → List Scan → String → DbResult (List Scan)
unfolding remove
delete_scan db t id = if db.writes then done (remove id t) else failed other_error
