-- ===== src/ApiServer/Done.antt =====
-- What a successful call of the table of Scans has read, checked and written
-- (api/server/database/gorm/scan.go), and with it a successful PATCH.
use vmclarity.Prelude.{
  String, ◌≡◌, refl, Option, none, some, List, [], ◌∷◌, ◌++◌, arith, Bool-cases, Option-cases, ◌⊎◌,
  inl, inr, string_eq,
}
use vmclarity.Prelude.Int.{ℤ}
use vmclarity.ApiTypes.{Scan, ScanState}
use vmclarity.Status.{Refusal}
use vmclarity.Status.ScanStatus
use vmclarity.Status.ScanStatus.{state_eq}
use vmclarity.ApiServer.Table.{
  Db, bad_request_error, conflict_error, precondition_error, not_found_error, other_error, DbResult,
  done, failed, crashed, ◌>>=◌, replace, get_scan, check_uniqueness, create_scan, new_scan,
  save_scan, update_scan, patched, required_id, check_revision_etag, validate_scan_config_id,
  bump_revision, written,
}
use vmclarity.ApiServer.{
  Response, ok_scan, patch_scans_scan_id, answer_patch, patch_existing, patch_status, patch_if,
  same_id,
}

-- What a chain that is done has passed.
pub bind-done {ℓ κ} :
    {A : Type ℓ} {B : Type κ} (m : DbResult A) (f : A → DbResult B) (b : B)
    → (m >>= f) ≡ done b
    → (a : A) × (m ≡ done a) × (f a ≡ done b)
bind-done (done a) f b e = (a, refl, e)
bind-done (failed x) f b e = cc e
bind-done crashed f b e = cc e

-- A merge keeps the ID of the patch.
abbrev pub KeepsId : Db → Type 0
KeepsId db = (old new : Scan) (id : String) → new.id ≡ some id → (db.merge old new).id ≡ some id

required_id-done : (scan : Scan) (id : String) → required_id scan ≡ done id → scan.id ≡ some id
required_id-done scan id e = ground arith

written-done :
    (db : Db) (t t' : List Scan) (scan s : Scan)
    → written db t scan ≡ done (t', s)
    → (t' ≡ t) × (s ≡ scan)
written-done db t t' scan s e = ground arith

-- What a successful UpdateScan has written.
pub update_scan-done :
    (db : Db) (t t' : List Scan) (if_match : Option ℤ) (scan s : Scan)
    → update_scan db t if_match scan ≡ done (t', s)
    → (id : String) × (old : Scan) × (scan.id ≡ some id)
      × (get_scan db t id ≡ done old)
      × (check_revision_etag if_match old.revision ≡ done tt)
      × (check_uniqueness db t s ≡ done tt)
      × (s ≡ patched db old scan)
      × (t' ≡ replace id s t)
unfolding update_scan
update_scan-done db t t' if_match scan s e =
    let (id, e1, r1) = bind-done (required_id scan) _ (t', s) e in
    let (old, e2, r2) = bind-done (get_scan db t id) _ (t', s) r1 in
    let (_, e3, r3) = bind-done (check_revision_etag if_match old.revision) _ (t', s) r2 in
    let (_, e4, r4) =
      bind-done (validate_scan_config_id scan.scan_config old.scan_config) _ (t', s) r3 in
    let (_, e5, r5) = bind-done (check_uniqueness db t (patched db old scan)) _ (t', s) r4 in
    let (w, v) =
      written-done db (replace id (patched db old scan) t) t' (patched db old scan) s r5 in
    (id, old, required_id-done scan id e1, e2, e3, rw v e5, v, rw v w)

-- The Scan that SaveScan writes.
abbrev pub saved : Scan → Scan → Scan
saved old scan = record scan { revision = bump_revision old.revision }

-- The check does not read the revision.
unique_saved :
    (db : Db) (t : List Scan) (old scan : Scan)
    → check_uniqueness db t scan ≡ done tt
    → check_uniqueness db t (saved old scan) ≡ done tt
unfolding check_uniqueness
unique_saved db t old scan e = ground arith

pub save_scan-done :
    (db : Db) (t t' : List Scan) (if_match : Option ℤ) (scan s : Scan)
    → save_scan db t if_match scan ≡ done (t', s)
    → (id : String) × (old : Scan) × (scan.id ≡ some id)
      × (get_scan db t id ≡ done old)
      × (check_revision_etag if_match old.revision ≡ done tt)
      × (check_uniqueness db t s ≡ done tt)
      × (s ≡ saved old scan)
      × (t' ≡ replace id s t)
unfolding save_scan
save_scan-done db t t' if_match scan s e =
    let (id, e1, r1) = bind-done (required_id scan) _ (t', s) e in
    let (old, e2, r2) = bind-done (get_scan db t id) _ (t', s) r1 in
    let (_, e3, r3) = bind-done (check_revision_etag if_match old.revision) _ (t', s) r2 in
    let (_, e4, r4) =
      bind-done (validate_scan_config_id scan.scan_config old.scan_config) _ (t', s) r3 in
    let (_, e5, r5) = bind-done (check_uniqueness db t scan) _ (t', s) r4 in
    let (w, v) = written-done db (replace id (saved old scan) t) t' (saved old scan) s r5 in
    (id, old, required_id-done scan id e1, e2, e3, rw v (unique_saved db t old scan e5), v, rw v w)

pub create_scan-done :
    (db : Db) (t t' : List Scan) (scan s : Scan)
    → create_scan db t scan ≡ done (t', s)
    → (check_uniqueness db t (new_scan db scan) ≡ done tt) × (t' ≡ t ++ new_scan db scan ∷ [])
unfolding create_scan
create_scan-done db t t' scan s e = elim (Option-cases scan.id) [
  | inl free ↦
      let (_, u, r) =
        bind-done (check_uniqueness db t (new_scan db scan)) _ (t', s) (rw free at e) in
      let (w, v) = written-done db (t ++ new_scan db scan ∷ []) t' (new_scan db scan) s r in (u, w)
  | inr (id, taken) ↦ cc (rw taken at e)
]

-- A PATCH that is answered with the Scan has been applied by UpdateScan, and any other one leaves the
-- table.
abbrev pub Outcome : Db → List Scan → Option ℤ → Scan → List Scan × Response → Type 0
Outcome db t if_match scan r =
    ((r.0 ≡ t) × ((s : Scan) → ¬ (r.1 ≡ ok_scan s)))
    ⊎ ((t' : List Scan) × (s : Scan) × (update_scan db t if_match scan ≡ done (t', s))
        × (r ≡ (t', ok_scan s)))

module _ (db : Db) (t : List Scan) (if_match : Option ℤ) (scan : Scan) where
  answer-cases :
      (r : DbResult (List Scan × Scan))
      → update_scan db t if_match scan ≡ r
      → Outcome db t if_match scan (answer_patch t r)
  unfolding answer_patch
  answer-cases (done (t', s)) e = inr (t', s, e, refl)
  answer-cases (failed bad_request_error) e = inl (refl, λ s h. cc h)
  answer-cases (failed (conflict_error x)) e = inl (refl, λ s h. cc h)
  answer-cases (failed precondition_error) e = inl (refl, λ s h. cc h)
  answer-cases (failed not_found_error) e = inl (refl, λ s h. cc h)
  answer-cases (failed other_error) e = inl (refl, λ s h. cc h)
  answer-cases crashed e = inl (refl, λ s h. cc h)

  status-cases :
      (new old : Option ScanState)
      → Outcome db t if_match scan (patch_status db t if_match scan new old)
  status-cases none old = answer-cases (update_scan db t if_match scan) refl
  status-cases (some b) none = inl (refl, λ s h. cc h)
  status-cases (some b) (some a) = checked (ScanStatus.check a b)
    where
      checked :
          (r : Option (Refusal ScanStatus.State ScanStatus.Reason))
          → Outcome db t if_match scan (patch_if db t if_match scan r)
      checked none = answer-cases (update_scan db t if_match scan) refl
      checked (some refusal) = inl (refl, λ s h. cc h)

  existing-cases :
      (existing : DbResult Scan)
      → Outcome db t if_match scan (patch_existing db t if_match scan existing)
  existing-cases (done old) = status-cases scan.status old.status
  existing-cases (failed e) = inl (refl, λ s h. cc h)
  existing-cases crashed = inl (refl, λ s h. cc h)

pub patch-cases :
    (db : Db) (t : List Scan) (id : String) (if_match : Option ℤ) (scan : Scan)
    → Outcome db t if_match
        (record scan { id = some id })
        (patch_scans_scan_id db t id if_match (some scan))
unfolding patch_scans_scan_id
patch-cases db t id if_match scan = elim (Bool-cases (same_id scan.id id)) [
  | inl same ↦
      rw same (existing-cases db t if_match (record scan { id = some id }) (get_scan db t id))
  | inr other ↦ rw other (inl (refl, λ s h. cc h))
]
