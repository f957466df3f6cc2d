-- ===== src/ApiServer/Uniqueness.antt =====
-- That every request keeps the table of Scans consistent (api/server/scan_controller.go and
-- api/server/database/gorm/scan.go).
use vmclarity.Prelude.{
  String, ◌≡◌, refl, ap, ◌∙◌, false, Option, none, some, List, [], ◌∷◌, All, Bool-cases, inl, inr,
  ◌=?◌, string_eq,
}
use vmclarity.Prelude.Int.{ℤ}
use vmclarity.ApiTypes.{Scan, ScanState}
use vmclarity.Status.{Refusal}
use vmclarity.Status.ScanStatus
use vmclarity.Status.ScanStatus.{state_eq}
use vmclarity.ApiServer.Table.{
  Db, bad_request_error, conflict_error, precondition_error, not_found_error, other_error, DbResult,
  done, failed, crashed, has_id, get_scan, create_scan, new_scan, save_scan, update_scan,
  delete_scan,
}
use vmclarity.ApiServer.Consistency.{
  Apart, IsConsistent, Fits, unique-Fits, replace-IsConsistent, append-IsConsistent,
  remove-IsConsistent,
}
use vmclarity.ApiServer.Done.{
  KeepsId, update_scan-done, save_scan-done, create_scan-done, patch-cases,
}
use vmclarity.ApiServer.{
  Response, post_scans, post_checked, answer_post, patch_scans_scan_id, put_scans_scan_id,
  answer_put, put_existing, put_status, put_if, delete_scans_scan_id, answer_delete, same_id,
}

-- A table that stays, or is the one that a successful call has written.
module _ (P : List Scan → Type 0) (t : List Scan) (kept : P t) where
  post-keeps :
      (r : DbResult (List Scan × Scan))
      → ((t' : List Scan) (s : Scan) → r ≡ done (t', s) → P t')
      → P (answer_post t r).0
  unfolding answer_post
  post-keeps (done (t', s)) h = h t' s refl
  post-keeps (failed bad_request_error) h = kept
  post-keeps (failed (conflict_error s)) h = kept
  post-keeps (failed precondition_error) h = kept
  post-keeps (failed not_found_error) h = kept
  post-keeps (failed other_error) h = kept
  post-keeps crashed h = kept

  put-keeps :
      (r : DbResult (List Scan × Scan))
      → ((t' : List Scan) (s : Scan) → r ≡ done (t', s) → P t')
      → P (answer_put t r).0
  unfolding answer_put
  put-keeps (done (t', s)) h = h t' s refl
  put-keeps (failed bad_request_error) h = kept
  put-keeps (failed (conflict_error s)) h = kept
  put-keeps (failed precondition_error) h = kept
  put-keeps (failed not_found_error) h = kept
  put-keeps (failed other_error) h = kept
  put-keeps crashed h = kept

-- The requests that change the table.
pub data Request : Type 0 where
  post : Option Scan → Request
  patch put : String → Option ℤ → Option Scan → Request
  delete : String → Request

unfoldable pub serve : Db → List Scan → Request → List Scan × Response
serve db t (post body) = post_scans db t body
serve db t (patch id if_match body) = patch_scans_scan_id db t id if_match body
serve db t (put id if_match body) = put_scans_scan_id db t id if_match body
serve db t (delete id) = delete_scans_scan_id db t id

module _ (db : Db) (t : List Scan) (law : KeepsId db) (c : IsConsistent t) where
  update_scan-IsConsistent :
      (t' : List Scan) (if_match : Option ℤ) (scan s : Scan)
      → update_scan db t if_match scan ≡ done (t', s)
      → IsConsistent t'
  update_scan-IsConsistent t' if_match scan s e =
      let (id, old, known, _, _, unique, made, w) = update_scan-done db t t' if_match scan s e in
      let named : s.id ≡ some id = ap (λ x. x.id) made ∙ law old _ id known in
      rw w (replace-IsConsistent id s t c (unique-Fits db t s id named unique))

  save_scan-IsConsistent :
      (t' : List Scan) (if_match : Option ℤ) (scan s : Scan)
      → save_scan db t if_match scan ≡ done (t', s)
      → IsConsistent t'
  save_scan-IsConsistent t' if_match scan s e =
      let (id, old, known, _, _, unique, made, w) = save_scan-done db t t' if_match scan s e in
      let named : s.id ≡ some id = ap (λ x. x.id) made ∙ known in
      rw w (replace-IsConsistent id s t c (unique-Fits db t s id named unique))

  create_scan-IsConsistent :
      (t' : List Scan) (scan s : Scan)
      → All (λ a. has_id db.new_id a ≡ false) t
      → create_scan db t scan ≡ done (t', s)
      → IsConsistent t'
  create_scan-IsConsistent t' scan s fresh e =
      let (unique, w) = create_scan-done db t t' scan s e in
      rw w (
        append-IsConsistent (new_scan db scan) t c
          (apart t fresh (unique-Fits db t (new_scan db scan) db.new_id refl unique)))
    where
      apart :
          (t : List Scan)
          → All (λ a. has_id db.new_id a ≡ false) t
          → Fits db.new_id (new_scan db scan) t
          → All (λ a. Apart a (new_scan db scan)) t
      apart [] h f = tt
      apart (a ∷ rest) (h, hs) (f, fs) = (f h, apart rest hs fs)

  saved-IsConsistent :
      (if_match : Option ℤ) (scan : Scan)
      → IsConsistent (answer_put t (save_scan db t if_match scan)).0
  saved-IsConsistent if_match scan =
      put-keeps IsConsistent t c (save_scan db t if_match scan)
        (λ t' s e. save_scan-IsConsistent t' if_match scan s e)

  put_status-IsConsistent :
      (if_match : Option ℤ) (scan : Scan) (new old : Option ScanState)
      → IsConsistent (put_status db t if_match scan new old).0
  put_status-IsConsistent if_match scan none old = c
  put_status-IsConsistent if_match scan (some b) none = c
  put_status-IsConsistent if_match scan (some b) (some a) = checked (ScanStatus.check a b)
    where
      checked :
          (r : Option (Refusal ScanStatus.State ScanStatus.Reason))
          → IsConsistent (put_if db t if_match scan r).0
      checked none = saved-IsConsistent if_match scan
      checked (some refusal) = c

  put_existing-IsConsistent :
      (if_match : Option ℤ) (scan : Scan) (existing : DbResult Scan)
      → IsConsistent (put_existing db t if_match scan existing).0
  put_existing-IsConsistent if_match scan (done old) =
      put_status-IsConsistent if_match scan scan.status old.status
  put_existing-IsConsistent if_match scan (failed e) = c
  put_existing-IsConsistent if_match scan crashed = c

  patch_scans-IsConsistent :
      (id : String) (if_match : Option ℤ) (body : Option Scan)
      → IsConsistent (patch_scans_scan_id db t id if_match body).0
  unfolding patch_scans_scan_id
  patch_scans-IsConsistent id if_match none = c
  patch_scans-IsConsistent id if_match (some scan) = elim (patch-cases db t id if_match scan) [
    | inl (same, refused) ↦ rw same c
    | inr (t', s, applied, e) ↦
        rw e (update_scan-IsConsistent t' if_match (record scan { id = some id }) s applied)
  ]

  put_scans-IsConsistent :
      (id : String) (if_match : Option ℤ) (body : Option Scan)
      → IsConsistent (put_scans_scan_id db t id if_match body).0
  unfolding put_scans_scan_id
  put_scans-IsConsistent id if_match none = c
  put_scans-IsConsistent id if_match (some scan) = elim (Bool-cases (same_id scan.id id)) [
    | inl same ↦
        rw same
          (put_existing-IsConsistent if_match (record scan { id = some id }) (get_scan db t id))
    | inr other ↦ rw other c
  ]

  post_scans-IsConsistent :
      (body : Option Scan)
      → All (λ a. has_id db.new_id a ≡ false) t
      → IsConsistent (post_scans db t body).0
  unfolding post_scans post_checked
  post_scans-IsConsistent none fresh = c
  post_scans-IsConsistent (some scan) fresh = by_status scan.status
    where
      by_status : (o : Option ScanState) → IsConsistent (post_checked db t scan o).0
      by_status none = c
      by_status (some st) = elim (Bool-cases (st.state =? ScanStatus.pending)) [
        | inl pending ↦ rw pending (
            post-keeps IsConsistent t c (create_scan db t scan)
              (λ t' s e. create_scan-IsConsistent t' scan s fresh e))
        | inr other ↦ rw other c
      ]

  delete_scans-IsConsistent : (id : String) → IsConsistent (delete_scans_scan_id db t id).0
  unfolding delete_scans_scan_id delete_scan answer_delete
  delete_scans-IsConsistent id = elim (Bool-cases db.writes) [
    | inl writes ↦ rw writes (remove-IsConsistent id t c)
    | inr fails ↦ rw fails c
  ]

  -- Where no two rows of the table have the same ID and no two running Scans the same config, a merge
  -- keeps the ID of the patch, and the new ID is that of no row: every request leaves such a table.
  pub serve-IsConsistent :
      (r : Request) → All (λ a. has_id db.new_id a ≡ false) t → IsConsistent (serve db t r).0
  unfolding serve
  serve-IsConsistent (post body) fresh = post_scans-IsConsistent body fresh
  serve-IsConsistent (patch id if_match body) fresh = patch_scans-IsConsistent id if_match body
  serve-IsConsistent (put id if_match body) fresh = put_scans-IsConsistent id if_match body
  serve-IsConsistent (delete id) fresh = delete_scans-IsConsistent id
