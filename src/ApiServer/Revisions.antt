-- ===== src/ApiServer/Revisions.antt =====
-- The If-Match header of a PATCH of a Scan, and what a GET returns after a PATCH
-- (api/server/scan_controller.go and api/server/database/gorm).
use vmclarity.Prelude.{
  ℕ, suc, ◌<◌, String, ◌≡◌, refl, sym, ap, ◌∙◌, true, Option, none, some, List, [], ◌∷◌, arith,
  Bool-cases, inl, inr, =?_iff, string_eq,
}
use vmclarity.Prelude.Int.{ℤ, pos, add_int-pos}
use vmclarity.ApiTypes.{Scan}
use vmclarity.ApiServer.Table.{
  Db, done, has_id, find, replace, get_scan, update_scan, check_revision_etag, bump_revision,
}
use vmclarity.ApiServer.Done.{KeepsId, update_scan-done, patch-cases}
use vmclarity.ApiServer.{ok_scan, patch_scans_scan_id, get_scans_scan_id, answer_get}

-- A merge keeps the revision of the patch.
abbrev pub KeepsRevision : Db → Type 0
KeepsRevision db =
    (old new : Scan) (r : ℤ) → new.revision ≡ some r → (db.merge old new).revision ≡ some r

named_has_id : (s : Scan) (id : String) → s.id ≡ some id → has_id id s ≡ true
named_has_id s id h = ground (arith, =?_iff id id)

-- The row that was replaced is found in its place.
find-replace :
    (id : String) (new old : Scan) (t : List Scan)
    → has_id id new ≡ true
    → find id t ≡ some old
    → find id (replace id new t) ≡ some new
unfolding find replace
find-replace id new old [] h f = cc f
find-replace id new old (s ∷ rest) h f = elim (Bool-cases (has_id id s)) [
  | inl same ↦ rw same (rw h refl)
  | inr other ↦ rw other (rw other (find-replace id new old rest h (rw other at f)))
]

get_scan-done :
    (db : Db) (t : List Scan) (id : String) (s : Scan)
    → get_scan db t id ≡ done s
    → find id t ≡ some s
unfolding get_scan
get_scan-done db t id s e = ground arith

-- The row after a successful UpdateScan.
update-find :
    (db : Db) (t t' : List Scan) (id : String) (if_match : Option ℤ) (scan s : Scan)
    → KeepsId db
    → update_scan db t if_match (record scan { id = some id }) ≡ done (t', s)
    → find id t' ≡ some s
update-find db t t' id if_match scan s law e =
    let (i, old, known, got, _, _, made, w) =
      update_scan-done db t t' if_match (record scan { id = some id }) s e in
    let same : id ≡ i = cc known in
    let named : s.id ≡ some id = ap (λ x. x.id) made ∙ law old _ id refl in
    rw (w, sym same)
      (find-replace id s old t (named_has_id s id named)
        (rw (sym same) at (get_scan-done db t i old got)))

-- A PATCH that is answered with the Scan: a GET of the same ID then returns that Scan, where the query
-- succeeds and a merge keeps the ID of the patch.
pub get-patch :
    (db next : Db) (t : List Scan) (id : String) (if_match : Option ℤ) (scan s : Scan)
    → KeepsId db
    → next.finds ≡ true
    → (patch_scans_scan_id db t id if_match (some scan)).1 ≡ ok_scan s
    → get_scans_scan_id next (patch_scans_scan_id db t id if_match (some scan)).0 id
      ≡ ((patch_scans_scan_id db t id if_match (some scan)).0, ok_scan s)
unfolding get_scans_scan_id answer_get get_scan
get-patch db next t id if_match scan s law finds answered =
    elim (patch-cases db t id if_match scan) [
      | inl (same, refused) ↦ absurd (refused s answered)
      | inr (t', s', applied, e) ↦
          let is_s : s' ≡ s = cc (e, answered) in
          simp (e, finds, update-find db t t' id if_match scan s' law applied, is_s) refl
    ]

matched-bump :
    (o : Option ℤ) (n : ℕ)
    → suc n < 9223372036854775808
    → check_revision_etag (some (pos n)) o ≡ done tt
    → bump_revision o ≡ some (pos (suc n))
unfolding check_revision_etag bump_revision
matched-bump none n small e = cc e
matched-bump (some r) n small e = ground (arith, add_int-pos n 1)

moved_on : (n : ℕ) → ¬ (check_revision_etag (some (pos n)) (some (pos (suc n))) ≡ done tt)
unfolding check_revision_etag
moved_on n e = ground arith

-- The stored revision has moved on.
update-revision :
    (db : Db) (t t' : List Scan) (scan s : Scan) (n : ℕ)
    → KeepsRevision db
    → suc n < 9223372036854775808
    → update_scan db t (some (pos n)) scan ≡ done (t', s)
    → s.revision ≡ some (pos (suc n))
update-revision db t t' scan s n law small e =
    let (i, old, known, got, matched, _, made, w) =
      update_scan-done db t t' (some (pos n)) scan s e in
    ap (λ x. x.revision) made ∙ law old _ (pos (suc n)) (matched-bump old.revision n small matched)

-- An update whose If-Match is another revision than the stored one is not done.
stale :
    (db : Db) (t t' : List Scan) (scan s stored : Scan) (id : String) (n : ℕ)
    → scan.id ≡ some id
    → find id t ≡ some stored
    → stored.revision ≡ some (pos (suc n))
    → ¬ (update_scan db t (some (pos n)) scan ≡ done (t', s))
stale db t t' scan s stored id n named found revision e =
    let (i, old, known, got, matched, _, made, w) =
      update_scan-done db t t' (some (pos n)) scan s e in
    let same : i ≡ id = cc (known, named) in
    let is_stored : old ≡ stored =
      some_inj (sym (rw same at (get_scan-done db t i old got)) ∙ found) in
    moved_on n (
      sym (ap (check_revision_etag (some (pos n))) (ap (λ x. x.revision) is_stored ∙ revision))
      ∙ matched)
  where
    some_inj : {a b : Scan} → some a ≡ some b → a ≡ b
    some_inj h = cc h

-- Of two PATCHes of a Scan with the same If-Match, where a merge keeps the ID and the revision of the
-- patch, and the revision is below 2^63 - 1: if the first is answered with the Scan, the second leaves
-- the table as it is, whatever its body.
pub lost_update :
    (db next : Db) (t : List Scan) (id : String) (n : ℕ) (scan other s : Scan)
    → KeepsId db
    → KeepsRevision db
    → suc n < 9223372036854775808
    → (patch_scans_scan_id db t id (some (pos n)) (some scan)).1 ≡ ok_scan s
    → (patch_scans_scan_id next
        (patch_scans_scan_id db t id (some (pos n)) (some scan)).0
        id
        (some (pos n))
        (some other)).0
      ≡ (patch_scans_scan_id db t id (some (pos n)) (some scan)).0
lost_update db next t id n scan other s ids revisions small answered =
    elim (patch-cases db t id (some (pos n)) scan) [
      | inl (same, refused) ↦ absurd (refused s answered)
      | inr (t', s', applied, e) ↦ rw e (second t' s' applied)
    ]
  where
    second :
        (t' : List Scan) (s' : Scan)
        → update_scan db t (some (pos n)) (record scan { id = some id }) ≡ done (t', s')
        → (patch_scans_scan_id next t' id (some (pos n)) (some other)).0 ≡ t'
    second t' s' applied = elim (patch-cases next t' id (some (pos n)) other) [
      | inl (same, refused) ↦ same
      | inr (t'', s'', again, e) ↦ absurd (
          stale next t' t'' (record other { id = some id }) s'' s' id n refl
            (update-find db t t' id (some (pos n)) scan s' ids applied)
            (update-revision db t t' (record scan { id = some id }) s' n revisions small applied)
            again)
    ]
