-- ===== src/ApiServer/Consistency.antt =====
-- What the table of Scans keeps to (api/server/database/gorm/scan.go): no two rows have the same ID,
-- and no two running Scans have the same config.
use vmclarity.Prelude.{
  String, ◌≡◌, refl, true, false, none, some, List, [], ◌∷◌, ◌++◌, arith, All, All-append,
  Bool-cases, Option-cases, inl, inr, =?_iff, string_eq,
}
use vmclarity.Prelude.Int.{ℤ}
use vmclarity.ApiTypes.{Scan}
use vmclarity.ApiServer.Table.{
  Db, done, has_id, replace, remove, is_running, rivals, check_uniqueness,
}

-- Two rows of different Scans.
abbrev pub Apart : Scan → Scan → Type 0
Apart a b =
    ((id : String) → has_id id a ≡ true → has_id id b ≡ false)
    × ((sc : String) → is_running sc a ≡ true → is_running sc b ≡ false)

abbrev pub IsConsistent : List Scan → Type 0
IsConsistent [] = Unit {0}
IsConsistent (a ∷ rest) = All (Apart a) rest × IsConsistent rest

Apart-sym : (a b : Scan) → Apart a b → Apart b a
Apart-sym a b (i, r) = (λ id h. ground (arith, i id), λ sc h. ground (arith, r sc))

-- A Scan that may be put in the place of the row with the ID.
abbrev pub Fits : String → Scan → List Scan → Type 0
Fits id new t = All (λ a. has_id id a ≡ false → Apart a new) t

All-replace :
    (P : Scan → Type 0) (id : String) (new : Scan) (t : List Scan)
    → P new
    → All P t
    → All P (replace id new t)
unfolding replace
All-replace P id new [] h k = tt
All-replace P id new (s ∷ rest) h (k, ks) = elim (Bool-cases (has_id id s)) [
  | inl same ↦ rw same (h, ks)
  | inr other ↦ rw other (k, All-replace P id new rest h ks)
]

All-remove : (P : Scan → Type 0) (id : String) (t : List Scan) → All P t → All P (remove id t)
unfolding remove
All-remove P id [] k = tt
All-remove P id (s ∷ rest) (k, ks) = elim (Bool-cases (has_id id s)) [
  | inl same ↦ rw same (All-remove P id rest ks)
  | inr other ↦ rw other (k, All-remove P id rest ks)
]

-- The rows behind the one that is replaced.
behind :
    (id : String) (new s : Scan) (rest : List Scan)
    → has_id id s ≡ true
    → All (Apart s) rest
    → Fits id new rest
    → All (Apart new) rest
behind id new s [] h a f = tt
behind id new s (r ∷ rest) h (a, more) (f, fs) =
    (Apart-sym r new (f (a.0 id h)), behind id new s rest h more fs)

pub replace-IsConsistent :
    (id : String) (new : Scan) (t : List Scan)
    → IsConsistent t
    → Fits id new t
    → IsConsistent (replace id new t)
unfolding replace
replace-IsConsistent id new [] c f = tt
replace-IsConsistent id new (s ∷ rest) (a, c) (f, fs) = elim (Bool-cases (has_id id s)) [
  | inl same ↦ rw same (behind id new s rest same a fs, c)
  | inr other ↦
      rw other
        (All-replace (Apart s) id new rest (f other) a, replace-IsConsistent id new rest c fs)
]

pub remove-IsConsistent :
    (id : String) (t : List Scan) → IsConsistent t → IsConsistent (remove id t)
unfolding remove
remove-IsConsistent id [] c = tt
remove-IsConsistent id (s ∷ rest) (a, c) = elim (Bool-cases (has_id id s)) [
  | inl same ↦ rw same (remove-IsConsistent id rest c)
  | inr other ↦ rw other (All-remove (Apart s) id rest a, remove-IsConsistent id rest c)
]

pub append-IsConsistent :
    (new : Scan) (t : List Scan)
    → IsConsistent t
    → All (λ a. Apart a new) t
    → IsConsistent (t ++ new ∷ [])
append-IsConsistent new [] c f = (tt, tt)
append-IsConsistent new (s ∷ rest) (a, c) (f, fs) =
    (All-append (Apart s) rest (new ∷ []) a (f, tt), append-IsConsistent new rest c fs)

rivals-nil :
    (id sc : String) (t : List Scan)
    → rivals id sc t ≡ []
    → All (λ a. has_id id a ≡ false → is_running sc a ≡ false) t
unfolding rivals
rivals-nil id sc [] h = tt
rivals-nil id sc (s ∷ rest) h = (ground arith, rivals-nil id sc rest (ground arith))

-- A Scan that passes checkUniqueness.
pub unique-Fits :
    (db : Db) (t : List Scan) (new : Scan) (id : String)
    → new.id ≡ some id
    → check_uniqueness db t new ≡ done tt
    → Fits id new t
unfolding check_uniqueness
unique-Fits db t new id known e = elim (Option-cases new.scan_config) [
  | inl free ↦ no_config t free
  | inr (sc, has_config) ↦ elim (Option-cases new.end_time) [
    | inl running ↦ alone t sc has_config (rivals-nil id sc t (ground arith))
    | inr (end, ended) ↦ over t end ended
  ]
]
  where
    other_id :
        (a : Scan) → has_id id a ≡ false → (j : String) → has_id j a ≡ true → has_id j new ≡ false
    other_id a h j k = ground (arith, =?_iff id j)

    no_config : (t : List Scan) → new.scan_config ≡ none → Fits id new t
    no_config [] free = tt
    no_config (a ∷ rest) free = (λ h. (other_id a h, λ sc k. rw free refl), no_config rest free)

    over : (t : List Scan) (end : ℤ) → new.end_time ≡ some end → Fits id new t
    over [] end ended = tt
    over (a ∷ rest) end ended = (λ h. (other_id a h, λ sc k. ground arith), over rest end ended)

    alone :
        (t : List Scan) (sc : String)
        → new.scan_config ≡ some sc
        → All (λ a. has_id id a ≡ false → is_running sc a ≡ false) t
        → Fits id new t
    alone [] sc has_config q = tt
    alone (a ∷ rest) sc has_config (q, qs) =
        (λ h. (other_id a h, λ c k. ground (arith, q h, =?_iff sc c)), alone rest sc has_config qs)
