-- ===== src/Discoverer/Marks.antt =====
-- Assets marked as terminated (orchestrator/discoverer/discoverer.go).
use vmclarity.Prelude.{
  String, ◌≡◌, refl, ap, inl, inr, ℕ, Bool, true, false, List, [], ◌∷◌, ◌||◌, map, All, filter_by,
  ◌=?◌, =?_iff, string_eq, if◌then◌else◌, Bool-cases,
}
use vmclarity.Prelude.Int.{ℤ}
use vmclarity.Processor.Store.{answered}
use vmclarity.Discoverer.{Asset, Env, ids, is_one_of, is_missing, terminated}

abbrev pub among : List String → List Asset → List Asset
among xs held = filter_by (λ a. is_one_of xs a.id) held

pub any-weaken : (b : Bool) {c : Bool} → c ≡ true → (b || c) ≡ true
any-weaken true h = refl
any-weaken false h = h

module _ (e : Env) (t : ℤ) where
  abbrev pub AllAnswered : Type 0
  AllAnswered = (n : ℕ) → e.answers n ≡ answered

  -- The assets with one of the IDs, marked.
  abbrev pub mark : List String → Asset → Asset
  mark xs a = if is_one_of xs a.id then terminated e t a else a

  mark-twice :
      (id : String) (rest : List String) (a : Asset)
      → mark rest (if a.id =? id then terminated e t a else a) ≡ mark (id ∷ rest) a
  mark-twice id rest a = elim (Bool-cases (a.id =? id)) [
    | inl same ↦ elim (Bool-cases (is_one_of rest a.id)) [
      | inl again ↦ rw (same, again) refl
      | inr once ↦ rw (same, once) refl
    ]
    | inr other ↦ rw other refl
  ]

  pub map-mark :
      (id : String) (rest : List String) (held : List Asset)
      → map (mark rest) (map (λ a. if a.id =? id then terminated e t a else a) held)
        ≡ map (mark (id ∷ rest)) held
  map-mark id rest [] = refl
  map-mark id rest (a ∷ held) = cc (mark-twice id rest a, map-mark id rest held)

  pub map-nothing : (held : List Asset) → map (mark []) held ≡ held
  map-nothing [] = refl
  map-nothing (a ∷ held) = ap (λ as'. a ∷ as') (map-nothing held)

  pub patched-among :
      (xs : List String) (id : String) (held : List Asset)
      → is_one_of xs id ≡ false
      → among xs (map (λ a. if a.id =? id then terminated e t a else a) held) ≡ among xs held
  patched-among xs id [] h = refl
  patched-among xs id (a ∷ held) h = elim (Bool-cases (a.id =? id)) [
    | inl same ↦
        let gone : is_one_of xs a.id ≡ false = cc (h, (=?_iff a.id id).0 same) in
        rw (same, gone) (patched-among xs id held h)
    | inr other ↦ elim (Bool-cases (is_one_of xs a.id)) [
      | inl kept ↦ rw (other, kept) (ap (λ rest. a ∷ rest) (patched-among xs id held h))
      | inr gone ↦ rw (other, gone) (patched-among xs id held h)
    ]
  ]

  mark-found :
      (xs : List String) (a : Asset) → is_one_of xs a.id ≡ true → is_missing e t (mark xs a) ≡ false
  mark-found xs a h = rw h refl

  mark-seen :
      (xs : List String) (a : Asset) → is_missing e t a ≡ false → is_missing e t (mark xs a) ≡ false
  mark-seen xs a h = elim (Bool-cases (is_one_of xs a.id)) [
    | inl found ↦ mark-found xs a found
    | inr other ↦ rw other h
  ]

  -- Where each that is missing has one of the IDs, none is missing after they are marked.
  pub after-marking :
      (held : List Asset) (xs : List String)
      → ((id : String)
          → is_one_of (ids (filter_by (is_missing e t) held)) id ≡ true
          → is_one_of xs id ≡ true)
      → All (λ a. is_missing e t a ≡ false) (map (mark xs) held)
  after-marking [] xs h = tt
  after-marking (a ∷ held) xs h = by_missing (is_missing e t a) refl h (after-marking held xs)
    where
      by_missing :
          (missing : Bool)
          → is_missing e t a ≡ missing
          → ((id : String)
              → is_one_of
                  (ids (
                    if missing
                    then a ∷ filter_by (is_missing e t) held
                    else filter_by (is_missing e t) held))
                  id
                ≡ true
              → is_one_of xs id ≡ true)
          → (((id : String)
                → is_one_of (ids (filter_by (is_missing e t) held)) id ≡ true
                → is_one_of xs id ≡ true)
              → All (λ a. is_missing e t a ≡ false) (map (mark xs) held))
          → All (λ a. is_missing e t a ≡ false) (map (mark xs) (a ∷ held))
      by_missing false seen h rest = (mark-seen xs a seen, rest h)
      by_missing true _ h rest = (
        mark-found xs a (h a.id (rw ((=?_iff a.id a.id).1 refl) refl)),
        rest (λ id g. h id (any-weaken _ g)),
      )

  pub marked_ids :
      (xs : List String) (id : String) (held : List Asset)
      → is_one_of xs id ≡ true
      → among (id ∷ []) (map (mark xs) held) ≡ map (terminated e t) (among (id ∷ []) held)
  marked_ids xs id [] h = refl
  marked_ids xs id (a ∷ held) h = elim (Bool-cases (a.id =? id)) [
    | inl same ↦
        let found : is_one_of xs a.id ≡ true = cc (h, (=?_iff a.id id).0 same) in
        rw (found, same) (ap (λ rest. terminated e t a ∷ rest) (marked_ids xs id held h))
    | inr other ↦ elim (Bool-cases (is_one_of xs a.id)) [
      | inl found ↦ rw (found, other) (marked_ids xs id held h)
      | inr kept ↦ rw (kept, other) (marked_ids xs id held h)
    ]
  ]
