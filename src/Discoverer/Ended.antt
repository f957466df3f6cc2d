-- ===== src/Discoverer/Ended.antt =====
-- Which assets are missing, and how an asset is ended, told field by field and apart from the code.
use vmclarity.Prelude.{
  String, ◌≡◌, refl, ◌⊎◌, inl, inr, true, false, Option, none, some, List, [], ◌∷◌, map, All,
  filter_by, ◌=?◌, =?_iff, string_eq, Bool-cases, arith,
}
use vmclarity.Prelude.Int.{ℤ, ltb_ℤ}
use vmclarity.Processor.Store.{in_seconds}
use vmclarity.Discoverer.{Asset, Env, ids, is_one_of, is_missing}
use vmclarity.Discoverer.Marks.{mark, any-weaken}

-- Both lists are as long, and their entries are related one by one.
abbrev pub Pairwise : (Asset → Asset → Type 0) → List Asset → List Asset → Type 0
Pairwise R [] [] = Unit {0}
Pairwise R (a ∷ xs) (b ∷ ys) = R a b × Pairwise R xs ys
Pairwise R _ _ = ⊥

module _ (e : Env) (t : ℤ) where
  -- Not terminated, and never seen or last seen before the second of the run, as the database reads
  -- the two times.
  abbrev pub Unseen : Asset → Type 0
  Unseen a =
      (a.terminated_on ≡ none)
      × ((a.last_seen ≡ none)
          ⊎ ((s : ℤ) × (a.last_seen ≡ some s) × (ltb_ℤ (e.read s) (e.read (in_seconds t)) ≡ true)))

  -- Some asset with the ID is missing.
  abbrev pub IsMissingId : List Asset → String → Type 0
  IsMissingId [] id = ⊥
  IsMissingId (a ∷ held) id = ((a.id ≡ id) × Unseen a) ⊎ IsMissingId held id

  -- The asset ended at the time of the run if its ID is one of a missing asset, and unchanged if not.
  abbrev pub EndsAs : List Asset → Asset → Asset → Type 0
  EndsAs held a b =
      (IsMissingId held a.id × (b ≡ record a { terminated_on = some t }))
      ⊎ ((¬ IsMissingId held a.id) × (b ≡ a))

  Unseen-sound : (a : Asset) → is_missing e t a ≡ true → Unseen a
  Unseen-sound a h = by_fields a.terminated_on refl a.last_seen refl
    where
      by_fields :
          (ended : Option ℤ)
          → a.terminated_on ≡ ended
          → (seen : Option ℤ) → a.last_seen ≡ seen
          → Unseen a
      by_fields (some x) p seen q = cc (rw p at h)
      by_fields none p none q = (p, inl q)
      by_fields none p (some s) q = (p, inr (s, q, ground arith))

  Unseen-complete : (a : Asset) → Unseen a → is_missing e t a ≡ true
  Unseen-complete a (p, inl q) = ground arith
  Unseen-complete a (p, inr (s, q, before)) = ground arith

  pub none_missing :
      (held : List Asset) → All (λ a. is_missing e t a ≡ false) held → All (λ a. ¬ Unseen a) held
  none_missing [] h = tt
  none_missing (a ∷ held) (h, hs) =
      (λ missing. cc (h, Unseen-complete a missing), none_missing held hs)

  ids_sound :
      (held : List Asset) (id : String)
      → is_one_of (ids (filter_by (is_missing e t) held)) id ≡ true
      → IsMissingId held id
  ids_sound [] id h = cc h
  ids_sound (a ∷ held) id h = elim (Bool-cases (is_missing e t a)) [
    | inl missing ↦ elim (Bool-cases (id =? a.id)) [
      | inl same ↦ inl (ground (arith, =?_iff id a.id), Unseen-sound a missing)
      | inr other ↦ inr (ids_sound held id (later missing other))
    ]
    | inr seen ↦ inr (ids_sound held id (rw seen at h))
  ]
    where
      later :
          is_missing e t a ≡ true
          → (id =? a.id) ≡ false
          → is_one_of (ids (filter_by (is_missing e t) held)) id ≡ true
      later missing other = rw (missing, other) at h

  ids_complete :
      (held : List Asset) (id : String)
      → IsMissingId held id
      → is_one_of (ids (filter_by (is_missing e t) held)) id ≡ true
  ids_complete [] id h = absurd h
  ids_complete (a ∷ held) id (inl (same, missing)) =
      rw (Unseen-complete a missing, same, (=?_iff id id).1 refl) refl
  ids_complete (a ∷ held) id (inr h) = elim (Bool-cases (is_missing e t a)) [
    | inl missing ↦ rw missing (any-weaken _ (ids_complete held id h))
    | inr seen ↦ rw seen (ids_complete held id h)
  ]

  mark-EndsAs :
      (held : List Asset) (a : Asset)
      → EndsAs held a (mark e t (ids (filter_by (is_missing e t) held)) a)
  mark-EndsAs held a = elim (Bool-cases (is_one_of (ids (filter_by (is_missing e t) held)) a.id)) [
    | inl found ↦ rw found (inl (ids_sound held a.id found, refl))
    | inr other ↦ rw other (inr (λ missing. cc (other, ids_complete held a.id missing), refl))
  ]

  pub map-mark-EndsAs :
      (held xs : List Asset)
      → Pairwise (EndsAs held) xs (map (mark e t (ids (filter_by (is_missing e t) held))) xs)
  map-mark-EndsAs held [] = tt
  map-mark-EndsAs held (a ∷ xs) = (mark-EndsAs held a, map-mark-EndsAs held xs)
