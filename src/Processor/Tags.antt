-- ===== src/Processor/Tags.antt =====
-- Which scan a finding is of, and by which key: what a write to the table of findings changes of that.
use vmclarity.Prelude.{
  ℕ, String, ◌≡◌, refl, Bool, true, false, ◌&&◌, Option, none, some, List, [], ◌∷◌, ◌++◌, ◌+◌,
  arith, All, any, count_by, count_by-append, ◌=?◌, =?_iff, string_eq, if◌then◌else◌, Bool-cases,
  inl, inr, ap, ◌∙◌, All-append, sym,
}
use mathlib.Core.Bool.{false≢true}
use vmclarity.Findings.{
  FindingInfo, FindingType, Key, key_eq, generate_key, type_of, exploit, rootkit, secret, exploits,
  info_finders, malwares, misconfigurations, packages, rootkits, secrets, vulnerabilities,
  exploit_key, info_finder_key, malware_key, misconfiguration_key, package_key, rootkit_key,
  secret_key, vulnerability_key,
}
use vmclarity.Processor.Store.{Env, Finding, ids, posted, patched, merged}
use vmclarity.Processor.Family.{selected}

abbrev pub is_key : Key → Option Key → Bool
is_key k none = false
is_key k (some j) = j =? k

abbrev pub type_of_key : Key → FindingType
type_of_key (exploit_key _) = exploits
type_of_key (info_finder_key _ _ _ _) = info_finders
type_of_key (malware_key _ _ _ _) = malwares
type_of_key (misconfiguration_key _ _ _) = misconfigurations
type_of_key (package_key _ _) = packages
type_of_key (rootkit_key _ _ _) = rootkits
type_of_key (secret_key _ _ _) = secrets
type_of_key (vulnerability_key _ _ _) = vulnerabilities

module _ (digest : List String → String) where
  -- A key tells the type of its finding.
  pub type_of-generate_key :
      (i : FindingInfo) (k : Key) → generate_key digest i ≡ some k → type_of i ≡ type_of_key k
  unfolding generate_key
  type_of-generate_key (exploit i) k h = ground arith
  type_of-generate_key i k h = ground arith

  pub has_type :
      (i : FindingInfo) (k : Key)
      → is_key k (generate_key digest i) ≡ true
      → type_of i ≡ type_of_key k
  has_type i k h = split (generate_key digest i) refl h
    where
      split :
          (o : Option Key)
          → generate_key digest i ≡ o
          → is_key k o ≡ true
          → type_of i ≡ type_of_key k
      split none e h = cc h
      split (some j) e h = type_of-generate_key i j e ∙ ap type_of_key ((=?_iff j k).0 h)

  -- The selected fields give the same key, or none.
  pub generate_key-selected :
      (i : FindingInfo) (k : Key)
      → generate_key digest (selected i) ≡ some k
      → generate_key digest i ≡ some k
  unfolding generate_key
  generate_key-selected (rootkit i) k h = ground arith
  generate_key-selected (secret i) k h = ground arith
  generate_key-selected i k h = h

-- What is relied on of the environment: a new UUID is no ID of the table, and a PATCH of a document by
-- one with the same key leaves a document with that key. (A JSON merge patch keeps the fields that its
-- body omits, so that the key of the body alone is not enough.)
pub record IsLawful (e : Env) : Type 0 where
  pub fresh : (xs : List String) → any (λ x. x =? e.new_id xs) xs ≡ false
  pub merge_key :
      (old new : FindingInfo) (k : Key)
      → generate_key e.digest old ≡ some k
      → generate_key e.digest new ≡ some k
      → generate_key e.digest (e.merge old new) ≡ some k

-- A key that is there.
key_is : (k : Key) (o : Option Key) → is_key k o ≡ true → o ≡ some k
key_is k none h = cc h
key_is k (some j) h = ap some ((=?_iff j k).0 h)

module _ (e : Env) where
  abbrev pub has_key : Key → FindingInfo → Bool
  has_key k i = is_key k (generate_key e.digest i)

  -- The fields of the finding's key are not nil.
  abbrev pub Keyed : Finding → Type 0
  Keyed f = (k : Key) × (generate_key e.digest f.info ≡ some k)

  -- The finding is of the scan, and has the key.
  abbrev pub tagged : String → Key → Finding → Bool
  tagged s k f = f.found_by =? s && has_key k f.info

  abbrev pub copies : String → Key → List Finding → ℕ
  copies s k fs = count_by (tagged s k) fs

  -- All findings with the ID are of the scan, and have the key.
  abbrev pub Holds : String → String → Key → List Finding → Type 0
  Holds id s k fs = All (λ r. r.id ≡ id → tagged s k r ≡ true) fs

  module _ (lawful : IsLawful e) (id : String) (f : Finding) (j : Key)
      (made : generate_key e.digest f.info ≡ some j) where
    tagged_key :
        (old : Finding) → tagged f.found_by j old ≡ true → generate_key e.digest old.info ≡ some j
    tagged_key old h = key_is j (generate_key e.digest old.info) (ground arith)

    merged-tagged :
        (s : String) (k : Key) (old : Finding)
        → tagged f.found_by j old ≡ true
        → tagged s k (merged e old f) ≡ tagged s k old
    merged-tagged s k old h =
        let had : generate_key e.digest old.info ≡ some j = tagged_key old h in
        ground
          (arith, lawful.merge_key old.info f.info j had made, had, =?_iff old.found_by f.found_by)

    patch-tagged :
        (s : String) (k : Key) (old : Finding)
        → (old.id ≡ id → tagged f.found_by j old ≡ true)
        → tagged s k (if old.id =? id then merged e old f else old) ≡ tagged s k old
    patch-tagged s k old h = elim (Bool-cases (old.id =? id)) [
      | inl same ↦ rw same (merged-tagged s k old (h ((=?_iff old.id id).0 same)))
      | inr other ↦ rw other refl
    ]

    pub copies-patched :
        (s : String) (k : Key) (fs : List Finding)
        → Holds id f.found_by j fs
        → copies s k (patched e id f fs) ≡ copies s k fs
    copies-patched s k [] h = refl
    copies-patched s k (r ∷ fs) (h, rest) =
        rw (patch-tagged s k r h)
          (ap (λ n. (if tagged s k r then 1 else 0) + n) (copies-patched s k fs rest))

    same_id : (r : Finding) → r.id ≡ (if r.id =? id then merged e r f else r).id
    same_id r = ground arith

    -- The patch keeps what holds of an ID.
    pub Holds-patched :
        (i s : String) (k : Key) (fs : List Finding)
        → Holds id f.found_by j fs
        → Holds i s k fs
        → Holds i s k (patched e id f fs)
    Holds-patched i s k [] h g = tt
    Holds-patched i s k (r ∷ fs) (h, hs) (g, gs) =
        (λ at. patch-tagged s k r h ∙ g (same_id r ∙ at), Holds-patched i s k fs hs gs)

    pub TagsById-patched :
        (s : String) (k : Key) (fs rs : List Finding)
        → Holds id f.found_by j fs
        → Holds id f.found_by j rs
        → All (λ r. tagged s k r ≡ true → Holds r.id s k fs) rs
        → All (λ r. tagged s k r ≡ true → Holds r.id s k (patched e id f fs)) (patched e id f rs)
    TagsById-patched s k fs [] hs h g = tt
    TagsById-patched s k fs (r ∷ rs) hs (h, hr) (g, gs) = (
      λ t. rw (← same_id r) (Holds-patched r.id s k fs hs (g (sym (patch-tagged s k r h) ∙ t))),
      TagsById-patched s k fs rs hs hr gs,
    )

    pub Keyed-patched :
        (fs : List Finding)
        → Holds id f.found_by j fs
        → All Keyed fs
        → All Keyed (patched e id f fs)
    Keyed-patched [] same h = tt
    Keyed-patched (r ∷ fs) (same, more) (h, hs) = (
      elim (Bool-cases (r.id =? id)) [
        | inl it ↦
            let had = tagged_key r (same ((=?_iff r.id id).0 it)) in
            rw it (j, lawful.merge_key r.info f.info j had made)
        | inr other ↦ rw other h
      ],
      Keyed-patched fs more hs,
    )

    pub ids-patched : (fs : List Finding) → ids (patched e id f fs) ≡ ids fs
    ids-patched [] = refl
    ids-patched (r ∷ fs) = ground (arith, ids-patched fs)

  -- Findings that share an ID share scan and key.
  abbrev pub TagsById : List Finding → Type 0
  TagsById fs = (s : String) (k : Key) → All (λ r. tagged s k r ≡ true → Holds r.id s k fs) fs

  pub copies-posted :
      (f : Finding) (s : String) (k : Key) (fs : List Finding)
      → copies s k (posted e f fs) ≡ copies s k fs + (if tagged s k f then 1 else 0)
  copies-posted f s k fs =
      omega (arith, count_by-append (tagged s k) fs (record f { id = e.new_id (ids fs) } ∷ []))

  abbrev pub is_known : String → List Finding → Bool
  is_known id fs = any (λ x. x =? id) (ids fs)

  module _ (lawful : IsLawful e) (f : Finding) (fs : List Finding) where
    abbrev new : Finding
    new = record f { id = e.new_id (ids fs) }

    pub Holds-posted :
        (id s : String) (k : Key)
        → is_known id fs ≡ true
        → Holds id s k fs
        → Holds id s k (posted e f fs)
    Holds-posted id s k known h =
        All-append (λ r. r.id ≡ id → tagged s k r ≡ true) fs (new ∷ []) h
          (λ at. absurd (false≢true (sym (rw at at (lawful.fresh (ids fs))) ∙ known)), tt)

    Holds-new :
        (s : String) (k : Key) (rs : List Finding)
        → any (λ x. x =? new.id) (ids rs) ≡ false
        → Holds new.id s k rs
    Holds-new s k [] h = tt
    Holds-new s k (r ∷ rs) h =
        (λ at. ground (arith, =?_iff r.id new.id), Holds-new s k rs (ground arith))

    kept_by_post :
        (s : String) (k : Key) (rs : List Finding)
        → All (λ r. is_known r.id fs ≡ true) rs
        → All (λ r. tagged s k r ≡ true → Holds r.id s k fs) rs
        → All (λ r. tagged s k r ≡ true → Holds r.id s k (posted e f fs)) rs
    kept_by_post s k [] known h = tt
    kept_by_post s k (r ∷ rs) (known, more) (h, hs) =
        (λ t. Holds-posted r.id s k known (h t), kept_by_post s k rs more hs)

  known_later :
      (f : Finding) (fs rs : List Finding)
      → All (λ r. is_known r.id fs ≡ true) rs
      → All (λ r. is_known r.id (f ∷ fs) ≡ true) rs
  known_later f fs [] h = tt
  known_later f fs (r ∷ rs) (h, hs) = (ground arith, known_later f fs rs hs)

  pub all_known : (fs : List Finding) → All (λ r. is_known r.id fs ≡ true) fs
  all_known [] = tt
  all_known (f ∷ fs) = (ground (arith, =?_iff f.id f.id), known_later f fs fs (all_known fs))

  pub TagsById-posted :
      (lawful : IsLawful e) (f : Finding) (fs : List Finding)
      → TagsById fs
      → TagsById (posted e f fs)
  TagsById-posted lawful f fs h s k =
      let new : Finding = record f { id = e.new_id (ids fs) } in
      All-append (λ r. tagged s k r ≡ true → Holds r.id s k (posted e f fs)) fs (new ∷ [])
        (kept_by_post lawful f fs s k fs (all_known fs) (h s k))
        (
          λ t.
              All-append (λ r. r.id ≡ new.id → tagged s k r ≡ true) fs (new ∷ [])
                (Holds-new lawful f fs s k fs (lawful.fresh (ids fs))) (λ at. t, tt),
          tt,
        )

  pub known-append :
      (id : String) (fs gs : List Finding) → is_known id fs ≡ true → is_known id (fs ++ gs) ≡ true
  known-append id [] gs h = cc h
  known-append id (f ∷ fs) gs h = ground (arith, known-append id fs gs)
