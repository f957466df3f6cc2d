-- ===== src/Processor/Existing.antt =====
-- The map of the findings that a scan has already (getExistingPackageFindingsForScan and the like).
use vmclarity.Prelude.{
  String, ◌≡◌, refl, ap, ◌∙◌, ◌⊎◌, Bool, true, false, Option, none, some, List, [], ◌∷◌, arith, All,
  count_by, filter_by, ◌=?◌, =?_iff, string_eq, if◌then◌else◌, Bool-cases, Option-cases, inl, inr,
}
use vmclarity.Go.{Result, ok, err, invalid}
use vmclarity.Findings.{
  FindingInfo, FindingType, Key, key_eq, finding_type_eq, generate_key, type_of,
}
use vmclarity.Processor.Store.{
  Env, World, Finding, continue, lift, pure, counted, read_by, get_findings, query, Answer,
  answered, refused, lost,
}
use vmclarity.Processor.Family.{
  lookup, existing_map, add_existing, is_by, is_some, selected, get_existing_findings_for_scan,
}
use vmclarity.Processor.Tags.{
  has_key, tagged, copies, Holds, is_known, type_of_key, type_of-generate_key,
  generate_key-selected, is_key,
}

module _ (e : Env) (s : String) (fs : List Finding) where
  -- Each entry has the ID of a finding of the scan that has its key.
  abbrev pub Sound : List (Key × String) → Type 0
  Sound m = All (λ p. Holds e p.1 s p.0 fs × (is_known e p.1 fs ≡ true)) m

  pub lookup-Sound :
      (m : List (Key × String)) (k : Key) (id : String)
      → lookup k m ≡ some id
      → Sound m
      → Holds e id s k fs × (is_known e id fs ≡ true)
  unfolding lookup
  lookup-Sound [] k id h v = cc h
  lookup-Sound ((j, i) ∷ m) k id h (v, vs) = elim (Bool-cases (j =? k)) [
    | inl same ↦ rw (← (=?_iff j k).0 same, ← first_id i id (rw same at h)) v
    | inr other ↦ lookup-Sound m k id (rw other at h) vs
  ]
    where
      first_id : (i id : String) → some i ≡ some id → i ≡ id
      first_id i id h = cc h

  -- A round that goes on has a key that is new to the map.
  step :
      (r : Finding) (rs : List Finding) (m m' : List (Key × String)) (w : World) (o : Option Key)
      → (continue (add_existing e r o m w) (existing_map e rs)).1 ≡ ok m'
      → (k : Key) × (o ≡ some k)
        × (lookup k m ≡ none)
        × ((existing_map e rs ((k, r.id) ∷ m) w).1 ≡ ok m')
  unfolding add_existing
  step r rs m m' w none h = cc h
  step r rs m m' w (some k) h = elim (Option-cases (lookup k m)) [
    | inl new ↦ (k, refl, new, rw new at h)
    | inr (id, old) ↦ cc (rw old at h)
  ]

  -- What is known of a finding that the query returns.
  abbrev Listed : Finding → Type 0
  Listed r =
      ((k : Key) → tagged e s k r ≡ true → Holds e r.id s k fs)
      × (is_known e r.id fs ≡ true)
      × ((r.found_by =? s) ≡ true)

  pub existing_map-Sound :
      (rs : List Finding) (m m' : List (Key × String)) (w : World)
      → (existing_map e rs m w).1 ≡ ok m'
      → All Listed rs
      → Sound m
      → Sound m'
  unfolding existing_map
  existing_map-Sound [] m m' w h l v = rw (same_map h) v
    where
      same_map : Result.ok m ≡ ok m' → m' ≡ m
      same_map h = cc h
  existing_map-Sound (r ∷ rs) m m' w h ((holds, known, by), ls) v =
      let (k, key, new, h') = step r rs m m' w (generate_key e.digest (selected r.info)) h in
      existing_map-Sound rs ((k, r.id) ∷ m) m' w h' ls
        ((holds k (ground (arith, generate_key-selected e.digest r.info k, =?_iff k k)), known), v)

  -- A key that the map lacks is the key of no finding that was listed.
  pub existing_map-missing :
      (rs : List Finding) (m m' : List (Key × String)) (w : World) (k : Key)
      → (existing_map e rs m w).1 ≡ ok m'
      → lookup k m' ≡ none
      → (lookup k m ≡ none) × (count_by (λ r. has_key e k r.info) rs ≡ 0)
  unfolding existing_map lookup
  existing_map-missing [] m m' w k h out = ground arith
  existing_map-missing (r ∷ rs) m m' w k h out =
      let (j, key, new, h') = step r rs m m' w (generate_key e.digest (selected r.info)) h in
      let (out', none_left) = existing_map-missing rs ((j, r.id) ∷ m) m' w k h' out in
      ground (arith, generate_key-selected e.digest r.info j)

  type_or_not :
      (t : FindingType) (k : Key) (i : FindingInfo)
      → type_of_key k ≡ t
      → (has_key e k i ≡ false) ⊎ ((type_of i =? t) ≡ true)
  type_or_not t k i same = split (generate_key e.digest i) refl
    where
      split :
          (o : Option Key)
          → generate_key e.digest i ≡ o
          → (is_key k o ≡ false) ⊎ ((type_of i =? t) ≡ true)
      split none h = inl refl
      split (some j) h = elim (Bool-cases (j =? k)) [
        | inl eq ↦ inr (
            (=?_iff (type_of i) t).1
              (type_of-generate_key e.digest i j h ∙ ap type_of_key ((=?_iff j k).0 eq) ∙ same))
        | inr ne ↦ inl ne
      ]

  -- The query finds every finding of the scan that has a key of the type.
  pub copies-listed :
      (t : FindingType) (k : Key) (rs : List Finding)
      → type_of_key k ≡ t
      → copies e s k rs ≡ count_by (λ r. has_key e k r.info) (filter_by (is_by t s) rs)
  copies-listed t k [] same = refl
  copies-listed t k (r ∷ rs) same =
      ground (arith, copies-listed t k rs same, type_or_not t k r.info same)

  pub query-Listed :
      (t : FindingType) (rs : List Finding)
      → ((k : Key) → All (λ r. tagged e s k r ≡ true → Holds e r.id s k fs) rs)
      → All (λ r. is_known e r.id fs ≡ true) rs
      → All Listed (filter_by (is_by t s) rs)
  query-Listed t [] h known = tt
  query-Listed t (r ∷ rs) h (known, more) = elim (Bool-cases (is_by t s r)) [
    | inl is ↦ rw is ((λ k. (h k).0, known, by_scan is), query-Listed t rs (λ k. (h k).1) more)
    | inr not ↦ rw not (query-Listed t rs (λ k. (h k).1) more)
  ]
    where
      by_scan : is_by t s r ≡ true → (r.found_by =? s) ≡ true
      by_scan is = ground arith

-- The map is made from the one query, and nothing is written.
module _ (e : Env) where
  pub existing_map-world :
      (rs : List Finding) (m : List (Key × String)) (w : World) → (existing_map e rs m w).0 ≡ w
  unfolding existing_map add_existing
  existing_map-world [] m w = refl
  existing_map-world (r ∷ rs) m w =
      added (generate_key e.digest (selected r.info)) (λ n. existing_map-world rs n w)
    where
      chosen :
          (k : Key) (b : Bool)
          → ((n : List (Key × String)) → (existing_map e rs n w).0 ≡ w)
          → (continue
              ((if b then lift (err invalid) else pure ((k, r.id) ∷ m)) w)
              (existing_map e rs)).0
            ≡ w
      chosen k true ih = refl
      chosen k false ih = ih ((k, r.id) ∷ m)

      added :
          (o : Option Key)
          → ((n : List (Key × String)) → (existing_map e rs n w).0 ≡ w)
          → (continue (add_existing e r o m w) (existing_map e rs)).0 ≡ w
      added none ih = refl
      added (some k) ih = chosen k (is_some (lookup k m)) ih

  pub get_existing-findings :
      (t : FindingType) (s : String) (w : World)
      → (get_existing_findings_for_scan e t s w).0.findings ≡ w.findings
  unfolding get_existing_findings_for_scan get_findings query
  get_existing-findings t s w = by_answer (e.answers w.calls)
    where
      by_answer :
          (a : Answer)
          → (continue
              (counted w, read_by a (ok (filter_by (is_by t s) w.findings)))
              (λ fs. existing_map e fs [])).0.findings
            ≡ w.findings
      by_answer answered =
          ap (λ (x : World). x.findings)
            (existing_map-world (filter_by (is_by t s) w.findings) [] (counted w))
      by_answer refused = refl
      by_answer lost = refl

  pub get_existing-found :
      (t : FindingType) (s : String) (w : World) (m : List (Key × String))
      → (get_existing_findings_for_scan e t s w).1 ≡ ok m
      → (existing_map e (filter_by (is_by t s) w.findings) [] (counted w)).1 ≡ ok m
  unfolding get_existing_findings_for_scan get_findings query
  get_existing-found t s w m h = by_answer (e.answers w.calls) h
    where
      by_answer :
          (a : Answer)
          → (continue
              (counted w, read_by a (ok (filter_by (is_by t s) w.findings)))
              (λ fs. existing_map e fs [])).1
            ≡ ok m
          → (existing_map e (filter_by (is_by t s) w.findings) [] (counted w)).1 ≡ ok m
      by_answer answered g = g
      by_answer refused g = cc g
      by_answer lost g = cc g
