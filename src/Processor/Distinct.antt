-- ===== src/Processor/Distinct.antt =====
-- No AssetScan gets two findings with the same key, whatever fails and however often it is processed.
use vmclarity.Prelude.{
  String, ◌≡◌, refl, ap, sym, ◌≢◌, ◌∙◌, ◌+◌, ◌≤◌, Bool, true, not, Option, none, some, List, [],
  ◌∷◌, arith, All, count_by, filter_by, ◌=?◌, =?_iff, string_eq, Bool-cases, Option-cases, inl, inr,
}
use vmclarity.Prelude.Int.{ℤ}
use vmclarity.Go.{Result, ok, deref, or_default}
use vmclarity.ApiTypes.{Totals}
use vmclarity.Findings.{
  FindingInfo, FindingType, Key, FindingType-discrete, key_eq, generate_key, type_of,
}
use vmclarity.Processor.Store.{
  Env, World, Finding, M, ScanResult, ◌>>=◌, ◌>>◌, lift, write, query, patch_finding, patched,
  continue-keeps, continue-then, get_asset, patch_asset, counted, get_findings,
}
use vmclarity.Processor.Family.{
  lookup, save_items, new_finding, is_outdated, invalidate_all, invalidate_older_findings_by_type,
  newer_existing_finding_time, get_existing_findings_for_scan, reconcile_to_findings, existing_map,
  no_totals, is_by,
}
use vmclarity.Processor.Tags.{
  IsLawful, Keyed, Keyed-patched, has_key, tagged, copies, Holds, Holds-patched, TagsById,
  TagsById-patched, copies-patched, type_of_key, has_type, all_known,
}
use vmclarity.Processor.Existing.{
  get_existing-found, get_existing-findings, existing_map-Sound, existing_map-missing,
  copies-listed, query-Listed,
}
use vmclarity.Processor.Items.{
  Ready, to_post, items-Ready, write-findings, patch_finding-keeps, get_findings-found,
}

module _ (e : Env) where
  -- Every finding has a key, findings that share an ID share scan and key, and no scan has two findings
  -- with one key.
  pub record NoDuplicates (fs : List Finding) : Type 0 where
    pub keyed : All (Keyed e) fs
    pub tags : TagsById e fs
    pub single : (s : String) (k : Key) → copies e s k fs ≤ 1

  -- The rest of the findings to invalidate.
  abbrev ToPatch : List Finding → Finding → Type 0
  ToPatch fs f = (k : Key) × (generate_key e.digest f.info ≡ some k) × Holds e f.id f.found_by k fs

  module _ (lawful : IsLawful e) where
    patch_rest :
        (f : Finding) (k : Key) (fs rs : List Finding)
        → generate_key e.digest f.info ≡ some k
        → Holds e f.id f.found_by k fs
        → All (ToPatch fs) rs
        → All (ToPatch (patched e f.id f fs)) rs
    patch_rest f k fs [] key h v = tt
    patch_rest f k fs (r ∷ rs) key h ((j, key', holds), vs) = (
      (j, key', Holds-patched e lawful f.id f k key r.id r.found_by j fs h holds),
      patch_rest f k fs rs key h vs,
    )

    patch-NoDuplicates :
        (f : Finding) (k : Key) (fs : List Finding)
        → generate_key e.digest f.info ≡ some k
        → Holds e f.id f.found_by k fs
        → NoDuplicates fs
        → NoDuplicates (patched e f.id f fs)
    patch-NoDuplicates f k fs key h v = record {
      keyed = Keyed-patched e lawful f.id f k key fs h v.keyed;
      tags = λ s j. TagsById-patched e lawful f.id f k key s j fs fs h h (v.tags s j);
      single = λ s j. omega (arith, copies-patched e lawful f.id f k key s j fs h, v.single s j);
    }

    invalidate-NoDuplicates :
        (t : ℤ) (rs : List Finding) (w : World)
        → NoDuplicates w.findings
        → All (ToPatch w.findings) rs
        → NoDuplicates (invalidate_all e t rs w).0.findings
    unfolding invalidate_all
    invalidate-NoDuplicates t [] w v h = v
    invalidate-NoDuplicates t (f ∷ rs) w v ((k, key, holds), hs) =
        let f' : Finding = record f { invalidated_on = some t } in
        continue-keeps (λ w. NoDuplicates w.findings × All (ToPatch w.findings) rs)
          (λ w. NoDuplicates w.findings) (patch_finding e f.id f' w) (λ _. invalidate_all e t rs)
          (patch_finding-keeps e (λ fs. NoDuplicates fs × All (ToPatch fs) rs) f.id f' w (v, hs)
            (
              patch-NoDuplicates f' k w.findings key holds v,
              patch_rest f' k w.findings rs key holds hs,
            ))
          (λ w h. h.0) (λ _ w h. invalidate-NoDuplicates t rs w h.0 h.1)

    all_ToPatch :
        (test : Finding → Bool) (fs rs : List Finding)
        → All (Keyed e) rs
        → ((s : String) (k : Key) → All (λ r. tagged e s k r ≡ true → Holds e r.id s k fs) rs)
        → All (ToPatch fs) (filter_by test rs)
    all_ToPatch test fs [] keyed tags = tt
    all_ToPatch test fs (r ∷ rs) ((k, key), more) tags =
        let later = all_ToPatch test fs rs more (λ s k. (tags s k).1) in
        elim (Bool-cases (test r)) [
          | inl is ↦ rw is ((k, key, (tags r.found_by k).0 own), later)
          | inr not ↦ rw not later
        ]
      where
        own : tagged e r.found_by k r ≡ true
        own = ground (arith, =?_iff r.found_by r.found_by, =?_iff k k)

    invalidate_older-NoDuplicates :
        (k : FindingType) (asset_id : String) (t : ℤ) (w : World)
        → NoDuplicates w.findings
        → NoDuplicates (invalidate_older_findings_by_type e k asset_id t w).0.findings
    unfolding invalidate_older_findings_by_type get_findings query
    invalidate_older-NoDuplicates k asset_id t w v =
        continue-then (λ w. NoDuplicates w.findings) (get_findings e (is_outdated e k asset_id t) w)
          (invalidate_all e t) v
          (λ rs found. invalidate-NoDuplicates t rs _ v (
            rw (get_findings-found e (is_outdated e k asset_id t) w rs found)
              (all_ToPatch (is_outdated e k asset_id t) w.findings w.findings v.keyed v.tags)))

    no_items :
        (t : FindingType) (k : Key) (is : List FindingInfo)
        → All (λ i. type_of i ≡ t) is
        → type_of_key k ≢ t
        → count_by (has_key e k) is ≡ 0
    no_items t k [] types other = refl
    no_items t k (i ∷ is) (type, types) other = elim (Bool-cases (has_key e k i)) [
      | inl has ↦ absurd (other (sym (has_type e.digest i k has) ∙ type))
      | inr none_here ↦ rw none_here (omega (arith, no_items t k is types other))
    ]

    -- The part of the function from the query for the findings of the scan to the end of the loop.
    save-NoDuplicates :
        (t : FindingType) (s asset_id : String) (time : ℤ) (newer : Option ℤ)
        (is : List FindingInfo) (m : List (Key × String)) (w : World)
        → All (λ i. type_of i ≡ t) is
        → ((k : Key) → count_by (has_key e k) is ≤ 1)
        → (get_existing_findings_for_scan e t s w).1 ≡ ok m
        → NoDuplicates w.findings
        → NoDuplicates
            (save_items e m
              (new_finding s asset_id time newer)
              is
              (get_existing_findings_for_scan e t s w).0).0.findings
    save-NoDuplicates t s asset_id time newer is m w types once found v =
        let made = get_existing-found e t s w m found in
        let same = get_existing-findings e t s w in
        let start : Ready e lawful s asset_id time newer m w.findings is = record {
          keyed = v.keyed;
          tags = v.tags;
          sound =
              existing_map-Sound e s w.findings (filter_by (is_by t s) w.findings) [] m (counted w)
                made (query-Listed e s w.findings t w.findings (v.tags s) (all_known e w.findings))
                tt;
          single = λ s' k.
              first_single t s is m w types once made v s' k
                (FindingType-discrete (type_of_key k) t);
        } in
        let end =
          items-Ready e lawful s asset_id time newer m (get_existing_findings_for_scan e t s w).0 is
            (rw same start) in
        record {
          keyed = end.keyed;
          tags = end.tags;
          single = λ s' k. omega (arith, end.single s' k);
        }
      where
        first_single :
            (t : FindingType) (s : String) (is : List FindingInfo) (m : List (Key × String))
            (w : World)
            → All (λ i. type_of i ≡ t) is
            → ((k : Key) → count_by (has_key e k) is ≤ 1)
            → (existing_map e (filter_by (is_by t s) w.findings) [] (counted w)).1 ≡ ok m
            → NoDuplicates w.findings
            → (s' : String) (k : Key) → Dec (type_of_key k ≡ t)
            → copies e s' k w.findings + to_post e s m s' k is ≤ 1
        first_single t s is m w types once made v s' k (no other) =
            ground (arith, v.single s' k, no_items t k is types other)
        first_single t s is m w types once made v s' k (yes same) = elim (Bool-cases (s' =? s)) [
          | inl own ↦ elim (Option-cases (lookup k m)) [
            | inl new ↦ rw (own, new) (omega (arith, once k, none_yet own new))
            | inr (id, old) ↦ rw (own, old) (omega (arith, v.single s' k))
          ]
          | inr foreign ↦ rw foreign (omega (arith, v.single s' k))
        ]
          where
            none_yet : (s' =? s) ≡ true → lookup k m ≡ none → copies e s' k w.findings ≡ 0
            none_yet own new =
                ap (λ x. copies e x k w.findings) ((=?_iff s' s).0 own)
                ∙ copies-listed e s w.findings t k w.findings same
                ∙ (existing_map-missing e s w.findings (filter_by (is_by t s) w.findings) [] m
                    (counted w) k made new).1

  pub record Keeps {A : Type 0} (m : M A) : Type 0 where
    pub keeps : (w : World) → NoDuplicates w.findings → NoDuplicates (m w).0.findings

  pub keep_bind :
      {A B : Type 0} {m : M A} {f : A → M B} → Keeps m → ((a : A) → Keeps (f a)) → Keeps (m >>= f)
  keep_bind {m} {f} h k = record {
    keeps = λ w v.
        continue-keeps (λ w. NoDuplicates w.findings) (λ w. NoDuplicates w.findings) (m w) f
          (h.keeps w v) (λ w v. v) (λ a w v. (k a).keeps w v);
  }

  pub keep_pure : {A : Type 0} (r : Result A) → Keeps (lift r)
  keep_pure r = record { keeps = λ w v. v }

  pub keep_query : {A : Type 0} (f : World → Result A) → Keeps (query e f)
  unfolding query
  keep_query f = record { keeps = λ w v. v }

  -- A write of other objects.
  pub keep_write :
      (f : World → World) → ((w : World) → (f w).findings ≡ w.findings) → Keeps (write e f)
  keep_write f other = record {
    keeps =
        λ w v. elim (write-findings e f w) [ inl same ↦ rw same v | inr new ↦ rw (new, other w) v ];
  }

  module _ (lawful : IsLawful e) where
    keep_invalidate :
        (t : FindingType) (asset_id : String) (time : ℤ)
        → Keeps (invalidate_older_findings_by_type e t asset_id time)
    keep_invalidate t asset_id time = record {
      keeps = λ w v. invalidate_older-NoDuplicates lawful t asset_id time w v;
    }

    keep_patch_asset : (id : String) (t : Totals) → Keeps (patch_asset e id t)
    unfolding patch_asset
    keep_patch_asset id t = keep_write _ (λ w. refl)

    keep_get_asset : (id : String) → Keeps (get_asset e id)
    unfolding get_asset
    keep_get_asset id = keep_query _

    keep_newer :
        (asset_id : String) (t : FindingType) (time : ℤ)
        → Keeps (newer_existing_finding_time e asset_id t time)
    unfolding newer_existing_finding_time get_findings
    keep_newer asset_id t time = keep_bind (keep_query _) (λ fs. keep_pure (ok _))

    module _ (t : FindingType) (total : String → Totals → M Totals) (is : List FindingInfo)
        (s : ScanResult) (totals : (asset_id : String) (old : Totals) → Keeps (total asset_id old))
        (types : All (λ i. type_of i ≡ t) is)
        (once : (k : Key) → count_by (has_key e k) is ≤ 1) where
      abbrev tail : String → ℤ → M (Unit {0})
      tail asset_id time = do
        invalidate_older_findings_by_type e t asset_id time
        summary ← get_asset e asset_id
        totals ← total asset_id (or_default summary no_totals)
        patch_asset e asset_id totals

      tail-Keeps : (asset_id : String) (time : ℤ) → Keeps (tail asset_id time)
      tail-Keeps asset_id time = keep_bind (keep_invalidate t asset_id time) λ _.
          keep_bind (keep_get_asset asset_id) λ summary.
            keep_bind (totals asset_id (or_default summary no_totals)) (keep_patch_asset asset_id)

      save-Keeps :
          (asset_id : String) (time : ℤ) (newer : Option ℤ)
          → Keeps (
              get_existing_findings_for_scan e t s.id >>= λ m.
              save_items e m (new_finding s.id asset_id time newer) is >> tail asset_id time)
      save-Keeps asset_id time newer = record {
        keeps = λ w v.
            continue-then (λ w. NoDuplicates w.findings) (get_existing_findings_for_scan e t s.id w)
              (λ m. save_items e m (new_finding s.id asset_id time newer) is >> tail asset_id time)
              (existing_keeps w v)
              λ m found.
                continue-keeps (λ w. NoDuplicates w.findings) (λ w. NoDuplicates w.findings)
                  (save_items e m (new_finding s.id asset_id time newer) is
                    (get_existing_findings_for_scan e t s.id w).0)
                  (λ _. tail asset_id time)
                  (save-NoDuplicates lawful t s.id asset_id time newer is m w types once found v)
                  (λ w v. v) (λ _ w v. (tail-Keeps asset_id time).keeps w v);
      }
        where
          existing_keeps :
              (w : World)
              → NoDuplicates w.findings
              → NoDuplicates (get_existing_findings_for_scan e t s.id w).0.findings
          existing_keeps w v = rw (get_existing-findings e t s.id w) v

      pub reconcile_to_findings-Keeps : Keeps (reconcile_to_findings e t total is s)
      unfolding reconcile_to_findings
      reconcile_to_findings-Keeps = keep_bind (keep_pure (deref s.last_transition_time)) λ time.
          keep_bind (keep_pure (deref s.asset)) λ asset_id.
            keep_bind (keep_newer asset_id t time) λ newer. save-Keeps asset_id time newer
