-- ===== src/Processor/Items.antt =====
-- The loop over the items of a result: one finding for each of them, whatever fails and however often.
use vmclarity.Prelude.{
  ℕ, String, ◌≡◌, refl, ◌+◌, ◌≤◌, ◌⊎◌, Bool, not, ◌&&◌, Option, none, some, List, [], ◌∷◌, arith,
  All, All-append, count_by, filter_by, ◌=?◌, =?_iff, string_eq, if◌then◌else◌, Option-cases, inl,
  inr,
}
use vmclarity.Prelude.Int.{ℤ}
use vmclarity.Go.{ok}
use vmclarity.Findings.{FindingInfo, Key, key_eq, generate_key}
use vmclarity.Processor.Store.{
  Env, World, Finding, Answer, answered, refused, lost, write, post_finding, patch_finding, posted,
  patched, continue-keeps, read_by, get_findings, query, write_by, counted,
}
use vmclarity.Processor.Family.{lookup, is_some, save_item, save_items, new_finding}
use vmclarity.Processor.Tags.{
  IsLawful, Keyed, Keyed-patched, has_key, copies, Holds, Holds-posted, Holds-patched, TagsById,
  TagsById-posted, TagsById-patched, copies-posted, copies-patched, ids-patched, known-append,
}
use vmclarity.Processor.Existing.{Sound, lookup-Sound}

-- A write is done or not, whatever it returns.
pub write-findings :
    (e : Env) (f : World → World) (w : World)
    → ((write e f w).0.findings ≡ w.findings) ⊎ ((write e f w).0.findings ≡ (f w).findings)
unfolding write
write-findings e f w =
    elim (e.answers w.calls)
      as (λ a.
        ((write_by a (counted w) (counted (f w))).0.findings ≡ w.findings)
        ⊎ ((write_by a (counted w) (counted (f w))).0.findings ≡ (f w).findings)) [
          | answered ↦ inr refl
          | refused ↦ inl refl
          | lost ↦ inr refl
        ]

-- A query that is answered.
pub get_findings-found :
    (e : Env) (test : Finding → Bool) (w : World) (fs : List Finding)
    → (get_findings e test w).1 ≡ ok fs
    → fs ≡ filter_by test w.findings
unfolding get_findings query
get_findings-found e test w fs h = read_found (e.answers w.calls) h
  where
    read_found :
        (a : Answer)
        → read_by a (ok (filter_by test w.findings)) ≡ ok fs
        → fs ≡ filter_by test w.findings
    read_found answered h = cc h
    read_found refused h = cc h
    read_found lost h = cc h

pub patch_finding-keeps :
    (e : Env) (P : List Finding → Type 0) (id : String) (f : Finding) (w : World)
    → P w.findings
    → P (patched e id f w.findings)
    → P (patch_finding e id f w).0.findings
unfolding patch_finding
patch_finding-keeps e P id f w h done =
    elim (write-findings e (λ w. record w { findings = patched e id f w.findings }) w) [
      | inl same ↦ rw same h
      | inr new ↦ rw new done
    ]

-- What the rest of the loop may still post.
abbrev pub to_post : Env → String → List (Key × String) → String → Key → List FindingInfo → ℕ
to_post e s m s' k is =
    if s' =? s && not (is_some (lookup k m)) then count_by (has_key e k) is else 0

module _ (e : Env) (lawful : IsLawful e) (s asset_id : String) (t : ℤ) (newer : Option ℤ)
    (m : List (Key × String)) where
  abbrev make : FindingInfo → Finding
  make i = new_finding s asset_id t newer i

  pub record Ready (fs : List Finding) (is : List FindingInfo) : Type 0 where
    pub keyed : All (Keyed e) fs
    pub tags : TagsById e fs
    pub sound : Sound e s fs m
    pub single : (s' : String) (k : Key) → copies e s' k fs + to_post e s m s' k is ≤ 1

  skip-Ready :
      (fs : List Finding) (i : FindingInfo) (is : List FindingInfo)
      → Ready fs (i ∷ is)
      → Ready fs is
  skip-Ready fs i is v = record {
    keyed = v.keyed;
    tags = v.tags;
    sound = v.sound;
    single = λ s' k. ground (arith, v.single s' k);
  }

  Sound-posted :
      (f : Finding) (fs : List Finding) (n : List (Key × String))
      → Sound e s fs n
      → Sound e s (posted e f fs) n
  Sound-posted f fs [] v = tt
  Sound-posted f fs ((k, id) ∷ n) ((holds, known), vs) = (
    (Holds-posted e lawful f fs id s k known holds, known-append e id fs _ known),
    Sound-posted f fs n vs,
  )

  post-Ready :
      (fs : List Finding) (i : FindingInfo) (is : List FindingInfo) (k : Key)
      → generate_key e.digest i ≡ some k
      → lookup k m ≡ none
      → Ready fs (i ∷ is)
      → Ready (posted e (make i) fs) is
  post-Ready fs i is k key new v = record {
    keyed = All-append (Keyed e) fs _ v.keyed ((k, key), tt);
    tags = TagsById-posted e lawful (make i) fs v.tags;
    sound = Sound-posted (make i) fs m v.sound;
    single = λ s' j. ground (
      arith,
      v.single s' j,
      copies-posted e (make i) s' j fs,
      =?_iff k j,
      =?_iff s s',
      =?_iff s' s,
    );
  }

  Sound-patched :
      (id : String) (f : Finding) (j : Key) (fs : List Finding) (n : List (Key × String))
      → generate_key e.digest f.info ≡ some j
      → Holds e id f.found_by j fs
      → Sound e s fs n
      → Sound e s (patched e id f fs) n
  Sound-patched id f j fs [] key h v = tt
  Sound-patched id f j fs ((k, i) ∷ n) key h ((holds, known), vs) = (
    (
      Holds-patched e lawful id f j key i s k fs h holds,
      rw (ids-patched e lawful id f j key fs) known,
    ),
    Sound-patched id f j fs n key h vs,
  )

  patch-Ready :
      (fs : List Finding) (i : FindingInfo) (is : List FindingInfo) (k : Key) (id : String)
      → generate_key e.digest i ≡ some k
      → lookup k m ≡ some id
      → Ready fs (i ∷ is)
      → Ready (patched e id (make i) fs) is
  patch-Ready fs i is k id key old v =
      let (holds, known) = lookup-Sound e s fs m k id old v.sound in
      record {
        keyed = Keyed-patched e lawful id (make i) k key fs holds v.keyed;
        tags = λ s' j.
            TagsById-patched e lawful id (make i) k key s' j fs fs holds holds (v.tags s' j);
        sound = Sound-patched id (make i) k fs m key holds v.sound;
        single = λ s' j. ground (
          arith,
          v.single s' j,
          copies-patched e lawful id (make i) k key s' j fs holds,
          =?_iff k j,
        );
      }

  -- One round.
  item-Ready :
      (w : World) (i : FindingInfo) (is : List FindingInfo) (o : Option Key)
      → generate_key e.digest i ≡ o
      → Ready w.findings (i ∷ is)
      → Ready (save_item e m (make i) o w).0.findings is
  unfolding save_item post_finding patch_finding
  item-Ready w i is none key v = skip-Ready w.findings i is v
  item-Ready w i is (some k) key v = elim (Option-cases (lookup k m)) [
    | inl new ↦
        rw (new, save_item)
          (by_write (λ w. record w { findings = posted e (make i) w.findings })
            (post-Ready w.findings i is k key new v))
    | inr (id, old) ↦
        rw (old, save_item)
          (by_write (λ w. record w { findings = patched e id (make i) w.findings })
            (patch-Ready w.findings i is k id key old v))
  ]
    where
      by_write : (f : World → World) → Ready (f w).findings is → Ready (write e f w).0.findings is
      by_write f done = elim (write-findings e f w) [
        | inl same ↦ rw same (skip-Ready w.findings i is v)
        | inr new ↦ rw new done
      ]

  stop_Ready : (fs : List Finding) (is : List FindingInfo) → Ready fs is → Ready fs []
  stop_Ready fs [] v = v
  stop_Ready fs (i ∷ is) v = stop_Ready fs is (skip-Ready fs i is v)

  -- The whole loop.
  pub items-Ready :
      (w : World) (is : List FindingInfo)
      → Ready w.findings is
      → Ready (save_items e m make is w).0.findings []
  unfolding save_items
  items-Ready w [] v = v
  items-Ready w (i ∷ is) v =
      continue-keeps (λ w. Ready w.findings is) (λ w. Ready w.findings [])
        (save_item e m (make i) (generate_key e.digest i) w) (λ _. save_items e m make is)
        (item-Ready w i is (generate_key e.digest i) refl v) (λ w. stop_Ready w.findings is)
        (λ _ w h. items-Ready w is h)
