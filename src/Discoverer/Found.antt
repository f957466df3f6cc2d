-- ===== src/Discoverer/Found.antt =====
-- What the first loop of DiscoverAndCreateAssets makes of the assets that the server held before
-- (orchestrator/discoverer/discoverer.go), whatever the calls answer.
use vmclarity.Prelude.{
  String, ◌≡◌, refl, ◌⊎◌, inl, inr, Bool, Option, none, some, List, [], ◌∷◌, ◌++◌, map, All, ◌=?◌,
  string_eq, if◌then◌else◌, Bool-cases,
}
use vmclarity.Prelude.Int.{ℤ}
use vmclarity.Processor.Store.{Answer, answered, refused, lost}
use vmclarity.Discoverer.{
  AssetType, Asset, Env, Run, new_asset, counted, patch_asset, post_asset, same_as, first_with,
  handle_asset_conflict, after_found, after_post, seen_again, find_all, patch_by, post_by,
  post_first, after_conflict, found_in,
}

module _ (e : Env) (t : ℤ) where
  -- An asset that this run has created.
  abbrev pub IsNew : Asset → Type 0
  IsNew b = (b.first_seen ≡ some t) × (b.last_seen ≡ some t) × (b.terminated_on ≡ none)

  -- What is kept of an asset that was held: all but its info and lastSeen, which is now that of the run or as
  -- it was.
  abbrev pub StaysAs : Asset → Asset → Type 0
  StaysAs a b =
      (b.id ≡ a.id)
      × (b.first_seen ≡ a.first_seen)
      × (b.terminated_on ≡ a.terminated_on)
      × ((b.last_seen ≡ some t) ⊎ (b ≡ a))

  -- The assets that were held, in their places, and then new ones.
  abbrev pub Grows : List Asset → List Asset → Type 0
  Grows [] ys = All IsNew ys
  Grows (a ∷ xs) [] = ⊥
  Grows (a ∷ xs) (b ∷ ys) = StaysAs a b × Grows xs ys

  start-Grows : (held : List Asset) → Grows held held
  start-Grows [] = tt
  start-Grows (a ∷ held) = ((refl, refl, refl, inr refl), start-Grows held)

  IsNew-append : (xs : List Asset) (b : Asset) → IsNew b → All IsNew xs → All IsNew (xs ++ b ∷ [])
  IsNew-append [] b h v = (h, tt)
  IsNew-append (x ∷ xs) b h (v, vs) = (v, IsNew-append xs b h vs)

  created-Grows :
      (held xs : List Asset) (b : Asset) → IsNew b → Grows held xs → Grows held (xs ++ b ∷ [])
  created-Grows [] xs b h v = IsNew-append xs b h v
  created-Grows (a ∷ held) [] b h v = absurd v
  created-Grows (a ∷ held) (x ∷ xs) b h (v, vs) = (v, created-Grows held xs b h vs)

  module _ (id : String) (i : AssetType) where
    abbrev seen : Asset → Asset
    seen a = if a.id =? id then seen_again e t i a else a

    seen-StaysAs : (a b : Asset) → StaysAs a b → StaysAs a (seen b)
    seen-StaysAs a b (same, first, ended, last) = elim (Bool-cases (b.id =? id)) [
      | inl it ↦ rw it (same, first, ended, inl refl)
      | inr other ↦ rw other (same, first, ended, last)
    ]

    seen-IsNew : (b : Asset) → IsNew b → IsNew (seen b)
    seen-IsNew b (first, last, ended) = elim (Bool-cases (b.id =? id)) [
      | inl it ↦ rw it (first, refl, ended)
      | inr other ↦ rw other (first, last, ended)
    ]

    all_seen : (xs : List Asset) → All IsNew xs → All IsNew (map seen xs)
    all_seen [] v = tt
    all_seen (b ∷ xs) (v, vs) = (seen-IsNew b v, all_seen xs vs)

    seen-Grows : (held xs : List Asset) → Grows held xs → Grows held (map seen xs)
    seen-Grows [] xs v = all_seen xs v
    seen-Grows (a ∷ held) [] v = absurd v
    seen-Grows (a ∷ held) (x ∷ xs) (v, vs) = (seen-StaysAs a x v, seen-Grows held xs vs)

    found-Grows :
        (held : List Asset) (r : Run)
        → Grows held r.assets
        → Grows held (after_found e t id (patch_asset e t id (seen_again e t i) r)).assets
    unfolding patch_asset
    found-Grows held r v = by_answer (e.answers r.calls)
      where
        by_answer :
            (b : Answer)
            → Grows held
                (after_found e t id (patch_by e t b id (seen_again e t i) (counted r))).assets
        by_answer answered = seen-Grows held r.assets v
        by_answer refused = v
        by_answer lost = seen-Grows held r.assets v

  post-Grows :
      (held : List Asset) (i : AssetType) (r : Run)
      → Grows held r.assets
      → Grows held (after_post e t i (post_asset e t i r)).assets
  unfolding post_asset
  post-Grows held i r v = by_filter (same_as i) (e.answers r.calls)
    where
      made : Grows held (r.assets ++ new_asset e t i r.assets ∷ [])
      made = created-Grows held r.assets (new_asset e t i r.assets) (refl, refl, refl) v

      by_handled :
          (j : Option AssetType) (a : Asset)
          → Grows held (after_conflict e t a.id (counted r) j).assets
      by_handled none a = v
      by_handled (some j) a = found-Grows a.id j held (counted r) v

      by_first :
          (o : Option Asset) (b : Answer)
          → Grows held (after_post e t i (post_first e t b i (counted r) o)).assets
      by_first none answered = made
      by_first none refused = v
      by_first none lost = made
      by_first (some a) answered = by_handled (handle_asset_conflict a.asset_info i) a
      by_first (some a) refused = v
      by_first (some a) lost = v

      by_filter :
          (o : Option (AssetType → Bool)) (b : Answer)
          → Grows held (after_post e t i (post_by e t b i (counted r) o)).assets
      by_filter none b = v
      by_filter (some test) b = by_first (first_with test r.assets) b

  all-Grows :
      (held : List Asset) (is : List AssetType) (r : Run)
      → Grows held r.assets
      → Grows held (find_all e t is r).assets
  unfolding find_all
  all-Grows held [] r v = v
  all-Grows held (i ∷ is) r v =
      all-Grows held is (after_post e t i (post_asset e t i r)) (post-Grows held i r v)

  pub found_in-Grows : (held : List Asset) → Grows held (found_in e t held).assets
  found_in-Grows held = all-Grows held e.discovered _ (start-Grows held)
