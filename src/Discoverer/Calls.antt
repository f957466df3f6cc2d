-- ===== src/Discoverer/Calls.antt =====
-- The two loops of DiscoverAndCreateAssets (orchestrator/discoverer/discoverer.go): what they mark,
-- and that without failed calls none is skipped.
use vmclarity.Prelude.{
  String, ◌≡◌, refl, sym, ap, ◌∙◌, Bool, true, false, Option, none, some, List, [], ◌∷◌, map,
  string_eq, if◌then◌else◌,
}
use vmclarity.Prelude.Int.{ℤ}
use vmclarity.Processor.Store.{Answer, answered, refused, lost}
use vmclarity.Discoverer.{
  AssetType, Asset, Env, Run, is_one_of, counted, patched, patch_asset, post_asset, same_as,
  first_with, handle_asset_conflict, after_found, after_post, seen_again, find_all, terminated,
  after_terminate, terminate_one, patch_by, post_by, post_first, after_conflict, terminate_all,
}
use vmclarity.Discoverer.Marks.{among, AllAnswered, mark, map-mark, map-nothing, patched-among}

module _ (e : Env) (t : ℤ) where
  terminate_one-done :
      (id : String) (r : Run)
      → r.failed_patch_assets ≡ []
      → e.answers r.calls ≡ answered
      → terminate_one e t id r ≡ counted (patched e t id (terminated e t) r)
  unfolding terminate_one patch_asset
  terminate_one-done id r h calm = by_failed r.failed_patch_assets h (e.answers r.calls) calm
    where
      by_failed :
          (xs : List String)
          → xs ≡ []
          → (b : Answer) → b ≡ answered
          → (if is_one_of xs id
              then r
              else after_terminate e t (patch_by e t b id (terminated e t) (counted r)))
            ≡ counted (patched e t id (terminated e t) r)
      by_failed xs h b calm = rw (h, calm) refl

  pub terminate_all-mark :
      AllAnswered e t
      → (xs : List String) (r : Run) → r.failed_patch_assets ≡ []
      → (terminate_all e t xs r).assets ≡ map (mark e t xs) r.assets
  unfolding terminate_all
  terminate_all-mark calm [] r h = sym (map-nothing e t r.assets)
  terminate_all-mark calm (id ∷ rest) r h =
      ap (λ x. (terminate_all e t rest x).assets) (terminate_one-done id r h (calm r.calls))
      ∙ terminate_all-mark calm rest (counted (patched e t id (terminated e t) r)) h
      ∙ map-mark e t id rest r.assets

  terminate_one-keeps :
      (xs : List String) (id : String) (r : Run)
      → r.failed_patch_assets ≡ xs
      → ((terminate_one e t id r).failed_patch_assets ≡ xs)
        × (among xs (terminate_one e t id r).assets ≡ among xs r.assets)
  unfolding terminate_one patch_asset
  terminate_one-keeps xs id r h = by_failed (is_one_of r.failed_patch_assets id) refl
    where
      by_answer :
          is_one_of xs id ≡ false
          → (b : Answer)
          → let r' = after_terminate e t (patch_by e t b id (terminated e t) (counted r)) in
            (r'.failed_patch_assets ≡ xs) × (among xs r'.assets ≡ among xs r.assets)
      by_answer other answered = (h, patched-among e t xs id r.assets other)
      by_answer other refused = (h, refl)
      by_answer other lost = (h, patched-among e t xs id r.assets other)

      by_failed :
          (skip : Bool)
          → is_one_of r.failed_patch_assets id ≡ skip
          → let r' =
              if skip
              then r
              else after_terminate e t
                  (patch_by e t (e.answers r.calls) id (terminated e t) (counted r)) in
            (r'.failed_patch_assets ≡ xs) × (among xs r'.assets ≡ among xs r.assets)
      by_failed true _ = (h, refl)
      by_failed false other = by_answer (cc (h, other)) (e.answers r.calls)

  -- An asset that was found and could not be patched is not marked, whatever the calls answer.
  pub terminate_all-keeps :
      (xs rest : List String) (r : Run)
      → r.failed_patch_assets ≡ xs
      → among xs (terminate_all e t rest r).assets ≡ among xs r.assets
  unfolding terminate_all
  terminate_all-keeps xs [] r h = refl
  terminate_all-keeps xs (id ∷ rest) r h =
      let (same, kept) = terminate_one-keeps xs id r h in
      terminate_all-keeps xs rest (terminate_one e t id r) same ∙ kept

  after_found-calm :
      (j : AssetType) (id : String) (r : Run)
      → e.answers r.calls ≡ answered
      → r.failed_patch_assets ≡ []
      → (after_found e t id (patch_asset e t id (seen_again e t j) r)).failed_patch_assets ≡ []
  unfolding patch_asset
  after_found-calm j id r calm h = by_answer (e.answers r.calls) calm
    where
      by_answer :
          (b : Answer)
          → b ≡ answered
          → (after_found e t id
              (patch_by e t b id (seen_again e t j) (counted r))).failed_patch_assets
            ≡ []
      by_answer answered _ = h
      by_answer refused calm = cc calm
      by_answer lost calm = cc calm

  after_post-calm :
      AllAnswered e t
      → (i : AssetType) (r : Run) → r.failed_patch_assets ≡ []
      → (after_post e t i (post_asset e t i r)).failed_patch_assets ≡ []
  unfolding post_asset
  after_post-calm calm i r h = by_filter (same_as i) (e.answers r.calls)
    where
      by_handled :
          (j : Option AssetType) (a : Asset)
          → (after_conflict e t a.id (counted r) j).failed_patch_assets ≡ []
      by_handled none a = h
      by_handled (some j) a = after_found-calm j a.id (counted r) (calm (counted r).calls) h

      by_first :
          (o : Option Asset) (b : Answer)
          → (after_post e t i (post_first e t b i (counted r) o)).failed_patch_assets ≡ []
      by_first none answered = h
      by_first none refused = h
      by_first none lost = h
      by_first (some a) answered = by_handled (handle_asset_conflict a.asset_info i) a
      by_first (some a) refused = h
      by_first (some a) lost = h

      by_filter :
          (o : Option (AssetType → Bool)) (b : Answer)
          → (after_post e t i (post_by e t b i (counted r) o)).failed_patch_assets ≡ []
      by_filter none b = h
      by_filter (some test) b = by_first (first_with test r.assets) b

  pub find_all-calm :
      AllAnswered e t
      → (is : List AssetType) (r : Run) → r.failed_patch_assets ≡ []
      → (find_all e t is r).failed_patch_assets ≡ []
  unfolding find_all
  find_all-calm calm [] r h = h
  find_all-calm calm (i ∷ is) r h =
      find_all-calm calm is (after_post e t i (post_asset e t i r)) (after_post-calm calm i r h)
