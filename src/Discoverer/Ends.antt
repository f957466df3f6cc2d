-- ===== src/Discoverer/Ends.antt =====
-- Which assets a run of the discoverer leaves as terminated (orchestrator/discoverer/discoverer.go).
use vmclarity.Prelude.{
  ◌≡◌, refl, ap, ◌∙◌, inl, inr, Bool, true, false, none, some, List, [], ◌∷◌, map, All, filter_by,
  =?_iff, string_eq, if◌then◌else◌, Bool-cases,
}
use vmclarity.Prelude.Int.{ℤ}
use vmclarity.Processor.Store.{Answer, answered, refused, lost}
use vmclarity.Discoverer.{
  AssetType, Asset, Env, Run, ids, is_one_of, counted, failed, post_asset, same_as, first_with,
  handle_asset_conflict, after_post, find_all, found_in, is_missing, terminated, post_by,
  post_first, post_known, after_conflict, mark_terminated, discover_and_create_assets, mark_by,
}
use vmclarity.Discoverer.Marks.{among, any-weaken, AllAnswered, mark, after-marking, marked_ids}
use vmclarity.Discoverer.Found.{Grows, found_in-Grows}
use vmclarity.Discoverer.Ended.{Pairwise, Unseen, EndsAs, map-mark-EndsAs, none_missing}
use vmclarity.Discoverer.Calls.{terminate_all-mark, terminate_all-keeps, find_all-calm}

module _ (e : Env) (t : ℤ) where
  marked :
      AllAnswered e t
      → (held : List Asset) → e.discovery_fails ≡ false
      → (discover_and_create_assets e t held).0.assets
        ≡ map
            (mark e t (ids (filter_by (is_missing e t) (found_in e t held).assets)))
            (found_in e t held).assets
  unfolding discover_and_create_assets mark_terminated
  marked calm held h =
      rw (h, calm (found_in e t held).calls)
        (terminate_all-mark e t calm (ids (filter_by (is_missing e t) (found_in e t held).assets))
          (counted (found_in e t held)) (find_all-calm e t calm e.discovered start refl))
    where
      start : Run
      start = record { assets = held; calls = 0; failed_patch_assets = []; errs = 0 }

  -- Where all calls are answered and the provider finds all. Once a run has posted and patched, the
  -- server holds the assets that it held, with their IDs, firstSeen and terminatedOn, where lastSeen is
  -- the time of the run or nothing has changed, and after them new ones, seen first and last at that
  -- time. Of all these, the run sets terminatedOn, to its own time, where the ID is one of an asset that is
  -- not terminated and was never seen, or last seen before the second of the run; it changes no other
  -- field and no other asset, and adds and drops none.
  pub run_marks :
      AllAnswered e t
      → (held : List Asset) → e.discovery_fails ≡ false
      → let now = (found_in e t held).assets in
        Grows e t held now
        × Pairwise (EndsAs e t now) now (discover_and_create_assets e t held).0.assets
  run_marks calm held h = (
    found_in-Grows e t held,
    rw (marked calm held h)
        (map-mark-EndsAs e t (found_in e t held).assets (found_in e t held).assets),
  )

  -- Where all calls are answered and the provider finds all, every asset that the server then holds
  -- is terminated, or has a lastSeen that is not before the second of the run.
  pub none_left_missing :
      AllAnswered e t
      → (held : List Asset) → e.discovery_fails ≡ false
      → All (λ a. ¬ Unseen e t a) (discover_and_create_assets e t held).0.assets
  none_left_missing calm held h =
      none_missing e t (discover_and_create_assets e t held).0.assets
        (rw (marked calm held h) (after-marking e t (found_in e t held).assets _ (λ id g. g)))

  -- Whatever the calls answer: the assets of the IDs that were found and could not be patched are after
  -- the run as they were before it sets terminatedOn.
  pub unpatched_kept :
      (held : List Asset)
      → let found = found_in e t held in
        among found.failed_patch_assets (discover_and_create_assets e t held).0.assets
        ≡ among found.failed_patch_assets found.assets
  unfolding discover_and_create_assets mark_terminated
  unpatched_kept held = by_end e.discovery_fails
    where
      found : Run
      found = found_in e t held

      by_answer :
          (b : Answer)
          → among found.failed_patch_assets (mark_by e t b (counted found)).0.assets
            ≡ among found.failed_patch_assets found.assets
      by_answer answered =
          terminate_all-keeps e t found.failed_patch_assets
            (ids (filter_by (is_missing e t) found.assets)) (counted found) refl
      by_answer refused = refl
      by_answer lost = refl

      by_end :
          (fails : Bool)
          → among found.failed_patch_assets
              (if fails
                then (found, false)
                else mark_by e t (e.answers found.calls) (counted found)).0.assets
            ≡ among found.failed_patch_assets found.assets
      by_end true = refl
      by_end false = by_answer (e.answers found.calls)

  missing_ids :
      (test : AssetType → Bool) (held : List Asset) (a : Asset)
      → first_with test held ≡ some a
      → is_missing e t a ≡ true
      → is_one_of (ids (filter_by (is_missing e t) held)) a.id ≡ true
  missing_ids test [] a first h = cc first
  missing_ids test (x ∷ held) a first h = elim (Bool-cases (test x.asset_info)) [
    | inl holds ↦
        let it : x ≡ a = cc (holds, first) in
        let here : is_missing e t x ≡ true = cc (it, h) in
        rw (here, it, (=?_iff a.id a.id).1 refl) refl
    | inr fails ↦
        let later = missing_ids test held a (cc (fails, first)) h in
        elim (Bool-cases (is_missing e t x)) [
          | inl here ↦ rw here (any-weaken _ later)
          | inr seen ↦ rw seen later
        ]
  ]

  post-conflict :
      (i : AssetType) (test : AssetType → Bool) (r : Run) (a : Asset)
      → e.answers r.calls ≡ answered
      → same_as i ≡ some test
      → first_with test r.assets ≡ some a
      → handle_asset_conflict a.asset_info i ≡ none
      → after_post e t i (post_asset e t i r) ≡ failed (counted r)
  unfolding post_asset
  post-conflict i test r a calm same first conflicts =
      ap (after_post e t i) (
        ap (post_by e t (e.answers r.calls) i (counted r)) same
        ∙ ap (post_first e t (e.answers r.calls) i (counted r)) first
        ∙ ap (λ b. post_known e t b a (counted r)) calm)
      ∙ ap (after_conflict e t a.id (counted r)) conflicts

  -- Where all calls are answered, the one asset found is one that the server holds and last saw before,
  -- and the two cannot be merged: the run sets terminatedOn of the assets of that ID.
  pub clash_ends_asset :
      AllAnswered e t
      → (i : AssetType) (test : AssetType → Bool) (held : List Asset) (a : Asset)
      → e.discovered ≡ i ∷ []
      → e.discovery_fails ≡ false
      → same_as i ≡ some test
      → first_with test held ≡ some a
      → handle_asset_conflict a.asset_info i ≡ none
      → is_missing e t a ≡ true
      → among (a.id ∷ []) (discover_and_create_assets e t held).0.assets
        ≡ map (terminated e t) (among (a.id ∷ []) held)
  unfolding find_all
  clash_ends_asset calm i test held a only ends same first conflicts missing =
      ap (among (a.id ∷ [])) (marked calm held ends)
      ∙ ap (λ now. among (a.id ∷ []) (map (mark e t (ids (filter_by (is_missing e t) now))) now))
          unchanged
      ∙ marked_ids e t _ a.id held (missing_ids test held a first missing)
    where
      start : Run
      start = record { assets = held; calls = 0; failed_patch_assets = []; errs = 0 }

      unchanged : (found_in e t held).assets ≡ held
      unchanged =
          ap (λ is. (find_all e t is start).assets) only
          ∙ ap (λ r. r.assets) (post-conflict i test start a (calm 0) same first conflicts)
