-- ===== src/Discoverer/Examples.antt =====
-- A run of the discoverer on two virtual machines, and on an image that cannot be merged.
use vmclarity.Prelude.{
  String, ◌≡◌, refl, false, none, some, List, [], ◌∷◌, ℕ, All, ◌==◌, if◌then◌else◌,
}
use vmclarity.Prelude.Int.{ℤ, pos}
use vmclarity.Processor.Store.{Answer, answered, refused}
use vmclarity.Discoverer.{
  AssetType, container_image_info, vm_info, Asset, Env, found_in, terminated,
  discover_and_create_assets,
}
use vmclarity.Discoverer.Found.{Grows}
use vmclarity.Discoverer.Ended.{Pairwise, Unseen, EndsAs}
use vmclarity.Discoverer.Marks.{among}
use vmclarity.Discoverer.Ends.{run_marks, none_left_missing, unpatched_kept, clash_ends_asset}

abbrev at : ℤ
at = pos 5000000000

abbrev env : List AssetType → (ℕ → Answer) → Env
env found answers = record {
  discovered = found;
  discovery_fails = false;
  answers = answers;
  new_id = λ _. "new";
  merge_patch = λ _ new. new;
  read = λ s. s;
}

abbrev always : ℕ → Answer
always _ = answered

abbrev machine : String → AssetType
machine id = vm_info id "eu" []

abbrev asset : String → AssetType → Asset
asset id i = record {
  id = id;
  asset_info = i;
  first_seen = some (pos 1000000000);
  last_seen = some (pos 2000000000);
  terminated_on = none;
}

abbrev held : List Asset
held = asset "a" (machine "i-1") ∷ asset "b" (machine "i-2") ∷ []

abbrev two : Env
two = env (machine "i-1" ∷ machine "i-3" ∷ []) always

abbrev seen : AssetType → Asset → Asset
seen i a = record a { asset_info = i; last_seen = some at }

abbrev after : List Asset
after =
    seen (machine "i-1") (asset "a" (machine "i-1"))
    ∷ terminated two at (asset "b" (machine "i-2"))
    ∷ record {
      id = "new";
      asset_info = machine "i-3";
      first_seen = some at;
      last_seen = some at;
      terminated_on = none;
    }
    ∷ []

test_two : (discover_and_create_assets two at held).0.assets ≡ after
unfolding discover_and_create_assets vmclarity.Processor.Store.in_seconds
test_two = refl

run_marks_example :
    Grows two at held (found_in two at held).assets
    × Pairwise
        (EndsAs two at (found_in two at held).assets)
        (found_in two at held).assets
        (discover_and_create_assets two at held).0.assets
run_marks_example = run_marks two at (λ n. refl) held refl

none_left_missing_example :
    All (λ a. ¬ Unseen two at a) (discover_and_create_assets two at held).0.assets
none_left_missing_example = none_left_missing two at (λ n. refl) held refl

-- The PATCH is refused.
abbrev second_refused : ℕ → Answer
second_refused n = if n == 1 then refused else answered

abbrev one_refused : Env
one_refused = env (machine "i-1" ∷ []) second_refused

unpatched_kept_example :
    among ("a" ∷ []) (discover_and_create_assets one_refused at held).0.assets
    ≡ asset "a" (machine "i-1") ∷ []
unfolding discover_and_create_assets vmclarity.Processor.Store.in_seconds
unpatched_kept_example = unpatched_kept one_refused at held

abbrev image : String → AssetType
image os = container_image_info (record {
  image_id = "sha256:1";
  architecture = none;
  labels = none;
  os = some os;
  repo_digests = none;
  repo_tags = none;
  size = none;
})

clash_ends_asset_example :
    among
      ("c" ∷ [])
      (discover_and_create_assets
        (env (image "linux" ∷ []) always)
        at
        (asset "c" (image "windows") ∷ [])).0.assets
    ≡ terminated (env (image "linux" ∷ []) always) at (asset "c" (image "windows")) ∷ []
unfolding vmclarity.Processor.Store.in_seconds
clash_ends_asset_example =
    clash_ends_asset (env (image "linux" ∷ []) always) at (λ n. refl) (image "linux") _
      (asset "c" (image "windows") ∷ []) (asset "c" (image "windows")) refl refl refl refl refl refl
