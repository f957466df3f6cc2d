-- ===== src/Discoverer.antt =====
-- Asset discovery (orchestrator/discoverer/discoverer.go): one run of DiscoverAndCreateAssets over the
-- assets that the API server holds.
use vmclarity.Prelude.{
  String, Bool, true, false, Option, none, some, List, [], ◌∷◌, ◌++◌, ◌+◌, ◌==◌, ◌&&◌, ℕ, map, any,
  filter_by, ◌=?◌, string_eq, if◌then◌else◌,
}
use vmclarity.Prelude.Int.{ℤ, ltb_ℤ}
use vmclarity.Go.{ok, err, panics}
use vmclarity.Processor.Store.{Answer, answered, refused, lost, in_seconds}
use Image.{ContainerImageInfo, merge}
pub mod Image
mod Marks
mod Found
mod Ended
mod Calls
mod Ends
mod Examples

-- A union, told apart by objectType. `rest` are the fields that nothing here reads.
pub data AssetType : Type 0 where
  container_image_info : ContainerImageInfo → AssetType
  container_info : (container_id : String) (rest : List String) → AssetType
  dir_info : (dir_name location : Option String) → AssetType
  pod_info : (rest : List String) → AssetType
  vm_info : (instance_id location : String) (rest : List String) → AssetType

pub record Asset : Type 0 where
  pub id : String
  pub asset_info : AssetType
  pub first_seen : Option ℤ
  pub last_seen : Option ℤ
  pub terminated_on : Option ℤ

-- What is not of this code: what the provider finds and whether it ends with an error, the answer to
-- the n-th call, new UUIDs, the merge of a JSON document with a PATCH, and the time that the database
-- reads from a text. A PATCH that the server does not accept is refused.
pub record Env : Type 0 where
  pub discovered : List AssetType
  pub discovery_fails : Bool
  pub answers : ℕ → Answer
  pub new_id : List String → String
  pub merge_patch : AssetType → AssetType → AssetType
  pub read : ℤ → ℤ

-- The server's assets, the number of calls so far, failedPatchAssets and the length of errs.
pub record Run : Type 0 where
  pub assets : List Asset
  pub calls : ℕ
  pub failed_patch_assets : List String
  pub errs : ℕ

-- What PostAsset returns: nil, an AssetConflictError or another error.
pub data Posted : Type 0 where
  created : Posted
  conflict : Asset → Posted
  not_posted : Posted

abbrev pub ids : List Asset → List String
ids xs = map (λ a. a.id) xs

abbrev pub is_one_of : List String → String → Bool
is_one_of xs id = any (λ x. id =? x) xs

abbrev has : Option String → String → Bool
has none s = false
has (some t) s = t =? s

-- The filter of checkUniqueness, on an asset that the server holds.
abbrev same_properties : AssetType → AssetType → Bool
same_properties (container_image_info i) (container_image_info j) = j.image_id =? i.image_id
same_properties (container_info id _) (container_info other _) = other =? id
same_properties (dir_info (some n) (some l)) (dir_info m k) = has m n && has k l
same_properties (vm_info i l _) (vm_info j k _) = j =? i && k =? l
same_properties _ _ = false

-- The server answers with an error where there is no filter.
abbrev pub same_as : AssetType → Option (AssetType → Bool)
same_as (pod_info _) = none
same_as (dir_info none _) = none
same_as (dir_info (some _) none) = none
same_as i = some (same_properties i)

abbrev pub first_with : (AssetType → Bool) → List Asset → Option Asset
first_with test [] = none
first_with test (a ∷ rest) = if test a.asset_info then some a else first_with test rest

abbrev pub handle_asset_conflict : AssetType → AssetType → Option AssetType
handle_asset_conflict (container_image_info old) (container_image_info new) = elim (merge old new) [
  | ok i ↦ some (container_image_info i)
  | err _ ↦ none
  | panics ↦ none
]
handle_asset_conflict _ (container_image_info _) = none
handle_asset_conflict _ new = some new

abbrev pub counted : Run → Run
counted r = record r { calls = r.calls + 1 }

abbrev pub failed : Run → Run
failed r = record r { errs = r.errs + 1 }

module _ (e : Env) (t : ℤ) where
  abbrev pub new_asset : AssetType → List Asset → Asset
  new_asset i held = record {
    id = e.new_id (ids held);
    asset_info = i;
    first_seen = some t;
    last_seen = some t;
    terminated_on = none;
  }

  abbrev pub created_in : AssetType → Run → Run
  created_in i r = record r { assets = r.assets ++ new_asset i r.assets ∷ [] }

  abbrev pub post_new : Answer → AssetType → Run → Run × Posted
  post_new answered i r = (created_in i r, created)
  post_new refused i r = (r, not_posted)
  post_new lost i r = (created_in i r, not_posted)

  abbrev pub post_known : Answer → Asset → Run → Run × Posted
  post_known answered a r = (r, conflict a)
  post_known _ a r = (r, not_posted)

  abbrev pub post_first : Answer → AssetType → Run → Option Asset → Run × Posted
  post_first b i r (some a) = post_known b a r
  post_first b i r none = post_new b i r

  abbrev pub post_by : Answer → AssetType → Run → Option (AssetType → Bool) → Run × Posted
  post_by b i r none = (r, not_posted)
  post_by b i r (some test) = post_first b i r (first_with test r.assets)

  pub post_asset : AssetType → Run → Run × Posted
  post_asset i r = post_by (e.answers r.calls) i (counted r) (same_as i)

  abbrev pub patched : String → (Asset → Asset) → Run → Run
  patched id f r = record r { assets = map (λ a. if a.id =? id then f a else a) r.assets }

  abbrev pub patch_by : Answer → String → (Asset → Asset) → Run → Run × Bool
  patch_by answered id f r = (patched id f r, true)
  patch_by refused id f r = (r, false)
  patch_by lost id f r = (patched id f r, false)

  -- Whether it returns nil.
  pub patch_asset : String → (Asset → Asset) → Run → Run × Bool
  patch_asset id f r = patch_by (e.answers r.calls) id f (counted r)

  abbrev pub seen_again : AssetType → Asset → Asset
  seen_again i a = record a { asset_info = e.merge_patch a.asset_info i; last_seen = some t }

  abbrev pub after_found : String → Run × Bool → Run
  after_found id (r, true) = r
  after_found id (r, false) = failed (record r { failed_patch_assets = id ∷ r.failed_patch_assets })

  abbrev pub after_conflict : String → Run → Option AssetType → Run
  after_conflict id r none = failed r
  after_conflict id r (some j) = after_found id (patch_asset id (seen_again j) r)

  abbrev pub after_post : AssetType → Run × Posted → Run
  after_post i (r, created) = r
  after_post i (r, not_posted) = failed r
  after_post i (r, conflict a) = after_conflict a.id r (handle_asset_conflict a.asset_info i)

  pub find_all : List AssetType → Run → Run
  unfolding post_asset patch_asset
  find_all [] r = r
  find_all (i ∷ is) r = find_all is (after_post i (post_asset i r))

  -- terminatedOn eq null and (lastSeen eq null or lastSeen lt ...)
  abbrev pub is_missing : Asset → Bool
  is_missing a = is_unset a.terminated_on && seen_before a.last_seen
    where
      is_unset : Option ℤ → Bool
      is_unset none = true
      is_unset (some _) = false

      seen_before : Option ℤ → Bool
      seen_before none = true
      seen_before (some s) = ltb_ℤ (e.read s) (e.read (in_seconds t))

  abbrev pub terminated : Asset → Asset
  terminated a = record a { terminated_on = some t }

  abbrev pub after_terminate : Run × Bool → Run
  after_terminate (r, true) = r
  after_terminate (r, false) = failed r

  pub terminate_one : String → Run → Run
  unfolding patch_asset
  terminate_one id r =
      if is_one_of r.failed_patch_assets id
      then r
      else after_terminate (patch_asset id terminated r)

  pub terminate_all : List String → Run → Run
  unfolding terminate_one
  terminate_all [] r = r
  terminate_all (id ∷ rest) r = terminate_all rest (terminate_one id r)

  abbrev pub mark_by : Answer → Run → Run × Bool
  mark_by answered r =
      let done = terminate_all (ids (filter_by is_missing r.assets)) r in (done, done.errs == 0)
  mark_by _ r = (r, false)

  pub mark_terminated : Run → Run × Bool
  unfolding terminate_all
  mark_terminated r = mark_by (e.answers r.calls) (counted r)

  abbrev pub found_in : List Asset → Run
  found_in held =
      find_all e.discovered
        (record { assets = held; calls = 0; failed_patch_assets = []; errs = 0 })

  -- One run on the assets that there are; and whether it returns nil.
  pub discover_and_create_assets : List Asset → Run × Bool
  unfolding find_all mark_terminated
  discover_and_create_assets held =
      if e.discovery_fails then (found_in held, false) else mark_terminated (found_in held)
