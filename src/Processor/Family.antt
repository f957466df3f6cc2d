-- ===== src/Processor/Family.antt =====
-- What the processor does for one family: common.go, and the body that packages.go, vulnerabilities.go,
-- exploits.go, secrets.go, malware.go, rootkits.go, misconfigurations.go and infofinder.go repeat.
use vmclarity.Prelude.{
  String, Bool, true, false, Option, none, some, List, [], ◌∷◌, ◌&&◌, length, ◌=?◌, string_eq,
  if◌then◌else◌,
}
use vmclarity.Prelude.Int.{ℤ, pos, ltb_ℤ}
use vmclarity.Go.{err, panics, deref, or_default, invalid}
use vmclarity.ApiTypes.{Totals}
use vmclarity.Findings.{
  FindingInfo, FindingType, Key, key_eq, finding_type_eq, type_of, generate_key, exploit,
  info_finder, malware, misconfiguration, a_package, rootkit, secret, vulnerability,
}
use vmclarity.Processor.Store.{
  Env, Finding, ScanResult, M, ◌>>=◌, ◌>>◌, pure, lift, get_findings, post_finding, patch_finding,
  get_asset, patch_asset, in_seconds,
}

-- What the queries for the findings of a scan return of them: the fields that are in the Select of
-- rootkits.go, secrets.go and the like and in the schema of the server, which has no columns of secrets
-- (api/server/database/gorm/odata.go).
abbrev pub selected : FindingInfo → FindingInfo
selected (exploit i) = exploit i
selected (info_finder i) = info_finder i
selected (malware i) = malware i
selected (misconfiguration i) = misconfiguration i
selected (a_package i) = a_package i
selected (rootkit i) = rootkit (record i { message = none })
selected (secret i) = secret (record i { start_column = none; end_column = none })
selected (vulnerability i) = vulnerability (record i { severity = none })

abbrev pub is_of : FindingType → String → Finding → Bool
is_of k asset_id f = type_of f.info =? k && f.asset_id =? asset_id

-- The first of the findings in the order of foundOn.
unfoldable pub oldest : List Finding → Option ℤ
oldest [] = none
oldest (f ∷ fs) = elim (oldest fs) [
  | none ↦ some f.found_on
  | some t ↦ if ltb_ℤ t f.found_on then some t else some f.found_on
]

abbrev pub is_unset : Option ℤ → Bool
is_unset none = true
is_unset (some t) = false

-- existingMap; an entry is looked up by its key.
unfoldable pub lookup : Key → List (Key × String) → Option String
lookup k [] = none
lookup k ((j, id) ∷ m) = if j =? k then some id else lookup k m

abbrev pub is_some : Option String → Bool
is_some none = false
is_some (some id) = true

abbrev pub is_by : FindingType → String → Finding → Bool
is_by k scan_id f = type_of f.info =? k && f.found_by =? scan_id

-- What is sent for an item, its ID left out.
abbrev pub new_finding : String → String → ℤ → Option ℤ → FindingInfo → Finding
new_finding scan_id asset_id t newer info = record {
  id = "";
  asset_id = asset_id;
  found_by = scan_id;
  found_on = t;
  invalidated_on = newer;
  info = info;
}

abbrev pub no_totals : Totals
no_totals = record {
  exploits = none;
  info_finder = none;
  malware = none;
  misconfigurations = none;
  packages = none;
  rootkits = none;
  secrets = none;
  vulnerabilities = none;
}

module _ (e : Env) where
  -- `foundOn gt` and `foundOn lt` the text of a time, as the database compares them.
  abbrev pub after : ℤ → ℤ → Bool
  after t s = ltb_ℤ (e.read (in_seconds t)) (e.read s)

  abbrev pub before : ℤ → ℤ → Bool
  before t s = ltb_ℤ (e.read s) (e.read (in_seconds t))

  abbrev pub is_newer : FindingType → String → ℤ → Finding → Bool
  is_newer k asset_id t f = is_of k asset_id f && after t f.found_on

  -- `none` where none was found.
  unfoldable pub newer_existing_finding_time : String → FindingType → ℤ → M (Option ℤ)
  unfolding oldest
  newer_existing_finding_time asset_id k t = do
    newer ← get_findings e (is_newer k asset_id t)
    pure (oldest newer)

  abbrev still_active : ℤ → Option ℤ → Bool
  still_active t none = true
  still_active t (some s) = after t s

  abbrev pub is_outdated : FindingType → String → ℤ → Finding → Bool
  is_outdated k asset_id t f =
      is_of k asset_id f && before t f.found_on && still_active t f.invalidated_on

  unfoldable pub invalidate_all : ℤ → List Finding → M (Unit {0})
  invalidate_all t [] = pure tt
  invalidate_all t (f ∷ fs) = do
    patch_finding e f.id (record f { invalidated_on = some t })
    invalidate_all t fs

  unfoldable pub invalidate_older_findings_by_type : FindingType → String → ℤ → M (Unit {0})
  unfolding invalidate_all
  invalidate_older_findings_by_type k asset_id t = do
    outdated ← get_findings e (is_outdated k asset_id t)
    invalidate_all t outdated

  -- The count of the findings that are not invalidated.
  unfoldable pub get_active_findings_by_type : FindingType → String → M ℤ
  get_active_findings_by_type k asset_id = do
    active ← get_findings e (λ f. is_of k asset_id f && is_unset f.invalidated_on)
    pure (pos (length active))

  unfoldable pub add_existing : Finding → Option Key → List (Key × String) → M (List (Key × String))
  unfolding lookup
  add_existing f none m = lift panics
  add_existing f (some k) m =
      if is_some (lookup k m) then lift (err invalid) else pure ((k, f.id) ∷ m)

  unfoldable pub existing_map : List Finding → List (Key × String) → M (List (Key × String))
  unfolding add_existing
  existing_map [] m = pure m
  existing_map (f ∷ fs) m = do
    m' ← add_existing f (generate_key e.digest (selected f.info)) m
    existing_map fs m'

  unfoldable pub get_existing_findings_for_scan : FindingType → String → M (List (Key × String))
  unfolding existing_map
  get_existing_findings_for_scan k scan_id = do
    found ← get_findings e (is_by k scan_id)
    existing_map found []

  -- One round of the loop over the items of a result.
  unfoldable pub save_item : List (Key × String) → Finding → Option Key → M (Unit {0})
  unfolding lookup
  save_item m f none = lift panics
  save_item m f (some k) = elim (lookup k m) [
    | none ↦ post_finding e f
    | some id ↦ patch_finding e id f
  ]

  unfoldable pub save_items :
      List (Key × String) → (FindingInfo → Finding) → List FindingInfo → M (Unit {0})
  unfolding save_item
  save_items m make [] = pure tt
  save_items m make (i ∷ is) = do
    save_item m (make i) (generate_key e.digest i)
    save_items m make is

  -- The whole function; `total` counts the active findings and sets the total of the family.
  unfoldable pub reconcile_to_findings :
      FindingType → (String → Totals → M Totals) → List FindingInfo → ScanResult → M (Unit {0})
  unfolding save_items
  reconcile_to_findings k total items s = do
    t ← lift (deref s.last_transition_time)
    asset_id ← lift (deref s.asset)
    newer ← newer_existing_finding_time asset_id k t
    existing ← get_existing_findings_for_scan k s.id
    save_items existing (new_finding s.id asset_id t newer) items
    invalidate_older_findings_by_type k asset_id t
    summary ← get_asset e asset_id
    totals ← total asset_id (or_default summary no_totals)
    patch_asset e asset_id totals
