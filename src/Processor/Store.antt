-- ===== src/Processor/Store.antt =====
-- The API server as the processor of AssetScans uses it: its findings, assets and AssetScans, and what
-- may happen to a call.
use vmclarity.Prelude.{
  String, ◌≡◌, refl, Bool, Option, none, some, List, [], ◌∷◌, ◌++◌, ◌+◌, ◌-◌, ◌%◌, ℕ, map,
  filter_by, ◌=?◌, string_eq, if◌then◌else◌,
}
use vmclarity.Prelude.Int.{ℤ, pos, negsuc}
use vmclarity.Go.{Result, ok, err, panics, failed_call}
use vmclarity.ApiTypes.{Totals, ScannerStatus}
use vmclarity.Findings.{
  ExploitInfo, InfoFinderInfo, MalwareInfo, MisconfigurationInfo, PackageInfo, RootkitInfo,
  SecretInfo, VulnerabilityInfo, FindingInfo,
}

-- A finding that the server holds. The processor sets all of its fields but invalidatedOn, and its
-- queries find only findings that have them.
pub record Finding : Type 0 where
  pub id : String
  pub asset_id : String
  pub found_by : String
  pub found_on : ℤ
  pub invalidated_on : Option ℤ
  pub info : FindingInfo

-- What a scanner family reports in an AssetScan.
pub record FamilyResult (I : Type 0) : Type 0 where
  pub status : Option ScannerStatus
  pub items : Option (List I)

-- The fields of an AssetScan that the processor reads; the time is Status.LastTransitionTime.
pub record ScanResult : Type 0 where
  pub id : String
  pub asset : Option String
  pub last_transition_time : Option ℤ
  pub findings_processed : Option Bool
  pub vulnerabilities : Option (FamilyResult VulnerabilityInfo)
  pub sbom : Option (FamilyResult PackageInfo)
  pub exploits : Option (FamilyResult ExploitInfo)
  pub secrets : Option (FamilyResult SecretInfo)
  pub malware : Option (FamilyResult MalwareInfo)
  pub rootkits : Option (FamilyResult RootkitInfo)
  pub misconfigurations : Option (FamilyResult MisconfigurationInfo)
  pub info_finder : Option (FamilyResult InfoFinderInfo)

-- A call is answered; or it fails, and what it writes is either not written or written nevertheless.
pub data Answer : Type 0 where
  answered refused lost : Answer

-- What is not of this code: the answer to the n-th call, new UUIDs, the merge of a JSON document with a
-- PATCH, SHA-256, and the time that the database reads from a text.
pub record Env : Type 0 where
  pub answers : ℕ → Answer
  pub new_id : List String → String
  pub merge : FindingInfo → FindingInfo → FindingInfo
  pub digest : List String → String
  pub read : ℤ → ℤ

-- `assets` is the summary of each asset that there is.
pub record World : Type 0 where
  pub findings : List Finding
  pub assets : String → Option (Option Totals)
  pub scans : String → Option ScanResult
  pub calls : ℕ

-- What was written stays written, also where an error comes back.
abbrev pub M : Type 0 → Type 0
M A = World → World × Result A

abbrev pub continue : {A B : Type 0} → World × Result A → (A → M B) → World × Result B
continue (w, ok a) f = f a w
continue (w, err e) f = (w, err e)
continue (w, panics) f = (w, panics)

-- A chain that may stop after its first part.
pub continue-keeps :
    {A B : Type 0} (P Q : World → Type 0) (x : World × Result A) (f : A → M B)
    → P x.0
    → ((w : World) → P w → Q w)
    → ((a : A) (w : World) → P w → Q (f a w).0)
    → Q (continue x f).0
continue-keeps P Q (w, ok a) f h stop go = go a w h
continue-keeps P Q (w, err e) f h stop go = stop w h
continue-keeps P Q (w, panics) f h stop go = stop w h

pub continue-panics :
    {A B : Type 0} (x : World × Result A) (f : A → M B)
    → x.1 ≡ panics
    → ((continue x f).1 ≡ panics) × ((continue x f).0 ≡ x.0)
continue-panics (w, ok a) f h = cc h
continue-panics (w, err e) f h = cc h
continue-panics (w, panics) f h = (refl, refl)

-- The same, where the rest needs to know what the first part returned.
pub continue-then :
    {A B : Type 0} (Q : World → Type 0) (x : World × Result A) (f : A → M B)
    → Q x.0
    → ((a : A) → x.1 ≡ ok a → Q (f a x.0).0)
    → Q (continue x f).0
continue-then Q (w, ok a) f h go = go a refl
continue-then Q (w, err e) f h go = h
continue-then Q (w, panics) f h go = h

infixl 5 ◌>>=◌ ◌>>◌
abbrev pub ◌>>=◌ : {A B : Type 0} → M A → (A → M B) → M B
◌>>=◌ m f w = continue (m w) f

abbrev pub ◌>>◌ : {B : Type 0} → M (Unit {0}) → M B → M B
m >> k = m >>= λ _. k

-- What holds wherever a chain ends with a value.
pub record Ends {A : Type 0} (Q : World → Type 0) (m : M A) : Type 0 where
  pub ends : (w : World) (a : A) → (m w).1 ≡ ok a → Q (m w).0

module _ {A B : Type 0} (Q : World → Type 0) where
  pub chain-Ends : (m : M A) (f : A → M B) → ((a : A) → Ends Q (f a)) → Ends Q (m >>= f)
  chain-Ends m f k = record { ends = λ w. by_first (m w) }
    where
      by_first : (x : World × Result A) (b : B) → (continue x f).1 ≡ ok b → Q (continue x f).0
      by_first (w, ok a) b h = (k a).ends w b h
      by_first (w, err e) b h = cc h
      by_first (w, panics) b h = cc h

  pub first-Ends :
      (m : M A) (f : A → M B)
      → Ends Q m
      → ((a : A) (w : World) → Q w → Q (f a w).0)
      → Ends Q (m >>= f)
  first-Ends m f h k = record { ends = λ w. by_first (m w) (h.ends w) }
    where
      by_first :
          (x : World × Result A)
          → ((a : A) → x.1 ≡ ok a → Q x.0)
          → (b : B) → (continue x f).1 ≡ ok b
          → Q (continue x f).0
      by_first (w, ok a) h b g = k a w (h a refl)
      by_first (w, err e) h b g = cc g
      by_first (w, panics) h b g = cc g

abbrev pub pure : {A : Type 0} → A → M A
pure a w = (w, ok a)

abbrev pub lift : {A : Type 0} → Result A → M A
lift r w = (w, r)

abbrev pub counted : World → World
counted w = record w { calls = w.calls + 1 }

abbrev pub read_by : {A : Type 0} → Answer → Result A → Result A
read_by answered r = r
read_by _ r = err failed_call

abbrev pub write_by : Answer → World → World → World × Result (Unit {0})
write_by answered old new = (new, ok tt)
write_by refused old new = (old, err failed_call)
write_by lost old new = (new, err failed_call)

abbrev pub ids : List Finding → List String
ids fs = map (λ f. f.id) fs

-- t.Format(time.RFC3339) keeps whole seconds.
unfoldable pub in_seconds : ℤ → ℤ
in_seconds (pos n) = pos (n - n % 1000000000)
in_seconds (negsuc n) = negsuc (n - n % 1000000000 + 999999999)

abbrev first_set : Option ℤ → Option ℤ → Option ℤ
first_set (some t) old = some t
first_set none old = old

abbrev pub found : {A : Type 0} → Option A → Result A
found none = err failed_call
found (some a) = ok a

module _ (e : Env) where
  unfoldable pub query : {A : Type 0} → (World → Result A) → M A
  query f w = (counted w, read_by (e.answers w.calls) (f w))

  unfoldable pub write : (World → World) → M (Unit {0})
  write f w = write_by (e.answers w.calls) (counted w) (counted (f w))

  unfoldable pub get_findings : (Finding → Bool) → M (List Finding)
  unfolding query
  get_findings test = query (λ w. ok (filter_by test w.findings))

  -- The ID of the argument is not sent.
  abbrev pub posted : Finding → List Finding → List Finding
  posted f fs = fs ++ record f { id = e.new_id (ids fs) } ∷ []

  abbrev pub merged : Finding → Finding → Finding
  merged old f = record old {
    asset_id = f.asset_id;
    found_by = f.found_by;
    found_on = f.found_on;
    invalidated_on = first_set f.invalidated_on old.invalidated_on;
    info = e.merge old.info f.info;
  }

  abbrev pub patched : String → Finding → List Finding → List Finding
  patched id f fs = map (λ old. if old.id =? id then merged old f else old) fs

  unfoldable pub post_finding : Finding → M (Unit {0})
  unfolding write
  post_finding f = write (λ w. record w { findings = posted f w.findings })

  unfoldable pub patch_finding : String → Finding → M (Unit {0})
  unfolding write
  patch_finding id f = write (λ w. record w { findings = patched id f w.findings })

  unfoldable pub get_asset : String → M (Option Totals)
  unfolding query
  get_asset id = query (λ w. found (w.assets id))

  unfoldable pub patch_asset : String → Totals → M (Unit {0})
  unfolding write
  patch_asset id t =
      write (λ w. record w { assets = λ a. if a =? id then some (some t) else w.assets a })

  unfoldable pub get_asset_scan : String → M ScanResult
  unfolding query
  get_asset_scan id = query (λ w. found (w.scans id))

  unfoldable pub patch_asset_scan : String → ScanResult → M (Unit {0})
  unfolding write
  patch_asset_scan id s =
      write (λ w. record w { scans = λ a. if a =? id then some s else w.scans a })
