-- ===== src/CliScanner/Families.antt =====
-- The families of scanners that the command line scanner runs, cli/families/manager.go with
-- cli/families/types/types.go and cli/families/results/results.go. What a family returns is a parameter.
use vmclarity.Prelude.{Bool, true, Option, none, some, List, [], ◌∷◌, ◌++◌, if◌then◌else◌}

pub data FamilyType : Type 0 where
  sbom vulnerabilities secrets rootkits malware misconfiguration info_finder exploits : FamilyType

-- The `Enabled` of each family in Config.
pub record Enabled : Type 0 where
  pub sbom : Bool
  pub vulnerabilities : Bool
  pub secrets : Bool
  pub rootkits : Bool
  pub malware : Bool
  pub misconfiguration : Bool
  pub info_finder : Bool
  pub exploits : Bool

abbrev only_if : Bool → FamilyType → List FamilyType
only_if b f = if b then f ∷ [] else []

-- New.
unfoldable pub new_manager : Enabled → List FamilyType
new_manager e =
    only_if e.sbom sbom
    ++ only_if e.vulnerabilities vulnerabilities
    ++ only_if e.secrets secrets
    ++ only_if e.rootkits rootkits
    ++ only_if e.malware malware
    ++ only_if e.misconfiguration misconfiguration
    ++ only_if e.info_finder info_finder
    ++ only_if e.exploits exploits

-- The notifier, whether the `select` of a family takes the end of the context, and what Run of a family
-- returns for the results so far. An error, or the end of the context, is `none`.
pub record Runner (R : Type 0) : Type 0 where
  pub starts : FamilyType → Bool
  pub cancels : FamilyType → Bool
  pub runs : FamilyType → List R → Option R
  pub finishes : FamilyType → Option R → Bool

pub data RunError : Type 0 where
  start_failed finish_failed : FamilyType → RunError
  family_failed : RunError

module _ {R : Type 0} (n : Runner R) where
  abbrev outcome : FamilyType → List R → Option R
  outcome f results = if n.cancels f then none else n.runs f results

  abbrev reported : FamilyType → Option R → List RunError → List RunError
  reported f o rest = if n.finishes f o then rest else finish_failed f ∷ rest

  -- SetResults.
  abbrev pub with_result : List R → Option R → List R
  with_result results none = results
  with_result results (some r) = results ++ r ∷ []

  abbrev failed_now : Bool → Option R → Bool
  failed_now failed none = true
  failed_now failed (some r) = failed

  -- The loop of Run, from `oneOrMoreFamilyFailed` and the results so far: the errors.
  unfoldable pub run_families : List FamilyType → Bool → List R → List RunError
  run_families [] failed results = if failed then family_failed ∷ [] else []
  run_families (f ∷ fs) failed results =
      let skipped = run_families fs failed results in
      let o = outcome f results in
      let later = run_families fs (failed_now failed o) (with_result results o) in
      if n.starts f then reported f o later else start_failed f ∷ skipped
