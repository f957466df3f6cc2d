-- ===== src/Findings.antt =====
-- The findings of api/types/types.gen.go and their keys, cli/findingkey. Of a finding's info the fields
-- are kept from which keys are made or by which findings are counted.
use Prim.Native.String.{◌++◌ as ◌<>◌}
use vmclarity.Prelude.{String, Option, none, some, List, Eq, eq_of, String-discrete}
use vmclarity.Prelude.Int.{ℤ, ℤ-discrete}

pub data Severity : Type 0 where
  critical high medium low negligible : Severity

pub record ExploitInfo : Type 0 where
  pub source_db : Option String
  pub cve_id : Option String
  pub urls : Option (List String)

pub record InfoFinderInfo : Type 0 where
  pub scanner_name : Option String
  pub info_type : Option String
  pub content : Option String
  pub path : Option String

pub record MalwareInfo : Type 0 where
  pub malware_name : Option String
  pub malware_type : Option String
  pub path : Option String
  pub rule_name : Option String

pub record MisconfigurationInfo : Type 0 where
  pub scanner_name : Option String
  pub id : Option String
  pub message : Option String

pub record PackageInfo : Type 0 where
  pub name : Option String
  pub version : Option String

pub record RootkitInfo : Type 0 where
  pub rootkit_name : Option String
  pub rootkit_type : Option String
  pub message : Option String

pub record SecretInfo : Type 0 where
  pub fingerprint : Option String
  pub start_column : Option ℤ
  pub end_column : Option ℤ

pub record VulnerabilityInfo : Type 0 where
  pub vulnerability_name : Option String
  pub package_info : Option PackageInfo
  pub severity : Option Severity

-- Finding_FindingInfo: a union, told apart by objectType.
pub data FindingInfo : Type 0 where
  exploit : ExploitInfo → FindingInfo
  info_finder : InfoFinderInfo → FindingInfo
  malware : MalwareInfo → FindingInfo
  misconfiguration : MisconfigurationInfo → FindingInfo
  a_package : PackageInfo → FindingInfo
  rootkit : RootkitInfo → FindingInfo
  secret : SecretInfo → FindingInfo
  vulnerability : VulnerabilityInfo → FindingInfo

pub data FindingType : Type 0 where
  exploits info_finders malwares misconfigurations packages rootkits secrets vulnerabilities :
      FindingType

-- objectType
abbrev pub type_of : FindingInfo → FindingType
type_of (exploit i) = exploits
type_of (info_finder i) = info_finders
type_of (malware i) = malwares
type_of (misconfiguration i) = misconfigurations
type_of (a_package i) = packages
type_of (rootkit i) = rootkits
type_of (secret i) = secrets
type_of (vulnerability i) = vulnerabilities

-- The keys by which the processor finds the findings of a scan again.
pub data Key : Type 0 where
  exploit_key : String → Key
  info_finder_key : String → String → String → String → Key
  malware_key : String → String → String → String → Key
  misconfiguration_key : String → String → String → Key
  package_key : String → String → Key
  rootkit_key : String → String → String → Key
  secret_key : String → ℤ → ℤ → Key
  vulnerability_key : String → String → String → Key

unfoldable pub Key-discrete : Discrete Key
Key-discrete = hlevel (String-discrete, ℤ-discrete)

instance abbrev pub key_eq : Eq Key
key_eq = eq_of Key-discrete

unfoldable pub FindingType-discrete : Discrete FindingType
FindingType-discrete = hlevel

instance abbrev pub finding_type_eq : Eq FindingType
finding_type_eq = eq_of FindingType-discrete

unfoldable pub Severity-discrete : Discrete Severity
Severity-discrete = hlevel

instance abbrev pub severity_eq : Eq Severity
severity_eq = eq_of Severity-discrete

-- A chain of pointers that are read: `none` where one is nil.
infixl 5 ◌>>=◌
abbrev pub ◌>>=◌ : {A B : Type 0} → Option A → (A → Option B) → Option B
none >>= f = none
some a >>= f = f a

abbrev value_or_zero : Option String → String
value_or_zero none = ""
value_or_zero (some s) = s

-- fmt.Sprintf("%s.%s.%s")
abbrev dotted : String → String → String → String
dotted a b c = a <> "." <> b <> "." <> c

abbrev generate_info_finder_key : InfoFinderInfo → Option Key
generate_info_finder_key i = do
  scanner_name ← i.scanner_name
  info_type ← i.info_type
  content ← i.content
  path ← i.path
  some (info_finder_key scanner_name info_type content path)

abbrev generate_malware_key : MalwareInfo → Option Key
generate_malware_key i = some (
    malware_key (value_or_zero i.malware_name) (value_or_zero i.malware_type) (value_or_zero i.path)
      (value_or_zero i.rule_name))

abbrev generate_misconfiguration_key : MisconfigurationInfo → Option Key
generate_misconfiguration_key i = do
  scanner_name ← i.scanner_name
  id ← i.id
  message ← i.message
  some (misconfiguration_key scanner_name id message)

abbrev generate_package_key : PackageInfo → Option Key
generate_package_key i = do name ← i.name; version ← i.version; some (package_key name version)

abbrev generate_rootkit_key : RootkitInfo → Option Key
generate_rootkit_key i = do
  name ← i.rootkit_name
  rootkit_type ← i.rootkit_type
  message ← i.message
  some (rootkit_key name rootkit_type message)

abbrev generate_secret_key : SecretInfo → Option Key
generate_secret_key i = do
  fingerprint ← i.fingerprint
  start_column ← i.start_column
  end_column ← i.end_column
  some (secret_key fingerprint start_column end_column)

abbrev generate_vulnerability_key : VulnerabilityInfo → Option Key
generate_vulnerability_key i = do
  vulnerability_name ← i.vulnerability_name
  p ← i.package_info
  name ← p.name
  version ← p.version
  some (vulnerability_key vulnerability_name name version)

-- `digest` is the SHA-256 sum of the texts one after the other.
module _ (digest : List String → String) where
  abbrev exploit_string : ExploitInfo → Option String
  exploit_string i = do
    source_db ← i.source_db
    cve_id ← i.cve_id
    urls ← i.urls
    some (dotted source_db cve_id (digest urls))

  -- GenerateExploitKey and the like; of an exploit, the String of its key.
  unfoldable pub generate_key : FindingInfo → Option Key
  generate_key (exploit i) = do text ← exploit_string i; some (exploit_key text)
  generate_key (info_finder i) = generate_info_finder_key i
  generate_key (malware i) = generate_malware_key i
  generate_key (misconfiguration i) = generate_misconfiguration_key i
  generate_key (a_package i) = generate_package_key i
  generate_key (rootkit i) = generate_rootkit_key i
  generate_key (secret i) = generate_secret_key i
  generate_key (vulnerability i) = generate_vulnerability_key i
