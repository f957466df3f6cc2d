-- ===== src/Discoverer/Image.antt =====
-- ContainerImageInfo.Merge (api/types/containerimageinfo.go) and what it calls (api/types/utils.go).
use vmclarity.Prelude.{
  String, Bool, Option, none, some, List, [], ◌∷◌, ◌++◌, ◌&&◌, not, any, Eq, ◌=?◌, string_eq, eq_of,
  if◌then◌else◌,
}
use vmclarity.Prelude.Int.{ℤ, pos, ltb_ℤ, ℤ-discrete}
use vmclarity.Go.{Result, ok, err, panics, invalid}

pub record Tag : Type 0 where
  pub key : String
  pub value : String

pub record ContainerImageInfo : Type 0 where
  pub image_id : String
  pub architecture : Option String
  pub labels : Option (List Tag)
  pub os : Option String
  pub repo_digests : Option (List String)
  pub repo_tags : Option (List String)
  pub size : Option ℤ

abbrev pub value_or {ℓ} : {A : Type ℓ} → A → Option A → A
value_or zero none = zero
value_or zero (some a) = a

-- `zero` is the zero value of the type.
abbrev pub coalesce_comparable {ℓ} : {A : Type ℓ} ⦃e : Eq A⦄ → A → A → A → Result A
coalesce_comparable zero original target =
    if not (original =? zero) && not (target =? zero) && not (original =? target)
    then err invalid
    else if not (original =? zero)
    then ok original
    else ok target

abbrev append_new {ℓ} : {A : Type ℓ} → (A → A → Bool) → List A → List A → List A
append_new same result [] = result
append_new same result (j ∷ js) =
    append_new same (if any (same j) result then result else result ++ j ∷ []) js

abbrev pub union_slices {ℓ} : {A : Type ℓ} → (A → A → Bool) → List A → List A → List A
union_slices same xs ys = append_new same (append_new same [] xs) ys

abbrev same_tag : Tag → Tag → Bool
same_tag a b = a.key =? b.key && a.value =? b.value

abbrev same_string : String → String → Bool
same_string a b = a =? b

instance abbrev int_eq : Eq ℤ
int_eq = eq_of ℤ-discrete

abbrev larger : ℤ → ℤ → ℤ
larger a b = if ltb_ℤ b a then a else b

abbrev merged_size : ℤ → ℤ → ℤ
merged_size a b = elim (coalesce_comparable (pos 0) a b) [
  | ok s ↦ s
  | err _ ↦ larger a b
  | panics ↦ larger a b
]

abbrev merged_list {ℓ} : {A : Type ℓ} → (A → A → Bool) → Option (List A) → Option (List A) → List A
merged_list same a b = union_slices same (value_or [] a) (value_or [] b)

abbrev and_then {ℓ κ} : {A : Type ℓ} {B : Type κ} → Result A → (A → Result B) → Result B
and_then (ok a) f = f a
and_then (err e) f = err e
and_then panics f = panics

abbrev pub merge : ContainerImageInfo → ContainerImageInfo → Result ContainerImageInfo
merge c target = and_then (coalesce_comparable "" c.image_id target.image_id) λ id.
    and_then (coalesce_comparable "" (value_or "" c.os) (value_or "" target.os)) λ os.
      and_then
        (coalesce_comparable "" (value_or "" c.architecture) (value_or "" target.architecture))
        λ arch. ok (record {
          image_id = id;
          size = some (merged_size (value_or (pos 0) c.size) (value_or (pos 0) target.size));
          labels = some (merged_list same_tag c.labels target.labels);
          os = some os;
          architecture = some arch;
          repo_digests = some (merged_list same_string c.repo_digests target.repo_digests);
          repo_tags = some (merged_list same_string c.repo_tags target.repo_tags);
        })
