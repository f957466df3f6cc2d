-- ===== src/Queue/Keys.antt =====
-- Go's map[string]struct{}, used as a set: the keys in the order in which they came.
use vmclarity.Prelude.{
  String, ◌≡◌, refl, Bool, true, false, ◌||◌, List, [], ◌∷◌, ◌++◌, arith, any, ◌=?◌, =?_iff,
  string_eq, if◌then◌else◌,
}

-- _, ok := m[k]
unfoldable pub has : String → List String → Bool
has k ks = any (λ j. j =? k) ks

-- m[k] = struct{}{}
unfoldable pub insert : String → List String → List String
unfolding has
insert k ks = if has k ks then ks else ks ++ k ∷ []

-- delete(m, k)
unfoldable pub delete : String → List String → List String
delete k [] = []
delete k (j ∷ ks) = let rest = delete k ks in if j =? k then rest else j ∷ rest

has-append : (k : String) (xs ys : List String) → has k (xs ++ ys) ≡ (has k xs || has k ys)
unfolding has
has-append k [] ys = refl
has-append k (x ∷ xs) ys = ground (arith, has-append k xs ys)

pub has-insert :
    (k j : String) (ks : List String) → has j (insert k ks) ≡ (if k =? j then true else has j ks)
unfolding insert has
has-insert k j ks = ground (arith, has-append j ks (k ∷ []), =?_iff k j)

pub has-delete :
    (k j : String) (ks : List String) → has j (delete k ks) ≡ (if k =? j then false else has j ks)
unfolding has delete
has-delete k j [] = ground arith
has-delete k j (i ∷ ks) = ground (arith, has-delete k j ks, =?_iff i k, =?_iff i j, =?_iff k j)
