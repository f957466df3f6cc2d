-- ===== src/Prelude/Equality.antt =====
-- The tests `a == b` of Go on strings and enumerations: an equality with its law, by instance.
use Prim.Native.String.{String}
use mathlib.Core.Path.{◌≡◌, refl, sym}
use mathlib.Core.Logic.{◌↔◌, inl, inr}
use mathlib.Core.Logic.Or
use mathlib.Core.List.{List, [], ◌∷◌, Mem, mem-cons, not-mem-nil}
use mathlib.Core.HLevel.{hedberg}
use native.Mathlib.Omega.{arith}
use vmclarity.Prelude.Lists.{any}
use vmclarity.Prelude.Tests.{Bool-cases}
use mathlib.Core.Bool.{Bool, true, false, Bool-discrete, false≢true}
use text.Mathlib.Text.{◌==◌ as str_eq}
use text.Mathlib.TextEquality.{eq_iff}

pub record Eq {ℓ} (A : Type ℓ) : Type ℓ where
  pub beq : A → A → Bool
  pub beq_iff : (a b : A) → (beq a b ≡ true) ↔ (a ≡ b)

infix 50 ◌=?◌
abbrev pub ◌=?◌ {ℓ} : {A : Type ℓ} ⦃e : Eq A⦄ → A → A → Bool
◌=?◌ ⦃e⦄ = e.beq

pub =?_iff {ℓ} : {A : Type ℓ} ⦃e : Eq A⦄ (a b : A) → ((a =? b) ≡ true) ↔ (a ≡ b)
=?_iff ⦃e⦄ a b = e.beq_iff a b

instance abbrev pub string_eq : Eq String
string_eq = record { beq = str_eq; beq_iff = eq_iff }

pub String-discrete : Discrete String
String-discrete s t = elim (Bool-cases (str_eq s t)) [
  | inl same ↦ yes ((eq_iff s t).0 same)
  | inr other ↦ no (λ e. cc ((eq_iff s t).1 e, other))
]

abbrev beq_of {ℓ} : {A : Type ℓ} {a b : A} → Dec (a ≡ b) → Bool
beq_of (yes p) = true
beq_of (no p) = false

pub beq_of-eq_true {ℓ} : {A : Type ℓ} {a b : A} (d : Dec (a ≡ b)) → (beq_of d ≡ true) ↔ (a ≡ b)
beq_of-eq_true (yes p) = (λ h. p, λ h. refl)
beq_of-eq_true (no p) = (λ h. cc h, λ h. absurd (p h))

-- The test that a decision of equality makes.
abbrev pub eq_of {ℓ} : {A : Type ℓ} → Discrete A → Eq A
eq_of d = record { beq = λ a b. beq_of (d a b); beq_iff = λ a b. beq_of-eq_true (d a b) }

-- A search through a slice finds exactly the members.
module _ {ℓ} {A : Type ℓ} ⦃e : Eq A⦄ where
  pub any→Mem : (b : A) (xs : List A) → any (λ x. x =? b) xs ≡ true → Mem b xs
  any→Mem b [] h = absurd (false≢true h)
  any→Mem b (x ∷ xs) h = elim (Bool-cases (x =? b)) [
    | inl same ↦ mem-cons.1 (Or.inl (sym ((=?_iff x b).0 same)))
    | inr other ↦ mem-cons.1 (Or.inr (any→Mem b xs (rw other at h)))
  ]

  pub Mem→any : (b : A) (xs : List A) → Mem b xs → any (λ x. x =? b) xs ≡ true
  Mem→any b [] m = absurd (not-mem-nil m)
  Mem→any b (x ∷ xs) m =
      Or.elim (hedberg Bool-discrete _ _) (mem-cons.0 m)
        (λ same. rw ((=?_iff x b).1 (sym same)) refl) (λ later. ground (arith, Mem→any b xs later))
