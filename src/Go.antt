-- ===== src/Go.antt =====
-- What Go code does besides returning a value: an error, a panic, and the calls that it makes to the
-- API server, kept in their order.
use vmclarity.Prelude.{
  ◌≡◌, refl, Bool, true, false, Option, none, some, List, [], ◌∷◌, ◌++◌, All, All-append,
}
use vmclarity.Prelude.Int.{ℤ}

-- An error value: an object that lacks what it needs, a call that failed, or the RequeueAfterError of
-- reconciler.go with its duration. The texts are left out.
pub data Error : Type 0 where
  invalid : Error
  failed_call : Error
  requeue_after : ℤ → Error

-- `panics` is a nil pointer that is read.
pub data Result {ℓ} (A : Type ℓ) : Type ℓ where
  ok : A → Result A
  err : Error → Result A
  panics : Result A

-- An action with the write calls `C` that it made.
abbrev pub Act {ℓ} : Type 0 → Type ℓ → Type ℓ
Act C A = List C × Result A

module _ {ℓ} {C : Type 0} {A : Type ℓ} where
  abbrev pub pure : A → Act C A
  pure a = ([], ok a)

  abbrev pub fail : Error → Act C A
  fail e = ([], err e)

  abbrev pub lift : Result A → Act C A
  lift r = ([], r)

-- `*p`
abbrev pub deref {ℓ} : {A : Type ℓ} → Option A → Result A
deref none = panics
deref (some a) = ok a

-- `if p == nil { return err }`
abbrev pub require {ℓ} : {A : Type ℓ} → Option A → Error → Result A
require none e = err e
require (some a) e = ok a

-- A pointer that is set where it is nil.
abbrev pub or_default {ℓ} : {A : Type ℓ} → Option A → A → A
or_default none d = d
or_default (some x) d = x

-- A write call, and the error that comes back where it fails.
abbrev pub call : {C : Type 0} → C → Bool → Act C (Unit {0})
call c true = (c ∷ [], ok tt)
call c false = (c ∷ [], err failed_call)

abbrev bind_result {ℓ κ} :
    {C : Type 0} {A : Type ℓ} {B : Type κ} → List C → Result A → (A → Act C B) → Act C B
bind_result cs (ok a) f = let (ds, r) = f a in (cs ++ ds, r)
bind_result cs (err e) f = (cs, err e)
bind_result cs panics f = (cs, panics)

infixl 5 ◌>>=◌ ◌>>◌
abbrev pub ◌>>=◌ {ℓ κ} : {C : Type 0} {A : Type ℓ} {B : Type κ} → Act C A → (A → Act C B) → Act C B
m >>= f = let (cs, r) = m in bind_result cs r f

abbrev pub ◌>>◌ {ℓ} : {C : Type 0} {B : Type ℓ} → Act C (Unit {0}) → Act C B → Act C B
m >> k = m >>= λ _. k

-- A property of all calls of a chain: of those of each part, where it is reached.
pub All-bind {ℓ κ} :
    {C : Type 0} {A : Type ℓ} {B : Type κ} (P : C → Type 0) (m : Act C A) (f : A → Act C B)
    → All P m.0
    → ((a : A) → m.1 ≡ ok a → All P (f a).0)
    → All P (m >>= f).0
All-bind P (cs, ok a) f h k = All-append P cs (f a).0 h (k a refl)
All-bind P (cs, err e) f h k = h
All-bind P (cs, panics) f h k = h

pub All-call : {C : Type 0} (P : C → Type 0) (c : C) (answer : Bool) → P c → All P (call c answer).0
All-call P c true h = (h, tt)
All-call P c false h = (h, tt)

-- The same, as a record: from its type the rules read the chain.
pub record OnlyCalls {ℓ} {C : Type 0} {A : Type ℓ} (P : C → Type 0) (m : Act C A) : Type 0 where
  pub all_calls : All P m.0

module _ {ℓ κ} {C : Type 0} {A : Type ℓ} {B : Type κ} {P : C → Type 0} where
  pub only_bind :
      {m : Act C A} {f : A → Act C B}
      → OnlyCalls P m
      → ((a : A) → OnlyCalls P (f a))
      → OnlyCalls P (m >>= f)
  only_bind {m} {f} h k = record { all_calls = All-bind P m f h.all_calls (λ a _. (k a).all_calls) }

  -- The same, where the rest needs to know what the first part returned.
  pub only_then :
      {m : Act C A} {f : A → Act C B}
      → OnlyCalls P m
      → ((a : A) → m.1 ≡ ok a → OnlyCalls P (f a))
      → OnlyCalls P (m >>= f)
  only_then {m} {f} h k = record {
    all_calls = All-bind P m f h.all_calls (λ a e. (k a e).all_calls);
  }

  -- A part that makes no call.
  pub only_lift :
      (r : Result A) {f : A → Act C B} → ((a : A) → OnlyCalls P (f a)) → OnlyCalls P (lift r >>= f)
  only_lift r {f} k = record { all_calls = All-bind P (lift r) f tt (λ a _. (k a).all_calls) }

pub only {ℓ} : {C : Type 0} {A : Type ℓ} {P : C → Type 0} {m : Act C A} → All P m.0 → OnlyCalls P m
only h = record { all_calls = h }

-- What an action calls, and what it returns if it returns.
pub record Runs {ℓ} {C : Type 0} {A : Type ℓ} (P : C → Type 0) (Q : A → Type 0) (m : Act C A)
    : Type ℓ where
  pub calls : All P m.0
  pub result : (a : A) → m.1 ≡ ok a → Q a

module _ {ℓ κ} {C : Type 0} {A : Type ℓ} {B : Type κ} {P : C → Type 0} {R : A → Type 0}
    {Q : B → Type 0} where
  pub bind-Runs :
      {m : Act C A} {f : A → Act C B}
      → Runs P R m
      → ((a : A) → R a → Runs P Q (f a))
      → Runs P Q (m >>= f)
  bind-Runs {m = (cs, ok a)} {f} h k = record {
    calls = All-append P cs (f a).0 h.calls ((k a (h.result a refl)).calls);
    result = (k a (h.result a refl)).result;
  }
  bind-Runs {m = (cs, err e)} {f} h k = record { calls = h.calls; result = λ a e. cc }
  bind-Runs {m = (cs, panics)} {f} h k = record { calls = h.calls; result = λ a e. cc }

module _ {ℓ κ} {C : Type 0} {A : Type ℓ} {B : Type κ} {P : C → Type 0} {Q : B → Type 0} where
  pub lift-Runs :
      (r : Result A) {f : A → Act C B} → ((a : A) → Runs P Q (f a)) → Runs P Q (lift r >>= f)
  lift-Runs (ok a) {f} k = record { calls = (k a).calls; result = (k a).result }
  lift-Runs (err e) {f} k = record { calls = tt; result = λ a e. cc }
  lift-Runs panics {f} k = record { calls = tt; result = λ a e. cc }

pub OnlyCalls-Runs {ℓ} :
    {C : Type 0} {A : Type ℓ} {P : C → Type 0} {m : Act C A}
    → OnlyCalls P m
    → Runs P (λ _. Unit {0}) m
OnlyCalls-Runs h = record { calls = h.all_calls; result = λ _ _. tt }
