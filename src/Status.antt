-- ===== src/Status.antt =====
-- The status machine of api/types: the code that scanstatus.go, assetscanstatus.go,
-- resourcecleanupstatus.go, assetscanestimationstatus.go and scanestimationstatus.go repeat for
-- their own enumerations and tables. Those are the fields of a `Machine` here.
pub mod Laws
pub mod History
pub mod Tables
pub mod ScanStatus
pub mod AssetScanStatus
pub mod CleanupStatus
pub mod AssetScanEstimationStatus
pub mod ScanEstimationStatus
mod Examples
use vmclarity.Prelude.{
  String, Bool, false, ◌&&◌, Option, none, some, List, any, Eq, ◌=?◌, string_eq, if◌then◌else◌,
}
use vmclarity.Prelude.Int.{ℤ}

-- `Message` is nil or a text; `LastTransitionTime` is in nanoseconds.
pub record Status (S R : Type 0) : Type 0 where
  pub state : S
  pub reason : R
  pub message : Option String
  pub last_transition_time : ℤ

-- The two maps of a file. A state with no key in a map has the nil slice.
pub record Machine (S R : Type 0) : Type 0 where
  pub transitions : S → List S
  pub reasons : S → List R

-- The error that a check returns, with what its text prints.
pub data Refusal (S R : Type 0) : Type 0 where
  invalid_transition : S → S → Refusal S R
  invalid_reason : S → R → Refusal S R

module _ {S R : Type 0} where
  -- `time.Now()` is an argument.
  unfoldable pub new_status : ℤ → S → R → Option String → Status S R
  new_status now s r m = record { state = s; reason = r; message = m; last_transition_time = now }

-- The tests of `Equals` on the two messages; `same` is its test on states and reasons.
equals_by : Option String → Option String → Bool → Bool
equals_by none (some _) same = false
equals_by (some _) none same = false
equals_by none none same = same
equals_by (some x) (some y) same = same && x =? y

abbrev or_else {ℓ} : {E : Type ℓ} → Option E → Option E → Option E
or_else (some e) next = some e
or_else none next = next

module _ {S R : Type 0} ⦃es : Eq S⦄ ⦃er : Eq R⦄ where
  unfoldable pub equals : Status S R → Status S R → Bool
  unfolding equals_by
  equals a b = equals_by a.message b.message (a.state =? b.state && a.reason =? b.reason)

  unfoldable pub is_valid_status_transition :
      Machine S R → Status S R → Status S R → Option (Refusal S R)
  is_valid_status_transition m a b =
      if any (λ transition. transition =? b.state) (m.transitions a.state)
      then none
      else some (invalid_transition a.state b.state)

  unfoldable pub is_valid_reason : Machine S R → Status S R → Option (Refusal S R)
  is_valid_reason m a =
      if any (λ reason. reason =? a.reason) (m.reasons a.state)
      then none
      else some (invalid_reason a.state a.reason)

  -- nil is `none`.
  unfoldable pub is_valid_transition : Machine S R → Status S R → Status S R → Option (Refusal S R)
  unfolding equals is_valid_status_transition is_valid_reason
  is_valid_transition m a b =
      if equals a b then none else or_else (is_valid_reason m b) (is_valid_status_transition m a b)
