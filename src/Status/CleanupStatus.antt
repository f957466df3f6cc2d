-- ===== src/Status/CleanupStatus.antt =====
-- api/types/resourcecleanupstatus.go, with the enumerations of types.gen.go.
use vmclarity.Prelude.{ℕ, ◌≡◌, ◌↔◌, true, arith, ◌==◌, String, Option, List, [], ◌∷◌, Eq}
use vmclarity.Prelude.Int.{ℤ}
use vmclarity.Status.{Status, Machine, Refusal, new_status, is_valid_transition}

pub data State : Type 0 where
  done failed pending skipped : State

pub data Reason : Type 0 where
  asset_scan_created delete_policy internal_error not_applicable provider_error success : Reason

abbrev state_index : State → ℕ
state_index done = 0
state_index failed = 1
state_index pending = 2
state_index skipped = 3

pub state_index_iff : (a b : State) → ((state_index a == state_index b) ≡ true) ↔ (a ≡ b)
state_index_iff a b = ground arith

instance abbrev pub state_eq : Eq State
state_eq = record { beq = λ a b. state_index a == state_index b; beq_iff = state_index_iff }

abbrev reason_index : Reason → ℕ
reason_index asset_scan_created = 0
reason_index delete_policy = 1
reason_index internal_error = 2
reason_index not_applicable = 3
reason_index provider_error = 4
reason_index success = 5

pub reason_index_iff : (a b : Reason) → ((reason_index a == reason_index b) ≡ true) ↔ (a ≡ b)
reason_index_iff a b = ground arith

instance abbrev pub reason_eq : Eq Reason
reason_eq = record { beq = λ a b. reason_index a == reason_index b; beq_iff = reason_index_iff }

unfoldable pub transitions : State → List State
transitions pending = skipped ∷ failed ∷ done ∷ []
transitions done = []
transitions failed = []
transitions skipped = []

unfoldable pub reasons : State → List Reason
reasons done = success ∷ []
reasons failed = provider_error ∷ internal_error ∷ []
reasons pending = asset_scan_created ∷ []
reasons skipped = delete_policy ∷ not_applicable ∷ []

unfoldable pub machine : Machine State Reason
unfolding transitions reasons
machine = record { transitions = transitions; reasons = reasons }

-- `NewResourceCleanupStatus`.
unfoldable pub new : ℤ → State → Reason → Option String → Status State Reason
unfolding new_status
new = new_status

-- `IsValidTransition`.
unfoldable pub check : Status State Reason → Status State Reason → Option (Refusal State Reason)
unfolding machine is_valid_transition
check = is_valid_transition machine
