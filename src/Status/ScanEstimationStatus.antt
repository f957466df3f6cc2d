-- ===== src/Status/ScanEstimationStatus.antt =====
-- api/types/scanestimationstatus.go, with the enumerations of types.gen.go.
use vmclarity.Prelude.{ℕ, ◌≡◌, ◌↔◌, true, arith, ◌==◌, String, Option, List, [], ◌∷◌, Eq}
use vmclarity.Prelude.Int.{ℤ}
use vmclarity.Status.{Status, Machine, Refusal, new_status, is_valid_transition}

pub data State : Type 0 where
  aborted discovered done failed in_progress pending : State

pub data Reason : Type 0 where
  aborted cancellation created error nothing_to_estimate running success successful_discovery
        timeout :
      Reason

abbrev state_index : State → ℕ
state_index aborted = 0
state_index discovered = 1
state_index done = 2
state_index failed = 3
state_index in_progress = 4
state_index pending = 5

pub state_index_iff : (a b : State) → ((state_index a == state_index b) ≡ true) ↔ (a ≡ b)
state_index_iff a b = ground arith

instance abbrev pub state_eq : Eq State
state_eq = record { beq = λ a b. state_index a == state_index b; beq_iff = state_index_iff }

abbrev reason_index : Reason → ℕ
reason_index aborted = 0
reason_index cancellation = 1
reason_index created = 2
reason_index error = 3
reason_index nothing_to_estimate = 4
reason_index running = 5
reason_index success = 6
reason_index successful_discovery = 7
reason_index timeout = 8

pub reason_index_iff : (a b : Reason) → ((reason_index a == reason_index b) ≡ true) ↔ (a ≡ b)
reason_index_iff a b = ground arith

instance abbrev pub reason_eq : Eq Reason
reason_eq = record { beq = λ a b. reason_index a == reason_index b; beq_iff = reason_index_iff }

unfoldable pub transitions : State → List State
transitions aborted = State.failed ∷ []
transitions discovered = State.in_progress ∷ State.aborted ∷ State.failed ∷ []
transitions in_progress = State.aborted ∷ State.failed ∷ State.done ∷ []
transitions pending = State.discovered ∷ State.aborted ∷ State.failed ∷ State.done ∷ []
transitions done = []
transitions failed = []

unfoldable pub reasons : State → List Reason
reasons aborted = Reason.cancellation ∷ []
reasons discovered = Reason.successful_discovery ∷ []
reasons done = Reason.nothing_to_estimate ∷ Reason.success ∷ []
reasons failed = Reason.aborted ∷ Reason.error ∷ Reason.timeout ∷ []
reasons in_progress = Reason.running ∷ []
reasons pending = Reason.created ∷ []

unfoldable pub machine : Machine State Reason
unfolding transitions reasons
machine = record { transitions = transitions; reasons = reasons }

-- `NewScanEstimationStatus`.
unfoldable pub new : ℤ → State → Reason → Option String → Status State Reason
unfolding new_status
new = new_status

-- `IsValidTransition`.
unfoldable pub check : Status State Reason → Status State Reason → Option (Refusal State Reason)
unfolding machine is_valid_transition
check = is_valid_transition machine
