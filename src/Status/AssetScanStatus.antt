-- ===== src/Status/AssetScanStatus.antt =====
-- api/types/assetscanstatus.go, with the enumerations of types.gen.go.
use vmclarity.Prelude.{ℕ, ◌≡◌, ◌↔◌, true, arith, ◌==◌, String, Option, List, [], ◌∷◌, Eq}
use vmclarity.Prelude.Int.{ℤ}
use vmclarity.Status.{Status, Machine, Refusal, new_status, is_valid_transition}

pub data State : Type 0 where
  aborted done failed in_progress pending ready_to_scan scheduled : State

pub data Reason : Type 0 where
  abort_timeout cancellation created error provisioning resources_ready scanner_is_running success
        timeout un_supervised :
      Reason

abbrev state_index : State → ℕ
state_index aborted = 0
state_index done = 1
state_index failed = 2
state_index in_progress = 3
state_index pending = 4
state_index ready_to_scan = 5
state_index scheduled = 6

pub state_index_iff : (a b : State) → ((state_index a == state_index b) ≡ true) ↔ (a ≡ b)
state_index_iff a b = ground arith

instance abbrev pub state_eq : Eq State
state_eq = record { beq = λ a b. state_index a == state_index b; beq_iff = state_index_iff }

abbrev reason_index : Reason → ℕ
reason_index abort_timeout = 0
reason_index cancellation = 1
reason_index created = 2
reason_index error = 3
reason_index provisioning = 4
reason_index resources_ready = 5
reason_index scanner_is_running = 6
reason_index success = 7
reason_index timeout = 8
reason_index un_supervised = 9

pub reason_index_iff : (a b : Reason) → ((reason_index a == reason_index b) ≡ true) ↔ (a ≡ b)
reason_index_iff a b = ground arith

instance abbrev pub reason_eq : Eq Reason
reason_eq = record { beq = λ a b. reason_index a == reason_index b; beq_iff = reason_index_iff }

unfoldable pub transitions : State → List State
transitions aborted = failed ∷ []
transitions in_progress = done ∷ failed ∷ aborted ∷ []
transitions pending = scheduled ∷ []
transitions ready_to_scan = in_progress ∷ failed ∷ aborted ∷ []
transitions scheduled = ready_to_scan ∷ failed ∷ []
transitions done = []
transitions failed = []

unfoldable pub reasons : State → List Reason
reasons aborted = cancellation ∷ []
reasons done = success ∷ []
reasons failed = error ∷ abort_timeout ∷ []
reasons in_progress = scanner_is_running ∷ []
reasons pending = created ∷ []
reasons ready_to_scan = un_supervised ∷ resources_ready ∷ []
reasons scheduled = provisioning ∷ []

unfoldable pub machine : Machine State Reason
unfolding transitions reasons
machine = record { transitions = transitions; reasons = reasons }

-- `NewAssetScanStatus`.
unfoldable pub new : ℤ → State → Reason → Option String → Status State Reason
unfolding new_status
new = new_status

-- `IsValidTransition`.
unfoldable pub check : Status State Reason → Status State Reason → Option (Refusal State Reason)
unfolding machine is_valid_transition
check = is_valid_transition machine
