-- ===== src/CliScanner.antt =====
-- The command `scan` of the command line scanner, cli/cmd/scan/scan.go, with FamilyStarted and
-- FamilyFinished of cli/cli.go.
pub mod Families
pub mod State
pub mod Runs
pub mod Reports
mod Examples
use vmclarity.Prelude.{
  String, Bool, true, false, Option, none, some, List, [], ◌∷◌, ◌++◌, if◌then◌else◌,
}
use vmclarity.Go.{Result, ok, err, panics, Act, pure, fail, lift, ◌>>=◌, ◌>>◌, failed_call, invalid}
use Families.{FamilyType, Enabled, Runner, RunError, new_manager, run_families}
use State.{
  Client, Call, Tick, wait_for_ready_state, mark_in_progress, mark_done, mark_failed, mark_family,
}

-- An error that is only logged.
abbrev pub logged : Act Call (Unit {0}) → Act Call (Unit {0})
logged (calls, ok u) = (calls, ok u)
logged (calls, err e) = (calls, ok tt)
logged (calls, panics) = (calls, panics)

abbrev succeeds : Result (Unit {0}) → Bool
succeeds (ok u) = true
succeeds _ = false

-- `mounts` says whether the volumes are mounted, or need not be; the rest is of the runner.
pub record Setup (R : Type 0) : Type 0 where
  pub client : Client
  pub mounts : Bool
  pub enabled : Enabled
  pub cancels : FamilyType → Bool
  pub runs : FamilyType → List R → Option R
  pub exports : FamilyType → Option R → Bool
  pub text : List RunError → String

module _ {R : Type 0} (s : Setup R) where
  -- FamilyStarted reports the family, and FamilyFinished exports its result.
  abbrev pub runner : Runner R
  runner = record {
    starts = λ f. succeeds (mark_family s.client f).1;
    cancels = s.cancels;
    runs = s.runs;
    finishes = s.exports;
  }

  -- The calls of FamilyStarted: Run reports every family.
  pub family_calls : List FamilyType → List Call
  family_calls [] = []
  family_calls (f ∷ fs) = (mark_family s.client f).0 ++ family_calls fs

  -- The end of the command, from the errors of Run.
  unfoldable pub report : List RunError → Act Call (Unit {0})
  report [] = mark_done s.client
  report (e ∷ es) = mark_failed s.client (s.text (e ∷ es))

  abbrev pub run_errors : List RunError
  run_errors = run_families runner (new_manager s.enabled) false []

  -- The command after the volumes are mounted.
  unfoldable pub scan_families : Act Call (Unit {0})
  unfolding report
  scan_families = do
    mark_in_progress s.client
    (family_calls (new_manager s.enabled), ok tt)
    report run_errors

  abbrev pub give_up : String → Act Call (Unit {0})
  give_up message = logged (mark_failed s.client message) >> fail failed_call

  -- The command after WaitForReadyState, from whether it returned no error.
  unfoldable pub after_wait : Bool → Act Call (Unit {0})
  after_wait false = give_up "failed to wait for AssetScan being ready to scan"
  after_wait true = if s.mounts then scan_families else give_up "failed to mount attached volume"

  -- `none` while it waits.
  unfoldable pub scan_command : List Tick → Option (Act Call (Unit {0}))
  unfolding wait_for_ready_state after_wait
  scan_command ticks = elim (wait_for_ready_state ticks) [
    | none ↦ none
    | some b ↦ some (after_wait b)
  ]
