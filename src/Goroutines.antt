-- ===== src/Goroutines.antt =====
-- The goroutines of the reconcileAborted of orchestrator/watcher/scan and of
-- orchestrator/watcher/scanestimation. They share the variable `err` of the function and the flag
-- `reconciliationFailed`: each assigns to `err` what its patch returned, and then sets the flag if `err`
-- is not nil.
use mathlib.Core.List.{Perm, perm_middle}
use mathlib.Core.List.Perm
use vmclarity.Prelude.{
  ℕ, suc, String, ◌≡◌, refl, Bool, false, not, ◌||◌, List, [], ◌∷◌, ◌++◌, arith, All, any,
}

-- One step of one goroutine: `err = PatchAssetScan(…)`, or `if err != nil { … }`.
pub data GoStep : Type 0 where
  assigns : String → GoStep
  checks : GoStep

-- Some goroutines have still to start, and `n` of them have assigned and still to check. Any one of
-- them may go on next.
pub data Schedule : List String → ℕ → List GoStep → Type 0 where
  finished : Schedule [] 0 []
  go_assign :
      {n : ℕ} {steps : List GoStep} (before after : List String) (id : String)
      → Schedule (before ++ after) (suc n) steps
      → Schedule (before ++ id ∷ after) n (assigns id ∷ steps)
  go_check :
      {ids : List String} {n : ℕ} {steps : List GoStep}
      → Schedule ids n steps
      → Schedule ids (suc n) (checks ∷ steps)

-- Each goroutine runs to its end before the next one starts.
unfoldable pub one_by_one : List String → List GoStep
one_by_one [] = []
one_by_one (id ∷ ids) = assigns id ∷ checks ∷ one_by_one ids

-- The objects that a schedule patches, in its order.
abbrev pub assigned : List GoStep → List String
assigned [] = []
assigned (assigns id ∷ steps) = id ∷ assigned steps
assigned (checks ∷ steps) = assigned steps

-- Every schedule patches each object exactly once.
pub assigned-perm :
    {ids : List String} {n : ℕ} {steps : List GoStep}
    → Schedule ids n steps
    → Perm (assigned steps) ids
assigned-perm finished = Perm.refl []
assigned-perm (go_assign before after id s) =
    Perm.trans (Perm.cons id (assigned-perm s)) (Perm.symm (perm_middle before after))
assigned-perm (go_check s) = assigned-perm s

module _ {C : Type 0} (request : String → C) (succeeds : String → Bool) where
  -- From whether `err` is set and the flag so far: the calls, and the flag at the end.
  unfoldable pub run_steps : List GoStep → Bool → Bool → List C × Bool
  run_steps [] err_set failed = ([], failed)
  run_steps (assigns id ∷ steps) err_set failed =
      let (calls, flag) = run_steps steps (not (succeeds id)) failed in (request id ∷ calls, flag)
  run_steps (checks ∷ steps) err_set failed = run_steps steps err_set (failed || err_set)

  abbrev pub refuses : String → Bool
  refuses id = not (succeeds id)

  -- Without overlap the flag tells whether a patch failed.
  pub one_by_one-steps :
      (ids : List String) (e f : Bool) → (run_steps (one_by_one ids) e f).1 ≡ (f || any refuses ids)
  unfolding run_steps one_by_one
  one_by_one-steps [] e f = ground arith
  one_by_one-steps (id ∷ ids) e f =
      ground (arith, one_by_one-steps ids (refuses id) (f || refuses id))

  -- Without a failing patch the flag is not set, whatever the schedule.
  pub no_false_alarm :
      (steps : List GoStep)
      → All (λ id. refuses id ≡ false) (assigned steps)
      → (run_steps steps false false).1 ≡ false
  unfolding run_steps
  no_false_alarm [] a = refl
  no_false_alarm (assigns id ∷ steps) a = rw a.0 (no_false_alarm steps a.1)
  no_false_alarm (checks ∷ steps) a = no_false_alarm steps a

  -- The goroutines make no other call than their patches.
  pub run_steps-All :
      (P : C → Type 0)
      → ((id : String) → P (request id))
      → (steps : List GoStep) (e f : Bool) → All P (run_steps steps e f).0
  unfolding run_steps
  run_steps-All P h [] e f = tt
  run_steps-All P h (assigns id ∷ steps) e f = (h id, run_steps-All P h steps (refuses id) f)
  run_steps-All P h (checks ∷ steps) e f = run_steps-All P h steps e (f || e)

-- Two goroutines that assign before either checks.
abbrev pub overlapped : String → String → List GoStep
overlapped i j = assigns i ∷ assigns j ∷ checks ∷ checks ∷ []

pub overlapped-Schedule : (i j : String) → Schedule (i ∷ j ∷ []) 0 (overlapped i j)
overlapped-Schedule i j = go_assign [] (j ∷ []) i (go_assign [] [] j (go_check (go_check finished)))
