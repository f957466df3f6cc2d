-- ===== src/CliScanner/Runs.antt =====
-- When Run of the families manager returns no error (cli/families/manager.go).
use vmclarity.Prelude.{
  ◌≡◌, refl, ◌↔◌, true, false, some, List, [], ◌∷◌, ◌++◌, arith, Option-cases, inl, inr,
}
use vmclarity.CliScanner.Families.{FamilyType, Runner, run_families, with_result}

module _ {R : Type 0} (n : Runner R) where
  -- Every family is started, not cancelled, runs on the results so far without error, and is reported.
  abbrev pub AllOk : List FamilyType → List R → Type 0
  AllOk [] results = Unit {0}
  AllOk (f ∷ fs) results =
      (r : R) × (n.starts f ≡ true)
      × (n.cancels f ≡ false)
      × (n.runs f results ≡ some r)
      × (n.finishes f (some r) ≡ true)
      × AllOk fs (results ++ r ∷ [])

  -- After a failure Run does not return the empty list.
  failed_once : (fs : List FamilyType) (results : List R) → ¬ (run_families n fs true results ≡ [])
  unfolding run_families
  failed_once [] results e = cc e
  failed_once (f ∷ fs) results e =
      ground
        (arith, failed_once fs results, failed_once fs (with_result n results (n.runs f results)))

  -- What the first family has done, and the rest.
  abbrev FirstOk : FamilyType → List FamilyType → List R → R → Type 0
  FirstOk f fs results r =
      (n.starts f ≡ true)
      × (n.cancels f ≡ false)
      × (n.runs f results ≡ some r)
      × (n.finishes f (some r) ≡ true)
      × (run_families n fs false (results ++ r ∷ []) ≡ [])

  first_ok :
      (f : FamilyType) (fs : List FamilyType) (results : List R)
      → run_families n (f ∷ fs) false results ≡ []
      → (r : R) × FirstOk f fs results r
  unfolding run_families
  first_ok f fs results e = elim (Option-cases (n.runs f results)) [
    | inl failed ↦ absurd (ground (arith, failed_once fs results))
    | inr (r, ran) ↦ (
      r,
      (
        ground (arith, failed_once fs results),
        ground (arith, failed_once fs results),
        ran,
        ground (arith, failed_once fs results),
        ground (arith, failed_once fs results),
      ),
    )
  ]

  ok_first :
      (f : FamilyType) (fs : List FamilyType) (results : List R) (r : R)
      → FirstOk f fs results r
      → run_families n (f ∷ fs) false results ≡ []
  unfolding run_families
  ok_first f fs results r (started, going, ran, reported, rest) =
      simp (started, going, ran, reported) rest

  no_families : (results : List R) → run_families n [] false results ≡ []
  unfolding run_families
  no_families results = refl

  -- Run returns no error exactly where every family is started, is not cancelled, runs without error on
  -- the results of those before it, and is reported.
  pub run_ok_iff :
      (fs : List FamilyType) (results : List R)
      → (run_families n fs false results ≡ []) ↔ AllOk fs results
  run_ok_iff [] results = (λ _. tt, λ _. no_families results)
  run_ok_iff (f ∷ fs) results = (
    λ e.
        let (r, (started, going, ran, reported, rest)) = first_ok f fs results e in
        (r, started, going, ran, reported, (run_ok_iff fs (results ++ r ∷ [])).0 rest),
    λ (r, started, going, ran, reported, rest).
        ok_first f fs results r
          (started, going, ran, reported, (run_ok_iff fs (results ++ r ∷ [])).1 rest),
  )
