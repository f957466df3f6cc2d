-- ===== src/Status/History.antt =====
-- What a status goes through when updates are requested one after another: the server applies an
-- update that the check accepts, by `merge`, and refuses any other.
use mathlib.Core.List.{Mem, not-mem-nil}
use vmclarity.Prelude.{
  ℕ, ◌+◌, ◌-◌, ◌≤◌, ◌<◌, ◌≡◌, refl, sym, ap, ◌⊎◌, inl, inr, Option, none, some, List, [], ◌∷◌,
  arith, Eq, ◌=?◌, =?_iff, Option-cases, if◌then◌else◌,
}
use vmclarity.Status.{Status, Machine, Refusal, is_valid_transition}
use vmclarity.Status.Laws.{SameStatus, IsEdge, HasReason, is_valid_transition_iff}

module _ {S R : Type 0} ⦃es : Eq S⦄ ⦃er : Eq R⦄ where
  abbrev apply_if :
      (Status S R → Status S R → Status S R)
      → Status S R
      → Status S R
      → Option (Refusal S R)
      → Status S R
  apply_if merge a b none = merge a b
  apply_if merge a b (some e) = a

  -- One requested update.
  pub request :
      (Status S R → Status S R → Status S R) → Machine S R → Status S R → Status S R → Status S R
  request merge m a b = apply_if merge a b (is_valid_transition m a b)

  pub requests :
      (Status S R → Status S R → Status S R)
      → Machine S R
      → Status S R
      → List (Status S R)
      → Status S R
  requests merge m a [] = a
  requests merge m a (b ∷ bs) = requests merge m (request merge m a b) bs

  -- How often the state changes on the way.
  pub changes :
      (Status S R → Status S R → Status S R) → Machine S R → Status S R → List (Status S R) → ℕ
  changes merge m a [] = 0
  changes merge m a (b ∷ bs) =
      let next = request merge m a b in
      (if a.state =? next.state then 0 else 1) + changes merge m next bs

-- A patch is merged into the stored JSON document: its state and its reason replace the stored ones.
-- (Its message, where it has none, does not replace a stored one.)
pub record Merges {S R : Type 0} (merge : Status S R → Status S R → Status S R) : Type 0 where
  pub merged_state : (a b : Status S R) → (merge a b).state ≡ b.state
  pub merged_reason : (a b : Status S R) → (merge a b).reason ≡ b.reason

module _ {S R : Type 0} ⦃es : Eq S⦄ ⦃er : Eq R⦄ (merge : Status S R → Status S R → Status S R)
    (laws : Merges merge) (m : Machine S R) where
  -- An update keeps state and reason, or follows an edge to a reason that fits.
  request_cases :
      (a b : Status S R)
      → (((request merge m a b).state ≡ a.state) × ((request merge m a b).reason ≡ a.reason))
        ⊎ (HasReason m (request merge m a b)
            × Mem (request merge m a b).state (m.transitions a.state))
  unfolding request
  request_cases a b = elim (Option-cases (is_valid_transition m a b)) [
    | inl ok ↦ rw ok (moved ((is_valid_transition_iff m a b).0 ok))
    | inr (e, bad) ↦ rw bad (inl (refl, refl))
  ]
    where
      moved :
          SameStatus a b ⊎ IsEdge m a b
          → (((merge a b).state ≡ a.state) × ((merge a b).reason ≡ a.reason))
            ⊎ (HasReason m (merge a b) × Mem (merge a b).state (m.transitions a.state))
      moved (inl same) =
          inl (cc (same.0, laws.merged_state a b), cc (same.1, laws.merged_reason a b))
      moved (inr edge) = inr (rw (laws.merged_state a b, laws.merged_reason a b) edge)

  request-HasReason : (a b : Status S R) → HasReason m a → HasReason m (request merge m a b)
  request-HasReason a b h = elim (request_cases a b) [ inl (s, r) ↦ rw (s, r) h | inr (r, t) ↦ r ]

  -- Where a merge takes state and reason from the update: after any updates the reason fits the state, if
  -- it did before.
  pub requests-HasReason :
      (a : Status S R) (bs : List (Status S R))
      → HasReason m a
      → HasReason m (requests merge m a bs)
  unfolding requests
  requests-HasReason a [] h = h
  requests-HasReason a (b ∷ bs) h =
      requests-HasReason (request merge m a b) bs (request-HasReason a b h)

  -- Where a merge takes state and reason from the update: a status whose state has no edge out keeps its
  -- state and its reason, whatever updates are requested.
  requests-terminal :
      (a : Status S R) (bs : List (Status S R))
      → m.transitions a.state ≡ []
      → ((requests merge m a bs).state ≡ a.state) × ((requests merge m a bs).reason ≡ a.reason)
  unfolding requests
  requests-terminal a [] h = (refl, refl)
  requests-terminal a (b ∷ bs) h = elim (request_cases a b) [
    | inl (s, r) ↦
        let (s', r') = requests-terminal (request merge m a b) bs (rw s h) in
        (cc (s, s'), cc (r, r'))
    | inr (r, t) ↦ absurd (not-mem-nil (rw h at t))
  ]

  -- Where every edge climbs a rank, the rank bounds how often the state changes.
  module _ (rank : S → ℕ) (top : ℕ) (climbs : (s t : S) → Mem t (m.transitions s) → rank s < rank t)
      (capped : (s : S) → rank s ≤ top) where
    pub changes_bounded :
        (a : Status S R) (bs : List (Status S R)) → changes merge m a bs ≤ top - rank a.state
    unfolding changes
    changes_bounded a [] = omega arith
    changes_bounded a (b ∷ bs) = elim (request_cases a b) [
      | inl (s, _) ↦ ground (
        arith,
        ap rank s,
        (=?_iff a.state (request merge m a b).state).1 (sym s),
        changes_bounded (request merge m a b) bs,
      )
      | inr (_, t) ↦ ground (
        arith,
        climbs _ _ t,
        capped (request merge m a b).state,
        changes_bounded (request merge m a b) bs,
      )
    ]
