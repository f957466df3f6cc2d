-- ===== src/Status/Laws.antt =====
-- What the check of a status update accepts, for every pair of tables.
use mathlib.Core.List.{Mem}
use vmclarity.Prelude.{
  String, ◌≡◌, refl, sym, ◌∙◌, ◌↔◌, ◌⊎◌, inl, inr, Bool, true, false, ◌&&◌, Option, none, some,
  arith, any, Eq, ◌=?◌, =?_iff, any→Mem, Mem→any, Bool-cases, string_eq,
}
use vmclarity.Status.{
  Status, Machine, equals, equals_by, is_valid_reason, is_valid_status_transition,
  is_valid_transition, or_else,
}

module _ {S R : Type 0} where
  -- Equal but for the time of the transition.
  abbrev pub SameStatus : Status S R → Status S R → Type 0
  SameStatus a b = (a.state ≡ b.state) × (a.reason ≡ b.reason) × (a.message ≡ b.message)

  -- The reason of the new status fits its state, and the tables have the edge.
  abbrev pub IsEdge : Machine S R → Status S R → Status S R → Type 0
  IsEdge m a b = Mem b.reason (m.reasons b.state) × Mem b.state (m.transitions a.state)

  abbrev pub HasReason : Machine S R → Status S R → Type 0
  HasReason m a = Mem a.reason (m.reasons a.state)

equals_by_iff :
    (x y : Option String) (same : Bool) → (equals_by x y same ≡ true) ↔ ((same ≡ true) × (x ≡ y))
unfolding equals_by
equals_by_iff none none same = (λ h. (h, refl), λ h. h.0)
equals_by_iff none (some y) same = (λ h. cc, λ h. cc (h.1))
equals_by_iff (some x) none same = (λ h. cc, λ h. cc (h.1))
equals_by_iff (some x) (some y) same = ground (arith, =?_iff x y)

or_else_iff {ℓ} : {E : Type ℓ} (x y : Option E) → (or_else x y ≡ none) ↔ ((x ≡ none) × (y ≡ none))
or_else_iff none y = (λ h. (refl, h), λ h. h.1)
or_else_iff (some x) y = (λ h. cc, λ h. cc (h.0))

module _ {S R : Type 0} ⦃es : Eq S⦄ ⦃er : Eq R⦄ where
  pub equals_iff : (a b : Status S R) → (equals a b ≡ true) ↔ SameStatus a b
  unfolding equals
  equals_iff a b = ground (
    arith,
    equals_by_iff a.message b.message (a.state =? b.state && a.reason =? b.reason),
    =?_iff a.state b.state,
    =?_iff a.reason b.reason,
  )

  is_valid_reason_iff :
      (m : Machine S R) (b : Status S R) → (is_valid_reason m b ≡ none) ↔ HasReason m b
  unfolding is_valid_reason
  is_valid_reason_iff m b = elim (Bool-cases (any (λ r. r =? b.reason) (m.reasons b.state))) [
    | inl found ↦ (λ h. any→Mem b.reason (m.reasons b.state) found, λ h. rw found refl)
    | inr missing ↦ (λ h. cc (rw missing at h), λ h. cc (Mem→any b.reason (m.reasons b.state) h))
  ]

  is_valid_status_transition_iff :
      (m : Machine S R) (a b : Status S R)
      → (is_valid_status_transition m a b ≡ none) ↔ Mem b.state (m.transitions a.state)
  unfolding is_valid_status_transition
  is_valid_status_transition_iff m a b =
      elim (Bool-cases (any (λ t. t =? b.state) (m.transitions a.state))) [
        | inl found ↦ (λ h. any→Mem b.state (m.transitions a.state) found, λ h. rw found refl)
        | inr missing ↦
            (λ h. cc (rw missing at h), λ h. cc (Mem→any b.state (m.transitions a.state) h))
      ]

  -- An update is accepted exactly when it repeats the status but for its time, or when its reason
  -- fits its state and the tables have the edge from the old state to the new one.
  pub is_valid_transition_iff :
      (m : Machine S R) (a b : Status S R)
      → (is_valid_transition m a b ≡ none) ↔ (SameStatus a b ⊎ IsEdge m a b)
  unfolding is_valid_transition
  is_valid_transition_iff m a b = elim (Bool-cases (equals a b)) [
    | inl same ↦ (λ h. inl ((equals_iff a b).0 same), λ h. rw same refl)
    | inr other ↦ rw other (accepted, allowed other)
  ]
    where
      accepted :
          or_else (is_valid_reason m b) (is_valid_status_transition m a b) ≡ none
          → SameStatus a b ⊎ IsEdge m a b
      accepted h =
          let (r, t) = (or_else_iff _ _).0 h in
          inr ((is_valid_reason_iff m b).0 r, (is_valid_status_transition_iff m a b).0 t)

      allowed :
          equals a b ≡ false
          → SameStatus a b ⊎ IsEdge m a b
          → or_else (is_valid_reason m b) (is_valid_status_transition m a b) ≡ none
      allowed other (inl same) = cc (other, (equals_iff a b).1 same)
      allowed other (inr (r, t)) =
          (or_else_iff _ _).1
            ((is_valid_reason_iff m b).1 r, (is_valid_status_transition_iff m a b).1 t)

  -- The two checks of a change, where it is one.
  pub accept_edge :
      (m : Machine S R) (a b : Status S R)
      → is_valid_reason m b ≡ none
      → is_valid_status_transition m a b ≡ none
      → is_valid_transition m a b ≡ none
  unfolding is_valid_transition
  accept_edge m a b r t = ground arith

  pub accept_same : (m : Machine S R) (a : Status S R) → is_valid_transition m a a ≡ none
  accept_same m a = (is_valid_transition_iff m a a).1 (inl (refl, refl, refl))

  -- An edge of the tables, at the state that the object is known to have.
  pub accept_move :
      (m : Machine S R) (a b : Status S R) (s : S)
      → a.state ≡ s
      → is_valid_reason m b ≡ none
      → any (λ t. t =? b.state) (m.transitions s) ≡ true
      → is_valid_transition m a b ≡ none
  unfolding is_valid_status_transition
  accept_move m a b s h r t = accept_edge m a b r (rw h (rw t refl))

  -- No edge of the tables leads to another state.
  pub refuse_move :
      (m : Machine S R) (a b : Status S R) (s : S)
      → a.state ≡ s
      → ¬ (s ≡ b.state)
      → any (λ t. t =? b.state) (m.transitions s) ≡ false
      → ¬ (is_valid_transition m a b ≡ none)
  refuse_move m a b s h other t accepted = elim ((is_valid_transition_iff m a b).0 accepted) [
    | inl same ↦ absurd (other (sym h ∙ same.0))
    | inr edge ↦ cc (rw t at (Mem→any b.state (m.transitions s) (rw h at edge.1)))
  ]
