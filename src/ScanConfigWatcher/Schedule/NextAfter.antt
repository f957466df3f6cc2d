-- ===== src/ScanConfigWatcher/Schedule/NextAfter.antt =====
-- The loop of NextAfter: it ends, and where.
use vmclarity.Prelude.{
  ℕ, zero, suc, ◌+◌, ◌<◌, ◌≡◌, ◌≢◌, refl, ◌⊎◌, inl, inr, true, false, some, arith, Bool-cases,
}
use vmclarity.Prelude.Int.{ℤ, pos, pos_part, neg_part, ◌-ℤ◌, ltb_ℤ, eqb_ℤ, int_laws}
use vmclarity.ScanConfigWatcher.Schedule.{Cron, OperationTime, next_time, advance, next_after}

-- Next returns a time after the given one, or zero.
abbrev pub Advances : Cron → Type 0
Advances c = (t : ℤ) → (c t ≡ pos 0) ⊎ (ltb_ℤ t (c t) ≡ true)

-- `r` is where the loop stops: at a time that is not before `t`, or the last one of the expression;
-- and it has not passed a time in between.
abbrev pub Reached : Cron → ℤ → ℤ → ℤ → Type 0
Reached c t from r =
    ((ltb_ℤ r t ≡ false) ⊎ (c r ≡ pos 0))
    × ((r ≡ from) ⊎ ((x : ℤ) × (ltb_ℤ x t ≡ true) × (r ≡ c x)))

abbrev pub at_time : Cron → ℤ → OperationTime
at_time c t = record { time = t; cron = some c }

-- One turn of the loop, on each of its branches.
arrived :
    (c : Cron) (fuel : ℕ) (t a : ℤ)
    → ltb_ℤ a t ≡ false
    → advance (suc fuel) t (at_time c a) ≡ some (at_time c a)
unfolding advance
arrived c fuel t a h = ground arith

last :
    (c : Cron) (fuel : ℕ) (t a : ℤ)
    → c a ≡ pos 0
    → advance (suc fuel) t (at_time c a) ≡ some (at_time c a)
unfolding advance next_time
last c fuel t a h = ground arith

turns :
    (c : Cron) (fuel : ℕ) (t a : ℤ)
    → ltb_ℤ a t ≡ true
    → ltb_ℤ a (c a) ≡ true
    → (eqb_ℤ (c a) (pos 0) ≡ false)
    → advance (suc fuel) t (at_time c a) ≡ advance fuel t (at_time c (c a))
unfolding advance next_time
turns c fuel t a h l z = ground arith

pub advance_reaches :
    (c : Cron)
    → Advances c
    → (fuel : ℕ) (t a : ℤ) → pos_part t + neg_part a < fuel + pos_part a + neg_part t
    → (r : ℤ) × (advance (suc fuel) t (at_time c a) ≡ some (at_time c r)) × Reached c t a r
advance_reaches c adv zero t a h =
    (a, arrived c 0 t a (ground arith), (inl (ground arith), inl refl))
advance_reaches c adv (suc fuel) t a h = elim (Bool-cases (ltb_ℤ a t)) [
  | inr stop ↦ (a, arrived c (suc fuel) t a stop, (inl stop, inl refl))
  | inl go ↦ elim (Bool-cases (eqb_ℤ (c a) (pos 0))) [
    | inl z ↦ (a, last c (suc fuel) t a (ground arith), (inr (ground arith), inl refl))
    | inr more ↦ elim (adv a) [
      | inl z ↦ (a, last c (suc fuel) t a z, (inr z, inl refl))
      | inr later ↦
          let (r, e, (stop, source)) = advance_reaches c adv fuel t (c a) (ground arith) in
          (
            r,
            rw (turns c (suc fuel) t a go later more) e,
            (stop, elim source [ inl same ↦ inr (a, go, same) | inr found ↦ inr found ]),
          )
    ]
  ]
]

-- NextAfter ends for every time `t` that is not zero, where each call of Next gives a later time or
-- zero. Its result keeps the expression; the new time is not before `t`, or it is the last one; and it is
-- the old time, or the one that follows a time before `t`.
pub next_after_reaches :
    (c : Cron) (t a : ℤ)
    → Advances c
    → t ≢ pos 0
    → (r : ℤ) × (next_after t (at_time c a) ≡ some (at_time c r)) × Reached c t a r
unfolding next_after
next_after_reaches c t a adv h =
    let (r, e, reached) = advance_reaches c adv (suc (pos_part (t -ℤ a))) t a (grind int_laws) in
    (r, rw (not_zero t h) e, reached)
  where
    not_zero : (t : ℤ) → t ≢ pos 0 → eqb_ℤ t (pos 0) ≡ false
    not_zero t h = ground arith
