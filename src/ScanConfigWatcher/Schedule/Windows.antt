-- ===== src/ScanConfigWatcher/Schedule/Windows.antt =====
-- The windows of a schedule, and the state of an operation time in one.
use vmclarity.Prelude.{ℕ, ◌+◌, ◌<◌, ◌≡◌, ap, ◌∙◌, ◌↔◌, refl, true, false, arith}
use vmclarity.Prelude.Int.{ℤ, pos, ◌+ℤ◌, ◌-ℤ◌, ◌≤ℤ◌, ltb_ℤ, int64, +ℤ_parts, -ℤ_parts, int_laws}
use vmclarity.ScanConfigWatcher.Schedule.{
  OperationTime, ScheduleWindow, contains, after, next_window, previous_window, new_schedule_window,
  half, negative, sub_time, place, due, not_due, overdue, unscheduled, is_recurring,
}

-- A window, start first, that is shorter than 2^63 nanoseconds.
abbrev pub IsWindow : ScheduleWindow → Type 0
IsWindow w = (w.start ≤ℤ w.end) × (ltb_ℤ (pos 9223372036854775807) (w.end -ℤ w.start) ≡ false)

-- For a window that ends no earlier than it starts: a time is Due when the window contains it, ends
-- included; NotDue when it is later; Overdue when it is earlier and recurs; Unscheduled when it is
-- earlier and does not.
pub place_cases :
    (w : ScheduleWindow) (o : OperationTime)
    → w.start ≤ℤ w.end
    → ((place w o ≡ due) ↔ ((w.start ≤ℤ o.time) × (o.time ≤ℤ w.end)))
      × ((place w o ≡ not_due) ↔ (ltb_ℤ w.end o.time ≡ true))
      × ((place w o ≡ overdue) ↔ ((ltb_ℤ o.time w.start ≡ true) × (is_recurring o ≡ true)))
      × ((place w o ≡ unscheduled) ↔ ((ltb_ℤ o.time w.start ≡ true) × (is_recurring o ≡ false)))
unfolding place contains after
place_cases w o h = (ground arith, ground arith, ground arith, ground arith)

abbrev window : ℤ → ℤ → ScheduleWindow
window s e = record { start = s; end = e }

add_negative : (a d : ℤ) → a +ℤ (pos 0 -ℤ d) ≡ a -ℤ d
add_negative a d = grind int_laws

sub_time_exact : (w : ScheduleWindow) → IsWindow w → sub_time w.end w.start ≡ w.end -ℤ w.start
sub_time_exact w h = grind int_laws

negative_exact :
    (d : ℤ) → pos 0 ≤ℤ d → ltb_ℤ (pos 9223372036854775807) d ≡ false → negative d ≡ pos 0 -ℤ d
unfolding int64 ◌-ℤ◌
negative_exact d h k = ground arith

sub_range : (w : ScheduleWindow) → IsWindow w → pos 0 ≤ℤ (w.end -ℤ w.start)
sub_range w h = grind int_laws

next_exact :
    (w : ScheduleWindow)
    → IsWindow w
    → next_window w ≡ record { start = w.end; end = w.end +ℤ (w.end -ℤ w.start) }
unfolding next_window
next_exact w h = rw (sub_time_exact w h) refl

previous_exact :
    (w : ScheduleWindow)
    → IsWindow w
    → previous_window w ≡ record { start = w.start -ℤ (w.end -ℤ w.start); end = w.start }
unfolding previous_window
previous_exact w h =
    rw
      (
        sub_time_exact w h,
        negative_exact (w.end -ℤ w.start) (sub_range w h) (h.1),
        add_negative w.start (w.end -ℤ w.start),
      )
      refl

after_IsWindow :
    (s e : ℤ)
    → s ≤ℤ e
    → ltb_ℤ (pos 9223372036854775807) (e -ℤ s) ≡ false
    → IsWindow (record { start = e; end = e +ℤ (e -ℤ s) })
after_IsWindow s e h k = grind int_laws

before_IsWindow :
    (s e : ℤ)
    → s ≤ℤ e
    → ltb_ℤ (pos 9223372036854775807) (e -ℤ s) ≡ false
    → IsWindow (record { start = s -ℤ (e -ℤ s); end = s })
before_IsWindow s e h k = grind int_laws

-- The window after a window starts where that ends, has its length, and the window before it is the
-- first window again; and the other way round.
pub windows_tile :
    (w : ScheduleWindow)
    → IsWindow w
    → ((next_window w).start ≡ w.end)
      × ((previous_window w).end ≡ w.start)
      × (previous_window (next_window w) ≡ w)
      × (next_window (previous_window w) ≡ w)
unfolding next_window previous_window
windows_tile w h = (
  refl,
  refl,
  ap previous_window (next_exact w h)
      ∙ previous_exact (window w.end (w.end +ℤ (w.end -ℤ w.start)))
          (after_IsWindow w.start w.end h.0 h.1)
      ∙ ap (λ (s : ℤ). window s w.end) (back w.start w.end),
  ap next_window (previous_exact w h)
      ∙ next_exact (window (w.start -ℤ (w.end -ℤ w.start)) w.start)
          (before_IsWindow w.start w.end h.0 h.1)
      ∙ ap (λ (e : ℤ). window w.start e) (forth w.start w.end),
)
  where
    back : (s e : ℤ) → e -ℤ ((e +ℤ (e -ℤ s)) -ℤ e) ≡ s
    back s e = grind int_laws

    forth : (s e : ℤ) → s +ℤ (s -ℤ (s -ℤ (e -ℤ s))) ≡ e
    forth s e = grind int_laws

halves : (n : ℕ) → half (pos (n + n)) ≡ pos n
halves n = ground arith

negative_halves : (n : ℕ) → n < 4611686018427387904 → half (negative (pos (n + n))) ≡ pos 0 -ℤ pos n
unfolding ◌-ℤ◌ int64
negative_halves n h = ground arith

pub around_exact :
    (now : ℤ) (period : ℕ)
    → period < 4611686018427387904
    → new_schedule_window now (pos (period + period))
      ≡ window (now -ℤ pos period) (now +ℤ pos period)
unfolding new_schedule_window
around_exact now period h =
    ap (λ (d : ℤ). window (now +ℤ d) (now +ℤ half (pos (period + period))))
      (negative_halves period h)
    ∙ ap (λ (s : ℤ). window s (now +ℤ half (pos (period + period)))) (add_negative now (pos period))
    ∙ ap (λ (d : ℤ). window (now -ℤ pos period) (now +ℤ d)) (halves period)

inside :
    (now : ℤ) (period : ℕ) → contains (window (now -ℤ pos period) (now +ℤ pos period)) now ≡ true
unfolding contains
inside now period = ground (arith, +ℤ_parts now (pos period), -ℤ_parts now (pos period))

-- For a poll period below 2^62 nanoseconds: the window that Reconcile makes of twice the period goes
-- from one period before the time to one period after it, and contains it.
pub window_around_now :
    (now : ℤ) (period : ℕ)
    → period < 4611686018427387904
    → (contains (new_schedule_window now (pos (period + period))) now ≡ true)
      × ((new_schedule_window now (pos (period + period))).start ≡ now -ℤ pos period)
      × ((new_schedule_window now (pos (period + period))).end ≡ now +ℤ pos period)
window_around_now now period h = (
  ap (λ w. contains w now) (around_exact now period h) ∙ inside now period,
  ap (λ (w : ScheduleWindow). w.start) (around_exact now period h),
  ap (λ (w : ScheduleWindow). w.end) (around_exact now period h),
)
