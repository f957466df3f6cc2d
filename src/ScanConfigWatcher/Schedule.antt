-- ===== src/ScanConfigWatcher/Schedule.antt =====
-- orchestrator/watcher/scanconfig/schedule.go. A time is the nanoseconds since Go's zero time, which
-- is `pos 0`, and is not bounded here; a duration is an int64 of nanoseconds. The package cronexpr is
-- a parameter: an expression is the function that its method Next is, where zero says that no time follows.
pub mod NextAfter
pub mod Windows
use Prim.Native.Nat.{◌/◌}
use vmclarity.Prelude.{
  ℕ, zero, suc, ◌+◌, String, Bool, true, false, not, ◌||◌, ◌&&◌, Option, none, some, if◌then◌else◌,
}
use vmclarity.Prelude.Int.{ℤ, pos, negsuc, pos_part, ◌+ℤ◌, ◌-ℤ◌, ltb_ℤ, eqb_ℤ, int64}
use vmclarity.Go.{Result, ok, err, panics, invalid}

pub record ScheduleWindow : Type 0 where
  pub start : ℤ
  pub end : ℤ

-- `In`, `Before` and `After`.
unfoldable pub contains : ScheduleWindow → ℤ → Bool
contains w t = if ltb_ℤ t w.start || ltb_ℤ w.end t then false else true

unfoldable pub before : ScheduleWindow → ℤ → Bool
before w t = ltb_ℤ w.end t

unfoldable pub after : ScheduleWindow → ℤ → Bool
after w t = ltb_ℤ t w.start

-- Division of a duration by 2, towards zero, and its negative.
abbrev pub half : ℤ → ℤ
half (pos n) = pos (n / 2)
half (negsuc n) = pos 0 -ℤ pos (suc n / 2)

abbrev pub negative : ℤ → ℤ
negative d = int64 (pos 0 -ℤ d)

-- `t.Sub(u)` saturates at the ends of int64.
abbrev pub sub_time : ℤ → ℤ → ℤ
sub_time t u =
    let d = t -ℤ u in
    if ltb_ℤ d (negsuc 9223372036854775807)
    then negsuc 9223372036854775807
    else if ltb_ℤ (pos 9223372036854775807) d
    then pos 9223372036854775807
    else d

unfoldable pub next_window : ScheduleWindow → ScheduleWindow
unfolding ◌+ℤ◌ ◌-ℤ◌
next_window w = record { start = w.end; end = w.end +ℤ sub_time w.end w.start }

unfoldable pub previous_window : ScheduleWindow → ScheduleWindow
unfolding ◌+ℤ◌ ◌-ℤ◌ int64
previous_window w = record { start = w.start +ℤ negative (sub_time w.end w.start); end = w.start }

unfoldable pub new_schedule_window : ℤ → ℤ → ScheduleWindow
unfolding ◌+ℤ◌ ◌-ℤ◌ int64
new_schedule_window now size = record {
  start = now +ℤ half (negative size);
  end = now +ℤ half size;
}

abbrev pub Cron : Type 0
Cron = ℤ → ℤ

pub record OperationTime : Type 0 where
  pub time : ℤ
  pub cron : Option Cron

abbrev is_zero : ℤ → Bool
is_zero t = eqb_ℤ t (pos 0)

-- `Next`.
unfoldable pub next_time : OperationTime → OperationTime
next_time o = elim o.cron [
  | none ↦ o
  | some c ↦ if not (is_zero (c o.time)) then record o { time = c o.time } else o
]

-- The loop of `NextAfter`, with fuel; `none` is out of fuel.
unfoldable pub advance : ℕ → ℤ → OperationTime → Option OperationTime
unfolding next_time
advance zero t o = none
advance (suc fuel) t o =
    let later = advance fuel t (next_time o) in
    if ltb_ℤ o.time t then (if eqb_ℤ (next_time o).time o.time then some o else later) else some o

-- `NextAfter`. Each turn of the loop moves on by a nanosecond at least.
unfoldable pub next_after : ℤ → OperationTime → Option OperationTime
unfolding advance ◌-ℤ◌
next_after t o =
    if is_zero t
    then some o
    else elim o.cron [ none ↦ some o | some _ ↦ advance (suc (suc (pos_part (t -ℤ o.time)))) t o ]

unfoldable pub is_recurring : OperationTime → Bool
unfolding next_time
is_recurring o = not (eqb_ℤ o.time (next_time o).time)

-- `isCronPointInTime`: the first time of an expression, where no second one follows.
unfoldable pub cron_point_in_time : Cron → Option ℤ
cron_point_in_time c =
    let t = c (pos 1) in let n = c t in if is_zero n || eqb_ℤ t n then some t else none

unfoldable pub new_operation_time : ℤ → Option Cron → OperationTime
unfolding cron_point_in_time
new_operation_time t none = record { time = t; cron = none }
new_operation_time t (some c) = elim (cron_point_in_time c) [
  | none ↦ record { time = t; cron = some c }
  | some point ↦ record { time = point; cron = some c }
]

pub data ScheduleState : Type 0 where
  disabled unscheduled not_due due overdue : ScheduleState

-- ScanConfigSchedule.
pub record Plan : Type 0 where
  pub state : ScheduleState
  pub operation_time : Option OperationTime
  pub window : ScheduleWindow

-- RuntimeScheduleScanConfig.
pub record RuntimeSchedule : Type 0 where
  pub cron_line : Option String
  pub operation_time : Option ℤ

-- The state of an operation time in a window.
unfoldable pub place : ScheduleWindow → OperationTime → ScheduleState
unfolding contains after is_recurring
place w o =
    if contains w o.time
    then due
    else if after w o.time
    then (if not (is_recurring o) then unscheduled else overdue)
    else not_due

-- A time that is not set is the zero time.
abbrev planned : ScheduleWindow → Option ℤ → Option Cron → Plan
planned w t c =
    let o = new_operation_time (elim t [ none ↦ pos 0 | some t ↦ t ]) c in
    record { state = place w o; operation_time = some o; window = w }

-- The rest of NewScanConfigSchedule, for a config that is enabled. `parse` is cronexpr.Parse.
unfoldable pub schedule_enabled :
    (String → Option Cron) → Option RuntimeSchedule → ScheduleWindow → Result Plan
unfolding new_operation_time place
schedule_enabled parse none w =
    ok (record { state = unscheduled; operation_time = none; window = w })
schedule_enabled parse (some r) w = elim r.cron_line [
  | none ↦ elim r.operation_time [
    | none ↦ ok (record { state = unscheduled; operation_time = none; window = w })
    | some t ↦ ok (planned w (some t) none)
  ]
  | some line ↦ elim (parse line) [
    | none ↦ err invalid
    | some c ↦ ok (planned w r.operation_time (some c))
  ]
]

-- NewScanConfigSchedule, from the fields Disabled and Scheduled.
unfoldable pub new_schedule :
    (String → Option Cron) → Option Bool → Option RuntimeSchedule → ScheduleWindow → Result Plan
unfolding schedule_enabled
new_schedule parse (some true) scheduled w =
    ok (record { state = disabled; operation_time = none; window = w })
new_schedule parse (some false) scheduled w = schedule_enabled parse scheduled w
new_schedule parse none scheduled w = schedule_enabled parse scheduled w
