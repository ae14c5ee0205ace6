-- ===== src/OmsPaper/Monitor/Priority.antt =====
-- When the monitors of oms-paper exit a position, and for what reason.
use roboinvest.Prelude.{
  ℕ, ◌+◌, ◌<◌, ◌≤◌, ◌⊎◌, Option, none, some, Bool, true, false, ◌≡◌, ◌↔◌, arith, refl, not,
  if◌then◌else◌, false≢true,
}
use roboinvest.Decimal.{Decimal, Le}
use roboinvest.Contracts.Enums.{TradingStyle, is_day, is_swing}
use roboinvest.Contracts.Time.{DateTime, date, time, in_tokyo}
use roboinvest.OmsPaper.Models.{
  PaperPosition, Decision, ExitReason, hold, exit, stop_loss, target, max_hold_days,
}
use roboinvest.OmsPaper.Monitor.{
  stop_hit, target_hit, held_too_long, scheduled_exit_due, is_max_hold_elapsed, evaluate_day_exit,
  trail_or_hold, evaluate_swing_exit,
}

-- The price is at or below the stop.
abbrev pub AtStop : Option Decimal → Decimal → Type 0
AtStop none price = ⊥
AtStop (some stop) price = Le price stop

-- The price is at or above the target.
abbrev pub AtTarget : Option Decimal → Decimal → Type 0
AtTarget none price = ⊥
AtTarget (some goal) price = Le goal price

-- The calendar days since the opening are as many as the limit, or more.
abbrev pub HeldOut : Option ℕ → DateTime → DateTime → Type 0
HeldOut none opened_at now = ⊥
HeldOut (some days) opened_at now = date opened_at + days ≤ date now

-- The scheduled date has come; with a time of day, it is that date in Tokyo and the time has come there,
-- or a later date.
abbrev pub Scheduled : Option ℕ → Option ℕ → DateTime → Type 0
Scheduled none at now = ⊥
Scheduled (some day) none now = day ≤ date now
Scheduled (some day) (some at) now =
    (day < date (in_tokyo now)) ⊎ ((day ≡ date (in_tokyo now)) × (at ≤ time (in_tokyo now)))

-- The documented order: the stop, then the target, then the end of the holding period.
abbrev pub HasReason : Type 0 → Type 0 → Type 0 → ExitReason → Type 0
HasReason Stop Goal Late stop_loss = Stop
HasReason Stop Goal Late target = (Stop → ⊥) × Goal
HasReason Stop Goal Late max_hold_days = (Stop → ⊥) × (Goal → ⊥) × Late

stop_hit_iff :
    (stop : Option Decimal) (price : Decimal) → (stop_hit stop price ≡ true) ↔ AtStop stop price
stop_hit_iff none price = ground arith
stop_hit_iff (some stop) price = ground arith

target_hit_iff :
    (goal : Option Decimal) (price : Decimal) → (target_hit goal price ≡ true) ↔ AtTarget goal price
target_hit_iff none price = ground arith
target_hit_iff (some goal) price = ground arith

held_too_long_iff :
    (days : Option ℕ) (opened_at now : DateTime)
    → (held_too_long days opened_at now ≡ true) ↔ HeldOut days opened_at now
unfolding held_too_long
held_too_long_iff none opened_at now = ground arith
held_too_long_iff (some days) opened_at now = ground arith

scheduled_exit_due_iff :
    (day at : Option ℕ) (now : DateTime)
    → (scheduled_exit_due day at now ≡ true) ↔ Scheduled day at now
unfolding scheduled_exit_due
scheduled_exit_due_iff none at now = ground arith
scheduled_exit_due_iff (some day) none now = ground arith
scheduled_exit_due_iff (some day) (some at) now = ground arith

-- the last part of a monitor never exits
trail_or_hold_never_exits :
    (pct existing : Option Decimal) (price : Decimal) (reason : ExitReason)
    → trail_or_hold pct existing price ≡ exit reason
    → ⊥
unfolding trail_or_hold
trail_or_hold_never_exits none existing price reason h = cc
trail_or_hold_never_exits (some pct) none price reason h = cc
trail_or_hold_never_exits (some pct) (some stop) price reason h = ground arith

-- three tests that decide three conditions, in front of code that does not exit
ladder-HasReason :
    {Stop Goal Late : Type 0} (stop goal late : Bool) (rest : Decision) (reason : ExitReason)
    → (stop ≡ true) ↔ Stop
    → (goal ≡ true) ↔ Goal
    → (late ≡ true) ↔ Late
    → (rest ≡ exit reason → ⊥)
    → ((if stop
          then exit stop_loss
          else if goal
          then exit target
          else if late
          then exit max_hold_days
          else rest)
        ≡ exit reason)
      ↔ HasReason Stop Goal Late reason
ladder-HasReason stop goal late rest stop_loss s g l never = ground arith
ladder-HasReason stop goal late rest target s g l never = ground arith
ladder-HasReason stop goal late rest max_hold_days s g l never = ground arith

of_style :
    {A : Type 0} (is wanted : TradingStyle) (test : Bool) (d : Decision) (reason : ExitReason)
    → (test ≡ true) ↔ (is ≡ wanted)
    → (d ≡ exit reason) ↔ A
    → ((if not test then hold else d) ≡ exit reason) ↔ ((is ≡ wanted) × A)
of_style is wanted true d reason t h = ((λ e. (t.0 refl, h.0 e)), (λ e. h.1 e.1))
of_style is wanted false d reason t h = ((λ e. cc), (λ e. absurd (false≢true (t.1 e.0))))

is_day_iff : (style : TradingStyle) → (is_day style ≡ true) ↔ (style ≡ TradingStyle.day)
is_day_iff TradingStyle.day = ground arith
is_day_iff TradingStyle.swing = ground arith

is_swing_iff : (style : TradingStyle) → (is_swing style ≡ true) ↔ (style ≡ TradingStyle.swing)
is_swing_iff TradingStyle.day = ground arith
is_swing_iff TradingStyle.swing = ground arith

module _ (p : PaperPosition) (price : Decimal) (now : DateTime) (reason : ExitReason) where
  -- The day monitor exits exactly the day positions that meet a condition, with the first one in this
  -- order as its reason: the price is at or below the stop, it is at or above the target, at least the
  -- maximal number of days has passed since the opening.
  pub evaluate_day_exit-exit_iff : (evaluate_day_exit p price now ≡ exit reason) ↔ (
      (p.holding_type ≡ TradingStyle.day)
      × HasReason
          (AtStop p.stop_loss_price price)
          (AtTarget p.target_price price)
          (HeldOut p.max_hold_days p.opened_at now)
          reason)
  unfolding evaluate_day_exit
  evaluate_day_exit-exit_iff =
      of_style p.holding_type TradingStyle.day (is_day p.holding_type) _ reason
        (is_day_iff p.holding_type)
        (ladder-HasReason (stop_hit p.stop_loss_price price) (target_hit p.target_price price)
          (held_too_long p.max_hold_days p.opened_at now)
          (trail_or_hold p.trailing_stop_pct p.stop_loss_price price) reason
          (stop_hit_iff p.stop_loss_price price) (target_hit_iff p.target_price price)
          (held_too_long_iff p.max_hold_days p.opened_at now)
          (trail_or_hold_never_exits p.trailing_stop_pct p.stop_loss_price price reason))

  -- The swing monitor exits exactly the swing positions that meet a condition, with the first one in
  -- this order as its reason: the price is at or below the stop, it is at or above the target, the
  -- scheduled date has come, and with a time of day also that time in Tokyo.
  pub evaluate_swing_exit-exit_iff : (evaluate_swing_exit p price now ≡ exit reason) ↔ (
      (p.holding_type ≡ TradingStyle.swing)
      × HasReason
          (AtStop p.stop_loss_price price)
          (AtTarget p.target_price price)
          (Scheduled p.scheduled_exit_date p.scheduled_exit_time now)
          reason)
  unfolding evaluate_swing_exit is_max_hold_elapsed
  evaluate_swing_exit-exit_iff =
      of_style p.holding_type TradingStyle.swing (is_swing p.holding_type) _ reason
        (is_swing_iff p.holding_type)
        (ladder-HasReason (stop_hit p.stop_loss_price price) (target_hit p.target_price price)
          (is_max_hold_elapsed p now) (trail_or_hold p.trailing_stop_pct p.stop_loss_price price)
          reason (stop_hit_iff p.stop_loss_price price) (target_hit_iff p.target_price price)
          (scheduled_exit_due_iff p.scheduled_exit_date p.scheduled_exit_time now)
          (trail_or_hold_never_exits p.trailing_stop_pct p.stop_loss_price price reason))
