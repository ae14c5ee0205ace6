-- ===== src/OmsPaper/Monitor.antt =====
-- services/oms-paper/src/oms_paper/day_monitor.py and swing_monitor.py
pub mod Priority
pub mod Ratchet
use roboinvest.Prelude.{
  ℕ, ◌+◌, Bool, true, false, not, ◌&&◌, Option, none, some, List, leb as leb_ℕ, ltb as ltb_ℕ,
  if◌then◌else◌, holds, keep_if,
}
use roboinvest.Decimal.{Decimal, one, sub, mul, leb, ltb, quantize}
use roboinvest.Contracts.Enums.{is_day, is_swing}
use roboinvest.Contracts.Time.{DateTime, date, time, in_tokyo}
use roboinvest.OmsPaper.Models.{
  PaperPosition, Decision, exit, trail, hold, stop_loss, target, max_hold_days,
}

-- `latest_price <= position.stop_loss_price`, and the target
abbrev pub stop_hit : Option Decimal → Decimal → Bool
stop_hit stop price = holds (λ s. leb price s) stop

abbrev pub target_hit : Option Decimal → Decimal → Bool
target_hit goal price = holds (λ t. leb t price) goal

-- `(now.date() - opened_at.date()).days >= max_hold_days`, with the subtraction moved to the other side
unfoldable pub held_too_long : Option ℕ → DateTime → DateTime → Bool
held_too_long none opened_at now = false
held_too_long (some days) opened_at now = leb_ℕ (date opened_at + days) (date now)

abbrev pub trailing_candidate : Decimal → Decimal → Decimal
trailing_candidate price pct = quantize 1 (mul price (sub one pct))

-- the last part of each monitor: the stop is only ever raised
unfoldable pub trail_or_hold : Option Decimal → Option Decimal → Decimal → Decision
trail_or_hold none existing price = hold
trail_or_hold (some pct) none price = trail (trailing_candidate price pct)
trail_or_hold (some pct) (some stop) price =
    let candidate = trailing_candidate price pct in
    if ltb stop candidate then trail candidate else hold

unfoldable pub evaluate_day_exit : PaperPosition → Decimal → DateTime → Decision
unfolding trail_or_hold held_too_long
evaluate_day_exit p latest_price now =
    if not (is_day p.holding_type)
    then hold
    else if stop_hit p.stop_loss_price latest_price
    then exit stop_loss
    else if target_hit p.target_price latest_price
    then exit target
    else if held_too_long p.max_hold_days p.opened_at now
    then exit max_hold_days
    else trail_or_hold p.trailing_stop_pct p.stop_loss_price latest_price

-- the cases of `_is_max_hold_elapsed`
unfoldable pub scheduled_exit_due : Option ℕ → Option ℕ → DateTime → Bool
scheduled_exit_due none exit_time now = false
scheduled_exit_due (some exit_date) none now = leb_ℕ exit_date (date now)
scheduled_exit_due (some exit_date) (some exit_time) now =
    let local_now = in_tokyo now in
    if ltb_ℕ exit_date (date local_now)
    then true
    else if ltb_ℕ (date local_now) exit_date
    then false
    else leb_ℕ exit_time (time local_now)

unfoldable pub is_max_hold_elapsed : PaperPosition → DateTime → Bool
unfolding scheduled_exit_due
is_max_hold_elapsed p now = scheduled_exit_due p.scheduled_exit_date p.scheduled_exit_time now

unfoldable pub evaluate_swing_exit : PaperPosition → Decimal → DateTime → Decision
unfolding trail_or_hold is_max_hold_elapsed
evaluate_swing_exit p latest_price now =
    if not (is_swing p.holding_type)
    then hold
    else if stop_hit p.stop_loss_price latest_price
    then exit stop_loss
    else if target_hit p.target_price latest_price
    then exit target
    else if is_max_hold_elapsed p now
    then exit max_hold_days
    else trail_or_hold p.trailing_stop_pct p.stop_loss_price latest_price

unfoldable pub find_max_hold_due_swing_positions :
    List PaperPosition → DateTime → List PaperPosition
unfolding is_max_hold_elapsed
find_max_hold_due_swing_positions positions now =
    keep_if (λ p. is_swing p.holding_type && is_max_hold_elapsed p now) positions
