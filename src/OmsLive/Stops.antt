-- ===== src/OmsLive/Stops.antt =====
-- services/oms-live/src/oms_live/stop_monitor.py
use roboinvest.Prelude.{
  ◌≡◌, refl, ℕ, ◌+◌, Bool, true, false, Option, none, some, leb, if◌then◌else◌,
}
use roboinvest.Decimal.{Decimal, one, sub, mul, quantize, leb as leb_Decimal, ltb as ltb_Decimal}
use roboinvest.Contracts.Enums.{TradingStyle}
use roboinvest.Contracts.Time.{DateTime, date}
use roboinvest.OmsPaper.Models.{
  PaperPosition, Decision, exit, trail, hold, stop_loss, target, max_hold_days,
}
use roboinvest.OmsPaper.Monitor.{
  stop_hit, target_hit, held_too_long, trail_or_hold, evaluate_day_exit,
}
use roboinvest.OmsLive.Models.{LivePosition}
use roboinvest.OmsLive.Position.AsPaper.{live_part}

-- `position.stop_loss_price is not None and latest_bid <= position.stop_loss_price`
abbrev pub is_stopped : Option Decimal → Decimal → Bool
is_stopped none latest_bid = false
is_stopped (some stop_loss_price) latest_bid = leb_Decimal latest_bid stop_loss_price

-- `position.target_price is not None and latest_bid >= position.target_price`
abbrev pub has_reached_target : Option Decimal → Decimal → Bool
has_reached_target none latest_bid = false
has_reached_target (some target_price) latest_bid = leb_Decimal target_price latest_bid

-- `elapsed_days >= position.max_hold_days`, where there is a limit, with the subtraction moved to the
-- other side
abbrev pub is_held_out : Option ℕ → DateTime → DateTime → Bool
is_held_out none opened_at now = false
is_held_out (some days) opened_at now = leb (date opened_at + days) (date now)

-- `existing is None or candidate > existing`
abbrev pub raises_stop : Option Decimal → Decimal → Bool
raises_stop none candidate = true
raises_stop (some existing) candidate = ltb_Decimal existing candidate

-- the trailing stop
unfoldable pub trail_live : Option Decimal → Option Decimal → Decimal → Decision
trail_live none existing latest_bid = hold
trail_live (some trailing_stop_pct) existing latest_bid =
    let candidate = quantize 1 (mul latest_bid (sub one trailing_stop_pct)) in
    if raises_stop existing candidate then trail candidate else hold

unfoldable pub evaluate_live_stop : LivePosition → Decimal → DateTime → Decision
unfolding trail_live
evaluate_live_stop p latest_bid now =
    if is_stopped p.stop_loss_price latest_bid
    then exit stop_loss
    else if has_reached_target p.target_price latest_bid
    then exit target
    else if is_held_out p.max_hold_days p.opened_at now
    then exit max_hold_days
    else trail_live p.trailing_stop_pct p.stop_loss_price latest_bid

is_stopped-eq :
    (stop : Option Decimal) (price : Decimal) → is_stopped stop price ≡ stop_hit stop price
is_stopped-eq none price = refl
is_stopped-eq (some stop) price = refl

has_reached_target-eq :
    (goal : Option Decimal) (price : Decimal)
    → has_reached_target goal price ≡ target_hit goal price
has_reached_target-eq none price = refl
has_reached_target-eq (some goal) price = refl

is_held_out-eq :
    (days : Option ℕ) (opened_at now : DateTime)
    → is_held_out days opened_at now ≡ held_too_long days opened_at now
unfolding held_too_long
is_held_out-eq none opened_at now = refl
is_held_out-eq (some days) opened_at now = refl

trail_live-eq :
    (pct existing : Option Decimal) (price : Decimal)
    → trail_live pct existing price ≡ trail_or_hold pct existing price
unfolding trail_live trail_or_hold
trail_live-eq none existing price = refl
trail_live-eq (some pct) none price = refl
trail_live-eq (some pct) (some existing) price = refl

-- Whatever the holding type of a position, the live monitor decides on it as the day monitor of oms-paper
-- would if it were a day position.
pub evaluate_live_stop-eq-day :
    (p : PaperPosition) (price : Decimal) (now : DateTime)
    → evaluate_live_stop (live_part p) price now
      ≡ evaluate_day_exit (record p { holding_type = TradingStyle.day }) price now
unfolding evaluate_live_stop evaluate_day_exit
evaluate_live_stop-eq-day p price now = rw (
  is_stopped-eq p.stop_loss_price price,
  has_reached_target-eq p.target_price price,
  is_held_out-eq p.max_hold_days p.opened_at now,
  trail_live-eq p.trailing_stop_pct p.stop_loss_price price,
)
