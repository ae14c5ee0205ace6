-- ===== src/OmsPaper/Position.antt =====
-- services/oms-paper/src/oms_paper/position_updater.py
pub mod Quantity
pub mod Average
use roboinvest.Prelude.{
  ℕ, ◌+◌, ◌-◌, true, false, Option, none, some, ltb, leb as leb_ℕ, ◌==◌, if◌then◌else◌,
}
use roboinvest.Decimal.{Decimal, of_ℕ, one, add, sub, mul, div, quantize}
use roboinvest.Contracts.Enums.{Side, TradingStyle}
use roboinvest.Contracts.Time.{DateTime, date}
use roboinvest.Contracts.Order.{OrderRequest}
use roboinvest.Contracts.Signal.{OrderFields}
use roboinvest.OmsPaper.Models.{
  PaperPosition, FillResult, PositionUpdate, no_fill, no_position_for_sell, oversell,
}
use roboinvest.OmsPaper.Calendar.{HolidayCalendar, nth_tse_business_day_after}

unfoldable pub weighted_average_entry : ℕ → Decimal → ℕ → Decimal → Decimal
weighted_average_entry existing_qty existing_price add_qty add_price =
    let total_cost = add (mul existing_price (of_ℕ existing_qty)) (mul add_price (of_ℕ add_qty)) in
    quantize 1 (div total_cost (of_ℕ (existing_qty + add_qty)))

unfoldable pub resolve_stop_loss_price : Decimal → Option Decimal → Option Decimal → Option Decimal
resolve_stop_loss_price fill_price stop_loss_price none = stop_loss_price
resolve_stop_loss_price fill_price stop_loss_price (some pct) = some (mul fill_price (sub one pct))

-- `a or b` of two dates
abbrev pub or_else : Option ℕ → Option ℕ → Option ℕ
or_else none b = b
or_else (some a) b = some a

-- a BUY without a position
unfoldable pub open_position :
    HolidayCalendar
    → OrderRequest
    → ℕ
    → Decimal
    → TradingStyle
    → OrderFields
    → DateTime
    → PaperPosition
unfolding resolve_stop_loss_price
open_position calendar order quantity price holding_type f executed_at = record {
  symbol = order.symbol;
  quantity = quantity;
  entry_price = price;
  holding_type = holding_type;
  target_price = f.target_price;
  stop_loss_price = resolve_stop_loss_price price f.stop_loss_price f.stop_loss_pct;
  max_hold_days = f.max_hold_days;
  scheduled_exit_date =
      or_else f.scheduled_exit_date
        (nth_tse_business_day_after calendar (date executed_at) f.max_hold_days);
  scheduled_exit_time = f.scheduled_exit_time;
  trailing_stop_pct = f.trailing_stop_pct;
  opened_at = executed_at;
  position_generation_id = none;
}

abbrev pub updated : PaperPosition → PositionUpdate
updated p = record { position = some p; delete = false; error = none }

-- the branches of `apply_fill` behind the check of the fill; the order fields are its arguments
unfoldable pub apply_side :
    HolidayCalendar
    → Side
    → OrderRequest
    → ℕ
    → Decimal
    → Option PaperPosition
    → TradingStyle
    → OrderFields
    → DateTime
    → PositionUpdate
apply_side calendar Side.buy order quantity price none holding_type f executed_at =
    updated (open_position calendar order quantity price holding_type f executed_at)
apply_side calendar Side.buy order quantity price (some p) holding_type f executed_at =
    updated (record p {
      quantity = p.quantity + quantity;
      entry_price = weighted_average_entry p.quantity p.entry_price quantity price;
    })
apply_side calendar Side.sell order quantity price none holding_type f executed_at = record {
  position = none;
  delete = false;
  error = some no_position_for_sell;
}
apply_side calendar Side.sell order quantity price (some p) holding_type f executed_at =
    let new_qty = p.quantity - quantity in
    if ltb p.quantity quantity
    then record { position = some p; delete = false; error = some oversell }
    else if new_qty == 0
    then record { position = none; delete = true; error = none }
    else updated (record p { quantity = new_qty })

abbrev not_filled : Option PaperPosition → PositionUpdate
not_filled existing = record { position = existing; delete = false; error = some no_fill }

-- `apply_fill` at a fill price
unfoldable pub apply_priced :
    HolidayCalendar
    → OrderRequest
    → ℕ
    → Option Decimal
    → Option PaperPosition
    → TradingStyle
    → OrderFields
    → DateTime
    → PositionUpdate
unfolding apply_side
apply_priced calendar order quantity none existing holding_type f executed_at = not_filled existing
apply_priced calendar order quantity (some price) existing holding_type f executed_at =
    if leb_ℕ quantity 0
    then not_filled existing
    else apply_side calendar order.side order quantity price existing holding_type f executed_at

unfoldable pub apply_fill :
    HolidayCalendar
    → OrderRequest
    → FillResult
    → Option PaperPosition
    → TradingStyle
    → OrderFields
    → DateTime
    → PositionUpdate
unfolding apply_priced
apply_fill calendar order fill = apply_priced calendar order fill.filled_quantity fill.fill_price
