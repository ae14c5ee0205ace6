-- ===== src/OmsLive/Position.antt =====
-- services/oms-live/src/oms_live/position_updater.py
pub mod AsPaper
use roboinvest.Prelude.{
  ℕ, ◌+◌, ◌-◌, true, false, Option, none, some, ltb, leb as leb_ℕ, ◌==◌, if◌then◌else◌,
}
use roboinvest.Decimal.{Decimal, of_ℕ, add, sub, mul, div, quantize}
use roboinvest.Contracts.Enums.{Side, TradingStyle}
use roboinvest.Contracts.Time.{DateTime}
use roboinvest.Contracts.Order.{OrderRequest}
use roboinvest.OmsPaper.Models.{no_fill, no_position_for_sell, oversell}
use roboinvest.OmsLive.Models.{LiveFill, LivePosition, LiveUpdate}

unfoldable pub weighted_average_entry : ℕ → Decimal → ℕ → Decimal → Decimal
weighted_average_entry existing_qty existing_price add_qty add_price =
    let total_cost = add (mul existing_price (of_ℕ existing_qty)) (mul add_price (of_ℕ add_qty)) in
    quantize 1 (div total_cost (of_ℕ (existing_qty + add_qty)))

unfoldable pub realized_pnl : Decimal → Decimal → ℕ → Decimal
realized_pnl entry_price fill_price quantity = mul (sub fill_price entry_price) (of_ℕ quantity)

-- the order arguments of `apply_fill`
pub record Terms : Type 0 where
  pub holding_type : TradingStyle
  pub stop_loss_price : Option Decimal
  pub target_price : Option Decimal
  pub max_hold_days : Option ℕ
  pub trailing_stop_pct : Option Decimal

abbrev refused : Option LivePosition → LiveUpdate
refused existing = record {
  position = existing;
  delete = false;
  realized_pnl = none;
  error = some no_fill;
}

abbrev updated : LivePosition → Option Decimal → LiveUpdate
updated p pnl = record { position = some p; delete = false; realized_pnl = pnl; error = none }

unfoldable pub apply_side :
    Side → OrderRequest → ℕ → Decimal → Option LivePosition → Terms → DateTime → LiveUpdate
apply_side Side.buy order quantity price none t executed_at =
    updated
      (record {
        symbol = order.symbol;
        quantity = quantity;
        entry_price = price;
        holding_type = t.holding_type;
        target_price = t.target_price;
        stop_loss_price = t.stop_loss_price;
        max_hold_days = t.max_hold_days;
        trailing_stop_pct = t.trailing_stop_pct;
        opened_at = executed_at;
      })
      none
apply_side Side.buy order quantity price (some p) t executed_at =
    updated
      (record p {
        quantity = p.quantity + quantity;
        entry_price = weighted_average_entry p.quantity p.entry_price quantity price;
      })
      none
apply_side Side.sell order quantity price none t executed_at = record {
  position = none;
  delete = false;
  realized_pnl = none;
  error = some no_position_for_sell;
}
apply_side Side.sell order quantity price (some p) t executed_at =
    let pnl = realized_pnl p.entry_price price quantity in
    let new_qty = p.quantity - quantity in
    if ltb p.quantity quantity
    then record { position = some p; delete = false; realized_pnl = none; error = some oversell }
    else if new_qty == 0
    then record { position = none; delete = true; realized_pnl = some pnl; error = none }
    else updated (record p { quantity = new_qty }) (some pnl)

unfoldable pub apply_priced :
    OrderRequest → ℕ → Option Decimal → Option LivePosition → Terms → DateTime → LiveUpdate
unfolding apply_side
apply_priced order quantity none existing t executed_at = refused existing
apply_priced order quantity (some price) existing t executed_at =
    if leb_ℕ quantity 0
    then refused existing
    else apply_side order.side order quantity price existing t executed_at

unfoldable pub apply_fill :
    OrderRequest → LiveFill → Option LivePosition → Terms → DateTime → LiveUpdate
unfolding apply_priced
apply_fill order fill = apply_priced order fill.filled_quantity fill.fill_price
