-- ===== src/Gateway/Lots.antt =====
-- services/gateway/src/gateway/lot_calculator.py: the number of shares that the risk rule allows
pub mod Bounds
use roboinvest.Prelude.{
  ℕ, zero, suc, ◌*◌, ◌/◌, min, not, ltb as ltb_ℕ, if◌then◌else◌, Option, none, some, Result, ok,
  raised, value_error, zero_division_error, ◌>>=◌,
}
use roboinvest.Decimal
use roboinvest.Decimal.{Decimal, one, sub, mul, div, leb, truncate}
use roboinvest.Contracts.Enums.{is_buy, is_swing}
use roboinvest.Contracts.Risk.{
  RiskCheck, reject, pass_with, invalid_entry_price, invalid_stop_loss, invalid_risk_config,
  below_min_lot,
}
use roboinvest.Contracts.Signal.{UnifiedTradeSignal}
use roboinvest.Gateway.Config.{RiskConfig}

unfoldable pub resolve_stop_loss_for_buy :
    Decimal → Option Decimal → Option Decimal → Decimal → Decimal
resolve_stop_loss_for_buy entry_price (some explicit) pct spread = explicit
resolve_stop_loss_for_buy entry_price none (some pct) spread = mul entry_price (sub one pct)
resolve_stop_loss_for_buy entry_price none none spread = mul entry_price (sub one spread)

-- `(shares // lot) * lot`
unfoldable pub floor_to_lot : ℕ → ℕ → Result ℕ
floor_to_lot shares zero = raised zero_division_error
floor_to_lot shares (suc n) = ok (shares / suc n * suc n)

-- the final test of `calculate`
unfoldable pub check_min_lot : ℕ → ℕ → RiskCheck
check_min_lot lot adjusted = if ltb_ℕ adjusted lot then reject below_min_lot else pass_with adjusted

-- the notional cap, where it is configured
unfoldable pub cap_by_notional : RiskConfig → Option Decimal → Decimal → ℕ → Result RiskCheck
cap_by_notional config none entry_price adjusted = ok (check_min_lot config.min_lot_size adjusted)
cap_by_notional config (some pct) entry_price adjusted =
    let max_notional = mul config.capital pct in
    if leb max_notional Decimal.zero then ok (reject invalid_risk_config) else do
      cap ← floor_to_lot (truncate (div max_notional entry_price)) config.min_lot_size
      ok (check_min_lot config.min_lot_size (min adjusted cap))

unfoldable pub risk_amount : RiskConfig → UnifiedTradeSignal → Decimal
risk_amount config signal =
    mul (mul config.capital config.max_risk_per_trade_pct)
      (if is_swing signal.holding_type then config.swing_risk_scale else one)

unfoldable pub stop_loss_of : RiskConfig → UnifiedTradeSignal → Decimal → Decimal
unfolding resolve_stop_loss_for_buy
stop_loss_of config signal entry_price =
    resolve_stop_loss_for_buy entry_price signal.stop_loss_price signal.stop_loss_pct
      config.default_stop_loss_spread_pct

unfoldable pub calculate : UnifiedTradeSignal → Decimal → RiskConfig → Result RiskCheck
calculate signal entry_price config =
    let stop_loss = stop_loss_of config signal entry_price in
    let risk_per_share = sub entry_price stop_loss in
    let amount = risk_amount config signal in
    if not (is_buy signal.action)
    then raised value_error
    else if leb entry_price Decimal.zero
    then ok (reject invalid_entry_price)
    else if leb entry_price stop_loss
    then ok (reject invalid_stop_loss)
    else if leb risk_per_share Decimal.zero
    then ok (reject invalid_stop_loss)
    else if leb amount Decimal.zero
    then ok (reject invalid_risk_config)
    else do
      adjusted ← floor_to_lot (truncate (div amount risk_per_share)) config.min_lot_size
      cap_by_notional config config.max_notional_per_order_pct entry_price adjusted
