-- ===== src/Gateway/Runner/Caps.antt =====
-- services/gateway/src/gateway/streaming/runner.py: the budget and the caps on the quantity of a BUY.
-- `none` is the `None` that rejects the signal.
use roboinvest.Prelude.{
  ℕ, min, max, not, ◌&&◌, ◌||◌, Option, none, some, ltb, leb, if◌then◌else◌, Result, ok, ◌>>=◌,
}
use roboinvest.Decimal
use roboinvest.Decimal.{Decimal, of_ℕ, sub, mul, truncate, leb as leb_Decimal, ltb as ltb_Decimal}
use roboinvest.Contracts.Enums.{is_buy}
use roboinvest.Contracts.Risk.{RiskCheck}
use roboinvest.Contracts.Signal.{UnifiedTradeSignal}
use roboinvest.Gateway.Config.{RiskConfig}
use roboinvest.Gateway.Lots.{floor_to_lot, calculate}
use roboinvest.Gateway.Runner.Services.{Services, Runner, DailyLiquiditySnapshot}

-- `check.adjusted_quantity if check.passed else None`, where it is positive
abbrev pub positive : Option ℕ → Option ℕ
positive none = none
positive (some quantity) = if ltb 0 quantity then some quantity else none

abbrev pub quantity_of : RiskCheck → Option ℕ
quantity_of check = if check.passed then positive check.adjusted_quantity else none

-- what `calculate` allows with the capital that is left
unfoldable pub within_budget :
    RiskConfig → UnifiedTradeSignal → Decimal → Decimal → Result (Option ℕ)
within_budget config signal entry_price remaining =
    if leb_Decimal remaining Decimal.zero then ok none else do
      check ← calculate signal entry_price record config { capital = remaining }
      ok (quantity_of check)

-- `_cap_buy_quantity`, for a BUY with a cap
unfoldable pub cap_to : ℕ → ℕ → ℕ → Result (Option ℕ)
unfolding floor_to_lot
cap_to lot cap quantity =
    if leb quantity cap
    then ok (some quantity)
    else do capped ← floor_to_lot cap lot; ok (if ltb capped lot then none else some capped)

abbrev pub cap_to_setting : ℕ → Option ℕ → ℕ → Result (Option ℕ)
cap_to_setting lot none quantity = ok (some quantity)
cap_to_setting lot (some cap) quantity = cap_to lot cap quantity

unfoldable pub cap_buy_quantity : Runner → UnifiedTradeSignal → ℕ → Result (Option ℕ)
unfolding cap_to
cap_buy_quantity r signal quantity =
    if not (is_buy signal.action)
    then ok (some quantity)
    else cap_to_setting r.risk_config.min_lot_size r.settings.oms_live_max_qty_per_order quantity

-- the cap by the share of the day's volume
unfoldable pub participation_cap : Runner → DailyLiquiditySnapshot → Result (Option ℕ)
unfolding floor_to_lot
participation_cap r snapshot =
    let lot = r.risk_config.min_lot_size in
    let participation = r.settings.liquidity_max_daily_volume_participation_pct in
    if not (ltb 0 snapshot.volume && ltb_Decimal Decimal.zero participation) then ok none else do
      cap ← floor_to_lot (truncate (mul (of_ℕ snapshot.volume) participation)) lot
      ok (some (max cap lot))

-- the cap of a thinly traded symbol
unfoldable pub thin_cap : Runner → DailyLiquiditySnapshot → Result (Option ℕ)
unfolding floor_to_lot
thin_cap r snapshot =
    if not (
      ltb snapshot.volume r.settings.liquidity_thin_daily_volume
      || ltb_Decimal snapshot.turnover r.settings.liquidity_thin_daily_turnover_jpy)
    then ok none
    else do
      cap ← floor_to_lot r.settings.liquidity_thin_max_qty_per_order r.risk_config.min_lot_size
      ok (some cap)

-- `min(caps)`, and `None` for no cap
abbrev pub least : Option ℕ → Option ℕ → Option ℕ
least none b = b
least (some a) none = some a
least (some a) (some b) = some (min a b)

-- `_liquidity_quantity_cap`
unfoldable pub liquidity_quantity_cap : Runner → DailyLiquiditySnapshot → Result (Option ℕ)
unfolding participation_cap thin_cap
liquidity_quantity_cap r snapshot = do
  by_volume ← participation_cap r snapshot
  thin ← thin_cap r snapshot
  ok (least by_volume thin)

-- the tests of a cap against the quantity and the lot, where there is a snapshot
abbrev pub apply_cap : ℕ → ℕ → Option ℕ → Option ℕ
apply_cap lot quantity none = some quantity
apply_cap lot quantity (some cap) =
    if leb quantity cap then some quantity else if ltb cap lot then none else some cap

-- where there is none
abbrev pub apply_missing_cap : ℕ → ℕ → ℕ → Option ℕ
apply_missing_cap lot quantity cap =
    if ltb cap lot then none else if ltb cap quantity then some cap else some quantity

unfoldable pub cap_by_snapshot : Runner → ℕ → Option DailyLiquiditySnapshot → Result (Option ℕ)
unfolding floor_to_lot liquidity_quantity_cap
cap_by_snapshot r quantity none = do
  cap ← floor_to_lot r.settings.liquidity_missing_daily_max_qty_per_order r.risk_config.min_lot_size
  ok (apply_missing_cap r.risk_config.min_lot_size quantity cap)
cap_by_snapshot r quantity (some snapshot) = do
  cap ← liquidity_quantity_cap r snapshot
  ok (apply_cap r.risk_config.min_lot_size quantity cap)

-- `_cap_buy_quantity_by_liquidity`
unfoldable pub cap_buy_quantity_by_liquidity :
    Runner → Services → UnifiedTradeSignal → ℕ → Result (Option ℕ)
unfolding cap_by_snapshot
cap_buy_quantity_by_liquidity r w signal quantity =
    if not (is_buy signal.action) || not r.settings.liquidity_sizing_enabled
    then ok (some quantity)
    else do
      snapshot ← w.read_latest_daily_liquidity signal.symbol
      cap_by_snapshot r quantity snapshot
