-- ===== src/Gateway/Runner/Sizing.antt =====
-- services/gateway/src/gateway/streaming/runner.py: the entry price of a BUY, and how many shares are
-- ordered: the validator's quantity, then the budget and the caps.
use roboinvest.Gateway.ExecutionGate.{GateReason}
use roboinvest.Prelude.{
  Bool, ℕ, false, not, Option, none, some, ltb, if◌then◌else◌, Result, ok, raised,
}
use roboinvest.Decimal
use roboinvest.Decimal.{Decimal, of_ℕ, sub, mul, truncate, leb as leb_Decimal, ltb as ltb_Decimal}
use roboinvest.Contracts.Enums.{TradeMode, Action, is_buy, is_live, is_paper}
use roboinvest.Contracts.Risk.{RiskCheck, KillSwitchState}
use roboinvest.Contracts.Signal.{UnifiedTradeSignal}
use roboinvest.Gateway.Config.{GatewaySettings, RiskConfig}
use roboinvest.Gateway.Validator.{validate}
use roboinvest.Gateway.Runner.Services.{Services, Runner}
use roboinvest.Gateway.Runner.Handler.{
  Handler, RejectReason, Decision, ◌>>=◌, ◌>>◌, pure, lift, return, record_call, rejected,
  missing_entry_price, check_failed, no_quantity, insufficient_live_budget,
  live_qty_cap_below_min_lot, liquidity_qty_cap_below_min_lot, execution_gate,
}
use roboinvest.Gateway.Runner.Caps.{within_budget, cap_buy_quantity, cap_buy_quantity_by_liquidity}
use roboinvest.Gateway.Runner.Gates.{execution_gate_reject_reason}

abbrev pub refused : Decision
refused = record {
  approved = false;
  kill_switch_fired = false;
  duplicate_suppressed = false;
  ambiguous = false;
}

-- `self._log_reject(...)` and `return _Decision(approved=False, kill_switch_fired=False)`
unfoldable pub reject : {A : Type 0} → RejectReason → Handler A
reject reason = do record_call (rejected reason); return refused

-- `if quantity is None: reject`
unfoldable pub or_reject : RejectReason → Option ℕ → Handler ℕ
unfolding reject
or_reject reason none = reject reason
or_reject reason (some quantity) = pure quantity

-- the fallbacks of the entry price of a BUY
unfoldable pub entry_price_of : Services → UnifiedTradeSignal → TradeMode → Result (Option Decimal)
entry_price_of w signal mode = elim signal.price [
  | some price ↦ ok (some price)
  | none ↦ elim (w.read_latest_price signal.symbol) [
    | raised e ↦ raised e
    | ok (some price) ↦ ok (some price)
    | ok none ↦ if is_paper mode then w.read_latest_daily_close signal.symbol else ok none
  ]
]

unfoldable pub require_entry_price : Option Decimal → Handler (Option Decimal)
unfolding reject
require_entry_price none = reject missing_entry_price
require_entry_price (some price) = pure (some price)

-- `existing_qty` and `entry_price` of `_process`
unfoldable pub resolve_entry :
    Services → UnifiedTradeSignal → TradeMode → Action → Handler (Option ℕ × Option Decimal)
unfolding entry_price_of require_entry_price
resolve_entry w signal mode Action.buy = do
  existing ← lift (w.read_long_quantity signal.symbol mode)
  if ltb 0 existing then pure (some existing, none) else do
    price ← lift (entry_price_of w signal mode)
    entry_price ← require_entry_price price
    pure (some existing, entry_price)
resolve_entry w signal mode Action.sell = do
  existing ← lift (w.read_long_quantity signal.symbol mode)
  pure (some existing, none)
resolve_entry w signal mode Action.hold = pure (none, none)

-- `entry_price if entry_price is not None else Decimal("0")`
abbrev pub price_or_zero : Option Decimal → Decimal
price_or_zero none = Decimal.zero
price_or_zero (some price) = price

unfoldable pub accept_quantity : Option ℕ → Handler ℕ
unfolding reject
accept_quantity none = reject no_quantity
accept_quantity (some quantity) = if ltb 0 quantity then pure quantity else reject no_quantity

-- the two tests of the validator's result
unfoldable pub accept_check : RiskCheck → Handler ℕ
unfolding reject accept_quantity
accept_check check =
    if check.passed
    then accept_quantity check.adjusted_quantity
    else reject (check_failed check.reason)

abbrev pub cached_or : Decimal → Option Decimal → Decimal
cached_or capital none = capital
cached_or capital (some cached) = cached

-- `_resolve_live_capital`: where there is no client, where a read succeeds, and where it fails and the
-- last capital that was read is taken
unfoldable pub resolve_live_capital : RiskConfig → Option (Result Decimal) → Handler Decimal
resolve_live_capital config none s = pure config.capital s
resolve_live_capital config (some (ok capital)) s =
    pure capital record s { cached_live_capital = some capital }
resolve_live_capital config (some (raised e)) s =
    pure (cached_or config.capital s.cached_live_capital) s

-- `_rebudget_buy_quantity`
unfoldable pub rebudget_buy_quantity :
    RiskConfig → Services → UnifiedTradeSignal → TradeMode → Option Decimal → ℕ → Handler (Option ℕ)
unfolding resolve_live_capital within_budget
rebudget_buy_quantity config w signal mode none quantity = pure (some quantity)
rebudget_buy_quantity config w signal mode (some entry_price) quantity =
    if not (is_buy signal.action) then pure (some quantity) else do
      capital ←
          if is_live mode
          then resolve_live_capital config w.read_stock_account_wallet
          else pure config.capital
      exposure ← lift (w.read_capital_in_use mode)
      lift (within_budget config signal entry_price (sub capital exposure))

unfoldable pub enforce_execution : Bool → Option GateReason → Handler (Unit {0})
unfolding reject
enforce_execution guard_enabled none = pure tt
enforce_execution guard_enabled (some reason) =
    if guard_enabled then reject (execution_gate reason) else pure tt

-- the execution gate, which only logs unless its guard is on
unfoldable pub check_execution : GatewaySettings → UnifiedTradeSignal → ℕ → Handler (Unit {0})
unfolding execution_gate_reject_reason enforce_execution
check_execution settings signal quantity =
    enforce_execution settings.execution_gate_guard_enabled
      (execution_gate_reject_reason settings signal quantity)

-- From the validator's call to the quantity that is ordered.
unfoldable pub size_order :
    Runner → Services → UnifiedTradeSignal → KillSwitchState → Option ℕ → Option Decimal → Handler ℕ
unfolding accept_check or_reject rebudget_buy_quantity cap_buy_quantity
    cap_buy_quantity_by_liquidity check_execution
size_order r w signal state existing entry_price = do
  check ← lift (validate signal state r.risk_config (price_or_zero entry_price) existing)
  allowed ← accept_check check
  budget ← rebudget_buy_quantity r.risk_config w signal state.trade_mode entry_price allowed
  rebudgeted ← or_reject insufficient_live_budget budget
  cap ← lift (cap_buy_quantity r signal rebudgeted)
  capped ← or_reject live_qty_cap_below_min_lot cap
  liquid ← lift (cap_buy_quantity_by_liquidity r w signal capped)
  quantity ← or_reject liquidity_qty_cap_below_min_lot liquid
  check_execution r.settings signal quantity
  pure quantity
