-- ===== src/Gateway/Builder.antt =====
-- services/gateway/src/gateway/order_builder.py
pub mod Totality
use roboinvest.Prelude.{
  ℕ, false, not, Option, none, some, leb as leb_ℕ, if◌then◌else◌, Result, ok, raised, value_error,
  ◌>>=◌,
}
use roboinvest.Decimal
use roboinvest.Decimal.{Decimal, of_ℕ, one, add, sub, mul, leb}
use roboinvest.Contracts.Enums.{Side, Action, OrderType, TradeMode, is_buy}
use roboinvest.Contracts.Ids.{Uuid5}
use roboinvest.Contracts.TickSize.{tse_tick_size}
use roboinvest.Contracts.Time.{DateTime}
use roboinvest.Contracts.Signal.{UnifiedTradeSignal}
use roboinvest.Contracts.Order.{OrderRequest, populate_order_id, validate_order}

unfoldable pub side_for : Action → Result Side
side_for Action.buy = ok Side.buy
side_for Action.sell = ok Side.sell
side_for Action.hold = raised value_error

-- the BUY case, for an entry price
unfoldable pub buy_limit : Decimal → ℕ → Result (OrderType × Option Decimal)
buy_limit entry_price offset =
    if leb entry_price Decimal.zero
    then raised value_error
    else if leb_ℕ offset 0
    then ok (OrderType.limit, some entry_price)
    else do
      tick_size ← tse_tick_size entry_price false
      ok (OrderType.limit, some (add entry_price (mul tick_size (of_ℕ offset))))

unfoldable pub order_type_and_limit_price :
    Action → Option Decimal → ℕ → Result (OrderType × Option Decimal)
unfolding buy_limit
order_type_and_limit_price Action.buy none offset = raised value_error
order_type_and_limit_price Action.buy (some entry_price) offset = buy_limit entry_price offset
order_type_and_limit_price _ entry_price offset = ok (OrderType.market, none)

-- the default stop of a BUY that carries none
unfoldable pub default_stop : Option Decimal → Option Decimal → Option Decimal
default_stop (some entry_price) (some spread) =
    if leb entry_price Decimal.zero
    then none
    else if leb spread Decimal.zero
    then none
    else some (mul entry_price (sub one spread))
default_stop _ _ = none

unfoldable pub stop_loss_price :
    Option Decimal → Option Decimal → Action → Option Decimal → Option Decimal → Option Decimal
unfolding default_stop
stop_loss_price (some price) pct act entry_price spread = some price
stop_loss_price none (some pct) act entry_price spread = none
stop_loss_price none none act entry_price spread =
    if not (is_buy act) then none else default_stop entry_price spread

-- the `OrderRequest` that `build` constructs, before its validators
unfoldable pub order_for :
    Uuid5
    → DateTime
    → UnifiedTradeSignal
    → ℕ
    → TradeMode
    → OrderType
    → Option Decimal
    → Side
    → Option Decimal
    → OrderRequest
order_for uuid5 now signal quantity trade_mode order_type limit_price side stop = record {
  order_id = populate_order_id uuid5 0 (some signal.signal_id) trade_mode side;
  unified_signal_id = some signal.signal_id;
  symbol = signal.symbol;
  side = side;
  quantity = quantity;
  order_type = order_type;
  limit_price = limit_price;
  trade_mode = trade_mode;
  signal_source = signal.signal_source;
  routing_intent = signal.routing_intent;
  strategy_key = signal.strategy_key;
  candidate_id = signal.candidate_id;
  holding_type = some signal.holding_type;
  order_fields = record signal.order_fields { stop_loss_price = stop };
  created_at = now;
}

-- `now` is `created_at`, or the clock's reading where none is given.
unfoldable pub build :
    Uuid5
    → DateTime
    → UnifiedTradeSignal
    → ℕ
    → TradeMode
    → Option Decimal
    → ℕ
    → Option Decimal
    → Result OrderRequest
build uuid5 now signal quantity trade_mode entry_price offset spread =
    if leb_ℕ quantity 0 then raised value_error else do
      (order_type, limit_price) ← order_type_and_limit_price signal.action entry_price offset
      side ← side_for signal.action
      let stop =
          stop_loss_price signal.stop_loss_price signal.stop_loss_pct signal.action entry_price
            spread
      validate_order
          (order_for uuid5 now signal quantity trade_mode order_type limit_price side stop)
