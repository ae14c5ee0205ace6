-- ===== src/Contracts/Order.antt =====
-- contracts/python/trade_contracts/order.py: `OrderRequest` and its validators.
pub mod Validation
use roboinvest.Prelude.{
  ℕ, Bool, not, ◌&&◌, Option, none, some, String, leb, if◌then◌else◌, is_some, absent_or, Result,
  ok, raised, value_error,
}
use roboinvest.Decimal.{Decimal}
use roboinvest.Contracts.Enums.{
  Side, OrderType, TradeMode, SignalSource, RoutingIntent, TradingStyle, is_buy_side, is_paper,
  is_paper_only,
}
use roboinvest.Contracts.Ids.{Uuid, Uuid5, deterministic_order_id}
use roboinvest.Contracts.Time.{DateTime}
use roboinvest.Contracts.Signal.{OrderFields, identity_ok, is_fraction}

pub record OrderRequest : Type 0 where
  pub order_id : Uuid
  pub unified_signal_id : Option Uuid
  pub symbol : String
  pub side : Side
  pub quantity : ℕ
  pub order_type : OrderType
  pub limit_price : Option Decimal
  pub trade_mode : TradeMode
  pub signal_source : SignalSource
  pub routing_intent : RoutingIntent
  pub strategy_key : Option String
  pub candidate_id : Option String
  pub holding_type : Option TradingStyle
  pub order_fields : OrderFields
  pub open order_fields use *
  pub created_at : DateTime

-- `populate_order_id` for a payload without an order id; `fresh` is what `uuid4` gives
unfoldable pub populate_order_id : Uuid5 → Uuid → Option Uuid → TradeMode → Side → Uuid
unfolding deterministic_order_id
populate_order_id uuid5 fresh none mode side = fresh
populate_order_id uuid5 fresh (some signal) mode side =
    deterministic_order_id uuid5 signal mode side

-- The constraints that the fields declare, and `validate_stop_loss_intent`.
unfoldable pub order_ok : OrderRequest → Bool
unfolding identity_ok
order_ok o =
    leb 1 o.quantity
    && absent_or is_fraction o.stop_loss_pct
    && absent_or (leb 1) o.max_hold_days
    && identity_ok o.strategy_key o.candidate_id
    && not (is_paper_only o.routing_intent && not (is_paper o.trade_mode))
    && not (is_some o.stop_loss_price && is_some o.stop_loss_pct)
    && not (is_some o.stop_loss_pct && not (is_buy_side o.side))
    && not (is_some o.stop_loss_pct && not (is_paper o.trade_mode))

unfoldable pub validate_order : OrderRequest → Result OrderRequest
unfolding order_ok
validate_order o = if order_ok o then ok o else raised value_error
