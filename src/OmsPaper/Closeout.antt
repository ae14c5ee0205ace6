-- ===== src/OmsPaper/Closeout.antt =====
-- services/oms-paper/src/oms_paper/closeout.py
pub mod Complete
use roboinvest.Prelude.{◌&&◌, none, some, List, ltb, keep_if, map}
use roboinvest.Contracts.Enums.{Side, OrderType, TradeMode, SignalSource, RoutingIntent, is_day}
use roboinvest.Contracts.Ids.{Uuid, Uuid5}
use roboinvest.Contracts.Time.{DateTime}
use roboinvest.Contracts.Signal.{no_order_fields}
use roboinvest.Contracts.Order.{OrderRequest, populate_order_id}
use roboinvest.OmsPaper.Models.{PaperPosition}

-- the market SELL order of one position; `fresh` is what `uuid4` gives for it
unfoldable pub closeout_order :
    Uuid5
    → (PaperPosition → Uuid)
    → DateTime
    → TradeMode
    → SignalSource
    → PaperPosition
    → OrderRequest
closeout_order uuid5 fresh created_at trade_mode signal_source p = record {
  order_id = populate_order_id uuid5 (fresh p) none trade_mode Side.sell;
  unified_signal_id = none;
  symbol = p.symbol;
  side = Side.sell;
  quantity = p.quantity;
  order_type = OrderType.market;
  limit_price = none;
  trade_mode = trade_mode;
  signal_source = signal_source;
  routing_intent = RoutingIntent.system;
  strategy_key = none;
  candidate_id = none;
  holding_type = none;
  order_fields = no_order_fields;
  created_at = created_at;
}

unfoldable pub build_closeout_orders :
    Uuid5
    → (PaperPosition → Uuid)
    → DateTime
    → TradeMode
    → SignalSource
    → List PaperPosition
    → List OrderRequest
unfolding closeout_order
build_closeout_orders uuid5 fresh created_at trade_mode signal_source positions =
    map (closeout_order uuid5 fresh created_at trade_mode signal_source)
      (keep_if (λ p. is_day p.holding_type && ltb 0 p.quantity) positions)
