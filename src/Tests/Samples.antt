-- ===== src/Tests/Samples.antt =====
-- Concrete signals, orders, books and positions for the tests.
use roboinvest.Prelude.{ℕ, ◌*◌, ◌+◌, false, true, none, some, [], ◌∷◌}
use roboinvest.Decimal.{of_ℕ, ratio}
use roboinvest.Contracts.Enums.{
  Side, Action, SignalSource, OrderType, TradeMode, RoutingIntent, TradingStyle,
}
use roboinvest.Contracts.Ids.{Uuid5, strategy_signal, unified_signal, order_request}
use roboinvest.Contracts.Risk.{KillSwitchState}
use roboinvest.Contracts.Time.{DateTime, day_length}
use roboinvest.Contracts.Signal.{
  UnifiedTradeSignal, OrderFields, no_order_fields, no_execution_fields,
}
use roboinvest.Contracts.Order.{OrderRequest}
use roboinvest.Gateway.Config.{RiskConfig}
use roboinvest.Gateway.ExecutionGate.{ExecutionGateConfig}
use roboinvest.OmsPaper.Models.{PriceLevel, OrderBookSnapshot, PaperPosition}
use roboinvest.OmsPaper.Calendar.{HolidayCalendar}

-- 31 December 2024, and the days after it
abbrev pub new_years_eve : ℕ
new_years_eve = 739_250

-- 9 a.m. in Tokyo of a date
abbrev pub morning : ℕ → DateTime
morning date = record { utc = date * day_length; east = 9 * 60 * 60 * 1_000_000; west = 0 }

abbrev pub some_uuid5 : Uuid5
some_uuid5 strategy_signal parts = 1
some_uuid5 unified_signal parts = 2
some_uuid5 order_request parts = 3

abbrev pub weekends : HolidayCalendar
weekends = record { is_holiday = λ d. false; closed_run = 6 }

abbrev pub stop_at_950 : OrderFields
stop_at_950 = record no_order_fields { stop_loss_price = some (of_ℕ 950) }

abbrev pub buy_signal : UnifiedTradeSignal
buy_signal = record {
  signal_id = 77;
  routing_intent = RoutingIntent.system;
  strategy_key = some "momentum";
  candidate_id = some "c-1";
  symbol = "7203";
  price = some (of_ℕ 1000);
  action = Action.buy;
  confidence = ratio 8 10;
  signal_source = SignalSource.consensus;
  strategy_signal_id_a = some 5;
  strategy_signal_id_b = some 6;
  holding_type = TradingStyle.day;
  order_fields = stop_at_950;
  execution_fields = record no_execution_fields {
    spread_bps = some (of_ℕ 10);
    ask_depth_5 = some 900;
  };
  created_at = morning new_years_eve;
}

abbrev pub calm : KillSwitchState
calm = record {
  is_trading_allowed = true;
  trade_mode = TradeMode.live;
  trading_style = TradingStyle.day;
  daily_pnl = of_ℕ 0;
  weekly_pnl = of_ℕ 100;
  monthly_pnl = of_ℕ 0;
  daily_loss_limit = of_ℕ 30_000;
  weekly_loss_limit = of_ℕ 60_000;
  monthly_loss_limit = of_ℕ 90_000;
}

abbrev pub risk_config : RiskConfig
risk_config = record {
  capital = of_ℕ 1_000_000;
  max_risk_per_trade_pct = ratio 2 100;
  swing_risk_scale = ratio 5 10;
  default_stop_loss_spread_pct = ratio 3 100;
  min_lot_size = 100;
  max_notional_per_order_pct = none;
}

abbrev pub capped_config : RiskConfig
capped_config = record risk_config { max_notional_per_order_pct = some (ratio 3 10) }

abbrev pub gate_config : ExecutionGateConfig
gate_config = record {
  max_spread_bps = of_ℕ 15;
  max_spread_ticks = of_ℕ 0;
  min_ask_depth_multiplier = of_ℕ 2;
}

abbrev pub level : ℕ → ℕ → PriceLevel
level price quantity = record { price = of_ℕ price; quantity = quantity }

abbrev pub book : OrderBookSnapshot
book = record {
  symbol = "7203";
  bids = level 999 300 ∷ level 998 500 ∷ [];
  asks = level 1000 100 ∷ level 1002 500 ∷ level 1005 900 ∷ [];
}

abbrev pub limit_order : OrderRequest
limit_order = record {
  order_id = 3;
  unified_signal_id = some 77;
  symbol = "7203";
  side = Side.buy;
  quantity = 300;
  order_type = OrderType.limit;
  limit_price = some (of_ℕ 1003);
  trade_mode = TradeMode.paper;
  signal_source = SignalSource.consensus;
  routing_intent = RoutingIntent.system;
  strategy_key = some "momentum";
  candidate_id = some "c-1";
  holding_type = some TradingStyle.day;
  order_fields = stop_at_950;
  created_at = morning new_years_eve;
}

abbrev pub sell_order : OrderRequest
sell_order = record limit_order {
  side = Side.sell;
  quantity = 100;
  order_type = OrderType.market;
  limit_price = none;
  order_fields = no_order_fields;
}

abbrev pub day_position : PaperPosition
day_position = record {
  symbol = "7203";
  quantity = 300;
  entry_price = of_ℕ 1000;
  holding_type = TradingStyle.day;
  target_price = some (of_ℕ 1100);
  stop_loss_price = some (of_ℕ 950);
  max_hold_days = some 3;
  scheduled_exit_date = none;
  scheduled_exit_time = none;
  trailing_stop_pct = some (ratio 5 100);
  opened_at = morning new_years_eve;
  position_generation_id = none;
}

abbrev pub swing_position : PaperPosition
swing_position = record day_position {
  symbol = "6758";
  holding_type = TradingStyle.swing;
  scheduled_exit_date = some (new_years_eve + 7);
}
