-- ===== src/Contracts/Signal.antt =====
-- contracts/python/trade_contracts/signal.py: the signals and their validators.
pub mod Identity
use Prim.Native.Char.{code}
use roboinvest.Prelude.{
  ℕ, Bool, true, false, not, ◌&&◌, ◌||◌, Option, none, some, String, leb, ◌==◌, if◌then◌else◌,
  is_some, absent_or, Result, ok, raised, value_error,
}
use roboinvest.Decimal.{Decimal, leb as leb_Decimal, ltb, zero, one}
use roboinvest.Contracts.Enums.{Action, SignalSource, RoutingIntent, TradingStyle, is_buy}
use roboinvest.Contracts.Ids.{Uuid}
use roboinvest.Contracts.Time.{DateTime}

-- `ORDER_FIELD_NAMES`
pub record OrderFields : Type 0 where
  pub stop_loss_price : Option Decimal
  pub stop_loss_pct : Option Decimal
  pub target_price : Option Decimal
  pub trailing_stop_pct : Option Decimal
  pub max_hold_days : Option ℕ
  pub scheduled_exit_date : Option ℕ
  pub scheduled_exit_time : Option ℕ

-- `EXECUTION_FIELD_NAMES`
pub record ExecutionFields : Type 0 where
  pub best_bid : Option Decimal
  pub best_ask : Option Decimal
  pub spread_bps : Option Decimal
  pub tick_size : Option Decimal
  pub spread_ticks : Option Decimal
  pub bid_depth_1 : Option ℕ
  pub ask_depth_1 : Option ℕ
  pub bid_depth_5 : Option ℕ
  pub ask_depth_5 : Option ℕ
  pub book_imbalance_5 : Option Decimal
  pub minutes_from_open : Option ℕ
  pub minutes_to_close : Option ℕ
  pub session_phase : Option String

-- `confidence` is the decimal that `str` prints for the float.
pub record StrategySignal : Type 0 where
  pub signal_id : Uuid
  pub source : SignalSource
  pub routing_intent : RoutingIntent
  pub strategy_key : Option String
  pub candidate_id : Option String
  pub symbol : String
  pub price : Option Decimal
  pub action : Action
  pub confidence : Decimal
  pub holding_type : Option TradingStyle
  pub order_fields : OrderFields
  pub open order_fields use *
  pub execution_fields : ExecutionFields
  pub open execution_fields use *
  pub created_at : DateTime

pub record UnifiedTradeSignal : Type 0 where
  pub signal_id : Uuid
  pub routing_intent : RoutingIntent
  pub strategy_key : Option String
  pub candidate_id : Option String
  pub symbol : String
  pub price : Option Decimal
  pub action : Action
  pub confidence : Decimal
  pub signal_source : SignalSource
  pub strategy_signal_id_a : Option Uuid
  pub strategy_signal_id_b : Option Uuid
  pub holding_type : TradingStyle
  pub order_fields : OrderFields
  pub open order_fields use *
  pub execution_fields : ExecutionFields
  pub open execution_fields use *
  pub created_at : DateTime

-- `str.isspace` of one character
is_space : ℕ → Bool
is_space c =
    leb 9 c && leb c 13
    || leb 28 c && leb c 32
    || c == 133
    || c == 160
    || c == 5760
    || leb 8192 c && leb c 8202
    || c == 8232
    || c == 8233
    || c == 8239
    || c == 8287
    || c == 12288

-- `not s.strip()`
unfoldable pub is_blank : String → Bool
unfolding is_space
is_blank String.[] = true
is_blank (String.◌∷◌ c s) = is_space (code c) && is_blank s

-- The identity part of each validator: both or none, and not blank.
unfoldable pub identity_ok : Option String → Option String → Bool
unfolding is_blank
identity_ok none none = true
identity_ok (some k) (some c) = not (is_blank k) && not (is_blank c)
identity_ok _ _ = false

-- `Field(gt=0, lt=1)` of `stop_loss_pct`
abbrev pub is_fraction : Decimal → Bool
is_fraction p = ltb zero p && ltb p one

-- The constraints that the two signal models declare on their fields, and `validate_stop_loss_intent`.
-- `min_length=1` of the identity fields follows from their not being blank.
unfoldable pub fields_ok : Option String → Option String → Action → Decimal → OrderFields → Bool
unfolding identity_ok
fields_ok strategy_key candidate_id act confidence f =
    leb_Decimal zero confidence
    && leb_Decimal confidence one
    && absent_or is_fraction f.stop_loss_pct
    && absent_or (leb 1) f.max_hold_days
    && identity_ok strategy_key candidate_id
    && not (is_some f.stop_loss_price && is_some f.stop_loss_pct)
    && not (is_some f.stop_loss_pct && not (is_buy act))

unfoldable pub validate_strategy_signal : StrategySignal → Result StrategySignal
unfolding fields_ok
validate_strategy_signal s =
    if fields_ok s.strategy_key s.candidate_id s.action s.confidence s.order_fields
    then ok s
    else raised value_error

unfoldable pub validate_unified_signal : UnifiedTradeSignal → Result UnifiedTradeSignal
unfolding fields_ok
validate_unified_signal s =
    if fields_ok s.strategy_key s.candidate_id s.action s.confidence s.order_fields
    then ok s
    else raised value_error

abbrev pub no_order_fields : OrderFields
no_order_fields = record {
  stop_loss_price = none;
  stop_loss_pct = none;
  target_price = none;
  trailing_stop_pct = none;
  max_hold_days = none;
  scheduled_exit_date = none;
  scheduled_exit_time = none;
}

abbrev pub no_execution_fields : ExecutionFields
no_execution_fields = record {
  best_bid = none;
  best_ask = none;
  spread_bps = none;
  tick_size = none;
  spread_ticks = none;
  bid_depth_1 = none;
  ask_depth_1 = none;
  bid_depth_5 = none;
  ask_depth_5 = none;
  book_imbalance_5 = none;
  minutes_from_open = none;
  minutes_to_close = none;
  session_phase = none;
}

-- `order_fields_from(payload)`: `None` for a payload that is `None`
unfoldable pub order_fields_from : Option StrategySignal → OrderFields
order_fields_from none = no_order_fields
order_fields_from (some s) = s.order_fields

unfoldable pub execution_fields_from : Option StrategySignal → ExecutionFields
execution_fields_from none = no_execution_fields
execution_fields_from (some s) = s.execution_fields
