-- ===== src/Gateway/Runner/Services.antt =====
-- services/gateway/src/gateway/streaming/runner.py: what the runner calls. The replies of the database,
-- the broker and Pub/Sub while one message is handled, and the readings of the clocks, are the
-- parameter `Services`; a call that raises has the reply `raised`. pydantic's dumps, `uuid5` and
-- SHA-256 are the parameter `Codec`.
use roboinvest.Prelude.{ℕ, Bool, Option, String, Result}
use roboinvest.Decimal.{Decimal}
use roboinvest.Contracts.Enums.{TradeMode, Side}
use roboinvest.Contracts.Ids.{Uuid, Uuid5}
use roboinvest.Contracts.Time.{DateTime}
use roboinvest.Contracts.Risk.{KillSwitchState}
use roboinvest.Contracts.Signal.{UnifiedTradeSignal}
use roboinvest.Contracts.Order.{OrderRequest}
use roboinvest.Contracts.ScannerGate.{WatchlistReasons}
use roboinvest.Contracts.EventPaper.{Payload, Stage, DispatchResult}
use roboinvest.Gateway.Config.{GatewaySettings, RiskConfig}
use roboinvest.Gateway.Routing.{TopicRouting}

-- clients/supabase.py: the rows that the runner reads
pub record KillSwitchDecision : Type 0 where
  pub state : KillSwitchState
  pub passed : Bool
  pub reason : Option String
  pub disabled : Bool

pub record MarketRegimeState : Type 0 where
  pub regime : String
  pub buy_enabled : Bool

pub record DailyLiquiditySnapshot : Type 0 where
  pub close : Decimal
  pub volume : ℕ
  pub turnover : Decimal

pub record RiskReservationDecision : Type 0 where
  pub passed : Bool
  pub reason : Option String

-- the arguments of `reserve_order_risk`
pub record ReservationRequest : Type 0 where
  pub order_id : Uuid
  pub trade_mode : TradeMode
  pub trading_date : ℕ
  pub symbol : String
  pub side : Side
  pub risk_amount : Decimal
  pub notional_amount : Decimal

pub record Services : Type 0 where
  pub check_kill_switch : Result KillSwitchDecision
  pub has_sell_since : String → TradeMode → DateTime → Result Bool
  pub read_market_regime : ℕ → Result (Option MarketRegimeState)
  pub read_watchlist_reasons : String → ℕ → Result (Option WatchlistReasons)
  pub read_long_quantity : String → TradeMode → Result ℕ
  pub read_latest_price : String → Result (Option Decimal)
  pub read_latest_daily_close : String → Result (Option Decimal)
  pub read_capital_in_use : TradeMode → Result Decimal
  pub read_latest_daily_liquidity : String → Result (Option DailyLiquiditySnapshot)
  -- none where the runner has no `kabu` client
  pub read_stock_account_wallet : Option (Result Decimal)
  pub reserve_order_risk : ReservationRequest → Result RiskReservationDecision
  -- the message id
  pub publish : String → OrderRequest → Result String
  pub read_event_paper_dispatch : Stage → Uuid → Result (Option DispatchResult)
  pub prepare_event_paper_dispatch :
      Stage → Uuid → Payload → Payload → String → Result DispatchResult
  pub begin_event_paper_dispatch : Stage → Uuid → String → DateTime → Result DispatchResult
  pub confirm_event_paper_dispatch :
      Stage → Uuid → String → String → DateTime → Result DispatchResult
  pub mark_event_paper_dispatch_ambiguous : Stage → Uuid → String → DateTime → Result DispatchResult
  -- `wall_clock()` at the start, at the test of the session, and around an attempt
  pub now : DateTime
  pub session_clock : DateTime
  pub attempted_at : DateTime
  pub settled_at : DateTime
  -- `monotonic()` at the test of the cooldowns and when an order is recorded, in microseconds
  pub checked_at : ℕ
  pub recorded_at : ℕ
  -- `uuid4().hex`
  pub attempt_id : String

pub record Codec : Type 0 where
  pub uuid5 : Uuid5
  pub dump_signal : UnifiedTradeSignal → Payload
  pub dump_order : OrderRequest → Payload
  -- the fields of an order's payload, before its validators
  pub load_order : Payload → Option OrderRequest
  -- the fields of a signal's message, before its validators; none for what is no JSON object
  pub load_signal : String → Option UnifiedTradeSignal
  -- of the canonical text
  pub sha256 : Payload → String

-- the fields of `StreamRunner` that no message changes
pub record Runner : Type 0 where
  pub settings : GatewaySettings
  pub risk_config : RiskConfig
  pub routing : TopicRouting
  pub codec : Codec
