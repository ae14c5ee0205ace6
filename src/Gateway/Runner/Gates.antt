-- ===== src/Gateway/Runner/Gates.antt =====
-- services/gateway/src/gateway/streaming/runner.py: the tests of `_process` on a signal, the state of
-- the account and the clocks.
use roboinvest.Prelude.{
  ℕ, ◌-◌, ◌*◌, ◌/◌, Bool, false, not, ◌&&◌, ◌||◌, Option, none, some, [], ◌∷◌, str_eq, ltb, leb,
  ◌==◌, if◌then◌else◌,
}
use roboinvest.Decimal
use roboinvest.Decimal.{Decimal, leb as leb_Decimal, neg}
use roboinvest.Contracts.Enums.{TradeMode, is_buy, is_day, is_rule, is_live, is_paper, same_action}
use roboinvest.Contracts.Time.{DateTime, in_tokyo, time, date, local, minute_length, day_length}
use roboinvest.Contracts.Risk.{KillSwitchState}
use roboinvest.Contracts.Signal.{UnifiedTradeSignal}
use roboinvest.Contracts.ScannerGate.{ScannerGateThresholds}
use roboinvest.Gateway.Config.{GatewaySettings}
use roboinvest.Gateway.ExecutionGate.{GateReason, reject_reason}
use roboinvest.Gateway.Runner.Services.{MarketRegimeState}
use roboinvest.Gateway.Runner.Handler.{PendingKey, Deadlines}

-- `max(0.0, (now - signal.created_at).total_seconds())`, in microseconds
unfoldable pub signal_age : UnifiedTradeSignal → DateTime → ℕ
signal_age signal now = now.utc - signal.created_at.utc

unfoldable pub is_stale_signal : GatewaySettings → UnifiedTradeSignal → DateTime → Bool
unfolding signal_age
is_stale_signal settings signal now = elim settings.live_signal_max_age [
  | none ↦ false
  | some max_age ↦ ltb max_age (signal_age signal now)
]

-- `(t.hour, t.minute) >= (hour, minute)`, compared as Python compares pairs
unfoldable pub reached : ℕ × ℕ → DateTime → Bool
unfolding time local
reached (hour, minute) t =
    let minutes = time t / minute_length in
    ltb hour (minutes / 60) || hour == minutes / 60 && leb minute (minutes - minutes / 60 * 60)

unfoldable pub is_day_session_closed : GatewaySettings → UnifiedTradeSignal → DateTime → Bool
unfolding reached in_tokyo
is_day_session_closed settings signal session_clock =
    is_day signal.holding_type && reached settings.day_closeout_time (in_tokyo session_clock)

abbrev pub is_day_buy : UnifiedTradeSignal → Bool
is_day_buy signal = is_day signal.holding_type && is_buy signal.action

unfoldable pub is_day_late_buy : GatewaySettings → UnifiedTradeSignal → DateTime → Bool
unfolding reached in_tokyo
is_day_late_buy settings signal now =
    is_day_buy signal && reached settings.live_day_new_buy_cutoff_time (in_tokyo now)

unfoldable pub is_day_opening_buy : GatewaySettings → UnifiedTradeSignal → DateTime → Bool
unfolding reached in_tokyo
is_day_opening_buy settings signal now =
    is_day_buy signal && not (reached settings.live_day_new_buy_start_time (in_tokyo now))

-- the start of the local day, in UTC
unfoldable pub day_start : DateTime → DateTime
unfolding date in_tokyo local
day_start now = record {
  utc = date (in_tokyo now) * day_length - (in_tokyo now).east;
  east = 0;
  west = 0;
}

-- `_soft_loss_throttle_blocks_buy`
unfoldable pub soft_loss_throttle_blocks_buy :
    GatewaySettings → UnifiedTradeSignal → KillSwitchState → Bool
soft_loss_throttle_blocks_buy settings signal state =
    is_buy signal.action
    && is_rule signal.signal_source
    && (settings.soft_loss_throttle_log_only_enabled || settings.soft_loss_throttle_guard_enabled)
    && not (leb_Decimal settings.soft_loss_limit_jpy Decimal.zero)
    && leb_Decimal state.daily_pnl (neg settings.soft_loss_limit_jpy)

-- `_market_regime_blocks_buy`
unfoldable pub market_regime_blocks_buy : UnifiedTradeSignal → MarketRegimeState → Bool
market_regime_blocks_buy signal regime =
    is_buy signal.action
    && (str_eq regime.regime "RISK_OFF" || str_eq regime.regime "CRASH" || not regime.buy_enabled)

unfoldable pub market_regime_guard_enabled : GatewaySettings → TradeMode → Bool
market_regime_guard_enabled settings mode =
    settings.market_regime_gateway_guard_enabled
    || is_paper mode && settings.market_regime_paper_guard_enabled

abbrev pub scanner_thresholds : GatewaySettings → ScannerGateThresholds
scanner_thresholds settings = record {
  max_risk_penalty = settings.scanner_gate_max_risk_penalty;
  max_volume_surge = settings.scanner_gate_max_volume_surge;
  max_momentum = settings.scanner_gate_max_momentum;
}

unfoldable pub execution_gate_reject_reason :
    GatewaySettings → UnifiedTradeSignal → ℕ → Option GateReason
execution_gate_reject_reason settings signal quantity =
    if not settings.execution_gate_log_only_enabled && not settings.execution_gate_guard_enabled
    then none
    else reject_reason signal quantity record {
      max_spread_bps = settings.execution_gate_max_spread_bps;
      max_spread_ticks = settings.execution_gate_max_spread_ticks;
      min_ask_depth_multiplier = settings.execution_gate_min_ask_depth_multiplier;
    }

abbrev pub same_mode : TradeMode → TradeMode → Bool
same_mode TradeMode.live mode = is_live mode
same_mode TradeMode.paper mode = is_paper mode

unfoldable pub same_key : PendingKey → PendingKey → Bool
same_key a b = same_mode a.mode b.mode && str_eq a.symbol b.symbol && same_action a.action b.action

-- `_pending_live_order_key` and `_pending_paper_buy_order_key`
abbrev pub pending_key : UnifiedTradeSignal → TradeMode → PendingKey
pending_key signal mode = record { mode = mode; symbol = signal.symbol; action = signal.action }

-- `_prune_pending_live_orders` and `_prune_pending_paper_buy_orders`
unfoldable pub prune : ℕ → Deadlines → Deadlines
prune now [] = []
prune now ((key, deadline) ∷ rest) =
    let kept = prune now rest in if leb deadline now then kept else (key, deadline) ∷ kept

-- `deadlines.get(key)`
unfoldable pub deadline_of : PendingKey → Deadlines → Option ℕ
deadline_of key [] = none
deadline_of key ((k, deadline) ∷ rest) =
    if same_key key k then some deadline else deadline_of key rest

-- `deadlines[key] = deadline`
unfoldable pub set_deadline : PendingKey → ℕ → Deadlines → Deadlines
set_deadline key deadline [] = (key, deadline) ∷ []
set_deadline key deadline ((k, d) ∷ rest) =
    let rest' = set_deadline key deadline rest in
    if same_key key k then (k, deadline) ∷ rest else (k, d) ∷ rest'
