-- ===== src/Tests/RunnerSamples.antt =====
-- A runner of the gateway, replies and messages for the tests.
use roboinvest.Prelude.{
  ◌+◌, ◌*◌, true, false, none, some, List, [], ◌∷◌, String, ok, raised, service_error, Result,
  str_eq, if◌then◌else◌,
}
use roboinvest.Decimal.{of_ℕ, ratio}
use roboinvest.Contracts.Enums.{Action}
use roboinvest.Contracts.Time.{minute_length}
use roboinvest.Contracts.Signal.{UnifiedTradeSignal, no_order_fields}
use roboinvest.Gateway.Config.{GatewaySettings}
use roboinvest.Gateway.Runner.Services.{Services, Runner, Codec, KillSwitchDecision}
use roboinvest.Gateway.Runner.Handler.{State}
use roboinvest.Gateway.Runner.Batch.{PulledMessage}
use roboinvest.Tests.Samples.{
  buy_signal, calm, risk_config, some_uuid5, morning, new_years_eve, limit_order,
}

abbrev pub settings : GatewaySettings
settings = record {
  capital = of_ℕ 1_000_000;
  max_risk_per_trade_pct = ratio 2 100;
  swing_risk_scale = ratio 5 10;
  default_stop_loss_spread_pct = ratio 3 100;
  max_notional_per_order_pct = none;
  paper_buy_limit_offset_ticks = 0;
  min_lot_size = 100;
  oms_live_max_qty_per_order = some 350;
  live_signal_max_age = some (300 * 1_000_000);
  live_symbol_order_cooldown = 15 * 1_000_000;
  paper_symbol_order_cooldown = 0;
  day_same_symbol_reentry_block_enabled = true;
  market_regime_gateway_log_only_enabled = true;
  market_regime_gateway_guard_enabled = false;
  market_regime_paper_guard_enabled = false;
  soft_loss_throttle_log_only_enabled = true;
  soft_loss_throttle_guard_enabled = false;
  soft_loss_limit_jpy = of_ℕ 20_000;
  execution_gate_log_only_enabled = true;
  execution_gate_guard_enabled = false;
  execution_gate_max_spread_bps = of_ℕ 30;
  execution_gate_max_spread_ticks = of_ℕ 2;
  execution_gate_min_ask_depth_multiplier = of_ℕ 3;
  scanner_gate_log_only_enabled = true;
  scanner_gate_guard_enabled = false;
  scanner_gate_max_risk_penalty = none;
  scanner_gate_max_volume_surge = none;
  scanner_gate_max_momentum = none;
  liquidity_sizing_enabled = true;
  liquidity_thin_daily_volume = 50_000;
  liquidity_thin_daily_turnover_jpy = of_ℕ 50_000_000;
  liquidity_thin_max_qty_per_order = 100;
  liquidity_missing_daily_max_qty_per_order = 100;
  liquidity_max_daily_volume_participation_pct = ratio 1 100;
  live_day_new_buy_start_time = (9, 15);
  live_day_new_buy_cutoff_time = (14, 30);
  day_closeout_time = (14, 50);
}

-- a message is a signal's name
abbrev pub codec : Codec
codec = record {
  uuid5 = some_uuid5;
  dump_signal = λ signal. "signal";
  dump_order = λ order. "order";
  load_order = λ payload. some limit_order;
  load_signal = λ payload.
      if str_eq payload "buy"
      then some record buy_signal {
        created_at = record (morning new_years_eve) {
          utc = new_years_eve * (24 * 60 * 60 * 1_000_000) + 30 * minute_length;
        };
      }
      else none;
  sha256 = λ payload. payload;
}

abbrev pub runner : Runner
runner = record {
  settings = settings;
  risk_config = risk_config;
  routing = record { live_topic = "live-orders"; paper_topic = "paper-orders" };
  codec = codec;
}

abbrev pub passing : KillSwitchDecision
passing = record { state = calm; passed = true; reason = none; disabled = false }

-- half past nine in Tokyo, every call succeeds
abbrev pub services : Services
services = record {
  check_kill_switch = ok passing;
  has_sell_since = λ symbol mode since. ok false;
  read_market_regime = λ date. ok none;
  read_watchlist_reasons = λ symbol date. ok none;
  read_long_quantity = λ symbol mode. ok 0;
  read_latest_price = λ symbol. ok none;
  read_latest_daily_close = λ symbol. ok none;
  read_capital_in_use = λ mode. ok (of_ℕ 200_000);
  read_latest_daily_liquidity =
      λ symbol. ok (some record { close = of_ℕ 1000; volume = 40_000; turnover = of_ℕ 40_000_000 });
  read_stock_account_wallet = some (raised service_error);
  reserve_order_risk = λ request. ok record { passed = true; reason = none };
  publish = λ topic order. ok "m-1";
  read_event_paper_dispatch = λ stage id. ok none;
  prepare_event_paper_dispatch = λ stage id input output topic. raised service_error;
  begin_event_paper_dispatch = λ stage id attempt at. raised service_error;
  confirm_event_paper_dispatch = λ stage id attempt message at. raised service_error;
  mark_event_paper_dispatch_ambiguous = λ stage id attempt at. raised service_error;
  now = record (morning new_years_eve) {
    utc = new_years_eve * (24 * 60 * 60 * 1_000_000) + 30 * minute_length;
  };
  session_clock = record (morning new_years_eve) {
    utc = new_years_eve * (24 * 60 * 60 * 1_000_000) + 30 * minute_length;
  };
  attempted_at = morning new_years_eve;
  settled_at = morning new_years_eve;
  checked_at = 5;
  recorded_at = 7;
  attempt_id = "a-1";
}

-- the publication fails
abbrev pub broken : Services
broken = record services { publish = λ topic order. raised service_error }

abbrev pub fresh_buy : UnifiedTradeSignal
fresh_buy = record buy_signal { created_at = services.now }

abbrev pub fresh_sell : UnifiedTradeSignal
fresh_sell = record fresh_buy { action = Action.sell; order_fields = no_order_fields }

-- 300 shares are held
abbrev pub holding : Services
holding = record services { read_long_quantity = λ symbol mode. ok 300 }

abbrev pub idle : State
idle = record {
  pending_live_order_deadlines = [];
  pending_paper_buy_deadlines = [];
  cached_live_capital = none;
  trace = [];
}

abbrev pub batch : List PulledMessage
batch =
    record { ack_id = "1"; payload = "noise"; services = services }
    ∷ record { ack_id = "2"; payload = "buy"; services = services }
    ∷ []

abbrev pub acknowledged_all : List String → Result (Unit {0})
acknowledged_all ids = ok tt
