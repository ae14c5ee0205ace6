-- ===== src/Gateway/Config.antt =====
-- services/gateway/src/gateway/config.py: the settings that the checks and the runner read.
use roboinvest.Prelude.{ℕ, Bool, Option}
use roboinvest.Decimal.{Decimal}

pub record RiskConfig : Type 0 where
  pub capital : Decimal
  pub max_risk_per_trade_pct : Decimal
  pub swing_risk_scale : Decimal
  pub default_stop_loss_spread_pct : Decimal
  pub min_lot_size : ℕ
  pub max_notional_per_order_pct : Option Decimal

-- A duration is in microseconds and not negative; a time of day is its hour and minute. The zone
-- `day_closeout_timezone` is Asia/Tokyo.
pub record GatewaySettings : Type 0 where
  pub capital : Decimal
  pub max_risk_per_trade_pct : Decimal
  pub swing_risk_scale : Decimal
  pub default_stop_loss_spread_pct : Decimal
  pub max_notional_per_order_pct : Option Decimal
  pub paper_buy_limit_offset_ticks : ℕ
  pub min_lot_size : ℕ
  pub oms_live_max_qty_per_order : Option ℕ
  pub live_signal_max_age : Option ℕ
  pub live_symbol_order_cooldown : ℕ
  pub paper_symbol_order_cooldown : ℕ
  pub day_same_symbol_reentry_block_enabled : Bool
  pub market_regime_gateway_log_only_enabled : Bool
  pub market_regime_gateway_guard_enabled : Bool
  pub market_regime_paper_guard_enabled : Bool
  pub soft_loss_throttle_log_only_enabled : Bool
  pub soft_loss_throttle_guard_enabled : Bool
  pub soft_loss_limit_jpy : Decimal
  pub execution_gate_log_only_enabled : Bool
  pub execution_gate_guard_enabled : Bool
  pub execution_gate_max_spread_bps : Decimal
  pub execution_gate_max_spread_ticks : Decimal
  pub execution_gate_min_ask_depth_multiplier : Decimal
  pub scanner_gate_log_only_enabled : Bool
  pub scanner_gate_guard_enabled : Bool
  pub scanner_gate_max_risk_penalty : Option Decimal
  pub scanner_gate_max_volume_surge : Option Decimal
  pub scanner_gate_max_momentum : Option Decimal
  pub liquidity_sizing_enabled : Bool
  pub liquidity_thin_daily_volume : ℕ
  pub liquidity_thin_daily_turnover_jpy : Decimal
  pub liquidity_thin_max_qty_per_order : ℕ
  pub liquidity_missing_daily_max_qty_per_order : ℕ
  pub liquidity_max_daily_volume_participation_pct : Decimal
  pub live_day_new_buy_start_time : ℕ × ℕ
  pub live_day_new_buy_cutoff_time : ℕ × ℕ
  pub day_closeout_time : ℕ × ℕ

-- `RiskConfig.from_settings`
unfoldable pub from_settings : GatewaySettings → RiskConfig
from_settings s = record {
  capital = s.capital;
  max_risk_per_trade_pct = s.max_risk_per_trade_pct;
  swing_risk_scale = s.swing_risk_scale;
  default_stop_loss_spread_pct = s.default_stop_loss_spread_pct;
  min_lot_size = s.min_lot_size;
  max_notional_per_order_pct = s.max_notional_per_order_pct;
}
