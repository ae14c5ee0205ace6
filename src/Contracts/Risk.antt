-- ===== src/Contracts/Risk.antt =====
-- contracts/python/trade_contracts/risk.py; the reason codes are those that the gateway writes.
use roboinvest.Prelude.{ℕ, Bool, true, false, Option, none, some}
use roboinvest.Decimal.{Decimal}
use roboinvest.Contracts.Enums.{TradeMode, TradingStyle}

pub data Reason : Type 0 where
  kill_switch_off daily_loss_limit weekly_loss_limit monthly_loss_limit : Reason
  action_hold paper_only_signal_in_live_mode relative_stop_live_unsupported : Reason
  already_long no_position_for_sell : Reason
  invalid_entry_price invalid_stop_loss invalid_risk_config below_min_lot : Reason

pub record RiskCheck : Type 0 where
  pub passed : Bool
  pub reason : Option Reason
  pub adjusted_quantity : Option ℕ

abbrev pub reject : Reason → RiskCheck
reject r = record { passed = false; reason = some r; adjusted_quantity = none }

abbrev pub pass : RiskCheck
pass = record { passed = true; reason = none; adjusted_quantity = none }

abbrev pub pass_with : ℕ → RiskCheck
pass_with q = record { passed = true; reason = none; adjusted_quantity = some q }

pub record KillSwitchState : Type 0 where
  pub is_trading_allowed : Bool
  pub trade_mode : TradeMode
  pub trading_style : TradingStyle
  pub daily_pnl : Decimal
  pub weekly_pnl : Decimal
  pub monthly_pnl : Decimal
  pub daily_loss_limit : Decimal
  pub weekly_loss_limit : Decimal
  pub monthly_loss_limit : Decimal
