-- ===== src/Gateway/ExecutionGate.antt =====
-- services/gateway/src/gateway/execution_gate.py
pub mod Limits
use roboinvest.Prelude.{ℕ, not, ◌&&◌, Option, none, some, leb as leb_ℕ, if◌then◌else◌, holds}
use roboinvest.Decimal
use roboinvest.Decimal.{Decimal, of_ℕ, mul, ltb}
use roboinvest.Contracts.Enums.{is_buy}
use roboinvest.Contracts.Signal.{UnifiedTradeSignal}

pub record ExecutionGateConfig : Type 0 where
  pub max_spread_bps : Decimal
  pub max_spread_ticks : Decimal
  pub min_ask_depth_multiplier : Decimal

pub data GateReason : Type 0 where
  execution_invalid_quantity execution_spread_too_wide : GateReason
  execution_spread_ticks_too_wide execution_insufficient_ask_depth : GateReason

unfoldable pub reject_reason : UnifiedTradeSignal → ℕ → ExecutionGateConfig → Option GateReason
reject_reason signal quantity config =
    if not (is_buy signal.action)
    then none
    else if leb_ℕ quantity 0
    then some execution_invalid_quantity
    else if ltb Decimal.zero config.max_spread_bps
        && holds (λ s. ltb config.max_spread_bps s) signal.spread_bps
    then some execution_spread_too_wide
    else if ltb Decimal.zero config.max_spread_ticks
        && holds (λ s. ltb config.max_spread_ticks s) signal.spread_ticks
    then some execution_spread_ticks_too_wide
    else if ltb Decimal.zero config.min_ask_depth_multiplier
        && holds (λ d. ltb (of_ℕ d) (mul (of_ℕ quantity) config.min_ask_depth_multiplier))
            signal.ask_depth_5
    then some execution_insufficient_ask_depth
    else none
