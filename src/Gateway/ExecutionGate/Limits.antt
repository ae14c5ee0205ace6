-- ===== src/Gateway/ExecutionGate/Limits.antt =====
-- When execution_gate.py lets an order pass.
use roboinvest.Prelude.{ℕ, ◌<◌, ◌≡◌, ◌↔◌, true, some, none, Option, arith}
use roboinvest.Decimal
use roboinvest.Decimal.{Decimal, of_ℕ, mul, Le, Lt}
use roboinvest.Contracts.Enums.{is_buy}
use roboinvest.Contracts.Signal.{UnifiedTradeSignal}
use roboinvest.Gateway.ExecutionGate.{ExecutionGateConfig, reject_reason}

-- A limit that is not positive, or a value that is not known, asks nothing.
abbrev pub AtMost : Decimal → Option Decimal → Type 0
AtMost limit none = Unit
AtMost limit (some value) = Lt Decimal.zero limit → Le value limit

abbrev pub DeepEnough : Decimal → ℕ → Option ℕ → Type 0
DeepEnough multiplier quantity none = Unit
DeepEnough multiplier quantity (some depth) =
    Lt Decimal.zero multiplier → Le (mul (of_ℕ quantity) multiplier) (of_ℕ depth)

pub record IsExecutable (signal : UnifiedTradeSignal) (quantity : ℕ) (config : ExecutionGateConfig)
    : Type 0 where
  pub quantity_pos : 0 < quantity
  pub spread : AtMost config.max_spread_bps signal.spread_bps
  pub spread_in_ticks : AtMost config.max_spread_ticks signal.spread_ticks
  pub depth : DeepEnough config.min_ask_depth_multiplier quantity signal.ask_depth_5

-- For a BUY the gate finds no reason exactly when the quantity is positive, the spread is within
-- both active limits, and the ask depth covers the quantity times the active multiplier.
pub reject_reason-none_iff :
    (signal : UnifiedTradeSignal) (quantity : ℕ) (config : ExecutionGateConfig)
    → is_buy signal.action ≡ true
    → (reject_reason signal quantity config ≡ none) ↔ IsExecutable signal quantity config
unfolding reject_reason
reject_reason-none_iff signal quantity config buy = ground arith
