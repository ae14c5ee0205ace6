-- ===== src/Gateway/Validator/Safety.antt =====
-- What validator.py guarantees of an accepted signal.
use roboinvest.Prelude.{ℕ, ◌<◌, ◌≡◌, true, false, Option, none, some, ok, arith}
use roboinvest.Decimal.{Decimal}
use roboinvest.Contracts.Enums.{Action, is_live, is_paper, is_paper_only}
use roboinvest.Contracts.Risk.{RiskCheck, KillSwitchState, pass_with}
use roboinvest.Contracts.Signal.{UnifiedTradeSignal}
use roboinvest.Gateway.Config.{RiskConfig}
use roboinvest.Gateway.KillSwitch.{evaluate}
use roboinvest.Gateway.Lots.{calculate}
use roboinvest.Gateway.Validator.{validate, holds_long}

-- The conditions of an accepted BUY, and of an accepted SELL, whose quantity is the whole position.
abbrev pub Admitted :
    Action
    → UnifiedTradeSignal
    → KillSwitchState
    → RiskConfig
    → Decimal
    → Option ℕ
    → RiskCheck
    → Type 0
Admitted Action.buy signal state config entry existing check =
    (holds_long existing ≡ false)
    × (is_live state.trade_mode ≡ true → signal.stop_loss_pct ≡ none)
    × (calculate signal entry config ≡ ok check)
Admitted Action.sell signal state config entry existing check =
    (q : ℕ) × (existing ≡ some q) × (0 < q) × (check ≡ pass_with q)
Admitted Action.hold signal state config entry existing check = ⊥

-- An accepted signal has passed the kill switch, is routed to paper if it is paper-only, and meets the
-- conditions of its action; in particular HOLD is never accepted.
pub validate_admits :
    (signal : UnifiedTradeSignal) (state : KillSwitchState) (config : RiskConfig) (entry : Decimal)
    (existing : Option ℕ) (check : RiskCheck)
    → validate signal state config entry existing ≡ ok check
    → check.passed ≡ true
    → ((evaluate state).passed ≡ true)
      × (is_paper_only signal.routing_intent ≡ true → is_paper state.trade_mode ≡ true)
      × Admitted signal.action signal state config entry existing check
unfolding validate
validate_admits signal state config entry existing check h p = ground arith
