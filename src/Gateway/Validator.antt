-- ===== src/Gateway/Validator.antt =====
-- services/gateway/src/gateway/validator.py
pub mod Safety
use roboinvest.Prelude.{
  ℕ, Bool, false, not, ◌&&◌, Option, none, some, ltb, if◌then◌else◌, is_some, Result, ok, raised,
  assertion_error,
}
use roboinvest.Decimal.{Decimal}
use roboinvest.Contracts.Enums.{Action, is_hold, is_live, is_paper, is_paper_only}
use roboinvest.Contracts.Risk.{
  RiskCheck, KillSwitchState, reject, pass_with, action_hold, paper_only_signal_in_live_mode,
  relative_stop_live_unsupported, already_long, no_position_for_sell,
}
use roboinvest.Contracts.Signal.{UnifiedTradeSignal}
use roboinvest.Gateway.Config.{RiskConfig}
use roboinvest.Gateway.KillSwitch.{evaluate}
use roboinvest.Gateway.Lots.{calculate}

-- `existing_long_quantity is not None and existing_long_quantity > 0`
abbrev pub holds_long : Option ℕ → Bool
holds_long none = false
holds_long (some q) = ltb 0 q

-- the SELL branch: the whole position is sold
unfoldable pub sell_all : Option ℕ → RiskCheck
sell_all none = reject no_position_for_sell
sell_all (some q) = if ltb 0 q then pass_with q else reject no_position_for_sell

-- the branches behind the kill switch
unfoldable pub validate_action :
    Action
    → UnifiedTradeSignal
    → KillSwitchState
    → RiskConfig
    → Decimal
    → Option ℕ
    → Result RiskCheck
unfolding sell_all
validate_action Action.buy signal state config entry_price existing =
    if is_some signal.stop_loss_pct && is_live state.trade_mode
    then ok (reject relative_stop_live_unsupported)
    else if holds_long existing
    then ok (reject already_long)
    else calculate signal entry_price config
validate_action Action.sell signal state config entry_price existing = ok (sell_all existing)
validate_action Action.hold signal state config entry_price existing = raised assertion_error

unfoldable pub validate :
    UnifiedTradeSignal → KillSwitchState → RiskConfig → Decimal → Option ℕ → Result RiskCheck
unfolding validate_action
validate signal state config entry_price existing =
    let ks = evaluate state in
    if is_hold signal.action
    then ok (reject action_hold)
    else if not ks.passed
    then ok ks
    else if is_paper_only signal.routing_intent && not (is_paper state.trade_mode)
    then ok (reject paper_only_signal_in_live_mode)
    else validate_action signal.action signal state config entry_price existing
