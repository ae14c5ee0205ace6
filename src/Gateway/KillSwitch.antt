-- ===== src/Gateway/KillSwitch.antt =====
-- services/gateway/src/gateway/kill_switch.py
pub mod Losses
use roboinvest.Prelude.{not, if◌then◌else◌}
use roboinvest.Decimal.{leb, neg}
use roboinvest.Contracts.Enums.{is_paper}
use roboinvest.Contracts.Risk.{
  RiskCheck, KillSwitchState, reject, pass, kill_switch_off, daily_loss_limit, weekly_loss_limit,
  monthly_loss_limit,
}

unfoldable pub evaluate : KillSwitchState → RiskCheck
evaluate state =
    if not state.is_trading_allowed
    then reject kill_switch_off
    else if is_paper state.trade_mode
    then pass
    else if leb state.daily_pnl (neg state.daily_loss_limit)
    then reject daily_loss_limit
    else if leb state.weekly_pnl (neg state.weekly_loss_limit)
    then reject weekly_loss_limit
    else if leb state.monthly_pnl (neg state.monthly_loss_limit)
    then reject monthly_loss_limit
    else pass
