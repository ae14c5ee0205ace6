-- ===== src/Gateway/KillSwitch/Losses.antt =====
-- When kill_switch.py lets a signal pass.
use roboinvest.Prelude.{◌↔◌, ◌≡◌, true, ◌⊎◌, arith}
use roboinvest.Decimal.{neg, Lt}
use roboinvest.Contracts.Enums.{is_paper}
use roboinvest.Contracts.Risk.{KillSwitchState}
use roboinvest.Gateway.KillSwitch.{evaluate}

-- Each result is above the negated limit.
pub record WithinLimits (state : KillSwitchState) : Type 0 where
  pub daily : Lt (neg state.daily_loss_limit) state.daily_pnl
  pub weekly : Lt (neg state.weekly_loss_limit) state.weekly_pnl
  pub monthly : Lt (neg state.monthly_loss_limit) state.monthly_pnl

-- The switch passes exactly when trading is allowed and, outside paper mode, all three profits are
-- strictly above the negated loss limits.
pub evaluate-passed_iff :
    (state : KillSwitchState)
    → ((evaluate state).passed ≡ true) ↔ (
        (state.is_trading_allowed ≡ true)
        × ((is_paper state.trade_mode ≡ true) ⊎ WithinLimits state))
unfolding evaluate
evaluate-passed_iff state = ground arith
