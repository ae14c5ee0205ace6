-- ===== src/Gateway/Runner/SellStages.antt =====
-- services/gateway/src/gateway/streaming/runner.py: the stages that a SELL passes.
use roboinvest.Prelude.{
  ◌≡◌, refl, ap, ℕ, ◌<◌, Bool, true, false, not, ◌&&◌, Option, none, some, ◌∷◌, ok, arith,
  if◌then◌else◌, ltb, is_some,
}
use roboinvest.Decimal
use roboinvest.Decimal.{Decimal}
use roboinvest.Contracts.Enums.{
  TradeMode, Action, Side, OrderType, is_buy, is_live, is_paper, is_paper_only, is_day,
}
use roboinvest.Contracts.Risk.{RiskCheck, KillSwitchState, pass_with}
use roboinvest.Contracts.Signal.{UnifiedTradeSignal}
use roboinvest.Contracts.Order.{OrderRequest}
use roboinvest.Contracts.ScannerGate.{ScannerReason}
use roboinvest.Gateway.ExecutionGate.{GateReason, reject_reason}
use roboinvest.Gateway.KillSwitch.{evaluate}
use roboinvest.Gateway.Validator.{validate}
use roboinvest.Gateway.Builder.{order_for, stop_loss_price}
use roboinvest.Gateway.Runner.Services.{Services, Runner, KillSwitchDecision, MarketRegimeState}
use roboinvest.Gateway.Runner.Handler.{
  State, RejectReason, pure, kill_switch_read, paper_only_signal_in_live_mode, stale_signal,
  market_closed, late_live_buy, insufficient_live_budget, live_qty_cap_below_min_lot,
  liquidity_qty_cap_below_min_lot, soft_loss_rule_only_buy, opening_live_buy,
  same_day_reentry_after_sell, pending_live_order, paper_symbol_order_cooldown,
}
use roboinvest.Gateway.Runner.Gates.{
  is_stale_signal, is_day_session_closed, is_day_late_buy, is_day_opening_buy, is_day_buy,
  deadline_of, prune, pending_key, soft_loss_throttle_blocks_buy, execution_gate_reject_reason,
}
use roboinvest.Gateway.Runner.Caps.{cap_buy_quantity, cap_buy_quantity_by_liquidity}
use roboinvest.Gateway.Runner.Sizing.{
  or_reject, check_execution, resolve_entry, size_order, accept_check, rebudget_buy_quantity,
}
use roboinvest.Gateway.Runner.Process.{
  look_up_live, check_regime, check_scanner, read_kill_switch, has_same_symbol_sell_today,
  has_pending_paper_buy_order, admit, check_market, read_market_regime_for_signal,
  read_scanner_gate,
}
use roboinvest.Gateway.Runner.Progress.{
  Goes, Goes-bind, Goes-lift, Goes-unless, Goes-pure, Goes-under, lift-Goes, reject_if-Goes,
  and_false,
}

-- a market order for the whole position
abbrev pub sell_order : Runner → Services → UnifiedTradeSignal → TradeMode → ℕ → OrderRequest
sell_order r w signal mode q =
    order_for r.codec.uuid5 w.now signal q mode OrderType.market none Side.sell (
      stop_loss_price signal.stop_loss_price signal.stop_loss_pct Action.sell none
        (some r.risk_config.default_stop_loss_spread_pct))

-- no live cooldown of the signal's symbol and action is running
abbrev pub NotPending : Services → UnifiedTradeSignal → TradeMode → State → Type 0
NotPending w signal mode s =
    is_live mode ≡ true
    → is_some
        (deadline_of (pending_key signal mode) (prune w.checked_at s.pending_live_order_deadlines))
      ≡ false

module _ (r : Runner) (w : Services) (signal : UnifiedTradeSignal) where
  pub read-Goes :
      (d : KillSwitchDecision)
      → w.check_kill_switch ≡ ok d
      → d.passed ≡ true
      → Goes
          (NotPending w signal d.state.trade_mode)
          (read_kill_switch r w signal)
          (λ x s. (x ≡ d) × NotPending w signal d.state.trade_mode s)
  unfolding read_kill_switch
  read-Goes d reads passed = Goes-lift _ d reads record {
    run = λ s p. (d, record s { trace = kill_switch_read d ∷ s.trace }, rw passed, (refl, p));
  }

  module _ (sell : signal.action ≡ Action.sell) where
    pub not_buy : is_buy signal.action ≡ false
    not_buy = ap is_buy sell

    not_day_buy : is_day_buy signal ≡ false
    not_day_buy = and_false (is_day signal.holding_type) not_buy

    late : is_day_late_buy r.settings signal w.now ≡ false
    unfolding is_day_late_buy
    late = ground (arith, not_day_buy)

    opening : is_day_opening_buy r.settings signal w.now ≡ false
    unfolding is_day_opening_buy
    opening = ground (arith, not_day_buy)

    sold_today : (mode : TradeMode) → has_same_symbol_sell_today r w signal mode ≡ ok false
    unfolding has_same_symbol_sell_today
    sold_today mode = ground (arith, not_day_buy)

    live-Goes :
        (mode : TradeMode) (live : Bool)
        → is_live mode ≡ live
        → Goes
            (NotPending w signal mode)
            (if live then look_up_live r w signal mode else pure false)
            (λ b _. (b ≡ false) × Unit {0})
    unfolding look_up_live
    live-Goes mode true e = record {
      run = λ s p. (
        is_some (
            deadline_of (pending_key signal mode)
              (prune w.checked_at s.pending_live_order_deadlines)),
        record s {
          pending_live_order_deadlines = prune w.checked_at s.pending_live_order_deadlines;
        },
        refl,
        (p e, tt),
      );
    }
    live-Goes mode false e = Goes-pure false (λ s p. (refl, tt))

    paper-Goes :
        (mode : TradeMode)
        → Goes
            (λ _. Unit {0})
            (has_pending_paper_buy_order r w signal mode)
            (λ b _. (b ≡ false) × Unit {0})
    unfolding has_pending_paper_buy_order
    paper-Goes mode = rw no_cooldown (Goes-pure false (λ s p. (refl, tt)))
      where
        no_cooldown :
            (is_paper mode && is_buy signal.action && ltb 0 r.settings.paper_symbol_order_cooldown)
            ≡ false
        no_cooldown = ground (arith, not_buy)

    pub admit-Goes :
        (mode : TradeMode)
        → (is_paper_only signal.routing_intent && not (is_paper mode)) ≡ false
        → is_stale_signal r.settings signal w.now ≡ false
        → is_day_session_closed r.settings signal w.session_clock ≡ false
        → Goes (NotPending w signal mode) (admit r w signal mode) (λ _ _. Unit {0})
    unfolding admit
    admit-Goes mode routed fresh open_session =
        Goes-unless _ paper_only_signal_in_live_mode routed (
          Goes-unless _ stale_signal fresh (
            Goes-unless _ market_closed open_session (
              Goes-unless _ late_live_buy late (
                Goes-unless _ opening_live_buy opening (
                  Goes-bind _ (lift-Goes false (sold_today mode)) λ sold. Goes-under λ unsold.
                    Goes-unless _ same_day_reentry_after_sell unsold (
                      Goes-bind _ (live-Goes mode (is_live mode) refl) λ pending.
                        Goes-under λ none_pending. Goes-unless _ pending_live_order none_pending (
                          Goes-bind _ (paper-Goes mode) λ cooling. Goes-under λ none_cooling.
                            reject_if-Goes paper_symbol_order_cooldown none_cooling)))))))

    pub market-Goes :
        (state : KillSwitchState)
        → Goes (λ _. Unit {0}) (check_market r w signal state) (λ _ _. Unit {0})
    unfolding check_market
    market-Goes state = Goes-unless _ soft_loss_rule_only_buy (soft state) (
        Goes-bind _ (lift-Goes none no_regime) λ regime. Goes-under λ is_none_regime.
          Goes-bind _ (regime-Goes state.trade_mode regime is_none_regime) λ _.
            Goes-bind _ (lift-Goes none no_reason)
              λ reason. Goes-under λ is_none_reason. scanner-Goes reason is_none_reason)
      where
        soft :
            (state : KillSwitchState)
            → (soft_loss_throttle_blocks_buy r.settings signal state
                && r.settings.soft_loss_throttle_guard_enabled)
              ≡ false
        soft state = rw not_buy

        no_regime : read_market_regime_for_signal r w signal ≡ ok none
        no_regime = rw not_buy

        no_reason : read_scanner_gate r w signal ≡ ok none
        no_reason = rw not_buy

        regime-Goes :
            (mode : TradeMode) (regime : Option MarketRegimeState)
            → regime ≡ none
            → Goes (λ _. Unit {0}) (check_regime r w signal mode regime) (λ _ _. Unit {0})
        regime-Goes mode none e = Goes-pure tt (λ s p. tt)
        regime-Goes mode (some x) e = cc

        scanner-Goes :
            (reason : Option ScannerReason)
            → reason ≡ none
            → Goes (λ _. Unit {0}) (check_scanner r w signal reason) (λ _ _. Unit {0})
        scanner-Goes none e = Goes-pure tt (λ s p. tt)
        scanner-Goes (some x) e = cc

    pub entry-Goes :
        (mode : TradeMode) (q : ℕ)
        → w.read_long_quantity signal.symbol mode ≡ ok q
        → Goes
            (λ _. Unit {0})
            (resolve_entry w signal mode signal.action)
            (λ e s. (e ≡ (some q, none)) × Unit {0})
    unfolding resolve_entry
    entry-Goes mode q reads =
        rw sell (Goes-lift _ q reads (Goes-pure (some q, none) (λ s p. (refl, tt))))

    module _ (state : KillSwitchState) (q : ℕ) (pos : 0 < q)
        (switch : (evaluate state).passed ≡ true)
        (routed : (is_paper_only signal.routing_intent && not (is_paper state.trade_mode))
          ≡ false) where
      -- the whole position is accepted
      validated :
          (price : Decimal) → validate signal state r.risk_config price (some q) ≡ ok (pass_with q)
      unfolding validate
      validated price = rw (sell, switch, routed) (ground (arith, pos))

      accepted :
          (check : RiskCheck)
          → check ≡ pass_with q
          → Goes (λ _. Unit {0}) (accept_check check) (λ b s. (b ≡ q) × Unit {0})
      unfolding accept_check
      accepted check e = rw (e, below) (Goes-pure q (λ s p. (refl, tt)))
        where
          below : ltb 0 q ≡ true
          below = ground arith

      rebudgeted :
          (allowed : ℕ)
          → allowed ≡ q
          → Goes
              (λ _. Unit {0})
              (rebudget_buy_quantity r.risk_config w signal state.trade_mode none allowed)
              (λ b s. (b ≡ some q) × Unit {0})
      unfolding rebudget_buy_quantity
      rebudgeted allowed e = Goes-pure (some allowed) (λ s p. (ap some e, tt))

      kept :
          (reason : RejectReason) (o : Option ℕ)
          → o ≡ some q
          → Goes (λ _. Unit {0}) (or_reject reason o) (λ b s. (b ≡ q) × Unit {0})
      unfolding or_reject
      kept reason o e = rw e (Goes-pure q (λ s p. (refl, tt)))

      uncapped : (n : ℕ) → n ≡ q → cap_buy_quantity r signal n ≡ ok (some q)
      unfolding cap_buy_quantity
      uncapped n e = rw (not_buy, e)

      liquid : (n : ℕ) → n ≡ q → cap_buy_quantity_by_liquidity r w signal n ≡ ok (some q)
      unfolding cap_buy_quantity_by_liquidity
      liquid n e = rw (not_buy, e)

      no_gate : (n : ℕ) → execution_gate_reject_reason r.settings signal n ≡ none
      unfolding execution_gate_reject_reason reject_reason
      no_gate n = rw not_buy (either_none _)
        where
          either_none : (t : Bool) → ◌≡◌ {A = Option GateReason} (if t then none else none) none
          either_none true = refl
          either_none false = refl

      ungated :
          (n : ℕ) → Goes (λ _. Unit {0}) (check_execution r.settings signal n) (λ _ _. Unit {0})
      unfolding check_execution
      ungated n = rw (no_gate n) (Goes-pure tt (λ s p. tt))

      pub size-Goes :
          Goes
            (λ _. Unit {0})
            (size_order r w signal state (some q) none)
            (λ b s. (b ≡ q) × Unit {0})
      unfolding size_order
      size-Goes = Goes-bind _ (lift-Goes (pass_with q) (validated Decimal.zero)) λ check.
          Goes-under λ is_check. Goes-bind _ (accepted check is_check) λ allowed.
            Goes-under λ is_allowed. Goes-bind _ (rebudgeted allowed is_allowed) λ budget.
              Goes-under λ is_budget.
                Goes-bind _ (kept insufficient_live_budget budget is_budget) λ n. Goes-under λ is_n.
                  Goes-bind _ (lift-Goes (some q) (uncapped n is_n)) λ cap. Goes-under λ is_cap.
                    Goes-bind _ (kept live_qty_cap_below_min_lot cap is_cap) λ capped.
                      Goes-under λ is_capped.
                        Goes-bind _ (lift-Goes (some q) (liquid capped is_capped)) λ liquid_cap.
                          Goes-under λ is_liquid.
                            Goes-bind _ (kept liquidity_qty_cap_below_min_lot liquid_cap is_liquid)
                              λ quantity. Goes-under λ is_quantity.
                                Goes-bind _ (ungated quantity)
                                  λ _. Goes-pure quantity (λ s p. (is_quantity, tt))
