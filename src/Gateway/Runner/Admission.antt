-- ===== src/Gateway/Runner/Admission.antt =====
-- services/gateway/src/gateway/streaming/runner.py: the gates of `_process` keep what their writes keep,
-- and `_process` as a whole is its reading of the kill switch, those gates, and what may publish.
use roboinvest.Prelude.{
  ◌∷◌, ◌≡◌, refl, ℕ, Bool, true, false, Option, none, some, ◌&&◌, ok, not, Bool-cases, inl, inr,
  is_some, arith, ltb, if◌then◌else◌, false≢true,
}
use roboinvest.Decimal.{Decimal}
use roboinvest.Contracts.Enums.{TradeMode, Action, is_live, is_paper, is_paper_only}
use roboinvest.Contracts.Risk.{KillSwitchState}
use roboinvest.Contracts.Signal.{UnifiedTradeSignal}
use roboinvest.Contracts.Order.{OrderRequest}
use roboinvest.Contracts.ScannerGate.{ScannerReason}
use roboinvest.Gateway.Runner.Services.{Services, Runner, KillSwitchDecision, MarketRegimeState}
use roboinvest.Gateway.Runner.Handler.{
  ◌>>◌, record_call, return, rejected, kill_switch_read, kill_switch, State, pure, when,
  paper_only_signal_in_live_mode, stale_signal, market_closed, late_live_buy, opening_live_buy,
  same_day_reentry_after_sell, pending_live_order, paper_symbol_order_cooldown,
  soft_loss_rule_only_buy, scanner_gate, market_regime_risk_off,
}
use roboinvest.Gateway.Runner.Gates.{
  is_stale_signal, is_day_session_closed, is_day_late_buy, is_day_opening_buy, prune, deadline_of,
  pending_key, soft_loss_throttle_blocks_buy,
}
use roboinvest.Gateway.Runner.Rules.{
  call-Triple, Triple, Triple-bind, Keeps, Keeps-exit, Keeps-bind, Keeps-map, lift-Keeps,
  pure-Keeps,
}
use roboinvest.Gateway.Runner.Sizing.{refused, entry_price_of, resolve_entry}
use roboinvest.Gateway.Runner.Stages.{
  Stable, reject_if-Keeps, require_entry_price-Keeps, size_order-Keeps,
}
use roboinvest.Gateway.Runner.Journal.{resume_event_paper_dispatch}
use roboinvest.Gateway.Runner.Process.{
  read_kill_switch, has_same_symbol_sell_today, has_pending_live_order, has_pending_paper_buy_order,
  look_up_live, look_up_paper, admit, read_market_regime_for_signal, check_regime,
  read_scanner_gate, check_scanner, check_market, order_of, is_event_paper, place, process,
}

-- what the tests of the cooldowns write
pub record Prunable (w : Services) (I : State → Type 0) : Type 0 where
  pub on_prune_live :
      (s : State)
      → I s
      → I (record s {
        pending_live_order_deadlines = prune w.checked_at s.pending_live_order_deadlines;
      })
  pub on_prune_paper :
      (s : State)
      → I s
      → I (record s {
        pending_paper_buy_deadlines = prune w.checked_at s.pending_paper_buy_deadlines;
      })

-- What the tests before the publication have found: a paper-only signal is handled in paper mode, and
-- what follows from there being no cooldown of a live order.
pub record Passed (signal : UnifiedTradeSignal) (mode : TradeMode) (Cool : Type 0) : Type 0 where
  pub paper_only : is_paper_only signal.routing_intent ≡ true → is_paper mode ≡ true
  pub cool : is_live mode ≡ true → Cool

holds_of_refuted : (a b : Bool) → (a && not b) ≡ false → a ≡ true → b ≡ true
holds_of_refuted a b h e = ground arith

module _ {I : State → Type 0} (stable : Stable I) (r : Runner) (w : Services)
    (signal : UnifiedTradeSignal) where
  check_regime-Keeps :
      (mode : TradeMode) (regime : Option MarketRegimeState)
      → Keeps I (check_regime r w signal mode regime) (λ _. Unit {0})
  unfolding check_regime
  check_regime-Keeps mode none = pure-Keeps tt tt
  check_regime-Keeps mode (some regime) =
      Keeps-map (λ _ _. tt) (reject_if-Keeps stable.rejectable _ market_regime_risk_off)

  check_scanner-Keeps :
      (reason : Option ScannerReason) → Keeps I (check_scanner r w signal reason) (λ _. Unit {0})
  unfolding check_scanner
  check_scanner-Keeps none = pure-Keeps tt tt
  check_scanner-Keeps (some reason) =
      Keeps-map (λ _ _. tt) (reject_if-Keeps stable.rejectable _ (scanner_gate reason))

  check_market-Keeps :
      (state : KillSwitchState) → Keeps I (check_market r w signal state) (λ _. Unit {0})
  unfolding check_market
  check_market-Keeps state =
      Keeps-bind
        (reject_if-Keeps stable.rejectable
          (soft_loss_throttle_blocks_buy r.settings signal state
            && r.settings.soft_loss_throttle_guard_enabled)
          soft_loss_rule_only_buy)
        λ _ _. Keeps-bind (lift-Keeps (read_market_regime_for_signal r w signal)) λ regime _.
          Keeps-bind (check_regime-Keeps state.trade_mode regime) λ _ _.
            Keeps-bind (lift-Keeps (read_scanner_gate r w signal))
              λ reason _. check_scanner-Keeps reason

  resolve_entry-Keeps :
      (mode : TradeMode) (act : Action) → Keeps I (resolve_entry w signal mode act) (λ _. Unit {0})
  unfolding resolve_entry
  resolve_entry-Keeps mode Action.buy =
      Keeps-bind (lift-Keeps (w.read_long_quantity signal.symbol mode)) λ existing _.
        elim (Bool-cases (ltb 0 existing)) [
          | inl held ↦ rw held (pure-Keeps (some existing, none) tt)
          | inr flat ↦ rw flat (
              Keeps-bind (lift-Keeps (entry_price_of w signal mode)) λ price _.
                Keeps-bind (require_entry_price-Keeps stable.rejectable price)
                  λ entry_price _. pure-Keeps (some existing, entry_price) tt)
        ]
  resolve_entry-Keeps mode Action.sell =
      Keeps-bind (lift-Keeps (w.read_long_quantity signal.symbol mode))
        λ existing _. pure-Keeps (some existing, none) tt
  resolve_entry-Keeps mode Action.hold = pure-Keeps (none, none) tt

  module _ (prunable : Prunable w I) {Cool : Type 0} (mode : TradeMode)
      (cool : (s : State)
        → I s
        → is_live mode ≡ true
        → is_some (
            deadline_of
              (pending_key signal mode)
              (prune w.checked_at s.pending_live_order_deadlines))
          ≡ false
        → Cool) where
    look_up_live-Keeps :
        is_live mode ≡ true → Keeps I (look_up_live r w signal mode) (λ b. b ≡ false → Cool)
    unfolding look_up_live
    look_up_live-Keeps live = record {
      run = λ s h. (prunable.on_prune_live s h, λ e. cool s h live e);
    }

    look_up_paper-Keeps : Keeps I (look_up_paper r w signal mode) (λ _. Unit {0})
    unfolding look_up_paper
    look_up_paper-Keeps = record { run = λ s h. (prunable.on_prune_paper s h, tt) }

    has_pending_live_order-Keeps :
        Keeps I
          (has_pending_live_order r w signal mode)
          (λ b. b ≡ false → is_live mode ≡ true → Cool)
    unfolding has_pending_live_order
    has_pending_live_order-Keeps = elim (Bool-cases (is_live mode)) [
      | inl live ↦ rw live (Keeps-map (λ b found e _. found e) (look_up_live-Keeps live))
      | inr paper ↦ rw paper (pure-Keeps false (λ e l. absurd (false≢true l)))
    ]

    when_cooling-Keeps :
        (on : Bool)
        → Keeps I (if on then look_up_paper r w signal mode else pure false) (λ _. Unit {0})
    when_cooling-Keeps true = look_up_paper-Keeps
    when_cooling-Keeps false = pure-Keeps false tt

    has_pending_paper_buy_order-Keeps :
        Keeps I (has_pending_paper_buy_order r w signal mode) (λ _. Unit {0})
    unfolding has_pending_paper_buy_order
    has_pending_paper_buy_order-Keeps = when_cooling-Keeps _

    pub admit-Keeps : Keeps I (admit r w signal mode) (λ _. Passed signal mode Cool)
    unfolding admit
    admit-Keeps =
        Keeps-bind
          (reject_if-Keeps stable.rejectable
            (is_paper_only signal.routing_intent && not (is_paper mode))
            paper_only_signal_in_live_mode)
          λ _ routed.
            Keeps-bind
              (reject_if-Keeps stable.rejectable (is_stale_signal r.settings signal w.now)
                stale_signal)
              λ _ _.
                Keeps-bind
                  (reject_if-Keeps stable.rejectable
                    (is_day_session_closed r.settings signal w.session_clock) market_closed)
                  λ _ _.
                    Keeps-bind
                      (reject_if-Keeps stable.rejectable (is_day_late_buy r.settings signal w.now)
                        late_live_buy)
                      λ _ _.
                        Keeps-bind
                          (reject_if-Keeps stable.rejectable
                            (is_day_opening_buy r.settings signal w.now) opening_live_buy)
                          λ _ _.
                            Keeps-bind (lift-Keeps (has_same_symbol_sell_today r w signal mode))
                              λ sold _.
                                Keeps-bind
                                  (reject_if-Keeps stable.rejectable sold
                                    same_day_reentry_after_sell)
                                  λ _ _. Keeps-bind has_pending_live_order-Keeps λ pending found.
                                    Keeps-bind
                                      (reject_if-Keeps stable.rejectable pending pending_live_order)
                                      λ _ not_pending.
                                        Keeps-bind has_pending_paper_buy_order-Keeps λ cooling _.
                                          Keeps-map
                                            (λ _ _. record {
                                              paper_only = λ e. holds_of_refuted _ _ routed e;
                                              cool = λ live. found not_pending live;
                                            })
                                            (reject_if-Keeps stable.rejectable cooling
                                              paper_symbol_order_cooldown)

-- A rule for the reading of the kill switch.
module _ (r : Runner) (w : Services) (signal : UnifiedTradeSignal) {Start End : State → Type 0}
    {I Seen : KillSwitchDecision → State → Type 0} (skip : (s : State) → Start s → End s)
    (saw : (d : KillSwitchDecision) (s : State)
      → Start s
      → Seen d (record s { trace = kill_switch_read d ∷ s.trace }))
    (go : (d : KillSwitchDecision) (s : State) → d.passed ≡ true → Seen d s → I d s)
    (stop : (d : KillSwitchDecision) (s : State)
      → Seen d s
      → End (record s { trace = rejected (kill_switch d.reason) ∷ s.trace })) where
  passed-Triple :
      (d : KillSwitchDecision) (passed : Bool)
      → d.passed ≡ passed
      → Triple
          (Seen d)
          (if passed then pure d else do
            record_call (rejected (kill_switch d.reason))
            return record refused { kill_switch_fired = d.disabled })
          I
          End
  passed-Triple d true e = record { run = λ s h. go d s e h }
  passed-Triple d false e = record { run = λ s h. stop d s h }

  pub read-Triple : Triple Start (read_kill_switch r w signal) I End
  unfolding read_kill_switch
  read-Triple = Keeps-bind (Keeps-exit skip (lift-Keeps w.check_kill_switch)) λ d _.
      Triple-bind (call-Triple {Q = Seen d} (kill_switch_read d) (saw d))
        λ _. passed-Triple d d.passed refl

-- A rule for `_process`: what holds before it, what the reading of the kill switch establishes and the
-- gates keep, and what holds at every end.
module _ (r : Runner) (w : Services) (signal : UnifiedTradeSignal) {Start End : State → Type 0}
    {I : KillSwitchDecision → State → Type 0} {Cool : KillSwitchDecision → Type 0}
    (settle : (d : KillSwitchDecision) (s : State) → I d s → End s)
    (read : Triple Start (read_kill_switch r w signal) I End)
    (stable : (d : KillSwitchDecision) → Stable (I d))
    (prunable : (d : KillSwitchDecision) → Prunable w (I d))
    (cool : (d : KillSwitchDecision) (s : State)
      → I d s
      → is_live d.state.trade_mode ≡ true
      → is_some (
          deadline_of
            (pending_key signal d.state.trade_mode)
            (prune w.checked_at s.pending_live_order_deadlines))
        ≡ false
      → Cool d)
    (resume : (d : KillSwitchDecision)
      → is_event_paper r w signal ≡ true
      → Passed signal d.state.trade_mode (Cool d)
      → Triple (I d) (resume_event_paper_dispatch r w signal) (λ _. I d) End)
    (placed : (d : KillSwitchDecision) (entry_price : Option Decimal) (quantity : ℕ)
        (order : OrderRequest)
      → Passed signal d.state.trade_mode (Cool d)
      → order_of r w signal d.state.trade_mode entry_price quantity ≡ ok order
      → Triple (I d) (place r w signal d.state.trade_mode entry_price order) (λ _. End) End) where
  resume-Triple :
      (d : KillSwitchDecision) (event : Bool)
      → is_event_paper r w signal ≡ event
      → Passed signal d.state.trade_mode (Cool d)
      → Triple (I d) (when event (resume_event_paper_dispatch r w signal)) (λ _. I d) End
  resume-Triple d true e p = resume d e p
  resume-Triple d false e p = record { run = λ s h. h }

  pub process-Triple : Triple Start (process r w signal) (λ _. End) End
  unfolding process
  process-Triple = Triple-bind read λ d.
      Keeps-bind
        (Keeps-exit (settle d)
          (admit-Keeps (stable d) r w signal (prunable d) d.state.trade_mode (cool d)))
        λ _ found. Triple-bind (resume-Triple d (is_event_paper r w signal) refl found) λ _.
          Keeps-bind (Keeps-exit (settle d) (check_market-Keeps (stable d) r w signal d.state))
            λ _ _.
              Keeps-bind
                (Keeps-exit (settle d)
                  (resolve_entry-Keeps (stable d) r w signal d.state.trade_mode signal.action))
                λ entry _.
                  Keeps-bind
                    (Keeps-exit (settle d)
                      (size_order-Keeps (stable d) r w signal d.state entry.0 entry.1))
                    λ quantity _.
                      Keeps-bind
                        (Keeps-exit (settle d)
                          (lift-Keeps (order_of r w signal d.state.trade_mode entry.1 quantity)))
                        λ order built. placed d entry.1 quantity order found built
