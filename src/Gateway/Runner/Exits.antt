-- ===== src/Gateway/Runner/Exits.antt =====
-- services/gateway/src/gateway/streaming/runner.py: a SELL of a held position is published.
use roboinvest.Prelude.{
  ◌≡◌, refl, sym, ap, ◌∙◌, subst, ℕ, ◌<◌, Bool, true, false, not, ◌&&◌, ◌||◌, Option, none, some,
  List, ◌∷◌, ok, String, arith, if◌then◌else◌, leb, false≢true,
}
use roboinvest.Decimal.{Decimal}
use roboinvest.Contracts.Enums.{
  TradeMode, Action, Side, OrderType, is_live, is_paper, is_paper_only,
}
use roboinvest.Contracts.Ids.{Uuid5}
use roboinvest.Contracts.Time.{DateTime}
use roboinvest.Contracts.Signal.{UnifiedTradeSignal, validate_unified_signal}
use roboinvest.Contracts.Order.{OrderRequest, validate_order}
use roboinvest.Gateway.KillSwitch.{evaluate}
use roboinvest.Gateway.Routing.{resolve_topic}
use roboinvest.Gateway.Builder.{order_for, order_type_and_limit_price, side_for, stop_loss_price}
use roboinvest.Gateway.Runner.Services.{Services, Runner, KillSwitchDecision}
use roboinvest.Gateway.Runner.Handler.{Handler, State, Decision, Call, next, published, when}
use roboinvest.Gateway.Runner.Gates.{is_stale_signal, is_day_session_closed}
use roboinvest.Gateway.Runner.Sizing.{size_order}
use roboinvest.Gateway.Runner.Dispatch.{
  approved, publish_order, reserve_risk, risk_amount_for_order, loss_at_stop,
}
use roboinvest.Gateway.Runner.Journal.{start_event_paper_dispatch}
use roboinvest.Gateway.Runner.Process.{
  admit, process_state, order_of, is_event_paper, place, process,
}
use roboinvest.Gateway.Runner.Progress.{Goes, Goes-bind, Goes-pure, Goes-under, lift-Goes}
use roboinvest.Gateway.Runner.SellStages.{
  NotPending, sell_order, read-Goes, admit-Goes, market-Goes, entry-Goes, size-Goes,
}

-- The order of a valid SELL is valid.
order_for_valid :
    (uuid5 : Uuid5) (now : DateTime) (signal : UnifiedTradeSignal) (q : ℕ) (mode : TradeMode)
    (spread : Option Decimal)
    → signal.action ≡ Action.sell
    → 0 < q
    → validate_unified_signal signal ≡ ok signal
    → (is_paper_only signal.routing_intent && not (is_paper mode)) ≡ false
    → let o =
        order_for uuid5 now signal q mode OrderType.market none Side.sell
          (stop_loss_price signal.stop_loss_price signal.stop_loss_pct Action.sell none spread) in
      validate_order o ≡ ok o
unfolding validate_unified_signal validate_order order_for stop_loss_price
order_for_valid uuid5 now signal q mode spread sell pos valid routed = ground arith

module _ (r : Runner) (w : Services) (signal : UnifiedTradeSignal) (d : KillSwitchDecision) where
  module _ (sell : signal.action ≡ Action.sell) where
    module _ (mode : TradeMode) (q : ℕ) (pos : 0 < q)
        (valid : validate_unified_signal signal ≡ ok signal)
        (routed : (is_paper_only signal.routing_intent && not (is_paper mode)) ≡ false) where
      built : order_of r w signal mode none q ≡ ok (sell_order r w signal mode q)
      unfolding order_of order_type_and_limit_price side_for order_for
      built =
          rw (positive, sell)
            (order_for_valid r.codec.uuid5 w.now signal q mode
              (some r.risk_config.default_stop_loss_spread_pct) sell pos valid routed)
        where
          positive : leb q 0 ≡ false
          positive = ground arith

      module _ (plain : is_event_paper r w signal ≡ false) (message_id : String)
          (sent : w.publish (resolve_topic mode r.routing) (sell_order r w signal mode q)
            ≡ ok message_id) where
        -- approved, and the order published last
        record Sent (a : Decision) (s : State) : Type 0 where
          is_approved : a ≡ approved
          last :
              (t : List Call) × (s.trace
                ≡ published (resolve_topic mode r.routing) (sell_order r w signal mode q) true ∷ t)

        no_risk :
            (o : OrderRequest) (price : Option Decimal)
            → o ≡ (sell_order r w signal mode q)
            → risk_amount_for_order o price ≡ none
        unfolding risk_amount_for_order order_for
        no_risk o price e = rw e (either_none (not (is_live mode)))
          where
            either_none :
                (t : Bool)
                → ◌≡◌ {A = Option Decimal}
                    (if t || true
                      then none
                      else loss_at_stop q price (sell_order r w signal mode q).stop_loss_price)
                    none
            either_none true = refl
            either_none false = refl

        reserve-Goes :
            (o : OrderRequest) (price risk : Option Decimal)
            → risk ≡ none
            → Goes (λ _. Unit {0}) (reserve_risk w o price risk) (λ _ _. Unit {0})
        unfolding reserve_risk
        reserve-Goes o price risk e = rw e (Goes-pure tt (λ s p. tt))

        publish-Goes :
            (o : OrderRequest) (has : Bool)
            → o ≡ (sell_order r w signal mode q)
            → Goes
                (λ _. Unit {0})
                (publish_order r w signal o (resolve_topic mode r.routing) has)
                Sent
        unfolding publish_order
        publish-Goes o has e =
            rw (e, sent)
              record {
                run = λ s p.
                    (approved, _, refl, record { is_approved = refl; last = (s.trace, refl) });
              }

        dispatch-Goes :
            (o : OrderRequest) (has event : Bool)
            → o ≡ (sell_order r w signal mode q)
            → event ≡ false
            → Goes
                (λ _. Unit {0})
                (elim event [
                  | true ↦ start_event_paper_dispatch r w signal o (resolve_topic mode r.routing)
                  | false ↦ publish_order r w signal o (resolve_topic mode r.routing) has
                ])
                Sent
        dispatch-Goes o has true e f = absurd (false≢true (sym f))
        dispatch-Goes o has false e f = publish-Goes o has e

        place-Goes :
            (price : Option Decimal) (o : OrderRequest)
            → o ≡ (sell_order r w signal mode q)
            → Goes (λ _. Unit {0}) (place r w signal mode price o) Sent
        unfolding place
        place-Goes price o e =
            Goes-bind _ (reserve-Goes o _ _ (no_risk o _ e))
              λ _. dispatch-Goes o _ (is_event_paper r w signal) e plain

    when-Goes :
        (m : Handler (Unit {0})) (t : Bool)
        → t ≡ false
        → Goes (λ _. Unit {0}) (when t m) (λ _ _. Unit {0})
    when-Goes m true e = absurd (false≢true (sym e))
    when-Goes m false e = Goes-pure tt (λ s p. tt)

    module _ (q : ℕ) (S : Decision → State → Type 0) (reads : w.check_kill_switch ≡ ok d)
        (passed : d.passed ≡ true)
        (admitted : Goes
          (NotPending w signal d.state.trade_mode)
          (admit r w signal d.state.trade_mode)
          (λ _ _. Unit {0}))
        (plain : is_event_paper r w signal ≡ false)
        (held : w.read_long_quantity signal.symbol d.state.trade_mode ≡ ok q)
        (sized : (e : Option ℕ × Option Decimal)
          → e ≡ (some q, none)
          → Goes
              (λ _. Unit {0})
              (size_order r w signal d.state e.0 e.1)
              (λ b s. (b ≡ q) × Unit {0}))
        (made : (p : Option Decimal) (n : ℕ)
          → p ≡ none
          → n ≡ q
          → order_of r w signal d.state.trade_mode p n
            ≡ ok (sell_order r w signal d.state.trade_mode q))
        (placed : (p : Option Decimal) (o : OrderRequest)
          → o ≡ sell_order r w signal d.state.trade_mode q
          → Goes (λ _. Unit {0}) (place r w signal d.state.trade_mode p o) S) where
      process_state-Goes :
          Goes (NotPending w signal d.state.trade_mode) (process_state r w signal d.state) S
      unfolding process_state
      process_state-Goes = Goes-bind _ admitted λ _.
          Goes-bind _ (when-Goes _ (is_event_paper r w signal) plain) λ _.
            Goes-bind _ (market-Goes r w signal sell d.state) λ _.
              Goes-bind _ (entry-Goes r w signal sell d.state.trade_mode q held) λ e.
                Goes-under λ is_e. Goes-bind _ (sized e is_e) λ n. Goes-under λ is_n.
                  Goes-bind _
                    (lift-Goes (sell_order r w signal d.state.trade_mode q)
                      (made e.1 n (ap (λ (e : Option ℕ × Option Decimal). e.1) is_e) is_n))
                    λ o. Goes-under λ is_o. placed e.1 o is_o

      process-Goes : Goes (NotPending w signal d.state.trade_mode) (process r w signal) S
      unfolding process
      process-Goes = Goes-bind _ (read-Goes r w signal d reads passed) λ x. Goes-under λ is_d.
          subst
            (λ x.
              Goes (NotPending w signal d.state.trade_mode) (process_state r w signal x.state) S)
            (sym is_d) process_state-Goes

  -- A SELL of a held position goes through: when the kill switch passes, the signal is valid, fresh and in
  -- session, is not a paper-only signal in live mode nor an event-paper signal, no cooldown of a live
  -- order for its symbol is running, and the publication succeeds, then `_process` approves it and
  -- publishes a market order for the whole position to the topic of the mode. No gate for BUYs, no budget
  -- and no reservation of risk stands in the way.
  pub process_sell :
      (q : ℕ) (message_id : String) (s : State) (sell : signal.action ≡ Action.sell)
      → w.check_kill_switch ≡ ok d
      → d.passed ≡ true
      → (evaluate d.state).passed ≡ true
      → validate_unified_signal signal ≡ ok signal
      → (is_paper_only signal.routing_intent && not (is_paper d.state.trade_mode)) ≡ false
      → is_event_paper r w signal ≡ false
      → is_stale_signal r.settings signal w.now ≡ false
      → is_day_session_closed r.settings signal w.session_clock ≡ false
      → NotPending w signal d.state.trade_mode s
      → w.read_long_quantity signal.symbol d.state.trade_mode ≡ ok q
      → (pos : 0 < q)
      → w.publish
          (resolve_topic d.state.trade_mode r.routing)
          (sell_order r w signal d.state.trade_mode q)
        ≡ ok message_id
      → (s' : State) × (process r w signal s ≡ (next approved, s'))
        × ((t : List Call) × (s'.trace
              ≡ published
                  (resolve_topic d.state.trade_mode r.routing)
                  (sell_order r w signal d.state.trade_mode q)
                  true
                ∷ t))
  process_sell q message_id s sell reads passed switch valid routed plain fresh open_session free
        held pos sent =
      let (a, s', e, done) =
        (process-Goes sell q (Sent sell d.state.trade_mode q pos valid routed plain message_id sent)
            reads passed (admit-Goes r w signal sell d.state.trade_mode routed fresh open_session)
            plain held
            (λ e is_e.
              subst
                (λ e.
                  Goes (λ _. Unit {0}) (size_order r w signal d.state e.0 e.1)
                    (λ b s. (b ≡ q) × Unit {0}))
                (sym is_e) (size-Goes r w signal sell d.state q pos switch routed))
            (λ p n no_price is_q.
              subst
                (λ p.
                  order_of r w signal d.state.trade_mode p n
                  ≡ ok (sell_order r w signal d.state.trade_mode q))
                (sym no_price)
                (subst
                  (λ n.
                    order_of r w signal d.state.trade_mode none n
                    ≡ ok (sell_order r w signal d.state.trade_mode q))
                  (sym is_q) (built sell d.state.trade_mode q pos valid routed)))
            (λ p o is_o.
              place-Goes sell d.state.trade_mode q pos valid routed plain message_id sent p o
                is_o)).run
          s free in
      (s', e ∙ ap (λ (a : Decision). (next a, s')) done.is_approved, done.last)
