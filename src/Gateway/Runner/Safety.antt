-- ===== src/Gateway/Runner/Safety.antt =====
-- services/gateway/src/gateway/streaming/runner.py: every publication of `_process` is justified.
use roboinvest.Prelude.{
  ◌≡◌, refl, sym, ap, ◌∙◌, ℕ, Bool, true, false, Option, some, ◌&&◌, Result, ok, raised, String,
  is_some, false≢true, arith,
}
use roboinvest.Decimal.{Decimal}
use roboinvest.Contracts.Enums.{TradeMode, is_paper, is_paper_only}
use roboinvest.Contracts.Signal.{UnifiedTradeSignal}
use roboinvest.Contracts.Order.{OrderRequest}
use roboinvest.Contracts.EventPaper.{is_event_paper_execution_signal}
use roboinvest.Gateway.Routing.{resolve_topic}
use roboinvest.Gateway.Runner.Services.{Services, Runner, KillSwitchDecision}
use roboinvest.Gateway.Runner.Handler.{State, record_call, published, released, when}
use roboinvest.Gateway.Runner.Rules.{
  Triple, Triple-bind, pure-Triple, raise-Triple, Triple-widen, Triple-exit,
}
use roboinvest.Gateway.Runner.Dispatch.{
  reservation_entry_price, risk_amount_for_order, after_publish, reserve_risk, publish_order,
  reservation_request, record_published_order, approved,
}
use roboinvest.Gateway.Runner.Journal.{start_event_paper_dispatch, resume_event_paper_dispatch}
use roboinvest.Gateway.Runner.Stages.{Stable}
use roboinvest.Gateway.Runner.Admission.{read-Triple, Prunable, Passed, process-Triple}
use roboinvest.Gateway.Runner.JournalRule.{Journaled, resume-Keeps, start-Keeps}
use roboinvest.Gateway.Runner.Process.{read_kill_switch, is_event_paper, place, process, order_of}
use roboinvest.Gateway.Runner.Trace.{IsSafe, IsJustified, last_reading, is_event_order}
use roboinvest.Gateway.Runner.Placing.{
  IsOrderOf, order_of-IsOrderOf, HasReserved, HasReserved-Reserved, reserve_risk-Triple,
}

-- the trace is safe, and d is the reading of the kill switch, which passed
abbrev Ready : Runner → KillSwitchDecision → State → Type 0
Ready r d s = IsSafe r s.trace × (last_reading s.trace ≡ some d) × (d.passed ≡ true)

abbrev Safe : Runner → State → Type 0
Safe r s = IsSafe r s.trace

Ready-Stable : (r : Runner) (d : KillSwitchDecision) → Stable (Ready r d)
Ready-Stable r d = record {
  rejectable = record { on_reject = λ reason s h. h };
  on_capital = λ capital s h. h;
}

Ready-Prunable : (r : Runner) (w : Services) (d : KillSwitchDecision) → Prunable w (Ready r d)
Ready-Prunable r w d = record { on_prune_live = λ s h. h; on_prune_paper = λ s h. h }

read-Ready :
    (r : Runner) (w : Services) (signal : UnifiedTradeSignal)
    → Triple (Safe r) (read_kill_switch r w signal) (Ready r) (Safe r)
read-Ready r w signal =
    read-Triple r w signal {Seen = λ d s. Safe r s × (last_reading s.trace ≡ some d)} (λ s h. h)
      (λ d s h. (h, refl)) (λ d s e h. (h.0, h.1, e)) (λ d s h. h.0)

pub event_is_paper_only :
    (r : Runner) (w : Services) (signal : UnifiedTradeSignal)
    → is_event_paper r w signal ≡ true
    → is_paper_only signal.routing_intent ≡ true
unfolding is_event_paper_execution_signal
event_is_paper_only r w signal h = first_of _ _ h
  where
    first_of : (a b : Bool) → (a && b) ≡ true → a ≡ true
    first_of a b e = ground arith

pub is_paper_lem : (m : TradeMode) → is_paper m ≡ true → m ≡ TradeMode.paper
is_paper_lem TradeMode.live h = cc
is_paper_lem TradeMode.paper h = refl

module _ (r : Runner) (w : Services) (signal : UnifiedTradeSignal) (d : KillSwitchDecision) where
  Ready-Journaled : d.state.trade_mode ≡ TradeMode.paper → Journaled r w signal (Ready r d)
  unfolding record_published_order
  Ready-Journaled paper = record {
    on_prepared = λ topic s h. h;
    on_confirmed = λ s h. h;
    on_marked = λ s h. h;
    on_published = λ o topic delivered s e h. (
      (
        record {
          valid = e.valid;
          switch = (d, h.1, h.2, paper ∙ sym e.paper);
          plain = λ f. absurd (false≢true (sym f ∙ e.event));
          event = λ _. (signal.signal_id, w.attempt_id, s.trace, refl, e.of_signal);
        },
        h.0,
      ),
      h.1,
      h.2,
    );
    on_recorded = λ o e. record { run = λ s h. (h, tt) };
  }

  -- a plain order, at a state whose last call reserved its risk
  Placed : Option Decimal → OrderRequest → State → Type 0
  Placed entry_price o s =
      Ready r d s
      × HasReserved o (risk_amount_for_order o (reservation_entry_price o entry_price)) s.trace

  module _ (entry_price : Option Decimal) (quantity : ℕ) (o : OrderRequest)
      (built : IsOrderOf signal d.state.trade_mode quantity o)
      (plain : is_event_paper r w signal ≡ false) where
    justified :
        (s : State)
        → Placed entry_price o s
        → IsJustified r (resolve_topic d.state.trade_mode r.routing) o s.trace
    unfolding Placed
    justified s h = record {
      valid = built.valid;
      switch = (d, h.0.1, h.0.2, sym built.trade_mode);
      plain = λ _. (
        ap (λ m. resolve_topic m r.routing) (sym built.trade_mode),
        HasReserved-Reserved o entry_price s.trace h.1,
      );
      event = λ e. absurd (false≢true (sym plain ∙ sym same_event ∙ e));
    }
      where
        same_event : is_event_order o ≡ is_event_paper r w signal
        same_event = rw (built.routing_intent, built.strategy_key)

    published-Triple :
        (delivered : Bool)
        → Triple
            (Placed entry_price o)
            (record_call (published (resolve_topic d.state.trade_mode r.routing) o delivered))
            (λ _. Ready r d)
            (Safe r)
    unfolding Placed
    published-Triple delivered = record { run = λ s h. ((justified s h, h.0.0), h.0.1, h.0.2) }

    released-Triple :
        (has_reservation : Bool)
        → Triple
            (Ready r d)
            (when has_reservation (record_call (released o.order_id)))
            (λ _. Ready r d)
            (Safe r)
    released-Triple true = record { run = λ s h. h }
    released-Triple false = record { run = λ s h. h }

    recorded-Triple :
        Triple (Ready r d) (record_published_order r w signal o) (λ _. Safe r) (Safe r)
    unfolding record_published_order
    recorded-Triple = record { run = λ s h. h.0 }

    after_publish-Safe :
        (has_reservation : Bool) (reply : Result String)
        → Triple
            (Placed entry_price o)
            (after_publish r w signal o
              (resolve_topic d.state.trade_mode r.routing)
              has_reservation
              reply)
            (λ _. Safe r)
            (Safe r)
    unfolding after_publish
    after_publish-Safe has_reservation (ok message_id) =
        Triple-bind (published-Triple true)
          λ _. Triple-bind recorded-Triple λ _. pure-Triple approved (λ s h. h)
    after_publish-Safe has_reservation (raised e) =
        Triple-bind (published-Triple false)
          λ _. Triple-bind (released-Triple has_reservation) λ _. raise-Triple e (λ s h. h.0)

  reserved-Placed :
      (entry_price : Option Decimal) (o : OrderRequest)
      → Triple
          (Ready r d)
          (reserve_risk w o
            (reservation_entry_price o entry_price)
            (risk_amount_for_order o (reservation_entry_price o entry_price)))
          (λ _. Placed entry_price o)
          (Safe r)
  unfolding Placed reservation_request
  reserved-Placed entry_price o =
      Triple-exit (λ s h. h.0)
        (reserve_risk-Triple (λ risk s. Ready r d s × HasReserved o risk s.trace) (Ready-Stable r d)
          w o (reservation_entry_price o entry_price) (λ s h. (h, tt))
          (λ risk s h. (
            h,
            (
              reservation_request o (reservation_entry_price o entry_price) risk,
              s.trace,
              refl,
              refl,
              refl,
            ),
          ))
          (λ risk s h. h) (risk_amount_for_order o (reservation_entry_price o entry_price)))

  dispatched-Safe :
      (entry_price : Option Decimal) (quantity : ℕ) (o : OrderRequest)
      → IsOrderOf signal d.state.trade_mode quantity o
      → Passed signal d.state.trade_mode (Unit {0})
      → (event : Bool) → is_event_paper r w signal ≡ event
      → Triple
          (Placed entry_price o)
          (elim event [
            | true ↦
                start_event_paper_dispatch r w signal o (resolve_topic d.state.trade_mode r.routing)
            | false ↦
                publish_order r w signal o
                  (resolve_topic d.state.trade_mode r.routing)
                  (is_some (risk_amount_for_order o (reservation_entry_price o entry_price)))
          ])
          (λ _. Safe r)
          (Safe r)
  unfolding publish_order Placed
  dispatched-Safe entry_price quantity o built found true e =
      Triple-widen (λ s h. h.0) (λ a s h. h.0.0) (λ s h. h.0)
        (start-Keeps
          (Ready-Journaled (is_paper_lem _ (found.paper_only (event_is_paper_only r w signal e)))) o
          (resolve_topic d.state.trade_mode r.routing))
  dispatched-Safe entry_price quantity o built found false e =
      after_publish-Safe entry_price quantity o built e _
        (w.publish (resolve_topic d.state.trade_mode r.routing) o)

  place-Safe :
      (entry_price : Option Decimal) (quantity : ℕ) (o : OrderRequest)
      → Passed signal d.state.trade_mode (Unit {0})
      → order_of r w signal d.state.trade_mode entry_price quantity ≡ ok o
      → Triple
          (Ready r d)
          (place r w signal d.state.trade_mode entry_price o)
          (λ _. Safe r)
          (Safe r)
  unfolding place
  place-Safe entry_price quantity o found made = Triple-bind (reserved-Placed entry_price o) λ _.
      dispatched-Safe entry_price quantity o
        (order_of-IsOrderOf r w signal d.state.trade_mode entry_price quantity made) found
        (is_event_paper r w signal) refl

  resume-Safe :
      is_event_paper r w signal ≡ true
      → Passed signal d.state.trade_mode (Unit {0})
      → Triple (Ready r d) (resume_event_paper_dispatch r w signal) (λ _. Ready r d) (Safe r)
  resume-Safe e found =
      Triple-widen (λ s h. h) (λ a s h. h.0) (λ s h. h.0)
        (resume-Keeps
          (Ready-Journaled (is_paper_lem _ (found.paper_only (event_is_paper_only r w signal e)))))

-- Handling one signal keeps every publication of the trace justified.
pub process-IsSafe :
    (r : Runner) (w : Services) (signal : UnifiedTradeSignal)
    → Triple
        (λ s. IsSafe r s.trace)
        (process r w signal)
        (λ _ s. IsSafe r s.trace)
        (λ s. IsSafe r s.trace)
process-IsSafe r w signal =
    process-Triple r w signal (λ d s h. h.0) (read-Ready r w signal) (Ready-Stable r)
      (Ready-Prunable r w) (λ d s h live e. tt) (λ d e found. resume-Safe r w signal d e found)
      (λ d entry_price quantity o found made.
        place-Safe r w signal d entry_price quantity o found made)
