-- ===== src/Gateway/Runner/Reservations.antt =====
-- services/gateway/src/gateway/streaming/runner.py: no reservation of risk is left open.
use roboinvest.Prelude.{
  ◌≡◌, refl, ap, ◌∙◌, Bool, true, false, Option, none, some, List, [], ◌∷◌, ◌==◌, Result, ok,
  raised, String, is_some, keep_if, not, arith,
}
use roboinvest.Decimal.{Decimal}
use roboinvest.Contracts.Ids.{Uuid}
use roboinvest.Contracts.Enums.{TradeMode}
use roboinvest.Contracts.Signal.{UnifiedTradeSignal}
use roboinvest.Contracts.Order.{OrderRequest}
use roboinvest.Gateway.Routing.{resolve_topic}
use roboinvest.Gateway.Runner.Services.{Services, Runner, KillSwitchDecision}
use roboinvest.Gateway.Runner.Handler.{
  State, Call, record_call, rejected, published, released, kill_switch_read, reserved, prepared,
  begun, confirmed, marked_ambiguous, acknowledged, when,
}
use roboinvest.Gateway.Runner.Rules.{
  Triple, Triple-bind, Triple-widen, pure-Triple, raise-Triple, call-Triple,
}
use roboinvest.Gateway.Runner.Dispatch.{
  reservation_entry_price, risk_amount_for_order, after_publish, publish_order,
  record_published_order, approved, reservation_request,
}
use roboinvest.Gateway.Runner.Journal.{start_event_paper_dispatch}
use roboinvest.Gateway.Runner.Stages.{Stable}
use roboinvest.Gateway.Runner.Admission.{read-Triple, Passed, Prunable, process-Triple}
use roboinvest.Gateway.Runner.JournalRule.{Journaled, resume-Keeps, start-Keeps}
use roboinvest.Gateway.Runner.Process.{is_event_paper, place, process}
use roboinvest.Gateway.Runner.Safety.{event_is_paper_only, is_paper_lem}
use roboinvest.Gateway.Runner.Placing.{order_of-IsOrderOf, reserve_risk-Triple}

-- the reservations of other orders
abbrev pub without : Uuid → List Uuid → List Uuid
without id = keep_if (λ open_id. not (id == open_id))

-- The reservations that are open. One that a reply has granted is open until its order is delivered or
-- its release is attempted.
abbrev pub open_reservations : List Call → List Uuid
open_reservations [] = []
open_reservations (reserved q true ∷ t) = q.order_id ∷ open_reservations t
open_reservations (reserved q false ∷ t) = open_reservations t
open_reservations (published topic o true ∷ t) = without o.order_id (open_reservations t)
open_reservations (published topic o false ∷ t) = open_reservations t
open_reservations (released id ∷ t) = without id (open_reservations t)
open_reservations (kill_switch_read d ∷ t) = open_reservations t
open_reservations (rejected x ∷ t) = open_reservations t
open_reservations (prepared i p ∷ t) = open_reservations t
open_reservations (begun i a ∷ t) = open_reservations t
open_reservations (confirmed i ∷ t) = open_reservations t
open_reservations (marked_ambiguous i ∷ t) = open_reservations t
open_reservations (acknowledged l ∷ t) = open_reservations t

abbrev pub IsSettled : State → Type 0
IsSettled s = open_reservations s.trace ≡ []

-- once a reservation is granted, or none is made
abbrev Held : OrderRequest → Option Decimal → State → Type 0
Held o none s = IsSettled s
Held o (some risk) s = open_reservations s.trace ≡ o.order_id ∷ []

without_self : (id : Uuid) → without id (id ∷ []) ≡ []
without_self id = ground arith

IsSettled-Stable : Stable IsSettled
IsSettled-Stable = record {
  rejectable = record { on_reject = λ reason s h. h };
  on_capital = λ capital s h. h;
}

IsSettled-Prunable : (w : Services) → Prunable w IsSettled
IsSettled-Prunable w = record { on_prune_live = λ s h. h; on_prune_paper = λ s h. h }

module _ (r : Runner) (w : Services) (signal : UnifiedTradeSignal) where
  IsSettled-Journaled : Journaled r w signal IsSettled
  unfolding record_published_order
  IsSettled-Journaled = record {
    on_prepared = λ topic s h. h;
    on_confirmed = λ s h. h;
    on_marked = λ s h. h;
    on_published = λ o topic delivered s e h. published_settled o topic delivered s h;
    on_recorded = λ o e. record { run = λ s h. (h, tt) };
  }
    where
      published_settled :
          (o : OrderRequest) (topic : String) (delivered : Bool) (s : State)
          → IsSettled s
          → open_reservations
              (published topic o delivered ∷ begun signal.signal_id w.attempt_id ∷ s.trace)
            ≡ []
      published_settled o topic true s h = ap (without o.order_id) h
      published_settled o topic false s h = h

  module _ (o : OrderRequest) (topic : String) where
    delivered-Triple :
        (risk : Option Decimal)
        → Triple (Held o risk) (record_call (published topic o true)) (λ _. IsSettled) IsSettled
    delivered-Triple none = call-Triple (published topic o true) (λ s h. ap (without o.order_id) h)
    delivered-Triple (some risk) =
        call-Triple (published topic o true)
          (λ s h. ap (without o.order_id) h ∙ without_self o.order_id)

    failed-Triple :
        (risk : Option Decimal)
        → Triple (Held o risk) (record_call (published topic o false)) (λ _. Held o risk) IsSettled
    failed-Triple none = call-Triple (published topic o false) (λ s h. h)
    failed-Triple (some risk) = call-Triple (published topic o false) (λ s h. h)

    released-Triple :
        (risk : Option Decimal)
        → Triple
            (Held o risk)
            (when (is_some risk) (record_call (released o.order_id)))
            (λ _. IsSettled)
            IsSettled
    released-Triple none = pure-Triple tt (λ s h. h)
    released-Triple (some risk) =
        call-Triple (released o.order_id)
          (λ s h. ap (without o.order_id) h ∙ without_self o.order_id)

    recorded-Triple :
        Triple IsSettled (record_published_order r w signal o) (λ _. IsSettled) IsSettled
    unfolding record_published_order
    recorded-Triple = record { run = λ s h. h }

    after_publish-Triple :
        (risk : Option Decimal) (reply : Result String)
        → Triple
            (Held o risk)
            (after_publish r w signal o topic (is_some risk) reply)
            (λ _. IsSettled)
            IsSettled
    unfolding after_publish
    after_publish-Triple risk (ok message_id) =
        Triple-bind (delivered-Triple risk)
          λ _. Triple-bind recorded-Triple λ _. pure-Triple approved (λ s h. h)
    after_publish-Triple risk (raised e) =
        Triple-bind (failed-Triple risk)
          λ _. Triple-bind (released-Triple risk) λ _. raise-Triple e (λ s h. h)

  paper_risk :
      (o : OrderRequest) (price : Option Decimal)
      → o.trade_mode ≡ TradeMode.paper
      → risk_amount_for_order o price ≡ none
  unfolding risk_amount_for_order
  paper_risk o price e = rw e

  dispatched-Triple :
      (d : KillSwitchDecision) (o : OrderRequest) (price : Option Decimal) (topic : String)
      → o.trade_mode ≡ d.state.trade_mode
      → Passed signal d.state.trade_mode (Unit {0})
      → (event : Bool) → is_event_paper r w signal ≡ event
      → Triple
          (Held o (risk_amount_for_order o price))
          (elim event [
            | true ↦ start_event_paper_dispatch r w signal o topic
            | false ↦ publish_order r w signal o topic (is_some (risk_amount_for_order o price))
          ])
          (λ _. IsSettled)
          IsSettled
  unfolding publish_order
  dispatched-Triple d o price topic mode found true e =
      let paper = mode ∙ is_paper_lem _ (found.paper_only (event_is_paper_only r w signal e)) in
      rw (paper_risk o price paper) (
        Triple-widen (λ s h. h) (λ a s h. h.0) (λ s h. h) (start-Keeps IsSettled-Journaled o topic))
  dispatched-Triple d o price topic mode found false e =
      after_publish-Triple o topic (risk_amount_for_order o price) (w.publish topic o)

  place-Triple :
      (d : KillSwitchDecision) (entry_price : Option Decimal) (o : OrderRequest)
      → o.trade_mode ≡ d.state.trade_mode
      → Passed signal d.state.trade_mode (Unit {0})
      → Triple IsSettled
          (place r w signal d.state.trade_mode entry_price o)
          (λ _. IsSettled)
          IsSettled
  unfolding place reservation_request
  place-Triple d entry_price o mode found =
      let price = reservation_entry_price o entry_price in
      Triple-bind
        (reserve_risk-Triple (Held o) IsSettled-Stable w o price (λ s h. h)
          (λ risk s h. ap (λ l. o.order_id ∷ l) h) (λ risk s h. h) (risk_amount_for_order o price))
        λ _.
          dispatched-Triple d o price (resolve_topic d.state.trade_mode r.routing) mode found
            (is_event_paper r w signal) refl

  -- Handling one signal leaves no reservation open.
  pub process-IsSettled : Triple IsSettled (process r w signal) (λ _. IsSettled) IsSettled
  process-IsSettled =
      process-Triple r w signal (λ d s h. h)
        (read-Triple r w signal {Seen = λ d. IsSettled} (λ s h. h) (λ d s h. h) (λ d s e h. h)
          (λ d s h. h))
        (λ d. IsSettled-Stable) (λ d. IsSettled-Prunable w) (λ d s h live e. tt)
        (λ d e found.
          Triple-widen (λ s h. h) (λ a s h. h.0) (λ s h. h) (resume-Keeps IsSettled-Journaled))
        (λ d entry_price quantity o found made.
          place-Triple d entry_price o
            (order_of-IsOrderOf r w signal d.state.trade_mode entry_price quantity made).trade_mode
            found)
