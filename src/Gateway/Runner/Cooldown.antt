-- ===== src/Gateway/Runner/Cooldown.antt =====
-- services/gateway/src/gateway/streaming/runner.py: while a live order's cooldown runs, no order for the
-- same symbol and action is published.
use roboinvest.Prelude.{
  ◌≡◌, refl, sym, ap, ◌∙◌, subst, ℕ, ◌+◌, ◌<◌, Bool, true, false, Option, some, List, [], ◌∷◌,
  Result, ok, raised, Bool-cases, inl, inr, ok_inj, String, is_some, if◌then◌else◌, arith,
  false≢true,
}
use roboinvest.Decimal.{Decimal}
use roboinvest.Contracts.Enums.{TradeMode, Action, Side, is_live}
use roboinvest.Contracts.Signal.{UnifiedTradeSignal}
use roboinvest.Contracts.Order.{OrderRequest}
use roboinvest.Gateway.Builder.{side_for}
use roboinvest.Gateway.Routing.{resolve_topic}
use roboinvest.Gateway.Runner.Services.{Services, Runner}
use roboinvest.Gateway.Runner.Handler.{
  State, Call, PendingKey, Deadlines, record_call, rejected, published, released, kill_switch_read,
  reserved, prepared, begun, confirmed, marked_ambiguous, acknowledged, when,
}
use roboinvest.Gateway.Runner.Gates.{same_key, pending_key, prune, deadline_of}
use roboinvest.Gateway.Runner.Rules.{
  Triple, Triple-bind, Triple-widen, pure-Triple, raise-Triple, call-Triple,
}
use roboinvest.Gateway.Runner.Dispatch.{
  reservation_entry_price, risk_amount_for_order, after_publish, publish_order,
  record_published_order, approved, mark_pending_live_order,
}
use roboinvest.Gateway.Runner.Journal.{start_event_paper_dispatch}
use roboinvest.Gateway.Runner.Stages.{Stable}
use roboinvest.Gateway.Runner.Admission.{read-Triple, Prunable, process-Triple}
use roboinvest.Gateway.Runner.JournalRule.{Journaled, resume-Keeps, start-Keeps}
use roboinvest.Gateway.Runner.Process.{is_event_paper, place, process}
use roboinvest.Gateway.Runner.Placing.{IsOrderOf, order_of-IsOrderOf, reserve_risk-Triple}
use roboinvest.Gateway.Runner.Deadlines.{same_key_lem, deadline_of-prune, deadline_of-set_deadline}

abbrev pub action_of : Side → Action
action_of Side.buy = Action.buy
action_of Side.sell = Action.sell

-- the key of an order's cooldown
abbrev pub order_key : OrderRequest → PendingKey
order_key o = record { mode = o.trade_mode; symbol = o.symbol; action = action_of o.side }

-- how often an order with the key has been published
abbrev pub publications : PendingKey → List Call → ℕ
publications k [] = 0
publications k (published topic o b ∷ t) =
    (if same_key k (order_key o) then 1 else 0) + publications k t
publications k (kill_switch_read d ∷ t) = publications k t
publications k (rejected x ∷ t) = publications k t
publications k (reserved q b ∷ t) = publications k t
publications k (released id ∷ t) = publications k t
publications k (prepared i p ∷ t) = publications k t
publications k (begun i a ∷ t) = publications k t
publications k (confirmed i ∷ t) = publications k t
publications k (marked_ambiguous i ∷ t) = publications k t
publications k (acknowledged l ∷ t) = publications k t

action_of-side_for : (a : Action) {s : Side} → side_for a ≡ ok s → action_of s ≡ a
unfolding side_for
action_of-side_for Action.buy h = sym (ap action_of (ok_inj h))
action_of-side_for Action.sell h = sym (ap action_of (ok_inj h))
action_of-side_for Action.hold h = cc

order_key-IsOrderOf :
    (signal : UnifiedTradeSignal) (mode : TradeMode) (q : ℕ) (o : OrderRequest)
    → IsOrderOf signal mode q o
    → order_key o ≡ pending_key signal mode
order_key-IsOrderOf signal mode q o b = λ i. record {
  mode = b.trade_mode i;
  symbol = b.symbol i;
  action = action_of-side_for signal.action b.side i;
}

module _ (k : PendingKey) (live : k.mode ≡ TradeMode.live) (deadline n : ℕ) where
  -- the cooldown of the key runs to the deadline, and n of its orders have been published
  abbrev pub Cooling : State → Type 0
  Cooling s =
      (deadline_of k s.pending_live_order_deadlines ≡ some deadline) × (publications k s.trace ≡ n)

  paper_key : (o : OrderRequest) → o.trade_mode ≡ TradeMode.paper → same_key k (order_key o) ≡ false
  unfolding same_key
  paper_key o paper = rw (live, paper)

  Cooling-Stable : Stable Cooling
  Cooling-Stable = record {
    rejectable = record { on_reject = λ reason s h. h };
    on_capital = λ capital s h. h;
  }

  module _ (r : Runner) (w : Services) (signal : UnifiedTradeSignal)
      (early : w.checked_at < deadline) (recorded : w.recorded_at < deadline) where
    Cooling-Prunable : Prunable w Cooling
    Cooling-Prunable = record {
      on_prune_live = λ s h.
          (deadline_of-prune k w.checked_at deadline s.pending_live_order_deadlines early h.0, h.1);
      on_prune_paper = λ s h. h;
    }

    -- an order of another key
    mark-Cooling :
        (mode : TradeMode) (l : Deadlines)
        → same_key k (pending_key signal mode) ≡ false
        → deadline_of k l ≡ some deadline
        → deadline_of k (mark_pending_live_order r.settings w.recorded_at signal mode l)
          ≡ some deadline
    unfolding mark_pending_live_order
    mark-Cooling mode l other h = ground (
      arith,
      deadline_of-set_deadline k (pending_key signal mode)
          (w.recorded_at + r.settings.live_symbol_order_cooldown) (prune w.recorded_at l) other,
      deadline_of-prune k w.recorded_at deadline l recorded h,
    )

    recorded-Cooling :
        (o : OrderRequest)
        → same_key k (pending_key signal o.trade_mode) ≡ false
        → Triple Cooling (record_published_order r w signal o) (λ _. Cooling) Cooling
    unfolding record_published_order
    recorded-Cooling o other = record {
      run = λ s h. (mark-Cooling o.trade_mode s.pending_live_order_deadlines other h.0, h.1);
    }

    published-Cooling :
        (o : OrderRequest) (topic : String) (delivered : Bool)
        → same_key k (order_key o) ≡ false
        → Triple Cooling (record_call (published topic o delivered)) (λ _. Cooling) Cooling
    published-Cooling o topic delivered other = call-Triple (published topic o delivered) (λ s h. (
      h.0,
      subst (λ b. (if b then 1 else 0) + publications k s.trace ≡ n) (sym other)
          (omega (arith, h.1)),
    ))

    paper_pending :
        (mode : TradeMode) → mode ≡ TradeMode.paper → same_key k (pending_key signal mode) ≡ false
    unfolding same_key
    paper_pending mode paper = rw (live, paper)

    -- an order from the journal is a paper order
    Cooling-Journaled : Journaled r w signal Cooling
    Cooling-Journaled = record {
      on_prepared = λ topic s h. h;
      on_confirmed = λ s h. h;
      on_marked = λ s h. h;
      on_published = λ o topic delivered s e h. (
        h.0,
        subst (λ b. (if b then 1 else 0) + publications k s.trace ≡ n) (sym (paper_key o e.paper))
            (omega (arith, h.1)),
      );
      on_recorded = λ o e.
          Triple-widen (λ s h. h) (λ a s h. (h, tt)) (λ s h. h)
            (recorded-Cooling o (paper_pending o.trade_mode e.paper));
    }

    after_publish-Cooling :
        (o : OrderRequest) (topic : String) (has_reservation : Bool)
        → same_key k (order_key o) ≡ false
        → same_key k (pending_key signal o.trade_mode) ≡ false
        → (reply : Result String)
        → Triple Cooling
            (after_publish r w signal o topic has_reservation reply)
            (λ _. Cooling)
            Cooling
    unfolding after_publish
    after_publish-Cooling o topic has_reservation other other' (ok message_id) =
        Triple-bind (published-Cooling o topic true other)
          λ _. Triple-bind (recorded-Cooling o other') λ _. pure-Triple approved (λ s h. h)
    after_publish-Cooling o topic has_reservation other other' (raised e) =
        Triple-bind (published-Cooling o topic false other)
          λ _. Triple-bind (released-Cooling has_reservation) λ _. raise-Triple e (λ s h. h)
      where
        released-Cooling :
            (has : Bool)
            → Triple Cooling (when has (record_call (released o.order_id))) (λ _. Cooling) Cooling
        released-Cooling true = call-Triple (released o.order_id) (λ s h. h)
        released-Cooling false = pure-Triple tt (λ s h. h)

    dispatched-Cooling :
        (o : OrderRequest) (topic : String) (has_reservation event : Bool)
        → same_key k (order_key o) ≡ false
        → same_key k (pending_key signal o.trade_mode) ≡ false
        → Triple Cooling
            (elim event [
              | true ↦ start_event_paper_dispatch r w signal o topic
              | false ↦ publish_order r w signal o topic has_reservation
            ])
            (λ _. Cooling)
            Cooling
    unfolding publish_order
    dispatched-Cooling o topic has_reservation true other other' =
        Triple-widen (λ s h. h) (λ a s h. h.0) (λ s h. h) (start-Keeps Cooling-Journaled o topic)
    dispatched-Cooling o topic has_reservation false other other' =
        after_publish-Cooling o topic has_reservation other other' (w.publish topic o)

    place-Cooling :
        (mode : TradeMode) (entry_price : Option Decimal) (q : ℕ) (o : OrderRequest)
        → IsOrderOf signal mode q o
        → same_key k (pending_key signal mode) ≡ false
        → Triple Cooling (place r w signal mode entry_price o) (λ _. Cooling) Cooling
    unfolding place
    place-Cooling mode entry_price q o b other =
        Triple-bind
          (reserve_risk-Triple (λ _. Cooling) Cooling-Stable w o
            (reservation_entry_price o entry_price) (λ s h. h) (λ risk s h. h) (λ risk s h. h)
            (risk_amount_for_order o (reservation_entry_price o entry_price)))
          λ _.
            dispatched-Cooling o (resolve_topic mode r.routing) _ (is_event_paper r w signal)
              (subst (λ x. same_key k x ≡ false) (sym (order_key-IsOrderOf signal mode q o b))
                other)
              (subst (λ m. same_key k (pending_key signal m) ≡ false) (sym b.trade_mode) other)

    not_pending :
        (mode : TradeMode) (s : State)
        → Cooling s
        → is_some (
            deadline_of
              (pending_key signal mode)
              (prune w.checked_at s.pending_live_order_deadlines))
          ≡ false
        → same_key k (pending_key signal mode) ≡ false
    not_pending mode s h e = elim (Bool-cases (same_key k (pending_key signal mode))) [
      | inr other ↦ other
      | inl same ↦
          let kept =
            deadline_of-prune k w.checked_at deadline s.pending_live_order_deadlines early h.0 in
          let found =
            subst
              (λ x.
                deadline_of x (prune w.checked_at s.pending_live_order_deadlines) ≡ some deadline)
              (same_key_lem k (pending_key signal mode) same) kept in
          absurd (false≢true (sym e ∙ ap is_some found))
    ]

    other_signal :
        (mode : TradeMode)
        → (is_live mode ≡ true → same_key k (pending_key signal mode) ≡ false)
        → same_key k (pending_key signal mode) ≡ false
    other_signal TradeMode.live h = h refl
    other_signal TradeMode.paper h = paper_pending TradeMode.paper refl

    pub process-Cooling : Triple Cooling (process r w signal) (λ _. Cooling) Cooling
    process-Cooling =
        process-Triple r w signal
          {Cool = λ d. same_key k (pending_key signal d.state.trade_mode) ≡ false} (λ d s h. h)
          (read-Triple r w signal {Seen = λ d. Cooling} (λ s h. h) (λ d s h. h) (λ d s e h. h)
            (λ d s h. h))
          (λ d. Cooling-Stable) (λ d. Cooling-Prunable)
          (λ d s h is_live_mode e. not_pending d.state.trade_mode s h e)
          (λ d e found.
            Triple-widen (λ s h. h) (λ a s h. h.0) (λ s h. h) (resume-Keeps Cooling-Journaled))
          (λ d entry_price q o found made.
            place-Cooling d.state.trade_mode entry_price q o
              (order_of-IsOrderOf r w signal d.state.trade_mode entry_price q made)
              (other_signal d.state.trade_mode found.cool))
