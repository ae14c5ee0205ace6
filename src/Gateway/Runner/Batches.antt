-- ===== src/Gateway/Runner/Batches.antt =====
-- services/gateway/src/gateway/streaming/runner.py: what holds of any batch of messages, also where an
-- error ends it or the acknowledgement fails.
use roboinvest.Prelude.{
  ◌≡◌, refl, ℕ, ◌+◌, ◌<◌, Option, none, some, List, [], ◌∷◌, ◌++◌, Result, ok, raised, String, All,
  length, arith,
}
use roboinvest.Contracts.Enums.{TradeMode}
use roboinvest.Contracts.Signal.{UnifiedTradeSignal}
use roboinvest.Contracts.Order.{OrderRequest}
use roboinvest.Gateway.Runner.Services.{Services, Runner}
use roboinvest.Gateway.Runner.Handler.{
  State, Decision, Outcome, next, returned, failed, acknowledged, Deadlines,
}
use roboinvest.Gateway.Runner.Rules.{Triple, Triple-state}
use roboinvest.Gateway.Runner.Gates.{pending_key, deadline_of, prune}
use roboinvest.Gateway.Runner.Dispatch.{mark_pending_live_order, record_published_order}
use roboinvest.Gateway.Runner.Process.{process}
use roboinvest.Gateway.Runner.Trace.{IsSafe}
use roboinvest.Gateway.Runner.Safety.{process-IsSafe}
use roboinvest.Gateway.Runner.Reservations.{IsSettled, open_reservations, process-IsSettled}
use roboinvest.Gateway.Runner.Cooldown.{Cooling, process-Cooling, publications}
use roboinvest.Gateway.Runner.Deadlines.{deadline_of-set_deadline_self}
use roboinvest.Gateway.Runner.Batch.{
  PulledMessage, BatchStats, Progress, no_stats, parse_signal, count_decision, decide, and_then,
  handle_message, handle_messages, acknowledge, run_once, handle_parsed, after_acknowledge,
}

module _ (P : State → Type 0) where
  and_then-state :
      {A B : Type 0} (o : Result A × State) (f : A → State → Result B × State)
      → P o.1
      → ((a : A) (s : State) → P s → P (f a s).1)
      → P (and_then o f).1
  and_then-state (ok a, s) f p h = h a s p
  and_then-state (raised e, s) f p h = p

  decide-state : (o : Outcome Decision × State) → P o.1 → P (decide o).1
  unfolding decide
  decide-state (next d, s) p = p
  decide-state (returned d, s) p = p
  decide-state (failed e, s) p = p

  module _ (r : Runner) where
    -- Handling any signal with the message's replies keeps P.
    abbrev pub Handled : PulledMessage → Type 0
    Handled m = (signal : UnifiedTradeSignal) → Triple P (process r m.services signal) (λ _. P) P

    handle_parsed-state :
        (m : PulledMessage) (progress : Progress) (s : State) (parsed : Option UnifiedTradeSignal)
        → Handled m
        → P s
        → P (handle_parsed r m progress s parsed).1
    unfolding handle_parsed
    handle_parsed-state m (stats, to_ack) s none h p = p
    handle_parsed-state m (stats, to_ack) s (some signal) h p =
        and_then-state (decide (process r m.services signal s))
          (λ d s'. (ok (count_decision d stats, to_ack ++ m.ack_id ∷ []), s'))
          (decide-state (process r m.services signal s) (Triple-state (h signal) s p)) (λ d s' q. q)

    pub handle_messages-state :
        (messages : List PulledMessage) (progress : Progress) (s : State)
        → All Handled messages
        → P s
        → P (handle_messages r messages progress s).1
    unfolding handle_messages handle_message
    handle_messages-state [] progress s h p = p
    handle_messages-state (m ∷ rest) progress s h p =
        and_then-state (handle_message r m progress s) (handle_messages r rest)
          (handle_parsed-state m progress s (parse_signal r.codec m.payload) h.0 p)
          (λ progress' s' p'. handle_messages-state rest progress' s' h.1 p')

  after_acknowledge-state :
      (stats : BatchStats) (ids : List String) (s : State) (reply : Result (Unit {0}))
      → ((s : State) → P s → P (record s { trace = acknowledged ids ∷ s.trace }))
      → P s
      → P (after_acknowledge stats ids s reply).1
  unfolding after_acknowledge
  after_acknowledge-state stats ids s (ok done) h p = h s p
  after_acknowledge-state stats ids s (raised e) h p = p

  acknowledge-state :
      (ack : List String → Result (Unit {0})) (stats : BatchStats) (ids : List String) (s : State)
      → ((ids : List String) (s : State)
          → P s
          → P (record s { trace = acknowledged ids ∷ s.trace }))
      → P s
      → P (acknowledge ack stats ids s).1
  unfolding acknowledge
  acknowledge-state ack stats [] s h p = p
  acknowledge-state ack stats (id ∷ ids) s h p =
      after_acknowledge-state stats (id ∷ ids) s (ack (id ∷ ids)) (h (id ∷ ids)) p

  pub run_once-state :
      (r : Runner) (ack : List String → Result (Unit {0})) (messages : List PulledMessage)
      (s : State)
      → ((ids : List String) (s : State)
          → P s
          → P (record s { trace = acknowledged ids ∷ s.trace }))
      → All (Handled r) messages
      → P s
      → P (run_once r ack messages s).1
  unfolding run_once
  run_once-state r ack messages s acks h p =
      and_then-state
        (handle_messages r messages (record no_stats { pulled = length messages }, []) s)
        (λ progress. acknowledge ack record (progress.0) { acked = length progress.1 } progress.1)
        (handle_messages-state r messages _ s h p)
        (λ progress s' q. acknowledge-state ack _ progress.1 s' acks q)

pub All-any {ℓ κ} : {A : Type ℓ} {P : A → Type κ} → ((a : A) → P a) → (xs : List A) → All P xs
All-any h [] = tt
All-any h (x ∷ xs) = (h x, All-any h xs)

-- Whatever the messages and the replies, and also where the batch ends in an error: every publication is
-- of a valid order, after a reading of the kill switch that passed and gave the order's mode; a plain
-- order goes to the topic of its mode, and if it is a live BUY with a stop below its limit, right after
-- a granted reservation of that loss under its id; an event-paper order is published right after an
-- attempt for its signal has started in the journal.
pub run_once-IsSafe :
    (r : Runner) (ack : List String → Result (Unit {0})) (messages : List PulledMessage) (s : State)
    → IsSafe r s.trace
    → IsSafe r (run_once r ack messages s).1.trace
run_once-IsSafe r ack messages s safe =
    run_once-state (λ s. IsSafe r s.trace) r ack messages s (λ ids s h. h)
      (All-any (λ m signal. process-IsSafe r m.services signal) messages) safe

-- A batch leaves no reservation of risk open that a reply has granted, however it ends: each of them is
-- followed by the delivery of its order or by the attempt to release it.
pub run_once-IsSettled :
    (r : Runner) (ack : List String → Result (Unit {0})) (messages : List PulledMessage) (s : State)
    → open_reservations s.trace ≡ []
    → open_reservations (run_once r ack messages s).1.trace ≡ []
run_once-IsSettled r ack messages s settled =
    run_once-state IsSettled r ack messages s (λ ids s h. h)
      (All-any (λ m signal. process-IsSettled r m.services signal) messages) settled

-- the clocks of a message read before the deadline
abbrev pub Before : ℕ → PulledMessage → Type 0
Before deadline m = (m.services.checked_at < deadline) × (m.services.recorded_at < deadline)

-- the cooldown that the recording of a live order starts
abbrev cooldown_end : Runner → Services → ℕ
cooldown_end r w = w.recorded_at + r.settings.live_symbol_order_cooldown

mark_starts :
    (r : Runner) (w : Services) (signal : UnifiedTradeSignal) (mode : TradeMode) (l : Deadlines)
    → mode ≡ TradeMode.live
    → 0 < r.settings.live_symbol_order_cooldown
    → deadline_of
        (pending_key signal TradeMode.live)
        (mark_pending_live_order r.settings w.recorded_at signal mode l)
      ≡ some (cooldown_end r w)
unfolding mark_pending_live_order
mark_starts r w signal mode l live pos = rw live (
    ground (
      arith,
      deadline_of-set_deadline_self (pending_key signal TradeMode.live) (cooldown_end r w)
          (prune w.recorded_at l),
    ))

All-map {ℓ κ} :
    {A : Type ℓ} {P Q : A → Type κ} → ((a : A) → P a → Q a) → (xs : List A) → All P xs → All Q xs
All-map h [] p = tt
All-map h (x ∷ xs) p = (h x p.0, All-map h xs p.1)

-- After the runner has recorded a live order for a signal, a batch whose clock readings lie before the
-- end of the cooldown publishes no live order for the signal's symbol and action, not even an attempt.
pub run_once-cooldown :
    (r : Runner) (w : Services) (signal : UnifiedTradeSignal) (o : OrderRequest)
    (ack : List String → Result (Unit {0})) (messages : List PulledMessage) (s : State)
    → o.trade_mode ≡ TradeMode.live
    → 0 < r.settings.live_symbol_order_cooldown
    → All (Before (w.recorded_at + r.settings.live_symbol_order_cooldown)) messages
    → publications
        (pending_key signal TradeMode.live)
        (run_once r ack messages (record_published_order r w signal o s).1).1.trace
      ≡ publications (pending_key signal TradeMode.live) s.trace
unfolding record_published_order
run_once-cooldown r w signal o ack messages s live pos before =
    let k = pending_key signal TradeMode.live in
    let n = publications k s.trace in
    (run_once-state (Cooling k refl (cooldown_end r w) n) r ack messages
      (record_published_order r w signal o s).1 (λ ids s h. h)
      (All-map (λ m b other. process-Cooling k refl (cooldown_end r w) n r m.services other b.0 b.1)
        messages before)
      (mark_starts r w signal o.trade_mode s.pending_live_order_deadlines live pos, refl)).1
