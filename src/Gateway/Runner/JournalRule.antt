-- ===== src/Gateway/Runner/JournalRule.antt =====
-- services/gateway/src/gateway/streaming/runner.py: what the handling of an event-paper order keeps of
-- any property of the state that its own writes keep.
use roboinvest.Prelude.{
  ◌≡◌, refl, sym, subst, service_error, Bool, true, false, Option, none, some, ◌∷◌, Result, ok,
  raised, String, if◌then◌else◌, subst,
}
use roboinvest.Contracts.Signal.{UnifiedTradeSignal}
use roboinvest.Contracts.Order.{OrderRequest}
use roboinvest.Contracts.EventPaper.{Stage, Status, DispatchOutcome, DispatchResult}
use roboinvest.Gateway.Runner.Services.{Services, Runner}
use roboinvest.Gateway.Runner.Handler.{
  Handler, State, Decision, ◌>>=◌, record_call, pure, lift, raise, published, prepared, begun,
  confirmed, marked_ambiguous,
}
use roboinvest.Gateway.Runner.Rules.{
  Triple, Triple-bind, return-Keeps, Keeps, Keeps-bind, lift-Keeps, pure-Keeps, raise-Keeps,
  call-Keeps,
}
use roboinvest.Gateway.Runner.Dispatch.{
  record_published_order, approved, duplicate, ambiguous_result,
}
use roboinvest.Gateway.Runner.Output.{parse_output, IsEventOrder, parse_output-IsEventOrder}
use roboinvest.Gateway.Runner.Journal.{
  record_approved, checkpoint, after_failed_confirmation, after_confirmation, after_publication,
  publish_by_status, attempt_if_begun, publish_prepared, publish_prepared_event_paper_order,
  resume_record, resume_found, resume_event_paper_dispatch, start_prepared,
  start_event_paper_dispatch, is_confirmed, mark,
}

-- The writes of the journal's branches.
pub record Journaled (r : Runner) (w : Services) (signal : UnifiedTradeSignal) (I : State → Type 0)
    : Type 0 where
  pub on_prepared :
      (topic : String) (s : State)
      → I s
      → I (record s { trace = prepared signal.signal_id topic ∷ s.trace })
  pub on_confirmed :
      (s : State) → I s → I (record s { trace = confirmed signal.signal_id ∷ s.trace })
  pub on_marked :
      (s : State) → I s → I (record s { trace = marked_ambiguous signal.signal_id ∷ s.trace })
  pub on_published :
      (o : OrderRequest) (topic : String) (delivered : Bool) (s : State)
      → IsEventOrder signal o
      → I s
      → I (record s {
        trace = published topic o delivered ∷ begun signal.signal_id w.attempt_id ∷ s.trace;
      })
  pub on_recorded :
      (o : OrderRequest)
      → IsEventOrder signal o
      → Keeps I (record_published_order r w signal o) (λ _. Unit {0})

module _ {r : Runner} {w : Services} {signal : UnifiedTradeSignal} {I : State → Type 0}
    (j : Journaled r w signal I) where
  record_approved-Keeps :
      (o : OrderRequest)
      → IsEventOrder signal o
      → Keeps I (record_approved r w signal o) (λ _. Unit {0})
  unfolding record_approved
  record_approved-Keeps o e = Keeps-bind (j.on_recorded o e) λ _ _. pure-Keeps approved tt

  checkpoint-Keeps :
      (o : OrderRequest)
      → IsEventOrder signal o
      → (outcome : DispatchOutcome) → Keeps I (checkpoint r w signal o outcome) (λ _. Unit {0})
  unfolding checkpoint
  checkpoint-Keeps o e DispatchOutcome.confirmed =
      Keeps-bind (call-Keeps (confirmed signal.signal_id) j.on_confirmed)
        λ _ _. record_approved-Keeps o e
  checkpoint-Keeps o e DispatchOutcome.ambiguous = pure-Keeps ambiguous_result tt
  checkpoint-Keeps o e _ = raise-Keeps _

  marked-Keeps :
      (o : OrderRequest)
      → IsEventOrder signal o
      → (confirmed : Bool)
      → Keeps I
          (if confirmed then record_approved r w signal o else pure ambiguous_result)
          (λ _. Unit {0})
  marked-Keeps o e true = record_approved-Keeps o e
  marked-Keeps o e false = pure-Keeps ambiguous_result tt

  after_failed_confirmation-Keeps :
      (o : OrderRequest)
      → IsEventOrder signal o
      → (reply : Result DispatchResult)
      → Keeps I (after_failed_confirmation r w signal o reply) (λ _. Unit {0})
  unfolding after_failed_confirmation
  after_failed_confirmation-Keeps o e (ok journal) =
      Keeps-bind (call-Keeps (marked_ambiguous signal.signal_id) j.on_marked)
        λ _ _. marked-Keeps o e (is_confirmed journal.outcome)
  after_failed_confirmation-Keeps o e (raised x) =
      Keeps-bind (call-Keeps (marked_ambiguous signal.signal_id) j.on_marked)
        λ _ _. pure-Keeps ambiguous_result tt

  after_confirmation-Keeps :
      (o : OrderRequest)
      → IsEventOrder signal o
      → (reply : Result DispatchResult)
      → Keeps I (after_confirmation r w signal o reply) (λ _. Unit {0})
  unfolding after_confirmation
  after_confirmation-Keeps o e (ok reply) = checkpoint-Keeps o e reply.outcome
  after_confirmation-Keeps o e (raised x) = after_failed_confirmation-Keeps o e (mark w signal)

  -- the state right after an attempt has started
  Begun : State → Type 0
  Begun s =
      (s₀ : State) × I s₀
      × (s ≡ record s₀ { trace = begun signal.signal_id w.attempt_id ∷ s₀.trace })

  begun-Triple : Triple I (record_call (begun signal.signal_id w.attempt_id)) (λ _. Begun) I
  unfolding Begun
  begun-Triple = record { run = λ s h. (s, h, refl) }

  published-Keeps :
      (o : OrderRequest) (topic : String) (delivered : Bool)
      → IsEventOrder signal o
      → Triple Begun (record_call (published topic o delivered)) (λ _ s. I s × Unit {0}) I
  unfolding Begun
  published-Keeps o topic delivered e = record {
    run = λ s b. (
      subst (λ x. I (record x { trace = published topic o delivered ∷ x.trace })) (sym b.2)
          (j.on_published o topic delivered b.0 e b.1),
      tt,
    );
  }

  after_publication-Keeps :
      (o : OrderRequest) (topic : String)
      → IsEventOrder signal o
      → (reply : Result String)
      → Triple Begun (after_publication r w signal o topic reply) (λ _ s. I s × Unit {0}) I
  unfolding after_publication
  after_publication-Keeps o topic e (ok message_id) =
      Keeps-bind (published-Keeps o topic true e) λ _ _. after_confirmation-Keeps o e (
        w.confirm_event_paper_dispatch Stage.gateway signal.signal_id w.attempt_id message_id
          w.settled_at)
  after_publication-Keeps o topic e (raised x) = Keeps-bind (published-Keeps o topic false e) λ _ _.
      Keeps-bind (call-Keeps (marked_ambiguous signal.signal_id) j.on_marked)
        λ _ _. pure-Keeps ambiguous_result tt

  attempt_if_begun-Keeps :
      (o : OrderRequest) (topic : String)
      → IsEventOrder signal o
      → (outcome : DispatchOutcome)
      → Keeps I (attempt_if_begun r w signal o topic outcome) (λ _. Unit {0})
  unfolding attempt_if_begun Begun
  attempt_if_begun-Keeps o topic e DispatchOutcome.attempt_started =
      Triple-bind begun-Triple λ _. after_publication-Keeps o topic e (w.publish topic o)
  attempt_if_begun-Keeps o topic e DispatchOutcome.confirmed = pure-Keeps duplicate tt
  attempt_if_begun-Keeps o topic e DispatchOutcome.ambiguous = pure-Keeps ambiguous_result tt
  attempt_if_begun-Keeps o topic e _ = raise-Keeps service_error

  prepared_if-Keeps :
      (journal : DispatchResult) (topic : String) (other_topic : Bool)
      → Keeps I
          (if other_topic then raise service_error else do
            order ← lift (parse_output r.codec signal journal.output_payload)
            reply ← lift (
                w.begin_event_paper_dispatch Stage.gateway signal.signal_id w.attempt_id
                  w.attempted_at)
            attempt_if_begun r w signal order topic reply.outcome)
          (λ _. Unit {0})
  prepared_if-Keeps journal topic true = raise-Keeps service_error
  prepared_if-Keeps journal topic false =
      Keeps-bind (lift-Keeps (parse_output r.codec signal journal.output_payload)) λ order parsed.
        Keeps-bind
          (lift-Keeps (
            w.begin_event_paper_dispatch Stage.gateway signal.signal_id w.attempt_id
              w.attempted_at))
          λ reply _.
            attempt_if_begun-Keeps order topic
              (parse_output-IsEventOrder r.codec signal journal.output_payload parsed) reply.outcome

  publish_by_status-Keeps :
      (journal : DispatchResult) (topic : String) (status : Status)
      → Keeps I (publish_by_status r w signal journal topic status) (λ _. Unit {0})
  unfolding publish_by_status publish_prepared
  publish_by_status-Keeps journal topic Status.prepared = prepared_if-Keeps journal topic _
  publish_by_status-Keeps journal topic Status.confirmed = pure-Keeps duplicate tt
  publish_by_status-Keeps journal topic _ = pure-Keeps ambiguous_result tt

  -- a guard that raises, before what keeps the property
  unless-Keeps :
      {A : Type 0} {F : A → Type 0} {m : Handler A} (t : Bool)
      → Keeps I m F
      → Keeps I (if t then raise service_error else m) F
  unless-Keeps true k = raise-Keeps service_error
  unless-Keeps false k = k

  publish_prepared_event_paper_order-Keeps :
      (journal : DispatchResult) (topic : String)
      → Keeps I (publish_prepared_event_paper_order r w signal journal topic) (λ _. Unit {0})
  unfolding publish_prepared_event_paper_order
  publish_prepared_event_paper_order-Keeps journal topic =
      unless-Keeps _ (publish_by_status-Keeps journal topic journal.status)

  -- a record whose attempt is open is not published again
  unless_attempted-Keeps :
      {m : Handler Decision} (t : Bool)
      → Keeps I m (λ _. Unit {0})
      → Keeps I (if t then pure ambiguous_result else m) (λ _. Unit {0})
  unless_attempted-Keeps true k = pure-Keeps ambiguous_result tt
  unless_attempted-Keeps false k = k

  resume_record-Keeps :
      (journal : DispatchResult) (outcome : DispatchOutcome)
      → Keeps I (resume_record r w signal journal outcome) (λ _. Unit {0})
  unfolding resume_record
  resume_record-Keeps journal DispatchOutcome.confirmed = pure-Keeps duplicate tt
  resume_record-Keeps journal DispatchOutcome.ambiguous = pure-Keeps ambiguous_result tt
  resume_record-Keeps journal DispatchOutcome.prepared =
      unless_attempted-Keeps _
        (publish_prepared_event_paper_order-Keeps journal journal.destination_topic)
  resume_record-Keeps journal _ = unless_attempted-Keeps _ (raise-Keeps service_error)

  resume_found-Keeps :
      (found : Option DispatchResult) → Keeps I (resume_found r w signal found) (λ _. Unit {0})
  unfolding resume_found
  resume_found-Keeps none = pure-Keeps tt tt
  resume_found-Keeps (some journal) =
      unless-Keeps _
        (Keeps-bind (resume_record-Keeps journal journal.outcome) λ d _. return-Keeps d)

  pub resume-Keeps : Keeps I (resume_event_paper_dispatch r w signal) (λ _. Unit {0})
  unfolding resume_event_paper_dispatch
  resume-Keeps =
      Keeps-bind (lift-Keeps (w.read_event_paper_dispatch Stage.gateway signal.signal_id))
        λ found _. resume_found-Keeps found

  start_prepared-Keeps :
      (journal : DispatchResult) (topic : String) (outcome : DispatchOutcome)
      → Keeps I (start_prepared r w signal journal topic outcome) (λ _. Unit {0})
  unfolding start_prepared
  start_prepared-Keeps journal topic DispatchOutcome.payload_mismatch = raise-Keeps service_error
  start_prepared-Keeps journal topic DispatchOutcome.attempt_mismatch = raise-Keeps service_error
  start_prepared-Keeps journal topic DispatchOutcome.confirmed = pure-Keeps duplicate tt
  start_prepared-Keeps journal topic DispatchOutcome.ambiguous = pure-Keeps ambiguous_result tt
  start_prepared-Keeps journal topic _ =
      unless_attempted-Keeps _
        (unless-Keeps _ (publish_prepared_event_paper_order-Keeps journal topic))

  pub start-Keeps :
      (o : OrderRequest) (topic : String)
      → Keeps I (start_event_paper_dispatch r w signal o topic) (λ _. Unit {0})
  unfolding start_event_paper_dispatch
  start-Keeps o topic =
      Keeps-bind
        (lift-Keeps (
          w.prepare_event_paper_dispatch Stage.gateway signal.signal_id (r.codec.dump_signal signal)
            (r.codec.dump_order o) topic))
        λ journal _.
          Keeps-bind (call-Keeps (prepared signal.signal_id topic) (j.on_prepared topic))
            λ _ _. start_prepared-Keeps journal topic journal.outcome
