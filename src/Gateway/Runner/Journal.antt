-- ===== src/Gateway/Runner/Journal.antt =====
-- services/gateway/src/gateway/streaming/runner.py: the event-paper orders, published under a durable
-- journal that another table keeps.
use roboinvest.Prelude.{
  Bool, true, false, not, ◌&&◌, ◌||◌, Option, none, some, String, str_eq, ◌==◌, if◌then◌else◌,
  Result, ok, raised, service_error,
}
use roboinvest.Contracts.Signal.{UnifiedTradeSignal}
use roboinvest.Contracts.Order.{OrderRequest}
use roboinvest.Contracts.EventPaper.{Stage, Status, DispatchOutcome, DispatchResult, is_gateway}
use roboinvest.Gateway.Runner.Services.{Services, Runner}
use roboinvest.Gateway.Runner.Handler.{
  Handler, Decision, ◌>>=◌, ◌>>◌, pure, lift, return, raise, record_call, published, prepared,
  begun, confirmed, marked_ambiguous,
}
use roboinvest.Gateway.Runner.Output.{parse_output}
use roboinvest.Gateway.Runner.Dispatch.{
  duplicate, ambiguous_result, approved, record_published_order,
}

-- `status in {ATTEMPTING, AMBIGUOUS}`
abbrev pub is_attempted : Status → Bool
is_attempted Status.attempting = true
is_attempted Status.ambiguous = true
is_attempted _ = false

abbrev pub is_prepared : Status → Bool
is_prepared Status.prepared = true
is_prepared _ = false

abbrev pub is_confirmed : DispatchOutcome → Bool
is_confirmed DispatchOutcome.confirmed = true
is_confirmed _ = false

-- the call `mark_event_paper_dispatch_ambiguous`
abbrev pub mark : Services → UnifiedTradeSignal → Result DispatchResult
mark w signal =
    w.mark_event_paper_dispatch_ambiguous Stage.gateway signal.signal_id w.attempt_id w.settled_at

module _ (r : Runner) (w : Services) (signal : UnifiedTradeSignal) where
  unfoldable pub record_approved : OrderRequest → Handler Decision
  unfolding record_published_order
  record_approved order = do record_published_order r w signal order; pure approved

  -- the last tests on `checkpoint.outcome`
  unfoldable pub checkpoint : OrderRequest → DispatchOutcome → Handler Decision
  unfolding record_approved
  checkpoint order DispatchOutcome.confirmed = do
    record_call (confirmed signal.signal_id)
    record_approved order
  checkpoint order DispatchOutcome.ambiguous = pure ambiguous_result
  checkpoint order _ = raise service_error

  -- the attempt is marked after an error, whose own error is suppressed
  unfoldable pub after_failed_confirmation : OrderRequest → Result DispatchResult → Handler Decision
  unfolding record_approved
  after_failed_confirmation order (ok marked) = do
    record_call (marked_ambiguous signal.signal_id)
    if is_confirmed marked.outcome then record_approved order else pure ambiguous_result
  after_failed_confirmation order (raised e) = do
    record_call (marked_ambiguous signal.signal_id)
    pure ambiguous_result

  unfoldable pub after_confirmation : OrderRequest → Result DispatchResult → Handler Decision
  unfolding checkpoint after_failed_confirmation
  after_confirmation order (ok reply) = checkpoint order reply.outcome
  after_confirmation order (raised e) = after_failed_confirmation order (mark w signal)

  unfoldable pub after_publication : OrderRequest → String → Result String → Handler Decision
  unfolding after_confirmation
  after_publication order topic (ok message_id) = do
    record_call (published topic order true)
    after_confirmation order (
        w.confirm_event_paper_dispatch Stage.gateway signal.signal_id w.attempt_id message_id
          w.settled_at)
  after_publication order topic (raised e) = do
    record_call (published topic order false)
    record_call (marked_ambiguous signal.signal_id)
    pure ambiguous_result

  -- the tests on `begun.outcome`
  unfoldable pub attempt_if_begun : OrderRequest → String → DispatchOutcome → Handler Decision
  unfolding after_publication
  attempt_if_begun order topic DispatchOutcome.attempt_started = do
    record_call (begun signal.signal_id w.attempt_id)
    after_publication order topic (w.publish topic order)
  attempt_if_begun order topic DispatchOutcome.confirmed = pure duplicate
  attempt_if_begun order topic DispatchOutcome.ambiguous = pure ambiguous_result
  attempt_if_begun order topic _ = raise service_error

  -- `_publish_prepared_event_paper_order`, for a record whose status is PREPARED
  unfoldable pub publish_prepared : DispatchResult → String → Handler Decision
  unfolding parse_output attempt_if_begun
  publish_prepared journal topic =
      if not (str_eq journal.destination_topic topic) then raise service_error else do
        order ← lift (parse_output r.codec signal journal.output_payload)
        reply ← lift (
            w.begin_event_paper_dispatch Stage.gateway signal.signal_id w.attempt_id w.attempted_at)
        attempt_if_begun order topic reply.outcome

  unfoldable pub publish_by_status : DispatchResult → String → Status → Handler Decision
  unfolding publish_prepared
  publish_by_status journal topic Status.prepared = publish_prepared journal topic
  publish_by_status journal topic Status.confirmed = pure duplicate
  publish_by_status journal topic _ = pure ambiguous_result

  unfoldable pub publish_prepared_event_paper_order : DispatchResult → String → Handler Decision
  unfolding publish_by_status
  publish_prepared_event_paper_order journal topic =
      if not (is_gateway journal.stage) || not (journal.input_signal_id == signal.signal_id)
      then raise service_error
      else publish_by_status journal topic journal.status

  -- the tests on a record that was read
  unfoldable pub resume_record : DispatchResult → DispatchOutcome → Handler Decision
  unfolding publish_prepared_event_paper_order
  resume_record journal DispatchOutcome.confirmed = pure duplicate
  resume_record journal DispatchOutcome.ambiguous = pure ambiguous_result
  resume_record journal DispatchOutcome.prepared =
      if is_attempted journal.status
      then pure ambiguous_result
      else publish_prepared_event_paper_order journal journal.destination_topic
  resume_record journal _ =
      if is_attempted journal.status then pure ambiguous_result else raise service_error

  abbrev pub same_input : DispatchResult → Bool
  same_input journal =
      let payload = r.codec.dump_signal signal in
      str_eq journal.input_payload_sha256 (r.codec.sha256 payload)
      && str_eq journal.input_payload payload

  unfoldable pub resume_found : Option DispatchResult → Handler (Unit {0})
  unfolding resume_record
  resume_found none = pure tt
  resume_found (some journal) =
      if not (same_input journal)
      then raise service_error
      else do decision ← resume_record journal journal.outcome; return decision

  -- `_resume_event_paper_dispatch`, and the return of what it resumes
  unfoldable pub resume_event_paper_dispatch : Handler (Unit {0})
  unfolding resume_found
  resume_event_paper_dispatch = do
    found ← lift (w.read_event_paper_dispatch Stage.gateway signal.signal_id)
    resume_found found

  -- the tests on `prepared`
  unfoldable pub start_prepared : DispatchResult → String → DispatchOutcome → Handler Decision
  unfolding publish_prepared_event_paper_order
  start_prepared journal topic DispatchOutcome.payload_mismatch = raise service_error
  start_prepared journal topic DispatchOutcome.attempt_mismatch = raise service_error
  start_prepared journal topic DispatchOutcome.confirmed = pure duplicate
  start_prepared journal topic DispatchOutcome.ambiguous = pure ambiguous_result
  start_prepared journal topic _ =
      if is_attempted journal.status
      then pure ambiguous_result
      else if not (is_prepared journal.status)
      then raise service_error
      else publish_prepared_event_paper_order journal topic

  -- `_start_event_paper_dispatch`
  unfoldable pub start_event_paper_dispatch : OrderRequest → String → Handler Decision
  unfolding start_prepared
  start_event_paper_dispatch order topic = do
    journal ← lift (
        w.prepare_event_paper_dispatch Stage.gateway signal.signal_id (r.codec.dump_signal signal)
          (r.codec.dump_order order) topic)
    record_call (prepared signal.signal_id topic)
    start_prepared journal topic journal.outcome
