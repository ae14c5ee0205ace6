-- ===== src/Gateway/Runner/Batch.antt =====
-- services/gateway/src/gateway/streaming/runner.py: `run_once`, a batch of messages.
use roboinvest.Prelude.{
  ℕ, ◌+◌, Option, none, some, List, [], ◌∷◌, ◌++◌, String, if◌then◌else◌, length, Result, ok,
  raised,
}
use roboinvest.Contracts.Signal.{UnifiedTradeSignal, validate_unified_signal}
use roboinvest.Gateway.Runner.Services.{Services, Runner, Codec}
use roboinvest.Gateway.Runner.Handler.{
  State, Decision, Outcome, next, returned, failed, acknowledged,
}
use roboinvest.Gateway.Runner.Process.{process}

-- a message, and the replies while it is handled
pub record PulledMessage : Type 0 where
  pub ack_id : String
  pub payload : String
  pub services : Services

pub record BatchStats : Type 0 where
  pub pulled : ℕ
  pub parse_errors : ℕ
  pub approved : ℕ
  pub rejected : ℕ
  pub kill_switch_triggered : ℕ
  pub acked : ℕ
  pub duplicates_suppressed : ℕ
  pub ambiguous : ℕ

abbrev pub no_stats : BatchStats
no_stats = record {
  pulled = 0;
  parse_errors = 0;
  approved = 0;
  rejected = 0;
  kill_switch_triggered = 0;
  acked = 0;
  duplicates_suppressed = 0;
  ambiguous = 0;
}

-- `_parse_signal`
unfoldable pub parse_signal : Codec → String → Option UnifiedTradeSignal
unfolding validate_unified_signal
parse_signal codec payload = elim (codec.load_signal payload) [
  | none ↦ none
  | some fields ↦ elim (validate_unified_signal fields) [
    | ok signal ↦ some signal
    | raised e ↦ none
  ]
]

-- the counters after a decision
unfoldable pub count_decision : Decision → BatchStats → BatchStats
count_decision d stats =
    let fired = if d.kill_switch_fired then 1 else 0 in
    let counted : BatchStats = record stats {
      kill_switch_triggered = stats.kill_switch_triggered + fired;
    } in
    if d.duplicate_suppressed
    then record counted { duplicates_suppressed = counted.duplicates_suppressed + 1 }
    else if d.ambiguous
    then record counted { ambiguous = counted.ambiguous + 1 }
    else if d.approved
    then record counted { approved = counted.approved + 1 }
    else record counted { rejected = counted.rejected + 1 }

-- `await self._process(signal)`
unfoldable pub decide : Outcome Decision × State → Result Decision × State
decide (next d, s) = (ok d, s)
decide (returned d, s) = (ok d, s)
decide (failed e, s) = (raised e, s)

-- what follows, unless an error was raised
abbrev pub and_then :
    {A B : Type 0} → Result A × State → (A → State → Result B × State) → Result B × State
and_then (ok a, s) f = f a s
and_then (raised e, s) f = (raised e, s)

-- the counters and `to_ack`
abbrev pub Progress : Type 0
Progress = BatchStats × List String

-- a message that is no signal is counted and acknowledged
unfoldable pub handle_parsed :
    Runner → PulledMessage → Progress → State → Option UnifiedTradeSignal → Result Progress × State
unfolding count_decision decide process
handle_parsed r msg (stats, to_ack) s none =
    (ok (record stats { parse_errors = stats.parse_errors + 1 }, to_ack ++ msg.ack_id ∷ []), s)
handle_parsed r msg (stats, to_ack) s (some signal) =
    and_then (decide (process r msg.services signal s))
      λ d s'. (ok (count_decision d stats, to_ack ++ msg.ack_id ∷ []), s')

-- one round of the loop
unfoldable pub handle_message : Runner → PulledMessage → Progress → State → Result Progress × State
unfolding parse_signal handle_parsed
handle_message r msg progress s = handle_parsed r msg progress s (parse_signal r.codec msg.payload)

-- the loop over the messages, which an error leaves
unfoldable pub handle_messages :
    Runner → List PulledMessage → Progress → State → Result Progress × State
unfolding handle_message
handle_messages r [] progress s = (ok progress, s)
handle_messages r (msg ∷ rest) progress s =
    and_then (handle_message r msg progress s) (handle_messages r rest)

unfoldable pub after_acknowledge :
    BatchStats → List String → State → Result (Unit {0}) → Result BatchStats × State
after_acknowledge stats to_ack s (raised e) = (raised e, s)
after_acknowledge stats to_ack s (ok done) =
    (ok stats, record s { trace = acknowledged to_ack ∷ s.trace })

-- the acknowledgement at the end, of what was handled
unfoldable pub acknowledge :
    (List String → Result (Unit {0})) → BatchStats → List String → State → Result BatchStats × State
unfolding after_acknowledge
acknowledge ack stats [] s = (ok stats, s)
acknowledge ack stats (id ∷ ids) s = after_acknowledge stats (id ∷ ids) s (ack (id ∷ ids))

-- `run_once`, where the pull gave `messages`
unfoldable pub run_once :
    Runner
    → (List String → Result (Unit {0}))
    → List PulledMessage
    → State
    → Result BatchStats × State
unfolding handle_messages acknowledge
run_once r ack messages s =
    and_then (handle_messages r messages (record no_stats { pulled = length messages }, []) s)
      λ progress. acknowledge ack record (progress.0) { acked = length progress.1 } progress.1
