-- ===== src/Contracts/EventPaper.antt =====
-- contracts/python/trade_contracts/event_paper_dispatch.py: the journal of the event-paper transport.
use roboinvest.Prelude.{
  Bool, true, false, not, ◌&&◌, ◌||◌, Option, none, some, String, str_eq, if◌then◌else◌, is_some,
  Result, ok, raised, value_error,
}
use roboinvest.Contracts.Enums.{RoutingIntent, is_paper_only}
use roboinvest.Contracts.Ids.{Uuid}
use roboinvest.Contracts.Time.{DateTime}

abbrev pub execution_strategy_key : String
execution_strategy_key =
    "event_cluster_earnings_dividend_value_guard_fixed20_stop_v1_research__opening_transport_stress_v1"

abbrev pub frozen_execution_strategy_key : String
frozen_execution_strategy_key =
    "event_cluster_earnings_dividend_value_guard_fixed20_stop_v1_research__frozen_opening_close_v1"

pub data Stage : Type 0 where
  aggregator gateway : Stage

pub data Status : Type 0 where
  prepared attempting confirmed ambiguous : Status

pub data DispatchOutcome : Type 0 where
  prepared attempt_started confirmed ambiguous payload_mismatch attempt_mismatch : DispatchOutcome

abbrev pub is_gateway : Stage → Bool
is_gateway gateway = true
is_gateway aggregator = false

-- A payload, a JSON object, stands as its canonical text, with sorted keys.
abbrev pub Payload : Type 0
Payload = String

pub record DispatchResult : Type 0 where
  pub outcome : DispatchOutcome
  pub stage : Stage
  pub input_signal_id : Uuid
  pub input_payload : Payload
  pub input_payload_sha256 : String
  pub output_payload : Payload
  pub output_payload_sha256 : String
  pub destination_topic : String
  pub status : Status
  pub attempt_id : Option String
  pub attempted_at : Option DateTime
  pub pubsub_message_id : Option String
  pub confirmed_at : Option DateTime
  pub last_error : Option String

-- the fields that `validate_state` wants for each status
abbrev pub status_ok : Status → Bool → Bool → Bool → Bool → Bool
status_ok Status.prepared attempt attempted message at =
    not (attempt || attempted) && not (message || at)
status_ok Status.confirmed attempt attempted message at = attempt && attempted && (message && at)
status_ok _ attempt attempted message at = attempt && attempted && not (message || at)

-- `expected_statuses`
abbrev pub outcome_ok : DispatchOutcome → Status → Bool
outcome_ok DispatchOutcome.prepared Status.prepared = true
outcome_ok DispatchOutcome.prepared _ = false
outcome_ok DispatchOutcome.attempt_started Status.attempting = true
outcome_ok DispatchOutcome.attempt_started _ = false
outcome_ok DispatchOutcome.confirmed Status.confirmed = true
outcome_ok DispatchOutcome.confirmed _ = false
outcome_ok DispatchOutcome.ambiguous Status.attempting = true
outcome_ok DispatchOutcome.ambiguous Status.ambiguous = true
outcome_ok DispatchOutcome.ambiguous _ = false
outcome_ok DispatchOutcome.payload_mismatch _ = true
outcome_ok DispatchOutcome.attempt_mismatch _ = true

-- All `DateTime`s of this model have a zone.
unfoldable pub validate_state : DispatchResult → Result DispatchResult
validate_state r =
    if status_ok r.status (is_some r.attempt_id) (is_some r.attempted_at)
        (is_some r.pubsub_message_id) (is_some r.confirmed_at)
      && outcome_ok r.outcome r.status
    then ok r
    else raised value_error

-- `strategy_key in EVENT_PAPER_EXECUTION_STRATEGY_KEYS`
unfoldable pub is_execution_key : Option String → Bool
is_execution_key none = false
is_execution_key (some k) =
    str_eq k execution_strategy_key || str_eq k frozen_execution_strategy_key

unfoldable pub is_event_paper_execution_signal : RoutingIntent → Option String → Bool
is_event_paper_execution_signal intent strategy_key =
    is_paper_only intent && is_execution_key strategy_key
