-- ===== src/Gateway/Runner/Trace.antt =====
-- services/gateway/src/gateway/streaming/runner.py: the order of the calls that `_process` makes.
use roboinvest.Prelude.{◌≡◌, Bool, true, false, Option, none, some, List, [], ◌∷◌, ok, String}
use roboinvest.Decimal
use roboinvest.Decimal.{Decimal, Lt, of_ℕ, sub, mul}
use roboinvest.Contracts.Enums.{Side, is_live}
use roboinvest.Contracts.Ids.{Uuid}
use roboinvest.Contracts.Order.{OrderRequest, validate_order}
use roboinvest.Contracts.EventPaper.{is_event_paper_execution_signal}
use roboinvest.Gateway.Routing.{resolve_topic}
use roboinvest.Gateway.Runner.Services.{Runner, KillSwitchDecision, ReservationRequest}
use roboinvest.Gateway.Runner.Handler.{
  Call, kill_switch_read, rejected, reserved, released, published, prepared, begun, confirmed,
  marked_ambiguous, acknowledged,
}

-- the last reading of the kill switch
abbrev pub last_reading : List Call → Option KillSwitchDecision
last_reading [] = none
last_reading (kill_switch_read d ∷ t) = some d
last_reading (rejected x ∷ t) = last_reading t
last_reading (reserved q b ∷ t) = last_reading t
last_reading (released o ∷ t) = last_reading t
last_reading (published p o b ∷ t) = last_reading t
last_reading (prepared i p ∷ t) = last_reading t
last_reading (begun i a ∷ t) = last_reading t
last_reading (confirmed i ∷ t) = last_reading t
last_reading (marked_ambiguous i ∷ t) = last_reading t
last_reading (acknowledged l ∷ t) = last_reading t

abbrev pub is_event_order : OrderRequest → Bool
is_event_order o = is_event_paper_execution_signal o.routing_intent o.strategy_key

-- The call before a publication reserved what a live BUY loses between its limit and its stop.
abbrev pub Reserved : OrderRequest → List Call → Type 0
Reserved o t =
    (limit stop : Decimal)
    → is_live o.trade_mode ≡ true
    → o.side ≡ Side.buy
    → o.limit_price ≡ some limit
    → o.stop_loss_price ≡ some stop
    → Lt Decimal.zero (sub limit stop)
    → (q : ReservationRequest) × (t' : List Call) × (t ≡ reserved q true ∷ t')
      × (q.order_id ≡ o.order_id)
      × (q.risk_amount ≡ mul (sub limit stop) (of_ℕ o.quantity))

-- The call before a publication started an attempt for the order's signal.
abbrev pub Begins : OrderRequest → List Call → Type 0
Begins o t =
    (id : Uuid) × (attempt : String) × (t' : List Call) × (t ≡ begun id attempt ∷ t')
    × (o.unified_signal_id ≡ some id)

-- What justifies a publication after the calls t.
pub record IsJustified (r : Runner) (topic : String) (o : OrderRequest) (t : List Call)
    : Type 0 where
  pub valid : validate_order o ≡ ok o
  pub switch :
      (d : KillSwitchDecision) × (last_reading t ≡ some d)
      × (d.passed ≡ true)
      × (d.state.trade_mode ≡ o.trade_mode)
  pub plain :
      is_event_order o ≡ false → (topic ≡ resolve_topic o.trade_mode r.routing) × Reserved o t
  pub event : is_event_order o ≡ true → Begins o t

-- Every publication of a trace is justified by the calls before it.
abbrev pub IsSafe : Runner → List Call → Type 0
IsSafe r [] = Unit {0}
IsSafe r (kill_switch_read d ∷ t) = IsSafe r t
IsSafe r (rejected x ∷ t) = IsSafe r t
IsSafe r (reserved q b ∷ t) = IsSafe r t
IsSafe r (released o ∷ t) = IsSafe r t
IsSafe r (published topic o b ∷ t) = IsJustified r topic o t × IsSafe r t
IsSafe r (prepared i p ∷ t) = IsSafe r t
IsSafe r (begun i a ∷ t) = IsSafe r t
IsSafe r (confirmed i ∷ t) = IsSafe r t
IsSafe r (marked_ambiguous i ∷ t) = IsSafe r t
IsSafe r (acknowledged l ∷ t) = IsSafe r t
