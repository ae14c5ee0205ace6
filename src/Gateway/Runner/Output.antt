-- ===== src/Gateway/Runner/Output.antt =====
-- services/gateway/src/gateway/streaming/runner.py: the order that `_publish_prepared_event_paper_order`
-- takes from the journal, and what its checks establish.
use roboinvest.Prelude.{
  ◌≡◌, refl, Bool, true, false, Option, none, some, ◌&&◌, ◌==◌, Result, ok, raised, service_error,
  ◌>>=◌, arith, if◌then◌else◌, ==_iff, ok_inj, >>=-Steps, subst,
}
use roboinvest.Contracts.Enums.{TradeMode, is_paper}
use roboinvest.Contracts.Ids.{Uuid}
use roboinvest.Contracts.Signal.{UnifiedTradeSignal}
use roboinvest.Contracts.Order.{OrderRequest, validate_order}
use roboinvest.Contracts.Order.Validation.{validate_order-validate_order}
use roboinvest.Contracts.EventPaper.{Payload, is_event_paper_execution_signal}
use roboinvest.Gateway.Runner.Services.{Codec}

-- `raise SupabaseError(...) from exc`
abbrev pub wrap_error : {A : Type 0} → Result A → Result A
wrap_error (ok a) = ok a
wrap_error (raised e) = raised service_error

abbrev pub or_raise : {A : Type 0} → Option A → Result A
or_raise none = raised service_error
or_raise (some a) = ok a

-- `order.unified_signal_id == signal.signal_id`
abbrev pub same_id : Option Uuid → Uuid → Bool
same_id none id = false
same_id (some a) id = a == id

unfoldable pub output_matches : UnifiedTradeSignal → OrderRequest → Bool
unfolding is_event_paper_execution_signal
output_matches signal order =
    same_id order.unified_signal_id signal.signal_id
    && is_paper order.trade_mode
    && is_event_paper_execution_signal order.routing_intent order.strategy_key

-- `OrderRequest.model_validate`, and the checks of the order's identity
unfoldable pub parse_output : Codec → UnifiedTradeSignal → Payload → Result OrderRequest
unfolding output_matches validate_order
parse_output codec signal payload = do
  fields ← or_raise (codec.load_order payload)
  order ← wrap_error (validate_order fields)
  if output_matches signal order then ok order else raised service_error

pub record IsEventOrder (signal : UnifiedTradeSignal) (o : OrderRequest) : Type 0 where
  pub valid : validate_order o ≡ ok o
  pub of_signal : o.unified_signal_id ≡ some signal.signal_id
  pub paper : o.trade_mode ≡ TradeMode.paper
  pub event : is_event_paper_execution_signal o.routing_intent o.strategy_key ≡ true

same_id_lem : (a : Option Uuid) (id : Uuid) → same_id a id ≡ true → a ≡ some id
same_id_lem none id h = cc
same_id_lem (some a) id h = ground (arith, ==_iff a id)

is_paper_lem : (m : TradeMode) → is_paper m ≡ true → m ≡ TradeMode.paper
is_paper_lem TradeMode.live h = cc
is_paper_lem TradeMode.paper h = refl

and_parts : (a b c : Bool) → (a && b && c) ≡ true → (a ≡ true) × (b ≡ true) × (c ≡ true)
and_parts a b c h = ground arith

wrap_error-eq-ok : {A : Type 0} (r : Result A) {a : A} → wrap_error r ≡ ok a → r ≡ ok a
wrap_error-eq-ok (ok a) h = h
wrap_error-eq-ok (raised e) h = cc

if-eq-ok :
    {A : Type 0} (t : Bool) (a : A) {b : A}
    → (if t then ok a else raised service_error) ≡ ok b
    → (t ≡ true) × (a ≡ b)
if-eq-ok true a h = (refl, ok_inj h)
if-eq-ok false a h = cc

output_matches-IsEventOrder :
    (signal : UnifiedTradeSignal) (o : OrderRequest)
    → validate_order o ≡ ok o
    → output_matches signal o ≡ true
    → IsEventOrder signal o
unfolding output_matches
output_matches-IsEventOrder signal o valid h =
    let (same, paper, event) = and_parts _ _ _ h in
    record {
      valid = valid;
      of_signal = same_id_lem o.unified_signal_id signal.signal_id same;
      paper = is_paper_lem o.trade_mode paper;
      event = event;
    }

-- What the checks establish of the journal's order.
pub parse_output-IsEventOrder :
    (codec : Codec) (signal : UnifiedTradeSignal) (payload : Payload) {o : OrderRequest}
    → parse_output codec signal payload ≡ ok o
    → IsEventOrder signal o
unfolding parse_output
parse_output-IsEventOrder codec signal payload h =
    let (fields, loaded, checked) = >>=-Steps (or_raise (codec.load_order payload)) _ h in
    let (order, valid, matched) = >>=-Steps (wrap_error (validate_order fields)) _ checked in
    let (matches, same) = if-eq-ok (output_matches signal order) order matched in
    subst (IsEventOrder signal) same (
      output_matches-IsEventOrder signal order
        (validate_order-validate_order fields (wrap_error-eq-ok (validate_order fields) valid))
        matches)
