-- ===== src/Gateway/Runner/Placing.antt =====
-- services/gateway/src/gateway/streaming/runner.py: the order that `_process` builds, and the reservation
-- of its risk.
use roboinvest.Prelude.{
  ◌∙◌, subst, ◌≡◌, sym, ap, ℕ, Bool, true, false, Option, none, some, List, ◌∷◌, Result, ok, raised,
  Error, value_error, subst, String, if◌then◌else◌, >>=-Steps, leb, arith,
}
use roboinvest.Decimal
use roboinvest.Decimal.{Decimal, Lt, of_ℕ, sub, mul}
use roboinvest.Contracts.Enums.{OrderType, TradeMode, Side, is_live, is_paper}
use roboinvest.Contracts.Ids.{Uuid5}
use roboinvest.Contracts.Time.{DateTime}
use roboinvest.Contracts.Signal.{UnifiedTradeSignal}
use roboinvest.Contracts.Order.{OrderRequest, validate_order}
use roboinvest.Contracts.Order.Validation.{validate_order-eq, validate_order-validate_order}
use roboinvest.Gateway.Builder.{
  build, order_for, order_type_and_limit_price, side_for, stop_loss_price,
}
use roboinvest.Gateway.Runner.Services.{Services, Runner, ReservationRequest}
use roboinvest.Gateway.Runner.Handler.{
  ◌>>◌, pure, record_call, risk_reservation, State, Call, reserved,
}
use roboinvest.Gateway.Runner.Dispatch.{
  reservation_entry_price, risk_amount_for_order, reservation_request, reserve_risk,
}
use roboinvest.Gateway.Runner.Sizing.{reject}
use roboinvest.Gateway.Runner.Stages.{Stable, reject-Triple}
use roboinvest.Gateway.Runner.Rules.{
  call-Triple, pure-Triple, Triple-bind, Keeps-bind, lift-Keeps, Triple,
}
use roboinvest.Gateway.Runner.Process.{order_of}
use roboinvest.Gateway.Runner.Trace.{Reserved}

-- What `build_order` copies into the order.
pub record IsOrderOf (signal : UnifiedTradeSignal) (mode : TradeMode) (q : ℕ) (o : OrderRequest)
    : Type 0 where
  pub valid : validate_order o ≡ ok o
  pub trade_mode : o.trade_mode ≡ mode
  pub quantity : o.quantity ≡ q
  pub symbol : o.symbol ≡ signal.symbol
  pub routing_intent : o.routing_intent ≡ signal.routing_intent
  pub strategy_key : o.strategy_key ≡ signal.strategy_key
  pub side : side_for signal.action ≡ ok o.side

else-eq-ok :
    {A : Type 0} (t : Bool) (e : Error) (m : Result A) {b : A}
    → (if t then raised e else m) ≡ ok b
    → m ≡ ok b
else-eq-ok true e m h = cc
else-eq-ok false e m h = h

order_for-IsOrderOf :
    (uuid5 : Uuid5) (now : DateTime) (signal : UnifiedTradeSignal) (q : ℕ) (mode : TradeMode)
    (order_type : OrderType) (limit : Option Decimal) (side : Side) (stop : Option Decimal)
    {o : OrderRequest}
    → side_for signal.action ≡ ok side
    → validate_order (order_for uuid5 now signal q mode order_type limit side stop) ≡ ok o
    → IsOrderOf signal mode q o
unfolding order_for
order_for-IsOrderOf uuid5 now signal q mode order_type limit side stop sided h =
    let f = order_for uuid5 now signal q mode order_type limit side stop in
    let e = validate_order-eq f h in
    record {
      valid = validate_order-validate_order f h;
      trade_mode = sym (ap (λ (x : OrderRequest). x.trade_mode) e);
      quantity = sym (ap (λ (x : OrderRequest). x.quantity) e);
      symbol = sym (ap (λ (x : OrderRequest). x.symbol) e);
      routing_intent = sym (ap (λ (x : OrderRequest). x.routing_intent) e);
      strategy_key = sym (ap (λ (x : OrderRequest). x.strategy_key) e);
      side = sided ∙ ap (λ (x : OrderRequest). ok x.side) e;
    }

build-IsOrderOf :
    (uuid5 : Uuid5) (now : DateTime) (signal : UnifiedTradeSignal) (q : ℕ) (mode : TradeMode)
    (entry_price : Option Decimal) (offset : ℕ) (spread : Option Decimal) {o : OrderRequest}
    → build uuid5 now signal q mode entry_price offset spread ≡ ok o
    → IsOrderOf signal mode q o
unfolding build
build-IsOrderOf uuid5 now signal q mode entry_price offset spread h =
    let ((order_type, limit), e1, h1) =
      >>=-Steps (order_type_and_limit_price signal.action entry_price offset) _
        (else-eq-ok (leb q 0) value_error _ h) in
    let (side, e2, h2) = >>=-Steps (side_for signal.action) _ h1 in
    order_for-IsOrderOf uuid5 now signal q mode order_type limit side
      (stop_loss_price signal.stop_loss_price signal.stop_loss_pct signal.action entry_price spread)
      e2 h2

pub order_of-IsOrderOf :
    (r : Runner) (w : Services) (signal : UnifiedTradeSignal) (mode : TradeMode)
    (entry_price : Option Decimal) (q : ℕ) {o : OrderRequest}
    → order_of r w signal mode entry_price q ≡ ok o
    → IsOrderOf signal mode q o
unfolding order_of
order_of-IsOrderOf r w signal mode entry_price q h =
    build-IsOrderOf r.codec.uuid5 w.now signal q mode entry_price
      (if is_paper mode then r.settings.paper_buy_limit_offset_ticks else 0)
      (some r.risk_config.default_stop_loss_spread_pct) h

-- The reservation that the code makes for a risk, and none where the risk is not known.
abbrev pub HasReserved : OrderRequest → Option Decimal → List Call → Type 0
HasReserved o none t = Unit {0}
HasReserved o (some risk) t =
    (q : ReservationRequest) × (t' : List Call) × (t ≡ reserved q true ∷ t')
    × (q.order_id ≡ o.order_id)
    × (q.risk_amount ≡ risk)

abbrev risk_of : OrderRequest → Option Decimal → Option Decimal
risk_of o entry_price = risk_amount_for_order o (reservation_entry_price o entry_price)

risk_of-buy :
    (o : OrderRequest) (entry_price : Option Decimal) (limit stop : Decimal)
    → is_live o.trade_mode ≡ true
    → o.side ≡ Side.buy
    → o.limit_price ≡ some limit
    → o.stop_loss_price ≡ some stop
    → Lt Decimal.zero (sub limit stop)
    → risk_of o entry_price ≡ some (mul (sub limit stop) (of_ℕ o.quantity))
unfolding risk_amount_for_order reservation_entry_price
risk_of-buy o entry_price limit stop live buy price stopped gap = ground arith

pub HasReserved-Reserved :
    (o : OrderRequest) (entry_price : Option Decimal) (t : List Call)
    → HasReserved o (risk_of o entry_price) t
    → Reserved o t
HasReserved-Reserved o entry_price t h limit stop live buy price stopped gap =
    subst (λ x. HasReserved o x t) (risk_of-buy o entry_price limit stop live buy price stopped gap)
      h

-- The reservation: G holds once it is granted, or where none is made.
module _ {I : State → Type 0} (G : Option Decimal → State → Type 0) (stable : Stable I)
    (w : Services) (o : OrderRequest) (price : Option Decimal)
    (on_none : (s : State) → I s → G none s)
    (on_granted : (risk : Decimal) (s : State)
      → I s
      → G
          (some risk)
          (record s { trace = reserved (reservation_request o price risk) true ∷ s.trace }))
    (on_denied : (risk : Decimal) (s : State)
      → I s
      → I (record s { trace = reserved (reservation_request o price risk) false ∷ s.trace })) where
  reserved-Triple :
      (risk : Decimal) (passed : Bool) (reason : Option String)
      → Triple I
          (record_call (reserved (reservation_request o price risk) passed)
            >> (if passed then pure tt else reject (risk_reservation reason)))
          (λ _. G (some risk))
          I
  reserved-Triple risk true reason =
      Triple-bind
        (call-Triple {Q = G (some risk)} (reserved (reservation_request o price risk) true)
          (on_granted risk))
        λ _. pure-Triple tt (λ s h. h)
  reserved-Triple risk false reason =
      Triple-bind
        (call-Triple {Q = I} (reserved (reservation_request o price risk) false) (on_denied risk))
        λ _. reject-Triple stable.rejectable (risk_reservation reason)

  pub reserve_risk-Triple :
      (risk : Option Decimal) → Triple I (reserve_risk w o price risk) (λ _. G risk) I
  unfolding reserve_risk
  reserve_risk-Triple none = pure-Triple tt on_none
  reserve_risk-Triple (some risk) =
      Keeps-bind (lift-Keeps (w.reserve_order_risk (reservation_request o price risk)))
        λ d _. reserved-Triple risk d.passed d.reason
