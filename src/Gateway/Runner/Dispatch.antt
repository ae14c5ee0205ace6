-- ===== src/Gateway/Runner/Dispatch.antt =====
-- services/gateway/src/gateway/streaming/runner.py: the reservation of risk, the publication of an order
-- with the release of its reservation, and the journal of the event-paper orders.
use roboinvest.Prelude.{
  Result, ℕ, ◌+◌, Bool, true, false, not, ◌&&◌, ◌||◌, Option, none, some, String, leb,
  if◌then◌else◌, is_some, ok, raised,
}
use roboinvest.Decimal
use roboinvest.Decimal.{Decimal, of_ℕ, sub, mul, leb as leb_Decimal}
use roboinvest.Contracts.Enums.{TradeMode, is_buy, is_buy_side, is_live, is_paper}
use roboinvest.Contracts.Time.{in_tokyo, date}
use roboinvest.Contracts.Signal.{UnifiedTradeSignal}
use roboinvest.Contracts.Order.{OrderRequest}
use roboinvest.Gateway.Config.{GatewaySettings}
use roboinvest.Gateway.Runner.Services.{Services, Runner, ReservationRequest}
use roboinvest.Gateway.Runner.Handler.{
  Handler, Decision, ◌>>=◌, ◌>>◌, pure, lift, raise, record_call, reserved, released, published,
  risk_reservation, when, Deadlines,
}
use roboinvest.Gateway.Runner.Gates.{pending_key, prune, set_deadline}
use roboinvest.Gateway.Runner.Sizing.{refused, reject}

abbrev pub approved : Decision
approved = record refused { approved = true }

abbrev pub duplicate : Decision
duplicate = record refused { duplicate_suppressed = true }

abbrev pub ambiguous_result : Decision
ambiguous_result = record refused { ambiguous = true }

-- `_reservation_entry_price`
unfoldable pub reservation_entry_price : OrderRequest → Option Decimal → Option Decimal
reservation_entry_price order entry_price =
    if is_buy_side order.side && is_some order.limit_price then order.limit_price else entry_price

-- the difference of two prices that are known, where it is positive, times the quantity
abbrev pub loss_at_stop : ℕ → Option Decimal → Option Decimal → Option Decimal
loss_at_stop quantity (some entry_price) (some stop) =
    if leb_Decimal (sub entry_price stop) Decimal.zero
    then none
    else some (mul (sub entry_price stop) (of_ℕ quantity))
loss_at_stop quantity _ _ = none

-- `_risk_amount_for_order`
unfoldable pub risk_amount_for_order : OrderRequest → Option Decimal → Option Decimal
risk_amount_for_order order entry_price =
    if not (is_live order.trade_mode) || not (is_buy_side order.side)
    then none
    else loss_at_stop order.quantity entry_price order.stop_loss_price

-- `(reservation_entry_price or Decimal("0")) * Decimal(order.quantity)`
abbrev pub notional : Option Decimal → ℕ → Decimal
notional none quantity = mul Decimal.zero (of_ℕ quantity)
notional (some price) quantity = mul price (of_ℕ quantity)

unfoldable pub reservation_request : OrderRequest → Option Decimal → Decimal → ReservationRequest
reservation_request order price risk = record {
  order_id = order.order_id;
  trade_mode = order.trade_mode;
  trading_date = date (in_tokyo order.created_at);
  symbol = order.symbol;
  side = order.side;
  risk_amount = risk;
  notional_amount = notional price order.quantity;
}

-- the reservation of `_process`, made for an order whose risk is known
unfoldable pub reserve_risk :
    Services → OrderRequest → Option Decimal → Option Decimal → Handler (Unit {0})
unfolding reservation_request reject
reserve_risk w order price none = pure tt
reserve_risk w order price (some risk) = do
  let request = reservation_request order price risk
  reservation ← lift (w.reserve_order_risk request)
  record_call (reserved request reservation.passed)
  if reservation.passed then pure tt else reject (risk_reservation reservation.reason)

-- `_mark_pending_live_order`
unfoldable pub mark_pending_live_order :
    GatewaySettings → ℕ → UnifiedTradeSignal → TradeMode → Deadlines → Deadlines
unfolding prune set_deadline
mark_pending_live_order settings recorded_at signal mode deadlines =
    if not (is_live mode) || leb settings.live_symbol_order_cooldown 0
    then deadlines
    else set_deadline (pending_key signal mode) (recorded_at + settings.live_symbol_order_cooldown)
        (prune recorded_at deadlines)

-- `_mark_pending_paper_buy_order`
unfoldable pub mark_pending_paper_buy_order :
    GatewaySettings → ℕ → UnifiedTradeSignal → TradeMode → Deadlines → Deadlines
unfolding prune set_deadline
mark_pending_paper_buy_order settings recorded_at signal mode deadlines =
    if not (is_paper mode)
      || not (is_buy signal.action)
      || leb settings.paper_symbol_order_cooldown 0
    then deadlines
    else set_deadline (pending_key signal mode) (recorded_at + settings.paper_symbol_order_cooldown)
        (prune recorded_at deadlines)

-- `_record_published_order`: the archive, the summaries and the logs leave the state alone
unfoldable pub record_published_order :
    Runner → Services → UnifiedTradeSignal → OrderRequest → Handler (Unit {0})
unfolding mark_pending_live_order mark_pending_paper_buy_order
record_published_order r w signal order s = pure tt record s {
  pending_live_order_deadlines =
      mark_pending_live_order r.settings w.recorded_at signal order.trade_mode
        s.pending_live_order_deadlines;
  pending_paper_buy_deadlines =
      mark_pending_paper_buy_order r.settings w.recorded_at signal order.trade_mode
        s.pending_paper_buy_deadlines;
}

-- after `publish`: where it raised, a reservation is released, its own error suppressed, and the error
-- goes on
unfoldable pub after_publish :
    Runner
    → Services
    → UnifiedTradeSignal
    → OrderRequest
    → String
    → Bool
    → Result String
    → Handler Decision
unfolding record_published_order
after_publish r w signal order topic has_reservation (ok message_id) = do
  record_call (published topic order true)
  record_published_order r w signal order
  pure approved
after_publish r w signal order topic has_reservation (raised e) = do
  record_call (published topic order false)
  when has_reservation (record_call (released order.order_id))
  raise e

-- the `try` around `publish`
unfoldable pub publish_order :
    Runner → Services → UnifiedTradeSignal → OrderRequest → String → Bool → Handler Decision
unfolding after_publish
publish_order r w signal order topic has_reservation =
    after_publish r w signal order topic has_reservation (w.publish topic order)
