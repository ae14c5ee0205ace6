-- ===== src/OmsLive/Parser.antt =====
-- services/oms-live/src/oms_live/order_parser.py: the fill that a broker order's state reports
pub mod Report
use roboinvest.Prelude.{
  ℕ, ◌*◌, Bool, true, false, not, ◌&&◌, ◌||◌, Option, none, some, List, [], ◌∷◌, ltb, ◌==◌,
  if◌then◌else◌, keep_if, map,
}
use roboinvest.Decimal
use roboinvest.Decimal.{Decimal, of_ℕ, div, leb, quantize}
use roboinvest.OmsPaper.Fill.{Consumed, total_quantity, total_value}
use roboinvest.OmsLive.Models.{
  ExecutionDetail, KabuOrderState, LiveFill, filled, partial, pending, cancelled,
}

abbrev pub state_done : ℕ
state_done = 3

abbrev pub state_terminated : ℕ
state_terminated = 5

abbrev pub rec_type_fill : ℕ
rec_type_fill = 8

-- the details that count: those of an execution, or of an unknown type
abbrev pub is_execution : ExecutionDetail → Bool
is_execution d = ltb 0 d.quantity && (d.rec_type == 0 || d.rec_type == rec_type_fill)

unfoldable pub executions : List ExecutionDetail → Consumed
executions details = map (λ d. (d.price, d.quantity)) (keep_if is_execution details)

-- the average of what was consumed, in hundredths of a yen
unfoldable pub vwap_of : Consumed → Option Decimal
vwap_of [] = none
vwap_of (c ∷ cs) =
    let consumed = c ∷ cs in
    some (quantize 100 (div (total_value Decimal.zero consumed) (of_ℕ (total_quantity consumed))))

unfoldable pub vwap_from_details : List ExecutionDetail → Option Decimal
unfolding vwap_of executions
vwap_from_details details = vwap_of (executions details)

-- `a or b` of a decimal: zero is as good as none
unfoldable pub price_or : Option Decimal → Decimal → Decimal
price_or none b = b
price_or (some a) b = if leb a Decimal.zero && leb Decimal.zero a then b else a

-- the result for a positive executed quantity
unfoldable pub executed : KabuOrderState → LiveFill
unfolding price_or
executed s = record {
  filled_quantity = s.cum_qty;
  fill_price = some (price_or (vwap_from_details s.details) s.price);
  reason = if s.cum_qty == s.order_qty then filled else partial;
}

unfoldable pub to_fill_result : KabuOrderState → LiveFill
unfolding executed
to_fill_result s =
    if s.state == state_terminated
    then (if s.cum_qty == 0
        then record { filled_quantity = 0; fill_price = none; reason = cancelled }
        else executed s)
    else if s.state == state_done && ltb 0 s.cum_qty
    then executed s
    else record { filled_quantity = s.cum_qty; fill_price = none; reason = pending }
