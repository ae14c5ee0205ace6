-- ===== src/OmsLive/Parser/Report.antt =====
-- What order_parser.py reports of an order's state.
use roboinvest.Prelude.{◌<◌, ◌≡◌, ◌≢◌, ◌↔◌, ◌⊎◌, true, is_some, arith}
use roboinvest.OmsLive.Models.{
  KabuOrderState, LiveFillReason, filled, partial, pending, cancelled, rejected,
}
use roboinvest.OmsLive.Parser.{to_fill_result, state_done, state_terminated}

-- The states that each reason stands for.
abbrev pub Means : LiveFillReason → KabuOrderState → Type 0
Means pending s = (s.state ≢ state_terminated) × (s.state ≡ state_done → s.cum_qty ≡ 0)
Means cancelled s = (s.state ≡ state_terminated) × (s.cum_qty ≡ 0)
Means filled s =
    ((s.state ≡ state_terminated) ⊎ (s.state ≡ state_done))
    × (0 < s.cum_qty)
    × (s.cum_qty ≡ s.order_qty)
Means partial s =
    ((s.state ≡ state_terminated) ⊎ (s.state ≡ state_done))
    × (0 < s.cum_qty)
    × (s.cum_qty ≢ s.order_qty)
Means rejected s = ⊥

-- The reason of a parsed order is exactly the one that its state and executed quantity mean: a state
-- that is done with nothing executed is still pending. The quantity is the executed one, and a price
-- comes exactly with `filled` and `partial`.
pub to_fill_result-Means :
    (s : KabuOrderState) (reason : LiveFillReason)
    → let fill = to_fill_result s in
      ((fill.reason ≡ reason) ↔ Means reason s)
      × (fill.filled_quantity ≡ s.cum_qty)
      × ((is_some fill.fill_price ≡ true) ↔ ((fill.reason ≡ filled) ⊎ (fill.reason ≡ partial)))
unfolding to_fill_result
to_fill_result-Means s reason = ground arith
