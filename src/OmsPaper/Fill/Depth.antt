-- ===== src/OmsPaper/Fill/Depth.antt =====
-- How many shares fill_simulator.py fills.
use roboinvest.Prelude.{
  refl, is_none, is_empty, is_some, eq_iff, ap, ◌↔◌, Bool, true, ◌&&◌, ◌≤◌, ◌<◌, none, some, Option,
  keep_if, ℕ, ◌+◌, ◌-◌, ◌≡◌, min, List, [], ◌∷◌, arith,
}
use roboinvest.Decimal.{Decimal}
use roboinvest.Contracts.Enums.{OrderType, Side, is_limit}
use roboinvest.Contracts.Order.{OrderRequest}
use roboinvest.OmsPaper.Models.{PriceLevel, OrderBookSnapshot, filled, partial}
use roboinvest.OmsPaper.Fill.{
  consume, consume_levels, crosses, limit_crossing_levels, total_quantity, fill_from,
  opposite_levels, simulate_fill,
}

abbrev pub depth : List PriceLevel → ℕ
depth [] = 0
depth (level ∷ levels) = level.quantity + depth levels

-- what is left, and what is taken
pub consume-depth :
    (levels : List PriceLevel) (needed : ℕ)
    → ((consume levels needed).0 ≡ needed - depth levels)
      × (total_quantity (consume levels needed).1 ≡ min needed (depth levels))
unfolding consume
consume-depth [] needed = omega arith
consume-depth (level ∷ levels) needed =
    ground (
      arith,
      consume-depth levels needed,
      consume-depth levels (needed - min level.quantity needed),
    )

fill_from-depth :
    (levels : List PriceLevel) (needed : ℕ)
    → (fill_from needed levels).filled_quantity ≡ min needed (depth levels)
unfolding fill_from consume_levels
fill_from-depth levels needed = ground (arith, consume-depth levels needed)

-- A limit order without a limit crosses nothing.
keep_if-no_limit :
    (side : Side) (levels : List PriceLevel)
    → keep_if (crosses OrderType.limit side none) levels ≡ []
unfolding crosses
keep_if-no_limit side [] = refl
keep_if-no_limit side (level ∷ levels) = keep_if-no_limit side levels

crossing-no_limit :
    (type : OrderType) (side : Side) (limit : Option Decimal) (levels : List PriceLevel)
    → (is_limit type && is_none limit) ≡ true
    → depth (keep_if (crosses type side limit) levels) ≡ 0
crossing-no_limit OrderType.market side limit levels h = cc
crossing-no_limit OrderType.limit side none levels h = ap depth (keep_if-no_limit side levels)
crossing-no_limit OrderType.limit side (some x) levels h = cc

depth-is_empty : (levels : List PriceLevel) → is_empty levels ≡ true → depth levels ≡ 0
depth-is_empty [] h = refl
depth-is_empty (level ∷ levels) h = cc

keep_if-is_empty :
    (keep : PriceLevel → Bool) (levels : List PriceLevel)
    → is_empty levels ≡ true
    → depth (keep_if keep levels) ≡ 0
keep_if-is_empty keep [] h = refl
keep_if-is_empty keep (level ∷ levels) h = cc

-- An order in the book's symbol is filled for the lesser of its quantity and the depth of the levels
-- that cross its limit, whichever branch is taken.
pub simulate_fill-depth :
    (order : OrderRequest) (book : OrderBookSnapshot)
    → order.symbol ≡ book.symbol
    → (simulate_fill order book).filled_quantity
      ≡ min order.quantity (depth (limit_crossing_levels order (opposite_levels order book)))
unfolding simulate_fill limit_crossing_levels
simulate_fill-depth order book same =
    let levels = opposite_levels order book in
    let keep = crosses order.order_type order.side order.limit_price in
    let crossing = keep_if keep levels in
    ground (
      arith,
      eq_iff order.symbol book.symbol,
      crossing-no_limit order.order_type order.side order.limit_price levels,
      keep_if-is_empty keep levels,
      depth-is_empty crossing,
      fill_from-depth crossing order.quantity,
    )

-- A price is reported exactly when something is filled; the reason is `filled` exactly when something is
-- filled and that is the whole quantity, and `partial` exactly when something is filled and that is less.
pub simulate_fill_report :
    (order : OrderRequest) (book : OrderBookSnapshot)
    → let fill = simulate_fill order book in
      ((0 < fill.filled_quantity) ↔ (is_some fill.fill_price ≡ true))
      × ((fill.reason ≡ filled)
          ↔ ((0 < fill.filled_quantity) × (fill.filled_quantity ≡ order.quantity)))
      × ((fill.reason ≡ partial)
          ↔ ((0 < fill.filled_quantity) × (fill.filled_quantity < order.quantity)))
      × (fill.filled_quantity ≤ order.quantity)
unfolding simulate_fill fill_from consume_levels
simulate_fill_report order book = ground arith
