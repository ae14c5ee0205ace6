-- ===== src/OmsPaper/Fill.antt =====
-- services/oms-paper/src/oms_paper/fill_simulator.py
pub mod Depth
pub mod Price
use roboinvest.Prelude.{
  ℕ, ◌+◌, ◌-◌, min, Bool, true, false, not, ◌&&◌, ◌||◌, Option, none, some, List, [], ◌∷◌, str_eq,
  leb as leb_ℕ, ◌==◌, if◌then◌else◌, keep_if, is_empty, is_none,
}
use roboinvest.Decimal
use roboinvest.Decimal.{Decimal, of_ℕ, add, mul, div, leb, quantize}
use roboinvest.Contracts.Enums.{OrderType, Side, is_buy_side, is_limit}
use roboinvest.Contracts.Order.{OrderRequest}
use roboinvest.OmsPaper.Models.{
  PriceLevel, OrderBookSnapshot, FillResult, FillReason, filled, partial, empty_book, no_liquidity,
  limit_not_crossed, missing_limit_price, symbol_mismatch,
}

abbrev pub Consumed : Type 0
Consumed = List (Decimal × ℕ)

-- The loop of `_consume_levels`: what is still needed at its end, and the levels consumed.
unfoldable pub consume : List PriceLevel → ℕ → ℕ × Consumed
consume [] remaining = (remaining, [])
consume (level ∷ levels) remaining =
    let take = min level.quantity remaining in
    let skip = consume levels remaining in
    let rest = consume levels (remaining - take) in
    if leb_ℕ remaining 0
    then (remaining, [])
    else if leb_ℕ take 0
    then skip
    else (rest.0, (level.price, take) ∷ rest.1)

-- `(filled, consumed)`
unfoldable pub consume_levels : List PriceLevel → ℕ → ℕ × Consumed
consume_levels levels needed =
    let (remaining, consumed) = consume levels needed in (needed - remaining, consumed)

-- The test of a level against the limit; a market order takes every level.
unfoldable pub crosses : OrderType → Side → Option Decimal → PriceLevel → Bool
crosses OrderType.market side price level = true
crosses OrderType.limit side none level = false
crosses OrderType.limit Side.buy (some price) level = leb level.price price
crosses OrderType.limit Side.sell (some price) level = leb price level.price

unfoldable pub limit_crossing_levels : OrderRequest → List PriceLevel → List PriceLevel
limit_crossing_levels order = keep_if (crosses order.order_type order.side order.limit_price)

abbrev pub total_quantity : Consumed → ℕ
total_quantity [] = 0
total_quantity ((price, qty) ∷ rest) = qty + total_quantity rest

-- `sum((price * qty ...), Decimal("0"))`, from the left
unfoldable pub total_value : Decimal → Consumed → Decimal
total_value acc [] = acc
total_value acc ((price, qty) ∷ rest) = total_value (add acc (mul price (of_ℕ qty))) rest

unfoldable pub vwap : Consumed → Decimal
vwap consumed =
    quantize 1 (div (total_value Decimal.zero consumed) (of_ℕ (total_quantity consumed)))

abbrev pub unfilled : FillReason → FillResult
unfilled reason = record { filled_quantity = 0; fill_price = none; reason = reason }

-- the part behind the checks of the crossing levels
unfoldable pub fill_from : ℕ → List PriceLevel → FillResult
fill_from quantity levels =
    let (filled_qty, consumed) = consume_levels levels quantity in
    if filled_qty == 0 || is_empty consumed then unfilled no_liquidity else record {
      filled_quantity = filled_qty;
      fill_price = some (vwap consumed);
      reason = if filled_qty == quantity then filled else partial;
    }

abbrev pub opposite_levels : OrderRequest → OrderBookSnapshot → List PriceLevel
opposite_levels order book = if is_buy_side order.side then book.asks else book.bids

unfoldable pub simulate_fill : OrderRequest → OrderBookSnapshot → FillResult
simulate_fill order book =
    let levels = opposite_levels order book in
    let crossing = limit_crossing_levels order levels in
    if not (str_eq order.symbol book.symbol)
    then unfilled symbol_mismatch
    else if is_limit order.order_type && is_none order.limit_price
    then unfilled missing_limit_price
    else if is_empty levels
    then unfilled empty_book
    else if is_empty crossing
    then unfilled (if is_limit order.order_type then limit_not_crossed else no_liquidity)
    else fill_from order.quantity crossing
