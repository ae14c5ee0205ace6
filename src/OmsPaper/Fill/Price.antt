-- ===== src/OmsPaper/Fill/Price.antt =====
-- The price at which fill_simulator.py fills.
use roboinvest.Prelude.{
  Bool-cases, inl, inr, refl, Bool, true, ◌<◌, some, keep_if, ℕ, ◌+◌, ◌-◌, ◌≡◌, min, List, [], ◌∷◌,
  arith, All,
}
use roboinvest.Decimal
use roboinvest.Decimal.{
  Decimal, of_ℕ, add, mul, Le, le_trans, add-le-add, mul-le-mul_ℕ, mul-add_ℕ-le, mul-add_ℕ-ge,
  quantize, average-ge, average-le, mul-zero-le, le-mul-zero, leb, le_refl,
}
use roboinvest.Contracts.Enums.{OrderType, Side}
use roboinvest.Contracts.Order.{OrderRequest}
use roboinvest.OmsPaper.Models.{PriceLevel, OrderBookSnapshot}
use roboinvest.OmsPaper.Fill.Depth.{consume-depth}
use roboinvest.OmsPaper.Fill.{
  Consumed, consume, consume_levels, crosses, limit_crossing_levels, total_quantity, total_value,
  vwap, fill_from, opposite_levels, simulate_fill,
}

abbrev pub Prices {κ} : (Decimal → Type κ) → Consumed → Type κ
Prices P [] = Unit
Prices P ((price, qty) ∷ rest) = P price × Prices P rest

total_value-le :
    (c : Consumed) (high acc : Decimal) (q : ℕ)
    → Prices (λ p. Le p high) c
    → Le acc (mul high (of_ℕ q))
    → Le (total_value acc c) (mul high (of_ℕ (q + total_quantity c)))
unfolding total_value
total_value-le [] high acc q ps h = let e : q + 0 ≡ q = omega arith in rw e h
total_value-le ((p, n) ∷ c) high acc q ps h =
    let e : q + (n + total_quantity c) ≡ q + n + total_quantity c = omega arith in
    rw e (
      total_value-le c high (add acc (mul p (of_ℕ n))) (q + n) ps.1 (
        le_trans _ _ _ (add-le-add _ _ _ _ h (mul-le-mul_ℕ p high n ps.0)) (mul-add_ℕ-le high q n)))

total_value-ge :
    (c : Consumed) (low acc : Decimal) (q : ℕ)
    → Prices (λ p. Le low p) c
    → Le (mul low (of_ℕ q)) acc
    → Le (mul low (of_ℕ (q + total_quantity c))) (total_value acc c)
unfolding total_value
total_value-ge [] low acc q ps h = let e : q + 0 ≡ q = omega arith in rw e h
total_value-ge ((p, n) ∷ c) low acc q ps h =
    let e : q + (n + total_quantity c) ≡ q + n + total_quantity c = omega arith in
    rw e (
      total_value-ge c low (add acc (mul p (of_ℕ n))) (q + n) ps.1
        (le_trans _ _ _ (mul-add_ℕ-ge low q n) (add-le-add _ _ _ _ h (mul-le-mul_ℕ low p n ps.0))))

vwap-le :
    (c : Consumed) (high : Decimal)
    → 0 < total_quantity c
    → Prices (λ p. Le p high) c
    → Le (vwap c) (quantize 1 high)
unfolding vwap
vwap-le c high pos ps =
    let e : 0 + total_quantity c ≡ total_quantity c = omega arith in
    average-le (total_quantity c) (total_value Decimal.zero c) high pos
      (rw e at (total_value-le c high Decimal.zero 0 ps (le-mul-zero high)))

vwap-ge :
    (c : Consumed) (low : Decimal)
    → 0 < total_quantity c
    → Prices (λ p. Le low p) c
    → Le (quantize 1 low) (vwap c)
unfolding vwap
vwap-ge c low pos ps =
    let e : 0 + total_quantity c ≡ total_quantity c = omega arith in
    average-ge (total_quantity c) (total_value Decimal.zero c) low pos
      (rw e at (total_value-ge c low Decimal.zero 0 ps (mul-zero-le low)))

-- The prices consumed are prices of the levels.
consume-Prices :
    (P : Decimal → Type 0) (levels : List PriceLevel) (needed : ℕ)
    → All (λ l. P l.price) levels
    → Prices P (consume levels needed).1
unfolding consume
consume-Prices P [] needed h = tt
consume-Prices P (level ∷ levels) needed h = ground (
  arith,
  consume-Prices P levels needed h.1,
  consume-Prices P levels (needed - min level.quantity needed) h.1,
)

module _ (levels : List PriceLevel) (needed : ℕ) (price : Decimal)
    (priced : (fill_from needed levels).fill_price ≡ some price) where
  consumed_pos : 0 < total_quantity (consume levels needed).1
  unfolding fill_from consume_levels
  consumed_pos = ground (arith, consume-depth levels needed)

  price_is_vwap : price ≡ vwap (consume levels needed).1
  unfolding fill_from consume_levels
  price_is_vwap = ground arith

  fill_from-le : (high : Decimal) → All (λ l. Le l.price high) levels → Le price (quantize 1 high)
  fill_from-le high h =
      rw price_is_vwap
        (vwap-le _ high consumed_pos (consume-Prices (λ p. Le p high) levels needed h))

  fill_from-ge : (low : Decimal) → All (λ l. Le low l.price) levels → Le (quantize 1 low) price
  fill_from-ge low h =
      rw price_is_vwap (vwap-ge _ low consumed_pos (consume-Prices (λ p. Le low p) levels needed h))

keep_if-All {ℓ} :
    (P : PriceLevel → Type ℓ) (keep : PriceLevel → Bool) (levels : List PriceLevel)
    → ((l : PriceLevel) → keep l ≡ true → P l)
    → All P (keep_if keep levels)
keep_if-All P keep [] h = tt
keep_if-All P keep (l ∷ levels) h = elim (Bool-cases (keep l)) [
  | inl e ↦ rw e (h l e, keep_if-All P keep levels h)
  | inr e ↦ rw e (keep_if-All P keep levels h)
]

-- A fill with a price comes from the levels that cross.
simulate_fill-crossing :
    (order : OrderRequest) (book : OrderBookSnapshot) (price : Decimal)
    → (simulate_fill order book).fill_price ≡ some price
    → (fill_from order.quantity
        (limit_crossing_levels order (opposite_levels order book))).fill_price
      ≡ some price
unfolding simulate_fill
simulate_fill-crossing order book price h = ground arith

abbrev pub Respects : Side → Decimal → Decimal → Type 0
Respects Side.buy limit price = Le price (quantize 1 limit)
Respects Side.sell limit price = Le (quantize 1 limit) price

-- The price of a limit order's fill is no worse than its limit rounded to whole yen.
pub simulate_fill-limit :
    (order : OrderRequest) (book : OrderBookSnapshot) (limit price : Decimal)
    → order.order_type ≡ OrderType.limit
    → order.limit_price ≡ some limit
    → (simulate_fill order book).fill_price ≡ some price
    → Respects order.side limit price
unfolding limit_crossing_levels crosses
simulate_fill-limit order book limit price type some_limit priced = within order.side refl
  where
    levels : List PriceLevel
    levels = opposite_levels order book

    filled_from :
        (side : Side)
        → order.side ≡ side
        → (fill_from order.quantity
            (keep_if (crosses OrderType.limit side (some limit)) levels)).fill_price
          ≡ some price
    filled_from side e =
        rw (← e, ← type, ← some_limit) (simulate_fill-crossing order book price priced)

    within : (side : Side) → order.side ≡ side → Respects side limit price
    within Side.buy e =
        fill_from-le _ order.quantity price (filled_from Side.buy e) limit
          (keep_if-All _ (crosses OrderType.limit Side.buy (some limit)) levels (λ l h. h))
    within Side.sell e =
        fill_from-ge _ order.quantity price (filled_from Side.sell e) limit
          (keep_if-All _ (crosses OrderType.limit Side.sell (some limit)) levels (λ l h. h))
