-- ===== src/OmsLive/Closeout/Everything.antt =====
-- The closeout orders of oms-live, which do not ask for the holding type of a position.
use roboinvest.Prelude.{
  ◌<◌, ◌≡◌, refl, true, Bool, none, some, List, [], ◌∷◌, map, keep_if, ltb, Bool-cases, inl, inr,
  ok, arith,
}
use roboinvest.Decimal.{Decimal, mul, sub, of_ℕ}
use roboinvest.Contracts.Enums.{TradeMode, SignalSource, Side, OrderType}
use roboinvest.Contracts.Ids.{Uuid, Uuid5}
use roboinvest.Contracts.Time.{DateTime}
use roboinvest.Contracts.Order.{OrderRequest, validate_order}
use roboinvest.OmsLive.Models.{LivePosition, LiveFill, LiveFillReason}
use roboinvest.OmsLive.Position.{Terms, apply_fill, realized_pnl}
use roboinvest.OmsLive.Closeout.{closeout_order, build_closeout_orders}

-- A complete fill of an order.
abbrev pub full_fill : OrderRequest → Decimal → LiveFill
full_fill order price = record {
  filled_quantity = order.quantity;
  fill_price = some price;
  reason = LiveFillReason.filled;
}

-- The order is valid, and its complete fill deletes the position and realizes the profit on all of it.
abbrev pub Sells : LivePosition → OrderRequest → Type 0
Sells p o =
    (o.symbol ≡ p.symbol)
    × (o.side ≡ Side.sell)
    × (o.order_type ≡ OrderType.market)
    × (validate_order o ≡ ok o)
    × ((price : Decimal) (t : Terms) (at : DateTime)
        → let u = apply_fill o (full_fill o price) (some p) t at in
          (u.position ≡ none)
          × (u.delete ≡ true)
          × (u.error ≡ none)
          × (u.realized_pnl ≡ some (mul (sub price p.entry_price) (of_ℕ p.quantity))))

abbrev pub Paired : List LivePosition → List OrderRequest → Type 0
Paired [] [] = Unit
Paired [] (o ∷ os) = ⊥
Paired (p ∷ ps) [] = ⊥
Paired (p ∷ ps) (o ∷ os) = Sells p o × Paired ps os

abbrev is_open : LivePosition → Bool
is_open p = ltb 0 p.quantity

module _ (uuid5 : Uuid5) (fresh : LivePosition → Uuid) (created_at : DateTime) (mode : TradeMode)
    (source : SignalSource) where
  closeout_order-Sells :
      (p : LivePosition)
      → 0 < p.quantity
      → Sells p (closeout_order uuid5 fresh created_at mode source p)
  unfolding closeout_order validate_order apply_fill realized_pnl
  closeout_order-Sells p pos = (refl, refl, refl, ground arith, λ price t at. ground arith)

  orders-Paired :
      (positions : List LivePosition)
      → Paired
          (keep_if is_open positions)
          (map (closeout_order uuid5 fresh created_at mode source) (keep_if is_open positions))
  orders-Paired [] = tt
  orders-Paired (p ∷ ps) = elim (Bool-cases (is_open p)) [
    | inl e ↦ rw e (closeout_order-Sells p (ground arith), orders-Paired ps)
    | inr e ↦ rw e (orders-Paired ps)
  ]

  -- The closeout orders match the given positions of a positive quantity one by one and in order: each is
  -- a valid market SELL in its symbol whose complete fill, at any price, deletes the position and
  -- realizes the price difference on its whole quantity.
  pub build_closeout_orders-Paired :
      (positions : List LivePosition)
      → Paired
          (keep_if (λ p. ltb 0 p.quantity) positions)
          (build_closeout_orders uuid5 fresh created_at mode source positions)
  unfolding build_closeout_orders
  build_closeout_orders-Paired positions = orders-Paired positions
