-- ===== src/OmsPaper/Closeout/Complete.antt =====
-- The closeout orders sell every day position, and only those.
use roboinvest.Prelude.{
  ◌<◌, ◌≡◌, refl, true, Bool, ◌&&◌, none, some, List, [], ◌∷◌, map, keep_if, ltb, Bool-cases, inl,
  inr, ok, arith,
}
use roboinvest.Decimal.{Decimal}
use roboinvest.Contracts.Enums.{TradeMode, SignalSource, Side, OrderType, is_day}
use roboinvest.Contracts.Ids.{Uuid, Uuid5}
use roboinvest.Contracts.Time.{DateTime}
use roboinvest.Contracts.Signal.{OrderFields}
use roboinvest.Contracts.Order.{OrderRequest, validate_order}
use roboinvest.OmsPaper.Models.{PaperPosition, FillResult, filled}
use roboinvest.OmsPaper.Calendar.{HolidayCalendar}
use roboinvest.OmsPaper.Position.{apply_fill}
use roboinvest.OmsPaper.Closeout.{closeout_order, build_closeout_orders}

-- A complete fill of an order.
abbrev pub full_fill : OrderRequest → Decimal → FillResult
full_fill order price = record {
  filled_quantity = order.quantity;
  fill_price = some price;
  reason = filled;
}

module _ (uuid5 : Uuid5) (fresh : PaperPosition → Uuid) (created_at : DateTime) (mode : TradeMode)
    (source : SignalSource) where
  -- One order for one position: it is valid, and its complete fill deletes the position.
  abbrev pub Closes : HolidayCalendar → PaperPosition → OrderRequest → Type 0
  Closes calendar p o =
      (o.symbol ≡ p.symbol)
      × (o.side ≡ Side.sell)
      × (o.order_type ≡ OrderType.market)
      × (validate_order o ≡ ok o)
      × ((price : Decimal) (f : OrderFields) (at : DateTime)
          → let u = apply_fill calendar o (full_fill o price) (some p) p.holding_type f at in
            (u.position ≡ none) × (u.delete ≡ true) × (u.error ≡ none))

  abbrev is_open_day : PaperPosition → Bool
  is_open_day p = is_day p.holding_type && ltb 0 p.quantity

  -- The orders match the day positions one by one, in order; the others have none.
  abbrev pub Matches : HolidayCalendar → List PaperPosition → List OrderRequest → Type 0
  Matches calendar [] [] = Unit
  Matches calendar [] (o ∷ os) = ⊥
  Matches calendar (p ∷ ps) [] = ⊥
  Matches calendar (p ∷ ps) (o ∷ os) = Closes calendar p o × Matches calendar ps os

  closeout_order-Closes :
      (calendar : HolidayCalendar) (p : PaperPosition)
      → 0 < p.quantity
      → Closes calendar p (closeout_order uuid5 fresh created_at mode source p)
  unfolding closeout_order validate_order apply_fill
  closeout_order-Closes calendar p pos =
      (refl, refl, refl, ground arith, λ price f at. ground arith)

  orders-Matches :
      (calendar : HolidayCalendar) (positions : List PaperPosition)
      → Matches calendar
          (keep_if is_open_day positions)
          (map (closeout_order uuid5 fresh created_at mode source) (keep_if is_open_day positions))
  orders-Matches calendar [] = tt
  orders-Matches calendar (p ∷ ps) = elim (Bool-cases (is_open_day p)) [
    | inl e ↦ rw e (closeout_order-Closes calendar p (ground arith), orders-Matches calendar ps)
    | inr e ↦ rw e (orders-Matches calendar ps)
  ]

  -- The closeout orders match the open day positions one by one and in order: each is a valid market
  -- SELL in its symbol whose complete fill, at any price, deletes the position.
  pub build_closeout_orders-Matches :
      (calendar : HolidayCalendar) (positions : List PaperPosition)
      → Matches calendar
          (keep_if is_open_day positions)
          (build_closeout_orders uuid5 fresh created_at mode source positions)
  unfolding build_closeout_orders
  build_closeout_orders-Matches calendar positions = orders-Matches calendar positions
