-- ===== src/OmsLive/Position/AsPaper.antt =====
-- The two position updaters agree.
use roboinvest.Prelude.{inl, inr, Bool-cases, Bool-cases, ℕ, ◌≡◌, refl, Option, none, some, arith}
use roboinvest.Decimal.{Decimal}
use roboinvest.Contracts.Enums.{Side, TradingStyle}
use roboinvest.Contracts.Time.{DateTime}
use roboinvest.Contracts.Order.{OrderRequest}
use roboinvest.Contracts.Signal.{OrderFields}
use roboinvest.OmsPaper.Models.{PaperPosition, FillResult, FillReason, PositionUpdate}
use roboinvest.OmsPaper.Calendar.{HolidayCalendar}
use roboinvest.OmsPaper.Position as Paper
use roboinvest.OmsLive.Models.{LiveFill, LivePosition, LiveUpdate}
use roboinvest.OmsLive.Position.{
  leb_ℕ, apply_priced, Terms, apply_fill, apply_side, weighted_average_entry,
}

-- The part of a paper position that a live position has.
abbrev pub live_part : PaperPosition → LivePosition
live_part p = record {
  symbol = p.symbol;
  quantity = p.quantity;
  entry_price = p.entry_price;
  holding_type = p.holding_type;
  target_price = p.target_price;
  stop_loss_price = p.stop_loss_price;
  max_hold_days = p.max_hold_days;
  trailing_stop_pct = p.trailing_stop_pct;
  opened_at = p.opened_at;
}

abbrev pub live_part? : Option PaperPosition → Option LivePosition
live_part? none = none
live_part? (some p) = some (live_part p)

abbrev pub terms_of : TradingStyle → OrderFields → Terms
terms_of style f = record {
  holding_type = style;
  stop_loss_price = f.stop_loss_price;
  target_price = f.target_price;
  max_hold_days = f.max_hold_days;
  trailing_stop_pct = f.trailing_stop_pct;
}

abbrev pub paper_fill : LiveFill → FillReason → FillResult
paper_fill fill reason = record {
  filled_quantity = fill.filled_quantity;
  fill_price = fill.fill_price;
  reason = reason;
}

-- What oms-live stores of a position is what oms-paper does.
abbrev Agrees : LiveUpdate → PositionUpdate → Type 0
Agrees live paper =
    (live.position ≡ live_part? paper.position)
    × (live.delete ≡ paper.delete)
    × (live.error ≡ paper.error)

module _ (calendar : HolidayCalendar) (order : OrderRequest) (style : TradingStyle)
    (f : OrderFields) (at : DateTime) where
  apply_side-Agrees :
      (side : Side) (quantity : ℕ) (price : Decimal) (existing : Option PaperPosition)
      → f.stop_loss_pct ≡ none
      → Agrees
          (apply_side side order quantity price (live_part? existing) (terms_of style f) at)
          (Paper.apply_side calendar side order quantity price existing style f at)
  unfolding apply_side Paper.apply_side Paper.open_position Paper.resolve_stop_loss_price
      weighted_average_entry Paper.weighted_average_entry
  apply_side-Agrees Side.buy quantity price none no_pct = rw no_pct (refl, refl, refl)
  apply_side-Agrees Side.buy quantity price (some p) no_pct = (refl, refl, refl)
  apply_side-Agrees Side.sell quantity price none no_pct = (refl, refl, refl)
  apply_side-Agrees Side.sell quantity price (some p) no_pct = ground arith

  apply_priced-Agrees :
      (quantity : ℕ) (price : Option Decimal) (existing : Option PaperPosition)
      → f.stop_loss_pct ≡ none
      → Agrees
          (apply_priced order quantity price (live_part? existing) (terms_of style f) at)
          (Paper.apply_priced calendar order quantity price existing style f at)
  unfolding apply_priced Paper.apply_priced
  apply_priced-Agrees quantity none existing no_pct = (refl, refl, refl)
  apply_priced-Agrees quantity (some price) existing no_pct = elim (Bool-cases (leb_ℕ quantity 0)) [
    | inl e ↦ rw e (refl, refl, refl)
    | inr e ↦ rw e (apply_side-Agrees order.side quantity price existing no_pct)
  ]

  -- Where no relative stop is asked for, oms-live changes a position as oms-paper does: the same
  -- position up to the scheduled exit, the same deletion and the same refusal.
  pub apply_fill-as_paper :
      (fill : LiveFill) (reason : FillReason) (existing : Option PaperPosition)
      → f.stop_loss_pct ≡ none
      → let live = apply_fill order fill (live_part? existing) (terms_of style f) at in
        let paper = Paper.apply_fill calendar order (paper_fill fill reason) existing style f at in
        (live.position ≡ live_part? paper.position)
        × (live.delete ≡ paper.delete)
        × (live.error ≡ paper.error)
  unfolding apply_fill Paper.apply_fill
  apply_fill-as_paper fill reason existing no_pct =
      apply_priced-Agrees fill.filled_quantity fill.fill_price existing no_pct
