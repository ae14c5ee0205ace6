-- ===== src/OmsPaper/Position/Quantity.antt =====
-- How position_updater.py of oms-paper changes the number of shares.
use roboinvest.Prelude.{
  ℕ, ◌+◌, ◌<◌, ◌≡◌, ◌≢◌, ◌↔◌, true, false, Option, none, some, arith, if◌then◌else◌, is_none, ◌&&◌,
  not,
}
use roboinvest.Contracts.Enums.{Side, TradingStyle, is_buy_side}
use roboinvest.Contracts.Time.{DateTime}
use roboinvest.Contracts.Order.{OrderRequest}
use roboinvest.Contracts.Signal.{OrderFields}
use roboinvest.OmsPaper.Models.{PaperPosition, FillResult, PositionUpdate}
use roboinvest.OmsPaper.Calendar.{HolidayCalendar}
use roboinvest.OmsPaper.Position.{apply_fill, open_position}

-- The shares of a position that may be absent, and what the database accepts: a positive number.
abbrev pub held : Option PaperPosition → ℕ
held none = 0
held (some p) = p.quantity

abbrev pub IsOpen : Option PaperPosition → Type 0
IsOpen none = Unit
IsOpen (some p) = 0 < p.quantity

-- What an update that was not refused has bought and sold.
abbrev pub bought : Side → PositionUpdate → ℕ → ℕ
bought side u q = if is_none u.error && is_buy_side side then q else 0

abbrev pub sold : Side → PositionUpdate → ℕ → ℕ
sold side u q = if is_none u.error && not (is_buy_side side) then q else 0

module _ (calendar : HolidayCalendar) (order : OrderRequest) (fill : FillResult)
    (existing : Option PaperPosition) (style : TradingStyle) (f : OrderFields) (at : DateTime) where
  abbrev u : PositionUpdate
  u = apply_fill calendar order fill existing style f at

  -- The shares held after an update and those sold by it are the shares held before and those bought.
  pub held-apply_fill :
      held u.position + sold order.side u fill.filled_quantity
      ≡ held existing + bought order.side u fill.filled_quantity
  unfolding apply_fill open_position
  held-apply_fill = ground arith

  -- A refused update leaves the position as it was and deletes nothing.
  pub apply_fill_refused : u.error ≢ none → (u.position ≡ existing) × (u.delete ≡ false)
  unfolding apply_fill open_position
  apply_fill_refused refused = ground arith

  -- An open position stays open or is deleted: an accepted update leaves no position exactly when it
  -- asks for the row's deletion.
  pub apply_fill-IsOpen :
      IsOpen existing
      → IsOpen u.position × (u.error ≡ none → (u.position ≡ none) ↔ (u.delete ≡ true))
  unfolding apply_fill open_position
  apply_fill-IsOpen h = ground arith
