-- ===== src/OmsPaper/Models.antt =====
-- services/oms-paper/src/oms_paper/models.py, and the book of trade_contracts/market.py
use roboinvest.Prelude.{ℕ, Bool, Option, String, List}
use roboinvest.Decimal.{Decimal}
use roboinvest.Contracts.Enums.{TradingStyle}
use roboinvest.Contracts.Ids.{Uuid}
use roboinvest.Contracts.Time.{DateTime}

pub record PriceLevel : Type 0 where
  pub price : Decimal
  pub quantity : ℕ

pub record OrderBookSnapshot : Type 0 where
  pub symbol : String
  pub bids : List PriceLevel
  pub asks : List PriceLevel

pub record PaperPosition : Type 0 where
  pub symbol : String
  pub quantity : ℕ
  pub entry_price : Decimal
  pub holding_type : TradingStyle
  pub target_price : Option Decimal
  pub stop_loss_price : Option Decimal
  pub max_hold_days : Option ℕ
  pub scheduled_exit_date : Option ℕ
  pub scheduled_exit_time : Option ℕ
  pub trailing_stop_pct : Option Decimal
  pub opened_at : DateTime
  pub position_generation_id : Option Uuid

pub data FillReason : Type 0 where
  filled partial empty_book no_liquidity limit_not_crossed missing_limit_price symbol_mismatch :
      FillReason

pub record FillResult : Type 0 where
  pub filled_quantity : ℕ
  pub fill_price : Option Decimal
  pub reason : FillReason

pub data UpdateError : Type 0 where
  no_fill no_position_for_sell oversell : UpdateError

pub record PositionUpdate : Type 0 where
  pub position : Option PaperPosition
  pub delete : Bool
  pub error : Option UpdateError

pub data ExitReason : Type 0 where
  stop_loss target max_hold_days : ExitReason

-- `SwingDecision` and `DayDecision`, with the field that each action carries
pub data Decision : Type 0 where
  exit : ExitReason → Decision
  trail : Decimal → Decision
  hold : Decision
