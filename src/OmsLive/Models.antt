-- ===== src/OmsLive/Models.antt =====
-- services/oms-live/src/oms_live/models.py
use roboinvest.Prelude.{ℕ, Bool, Option, String, List}
use roboinvest.Decimal.{Decimal}
use roboinvest.Contracts.Enums.{Side, TradingStyle}
use roboinvest.Contracts.Time.{DateTime}
use roboinvest.OmsPaper.Models.{UpdateError}

-- `rec_type`: 1 accepted, 4 sent to the exchange, 8 executed, 0 unknown
pub record ExecutionDetail : Type 0 where
  pub price : Decimal
  pub quantity : ℕ
  pub rec_type : ℕ

pub record KabuOrderState : Type 0 where
  pub order_id : String
  pub symbol : String
  pub side : Side
  pub order_qty : ℕ
  pub cum_qty : ℕ
  pub state : ℕ
  pub order_state : ℕ
  pub price : Decimal
  pub details : List ExecutionDetail

pub data LiveFillReason : Type 0 where
  filled partial pending cancelled rejected : LiveFillReason

pub record LiveFill : Type 0 where
  pub filled_quantity : ℕ
  pub fill_price : Option Decimal
  pub reason : LiveFillReason

pub record LivePosition : Type 0 where
  pub symbol : String
  pub quantity : ℕ
  pub entry_price : Decimal
  pub holding_type : TradingStyle
  pub target_price : Option Decimal
  pub stop_loss_price : Option Decimal
  pub max_hold_days : Option ℕ
  pub trailing_stop_pct : Option Decimal
  pub opened_at : DateTime

pub record LiveUpdate : Type 0 where
  pub position : Option LivePosition
  pub delete : Bool
  pub realized_pnl : Option Decimal
  pub error : Option UpdateError
