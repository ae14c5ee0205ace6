-- ===== src/Gateway/Runner/Handler.antt =====
-- services/gateway/src/gateway/streaming/runner.py: the runner's state, and code that may return early
-- from `_process`, raise, and leave a state in either case.
use roboinvest.Prelude.{
  ℕ, Bool, Option, List, String, Result, ok, raised, Error, ◌∷◌, if◌then◌else◌,
}
use roboinvest.Decimal.{Decimal}
use roboinvest.Contracts.Enums.{TradeMode, Action}
use roboinvest.Contracts.Ids.{Uuid}
use roboinvest.Contracts.Risk.{Reason}
use roboinvest.Contracts.Order.{OrderRequest}
use roboinvest.Contracts.ScannerGate.{ScannerReason}
use roboinvest.Gateway.ExecutionGate.{GateReason}
use roboinvest.Gateway.Runner.Services.{KillSwitchDecision, ReservationRequest}

pub data RejectReason : Type 0 where
  kill_switch : Option String → RejectReason
  paper_only_signal_in_live_mode stale_signal market_closed : RejectReason
  late_live_buy opening_live_buy same_day_reentry_after_sell : RejectReason
  pending_live_order paper_symbol_order_cooldown : RejectReason
  soft_loss_rule_only_buy market_regime_risk_off missing_entry_price : RejectReason
  scanner_gate : ScannerReason → RejectReason
  check_failed : Option Reason → RejectReason
  no_quantity insufficient_live_budget : RejectReason
  live_qty_cap_below_min_lot liquidity_qty_cap_below_min_lot : RejectReason
  execution_gate : GateReason → RejectReason
  risk_reservation : Option String → RejectReason

-- What the runner has done to the outside, and what decided it. The flag of a publication says that
-- the call returned; a call that raised may or may not have delivered.
pub data Call : Type 0 where
  kill_switch_read : KillSwitchDecision → Call
  rejected : RejectReason → Call
  reserved : ReservationRequest → Bool → Call
  released : Uuid → Call
  published : String → OrderRequest → Bool → Call
  prepared : Uuid → String → Call
  begun : Uuid → String → Call
  confirmed : Uuid → Call
  marked_ambiguous : Uuid → Call
  acknowledged : List String → Call

-- `(trade_mode, symbol, action)`
pub record PendingKey : Type 0 where
  pub mode : TradeMode
  pub symbol : String
  pub action : Action

abbrev pub Deadlines : Type 0
Deadlines = List (PendingKey × ℕ)

-- `trace` has the newest call first.
pub record State : Type 0 where
  pub pending_live_order_deadlines : Deadlines
  pub pending_paper_buy_deadlines : Deadlines
  pub cached_live_capital : Option Decimal
  pub trace : List Call

-- `_Decision`
pub record Decision : Type 0 where
  pub approved : Bool
  pub kill_switch_fired : Bool
  pub duplicate_suppressed : Bool
  pub ambiguous : Bool

pub data Outcome (A : Type 0) : Type 0 where
  next : A → Outcome A
  returned : Decision → Outcome A
  failed : Error → Outcome A

abbrev pub Handler : Type 0 → Type 0
Handler A = State → Outcome A × State

abbrev pub continue : {A B : Type 0} → Outcome A × State → (A → Handler B) → Outcome B × State
continue (next a, s) f = f a s
continue (returned d, s) f = (returned d, s)
continue (failed e, s) f = (failed e, s)

infixl 5 ◌>>=◌ ◌>>◌
abbrev pub ◌>>=◌ : {A B : Type 0} → Handler A → (A → Handler B) → Handler B
◌>>=◌ m f s = continue (m s) f

abbrev pub ◌>>◌ : {B : Type 0} → Handler (Unit {0}) → Handler B → Handler B
m >> k = m >>= λ _. k

abbrev pub pure : {A : Type 0} → A → Handler A
pure a s = (next a, s)

abbrev pub lift : {A : Type 0} → Result A → Handler A
lift (ok a) s = (next a, s)
lift (raised e) s = (failed e, s)

-- `return decision` of `_process`
abbrev pub return : {A : Type 0} → Decision → Handler A
return d s = (returned d, s)

abbrev pub raise : {A : Type 0} → Error → Handler A
raise e s = (failed e, s)

abbrev pub get : Handler State
get s = (next s, s)

abbrev pub put : State → Handler (Unit {0})
put s _ = (next tt, s)

abbrev pub record_call : Call → Handler (Unit {0})
record_call c s = (next tt, record s { trace = c ∷ s.trace })

abbrev pub when : Bool → Handler (Unit {0}) → Handler (Unit {0})
when test m = if test then m else pure tt
