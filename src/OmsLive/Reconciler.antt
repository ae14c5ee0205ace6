-- ===== src/OmsLive/Reconciler.antt =====
-- services/oms-live/src/oms_live/reconciler.py: the broker's positions against those of the database.
use roboinvest.Prelude.{
  ℕ, ◌==◌, Bool, false, true, not, ◌||◌, Option, none, some, List, [], ◌∷◌, String, str_eq,
  if◌then◌else◌, keep_if,
}
use roboinvest.Decimal.{Decimal}
use roboinvest.Contracts.Enums.{TradingStyle}
use roboinvest.Contracts.Time.{DateTime}
use roboinvest.OmsLive.Models.{LivePosition}
pub mod Convergence

pub record KabuPositionSnapshot : Type 0 where
  pub symbol : String
  pub quantity : ℕ
  pub average_price : Decimal
  pub current_price : Option Decimal
  pub unrealized_pnl : Option Decimal

pub record QuantityMismatch : Type 0 where
  pub symbol : String
  pub kabu_quantity : ℕ
  pub supabase_quantity : ℕ
  pub kabu_average_price : Decimal
  pub supabase_entry_price : Decimal
  pub kabu_current_price : Option Decimal
  pub kabu_unrealized_pnl : Option Decimal

pub record ReconcileActions : Type 0 where
  pub to_import : List KabuPositionSnapshot
  pub quantity_mismatches : List QuantityMismatch
  pub supabase_orphans : List LivePosition
  pub matched : List String

-- a dictionary by symbol, in the order in which its keys came
module _ {A : Type 0} (symbol_of : A → String) where
  abbrev pub has : String → List A → Bool
  has symbol [] = false
  has symbol (p ∷ rest) = str_eq symbol (symbol_of p) || has symbol rest

  abbrev pub get : String → List A → Option A
  get symbol [] = none
  get symbol (p ∷ rest) = if str_eq symbol (symbol_of p) then some p else get symbol rest

  -- `d[symbol] = p`
  abbrev pub put : A → List A → List A
  put p [] = p ∷ []
  put p (q ∷ rest) =
      let rest' = put p rest in if str_eq (symbol_of p) (symbol_of q) then p ∷ rest else q ∷ rest'

  abbrev pub put_all : List A → List A → List A
  put_all [] d = d
  put_all (p ∷ rest) d = put_all rest (put p d)

  -- `{p.symbol: p for p in positions}`
  abbrev pub by_symbol : List A → List A
  by_symbol positions = put_all positions []

abbrev pub kabu_symbol : KabuPositionSnapshot → String
kabu_symbol p = p.symbol

abbrev pub live_symbol : LivePosition → String
live_symbol p = p.symbol

abbrev pub mismatch : KabuPositionSnapshot → LivePosition → QuantityMismatch
mismatch kabu sup = record {
  symbol = kabu.symbol;
  kabu_quantity = kabu.quantity;
  supabase_quantity = sup.quantity;
  kabu_average_price = kabu.average_price;
  supabase_entry_price = sup.entry_price;
  kabu_current_price = kabu.current_price;
  kabu_unrealized_pnl = kabu.unrealized_pnl;
}

-- one round of the loop over the broker's positions
abbrev pub classify :
    KabuPositionSnapshot → Option LivePosition → ReconcileActions → ReconcileActions
classify kabu none actions = record actions { to_import = kabu ∷ actions.to_import }
classify kabu (some sup) actions =
    if kabu.quantity == sup.quantity
    then record actions { matched = kabu.symbol ∷ actions.matched }
    else record actions { quantity_mismatches = mismatch kabu sup ∷ actions.quantity_mismatches }

abbrev pub classify_all :
    List LivePosition → List LivePosition → List KabuPositionSnapshot → ReconcileActions
classify_all sup_by_symbol orphans [] = record {
  to_import = [];
  quantity_mismatches = [];
  supabase_orphans = orphans;
  matched = [];
}
classify_all sup_by_symbol orphans (kabu ∷ rest) =
    classify kabu (get live_symbol kabu.symbol sup_by_symbol)
      (classify_all sup_by_symbol orphans rest)

unfoldable pub compute_position_diff :
    List KabuPositionSnapshot → List LivePosition → ReconcileActions
compute_position_diff kabu_positions supabase_positions =
    let kabu_by_symbol = by_symbol kabu_symbol kabu_positions in
    let sup_by_symbol = by_symbol live_symbol supabase_positions in
    classify_all sup_by_symbol
      (keep_if (λ sup. not (has kabu_symbol sup.symbol kabu_by_symbol)) sup_by_symbol)
      kabu_by_symbol

unfoldable pub build_imported_position :
    DateTime → TradingStyle → KabuPositionSnapshot → LivePosition
build_imported_position now holding_type snapshot = record {
  symbol = snapshot.symbol;
  quantity = snapshot.quantity;
  entry_price = snapshot.average_price;
  holding_type = holding_type;
  target_price = none;
  stop_loss_price = none;
  max_hold_days = none;
  trailing_stop_pct = none;
  opened_at = now;
}

abbrev pub import_all : DateTime → TradingStyle → List KabuPositionSnapshot → List LivePosition
unfolding build_imported_position
import_all now holding_type [] = []
import_all now holding_type (snapshot ∷ rest) =
    build_imported_position now holding_type snapshot ∷ import_all now holding_type rest

-- `apply_reconcile_actions`: the positions that it inserts
unfoldable pub apply_reconcile_actions :
    ReconcileActions → DateTime → Bool → TradingStyle → List LivePosition
unfolding import_all
apply_reconcile_actions actions now apply_imports holding_type =
    if apply_imports then import_all now holding_type actions.to_import else []
