-- ===== src/Gateway/Runner/Sizes.antt =====
-- services/gateway/src/gateway/streaming/runner.py: the bounds on the quantity of a BUY.
use roboinvest.Prelude.{
  ◌≡◌, refl, subst, ℕ, ◌≤◌, ◌<◌, Bool, true, false, not, ◌||◌, Option, some, ok, ok_inj, >>=-Steps,
  arith, if◌then◌else◌, ◌>>=◌, false≢true,
}
use roboinvest.Decimal.{Decimal, sub}
use roboinvest.Contracts.Enums.{TradeMode, is_buy, is_live}
use roboinvest.Contracts.Risk.{KillSwitchState, pass_with}
use roboinvest.Contracts.Signal.{UnifiedTradeSignal}
use roboinvest.Gateway.Config.{RiskConfig}
use roboinvest.Gateway.Lots.{calculate}
use roboinvest.Gateway.Lots.Bounds.{calculate_bounds}
use roboinvest.Gateway.Runner.Services.{Services, Runner, DailyLiquiditySnapshot}
use roboinvest.Gateway.Runner.Handler.{State, next}
use roboinvest.Gateway.Runner.Caps.{
  cap_buy_quantity, cap_by_snapshot, cap_buy_quantity_by_liquidity,
}
use roboinvest.Gateway.Runner.Rules.{After}
use roboinvest.Gateway.Runner.Sizing.{size_order}
use roboinvest.Gateway.Runner.Stages.{Stable, Sized, size_order-Sized, available}
use roboinvest.Gateway.Runner.CapBounds.{
  WholeLots, within_budget-calculate, some_inj, cap_to_setting-bounds, WithinLiquidity,
  cap_by_snapshot-bounds,
}

-- The bounds on the quantity of a BUY in a mode, where `cached` is the live capital that was last read.
-- The capital that is left is the available one less what the database says is in use.
pub record BuyBounds (r : Runner) (w : Services) (signal : UnifiedTradeSignal) (mode : TradeMode)
    (cached : Option Decimal) (price : Decimal) (q : ℕ) : Type 0 where
  pub whole : WholeLots r.risk_config.min_lot_size q
  pub within_setting : (cap : ℕ) → r.settings.oms_live_max_qty_per_order ≡ some cap → q ≤ cap
  pub within_liquidity :
      r.settings.liquidity_sizing_enabled ≡ true
      → (found : Option DailyLiquiditySnapshot) × (w.read_latest_daily_liquidity signal.symbol
          ≡ ok found)
        × WithinLiquidity r found q
  pub exposure : Decimal
  pub in_use : w.read_capital_in_use mode ≡ ok exposure
  pub budget : ℕ
  pub affordable :
      calculate signal price record r.risk_config {
        capital =
            sub
              (available r.risk_config (is_live mode) w.read_stock_account_wallet cached)
              exposure;
      }
      ≡ ok (pass_with budget)
  pub within_budget_left : q ≤ budget

-- the branches of the cap by liquidity
liquidity_if-bounds :
    (r : Runner) (w : Services) (signal : UnifiedTradeSignal) (q : ℕ) (enabled : Bool) {q' : ℕ}
    → 0 < r.risk_config.min_lot_size
    → WholeLots r.risk_config.min_lot_size q
    → (if not true || not enabled
        then ok (some q)
        else w.read_latest_daily_liquidity signal.symbol >>= cap_by_snapshot r q)
      ≡ ok (some q')
    → WholeLots r.risk_config.min_lot_size q'
      × (q' ≤ q)
      × (enabled ≡ true
          → (found : Option DailyLiquiditySnapshot) × (w.read_latest_daily_liquidity signal.symbol
              ≡ ok found)
            × WithinLiquidity r found q')
liquidity_if-bounds r w signal q false pos whole h =
    let same = some_inj (ok_inj h) in
    (
      subst (WholeLots r.risk_config.min_lot_size) same whole,
      omega (arith, same),
      λ e. absurd (false≢true e),
    )
liquidity_if-bounds r w signal q true pos whole h =
    let (found, reads, capped) =
      >>=-Steps (w.read_latest_daily_liquidity signal.symbol) (cap_by_snapshot r q) h in
    let (whole', below, within) = cap_by_snapshot-bounds r q found pos whole capped in
    (whole', below, λ _. (found, reads, within))

lots_of_calculate :
    (config : RiskConfig) (signal : UnifiedTradeSignal) (price : Decimal) (q : ℕ)
    → calculate signal price config ≡ ok (pass_with q)
    → WholeLots config.min_lot_size q
lots_of_calculate config signal price q h =
    let b = calculate_bounds signal price config q h in
    record { enough = b.0; pos = b.1; multiple = b.2 }

Sized-BuyBounds :
    (r : Runner) (w : Services) (signal : UnifiedTradeSignal) (state : KillSwitchState)
    (cached : Option Decimal) (existing : Option ℕ) (price : Decimal) (q : ℕ)
    → 0 < r.risk_config.min_lot_size
    → is_buy signal.action ≡ true
    → Sized r w signal state cached existing (some price) q
    → BuyBounds r w signal state.trade_mode cached price q
unfolding cap_buy_quantity cap_buy_quantity_by_liquidity
Sized-BuyBounds r w signal state cached existing price q pos buy z =
    let (exposure, reads, left) = z.budgeted.1 buy in
    let capital =
      available r.risk_config (is_live state.trade_mode) w.read_stock_account_wallet cached in
    let remaining = sub capital exposure in
    let afford = within_budget-calculate r.risk_config signal price remaining z.rebudgeted left in
    let whole =
      lots_of_calculate record r.risk_config { capital = remaining } signal price z.rebudgeted
        afford in
    let (whole', below, within) =
      cap_to_setting-bounds r.risk_config.min_lot_size r.settings.oms_live_max_qty_per_order
        z.rebudgeted pos whole (rw buy at z.by_setting) in
    let (whole'', below', liquid) =
      liquidity_if-bounds r w signal z.capped r.settings.liquidity_sizing_enabled pos whole'
        (rw buy at z.by_liquidity) in
    record {
      whole = whole'';
      within_setting = λ cap e. omega (arith, within cap e, below');
      within_liquidity = liquid;
      exposure = exposure;
      in_use = reads;
      budget = z.rebudgeted;
      affordable = afford;
      within_budget_left = omega (arith, below, below');
    }

any_state : Stable (λ _. Unit {0})
any_state = record {
  rejectable = record { on_reject = λ reason s h. tt };
  on_capital = λ capital s h. tt;
}

-- The quantity that a BUY goes on with is a positive number of whole lots: at most what the lot
-- calculator allows for the capital that is left, at most the configured quantity of an order, and, where
-- sizing by liquidity is on, at most the setting for a missing daily row or for a thin symbol. The capital
-- that is left is the available capital less what is in use in the mode: in live mode the wallet's, or
-- where its reading fails the last one read, and otherwise the configured capital.
pub size_order_bounds :
    (r : Runner) (w : Services) (signal : UnifiedTradeSignal) (state : KillSwitchState)
    (existing : Option ℕ) (price : Decimal) (q : ℕ) (s s' : State)
    → 0 < r.risk_config.min_lot_size
    → is_buy signal.action ≡ true
    → size_order r w signal state existing (some price) s ≡ (next q, s')
    → BuyBounds r w signal state.trade_mode s.cached_live_capital price q
size_order_bounds r w signal state existing price q s s' pos buy h =
    let cached = s.cached_live_capital in
    Sized-BuyBounds r w signal state cached existing price q pos buy
      (subst
        (After (λ q _. Unit {0} × Sized r w signal state cached existing (some price) q)
          (λ _. Unit {0}))
        h
        ((size_order-Sized any_state cached r w signal state existing (some price)).run s
          (tt, refl))).1
