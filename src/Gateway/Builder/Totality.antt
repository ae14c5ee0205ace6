-- ===== src/Gateway/Builder/Totality.antt =====
-- Building the order of an accepted signal does not raise.
use roboinvest.Prelude.{
  ℕ, ◌<◌, ◌≡◌, ◌≢◌, ◌∙◌, ap, refl, Bool-cases, inl, inr, leb as leb_ℕ, ◌⊎◌, true, false, Option,
  none, some, ok, arith,
}
use roboinvest.Decimal
use roboinvest.Decimal.{
  Decimal, of_ℕ, add, mul, Le, Lt, le_refl, le_trans, Le_of_parts, le-add_right, zero-le-mul_ℕ,
}
use roboinvest.Contracts.Enums.{
  Side, Action, OrderType, TradeMode, is_buy, is_buy_side, is_paper, is_live, is_paper_only,
}
use roboinvest.Contracts.Ids.{Uuid5, deterministic_order_id}
use roboinvest.Contracts.Time.{DateTime}
use roboinvest.Contracts.TickSize.Order.{tse_tick_size_total}
use roboinvest.Contracts.Signal.{UnifiedTradeSignal, validate_unified_signal}
use roboinvest.Contracts.Order.{OrderRequest, validate_order, populate_order_id}
use roboinvest.Contracts.Risk.{RiskCheck, KillSwitchState}
use roboinvest.Gateway.Config.{RiskConfig}
use roboinvest.Gateway.Lots.Bounds.{calculate_bounds, calculate-passed}
use roboinvest.Gateway.Validator.{validate}
use roboinvest.Gateway.Validator.Safety.{Admitted, validate_admits}
use roboinvest.Gateway.Builder.{
  build, order_for, side_for, buy_limit, order_type_and_limit_price, stop_loss_price,
}

-- A BUY at a positive price gets a limit that is at least the entry price.
buy_limit_total :
    (entry : Decimal) (offset : ℕ)
    → Lt Decimal.zero entry
    → (p : Decimal) × (buy_limit entry offset ≡ ok (OrderType.limit, some p)) × Le entry p
unfolding buy_limit
buy_limit_total entry offset pos =
    let (t, found, above) = tse_tick_size_total entry false pos in
    elim (Bool-cases (leb_ℕ offset 0)) [
      | inl e ↦ (entry, ground arith, le_refl entry)
      | inr e ↦ (
        add entry (mul t (of_ℕ offset)),
        ground arith,
        le-add_right entry _ (zero-le-mul_ℕ t offset (le_trans _ Decimal.one _ one_pos above)),
      )
    ]
  where
    one_pos : Le Decimal.zero Decimal.one
    one_pos = Le_of_parts _ _ (omega arith)

-- The order that `build` makes of an accepted signal.
pub record Built (uuid5 : Uuid5) (signal : UnifiedTradeSignal) (q : ℕ) (mode : TradeMode)
    (entry : Decimal) (o : OrderRequest) : Type 0 where
  pub quantity : o.quantity ≡ q
  pub trade_mode : o.trade_mode ≡ mode
  pub symbol : o.symbol ≡ signal.symbol
  pub signal_id : o.unified_signal_id ≡ some signal.signal_id
  pub order_id : o.order_id ≡ deterministic_order_id uuid5 signal.signal_id mode o.side
  pub valid : validate_order o ≡ ok o
  pub buy_side :
      signal.action ≡ Action.buy
      → (o.side ≡ Side.buy)
        × ((p : Decimal) × (o.order_type ≡ OrderType.limit) × (o.limit_price ≡ some p) × Le entry p)
  pub sell_side :
      signal.action ≡ Action.sell
      → (o.side ≡ Side.sell) × (o.order_type ≡ OrderType.market) × (o.limit_price ≡ none)

Action-cases : (a : Action) → (a ≡ Action.buy) ⊎ ((a ≡ Action.sell) ⊎ (a ≡ Action.hold))
Action-cases Action.buy = inl refl
Action-cases Action.sell = inr (inl refl)
Action-cases Action.hold = inr (inr refl)

module _ (uuid5 : Uuid5) (now : DateTime) (signal : UnifiedTradeSignal) (q : ℕ) (mode : TradeMode)
    (entry : Decimal) (offset : ℕ) (spread : Option Decimal) where
  -- The validators of the order follow from those of the signal.
  order_for_valid :
      (order_type : OrderType) (limit_price : Option Decimal) (side : Side)
      → validate_unified_signal signal ≡ ok signal
      → 0 < q
      → (is_paper_only signal.routing_intent ≡ true → is_paper mode ≡ true)
      → (is_live mode ≡ true → signal.stop_loss_pct ≡ none)
      → is_buy_side side ≡ is_buy signal.action
      → let o = order_for uuid5 now signal q mode order_type limit_price side (
          stop_loss_price signal.stop_loss_price signal.stop_loss_pct signal.action
            (some entry)
            spread) in
        validate_order o ≡ ok o
  unfolding validate_unified_signal validate_order order_for stop_loss_price
  order_for_valid order_type limit_price side valid pos paper rel same = ground arith

  build_buy :
      (p : Decimal)
      → signal.action ≡ Action.buy
      → 0 < q
      → order_type_and_limit_price Action.buy (some entry) offset ≡ ok (OrderType.limit, some p)
      → build uuid5 now signal q mode (some entry) offset spread
        ≡ validate_order (
            order_for uuid5 now signal q mode OrderType.limit (some p) Side.buy (
              stop_loss_price signal.stop_loss_price signal.stop_loss_pct signal.action
                (some entry)
                spread))
  unfolding build side_for
  build_buy p e pos found = ground arith

  build_sell :
      signal.action ≡ Action.sell
      → 0 < q
      → build uuid5 now signal q mode (some entry) offset spread
        ≡ validate_order (
            order_for uuid5 now signal q mode OrderType.market none Side.sell (
              stop_loss_price signal.stop_loss_price signal.stop_loss_pct signal.action
                (some entry)
                spread))
  unfolding build side_for order_type_and_limit_price
  build_sell e pos = ground arith

  -- A valid signal that is not HOLD, is not paper-only or relative-stop in live mode, and has a
  -- positive entry price gives a valid order for a positive quantity.
  build_total :
      validate_unified_signal signal ≡ ok signal
      → 0 < q
      → Lt Decimal.zero entry
      → signal.action ≢ Action.hold
      → (is_paper_only signal.routing_intent ≡ true → is_paper mode ≡ true)
      → (is_live mode ≡ true → signal.stop_loss_pct ≡ none)
      → (o : OrderRequest) × (build uuid5 now signal q mode (some entry) offset spread ≡ ok o)
        × Built uuid5 signal q mode entry o
  unfolding order_for populate_order_id order_type_and_limit_price
  build_total valid pos entry_pos not_hold paper rel = elim (Action-cases signal.action) [
    | inl e ↦
        let (p, found, above) = buy_limit_total entry offset entry_pos in
        let o_ok = order_for_valid OrderType.limit (some p) Side.buy valid pos paper rel (rw e) in
        (
          _,
          build_buy p e pos found ∙ o_ok,
          record {
            quantity = refl;
            trade_mode = refl;
            symbol = refl;
            signal_id = refl;
            order_id = refl;
            valid = o_ok;
            buy_side = λ _. (refl, (p, refl, refl, above));
            sell_side = λ s. absurd (ground arith);
          },
        )
    | inr (inl e) ↦
        let o_ok = order_for_valid OrderType.market none Side.sell valid pos paper rel (rw e) in
        (
          _,
          build_sell e pos ∙ o_ok,
          record {
            quantity = refl;
            trade_mode = refl;
            symbol = refl;
            signal_id = refl;
            order_id = refl;
            valid = o_ok;
            buy_side = λ s. absurd (ground arith);
            sell_side = λ _. (refl, refl, refl);
          },
        )
    | inr (inr e) ↦ absurd (not_hold e)
  ]

-- What `build_total` asks of an accepted signal.
record Ready (signal : UnifiedTradeSignal) (mode : TradeMode) (q : ℕ) : Type 0 where
  not_hold : signal.action ≢ Action.hold
  no_relative_stop : is_live mode ≡ true → signal.stop_loss_pct ≡ none
  quantity_pos : 0 < q

module _ (signal : UnifiedTradeSignal) (state : KillSwitchState) (config : RiskConfig)
    (entry : Decimal) (existing : Option ℕ) (check : RiskCheck) (q : ℕ)
    (valid : validate_unified_signal signal ≡ ok signal) (passed : check.passed ≡ true)
    (quantity : check.adjusted_quantity ≡ some q) where
  sell_has_no_pct : signal.action ≡ Action.sell → signal.stop_loss_pct ≡ none
  unfolding validate_unified_signal
  sell_has_no_pct e = ground arith

  Admitted-Ready :
      (act : Action)
      → signal.action ≡ act
      → Admitted act signal state config entry existing check
      → Ready signal state.trade_mode q
  Admitted-Ready Action.buy e (fresh, rel, calculated) =
      let pass = calculate-passed signal entry config check q calculated passed quantity in
      record {
        not_hold = λ h. cc;
        no_relative_stop = rel;
        quantity_pos = (calculate_bounds signal entry config q (calculated ∙ ap ok pass)).1;
      }
  Admitted-Ready Action.sell e (n, held, pos, eq) = record {
    not_hold = λ h. cc;
    no_relative_stop = λ _. sell_has_no_pct e;
    quantity_pos = ground arith;
  }
  Admitted-Ready Action.hold e a = absurd a

-- For a valid signal that `validate` accepts with a quantity at a positive entry price, `build` in the same
-- trade mode returns a valid order: it does not raise, it has that quantity and the deterministic
-- order id, a BUY is a limit order at no less than the entry price, a SELL a market order.
pub build-validate_total :
    (uuid5 : Uuid5) (now : DateTime) (signal : UnifiedTradeSignal) (state : KillSwitchState)
    (config : RiskConfig) (entry : Decimal) (existing : Option ℕ) (check : RiskCheck) (q offset : ℕ)
    (spread : Option Decimal)
    → validate_unified_signal signal ≡ ok signal
    → validate signal state config entry existing ≡ ok check
    → check.passed ≡ true
    → check.adjusted_quantity ≡ some q
    → Lt Decimal.zero entry
    → (o : OrderRequest) × (build uuid5 now signal q state.trade_mode (some entry) offset spread
        ≡ ok o)
      × Built uuid5 signal q state.trade_mode entry o
build-validate_total uuid5 now signal state config entry existing check q offset spread valid h
      passed quantity pos =
    let (switch, paper, admitted) =
      validate_admits signal state config entry existing check h passed in
    let ready =
      Admitted-Ready signal state config entry existing check q valid passed quantity signal.action
        refl admitted in
    build_total uuid5 now signal q state.trade_mode entry offset spread valid ready.quantity_pos pos
      ready.not_hold paper ready.no_relative_stop
