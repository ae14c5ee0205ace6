-- ===== src/Gateway/Runner/Stages.antt =====
-- services/gateway/src/gateway/streaming/runner.py: what the stages of `_process` before the publication
-- keep of any property of the state that their own writes keep.
use roboinvest.Gateway.ExecutionGate.{GateReason}
use roboinvest.Prelude.{
  ltb→lt, ap, if◌then◌else◌, ◌∙◌, Result, subst, ◌≡◌, refl, ℕ, Bool, true, false, Option, none,
  some, ◌∷◌, ok, raised, Bool-cases, inl, inr, ltb, ◌<◌,
}
use roboinvest.Decimal.{Decimal, sub}
use roboinvest.Contracts.Enums.{is_live, TradeMode, is_buy}
use roboinvest.Contracts.Risk.{RiskCheck, KillSwitchState}
use roboinvest.Contracts.Signal.{UnifiedTradeSignal}
use roboinvest.Gateway.Config.{RiskConfig, GatewaySettings}
use roboinvest.Gateway.Validator.{validate}
use roboinvest.Gateway.Runner.Services.{Services, Runner}
use roboinvest.Gateway.Runner.Handler.{
  pure, execution_gate, check_failed, no_quantity, State, RejectReason, rejected,
  missing_entry_price, insufficient_live_budget, live_qty_cap_below_min_lot,
  liquidity_qty_cap_below_min_lot,
}
use roboinvest.Gateway.Runner.Rules.{
  Triple, Keeps-map, Keeps, Keeps-exit, Triple-widen, Keeps-bind, lift-Keeps, pure-Keeps,
}
use roboinvest.Gateway.Runner.Caps.{within_budget, cap_buy_quantity, cap_buy_quantity_by_liquidity}
use roboinvest.Gateway.Runner.Sizing.{
  enforce_execution, accept_quantity, reject, or_reject, require_entry_price, accept_check,
  resolve_live_capital, rebudget_buy_quantity, check_execution, size_order, price_or_zero,
  cached_or,
}
use roboinvest.Gateway.Runner.Process.{reject_if}

-- What a rejection writes.
pub record Rejectable (I : State → Type 0) : Type 0 where
  pub on_reject :
      (reason : RejectReason) (s : State) → I s → I (record s { trace = rejected reason ∷ s.trace })

-- The writes of the stages before the publication: a rejection, the capital that was read.
pub record Stable (I : State → Type 0) : Type 0 where
  pub rejectable : Rejectable I
  pub on_capital :
      (capital : Decimal) (s : State) → I s → I (record s { cached_live_capital = some capital })

-- The capital for orders: in live mode the wallet's, where there is a client for it; the last one that
-- was read, where the reading fails; otherwise the configured one.
abbrev pub available : RiskConfig → Bool → Option (Result Decimal) → Option Decimal → Decimal
available config false wallet cached = config.capital
available config true none cached = config.capital
available config true (some (ok capital)) cached = capital
available config true (some (raised e)) none = config.capital
available config true (some (raised e)) (some last) = last

-- the quantity that the budget leaves: the capital less what is in use
abbrev pub Budgeted :
    RiskConfig
    → Services
    → UnifiedTradeSignal
    → TradeMode
    → Option Decimal
    → Option Decimal
    → ℕ
    → Option ℕ
    → Type 0
Budgeted config w signal mode cached none allowed left = left ≡ some allowed
Budgeted config w signal mode cached (some entry_price) allowed left =
    (is_buy signal.action ≡ false → left ≡ some allowed)
    × (is_buy signal.action ≡ true
        → (exposure : Decimal) × (w.read_capital_in_use mode ≡ ok exposure)
          × (within_budget config signal entry_price
                (sub (available config (is_live mode) w.read_stock_account_wallet cached) exposure)
              ≡ ok left))

-- How the quantity of an order came about.
pub record Sized (r : Runner) (w : Services) (signal : UnifiedTradeSignal) (state : KillSwitchState)
    (cached : Option Decimal) (existing : Option ℕ) (entry_price : Option Decimal) (quantity : ℕ)
    : Type 0 where
  pub check : RiskCheck
  pub validated :
      validate signal state r.risk_config (price_or_zero entry_price) existing ≡ ok check
  pub passed : check.passed ≡ true
  pub allowed : ℕ
  pub adjusted : check.adjusted_quantity ≡ some allowed
  pub allowed_pos : 0 < allowed
  pub rebudgeted : ℕ
  pub budgeted :
      Budgeted r.risk_config w signal state.trade_mode cached entry_price allowed (some rebudgeted)
  pub capped : ℕ
  pub by_setting : cap_buy_quantity r signal rebudgeted ≡ ok (some capped)
  pub by_liquidity : cap_buy_quantity_by_liquidity r w signal capped ≡ ok (some quantity)

module _ {I : State → Type 0} (rejectable : Rejectable I) where
  -- a rejection does not go on
  pub reject-Triple :
      {A : Type 0} {Q : A → State → Type 0} (reason : RejectReason)
      → Triple I (reject {A = A} reason) Q I
  unfolding reject
  reject-Triple reason = record { run = λ s h. rejectable.on_reject reason s h }

  pub reject-Keeps :
      {A : Type 0} {F : A → Type 0} (reason : RejectReason) → Keeps I (reject {A = A} reason) F
  reject-Keeps reason = reject-Triple reason

  pub reject_if-Keeps :
      (t : Bool) (reason : RejectReason) → Keeps I (reject_if t reason) (λ _. t ≡ false)
  unfolding reject_if
  reject_if-Keeps true reason = reject-Keeps reason
  reject_if-Keeps false reason = pure-Keeps tt refl

  or_reject-Keeps :
      (reason : RejectReason) (q : Option ℕ) → Keeps I (or_reject reason q) (λ a. q ≡ some a)
  unfolding or_reject
  or_reject-Keeps reason none = reject-Keeps reason
  or_reject-Keeps reason (some q) = pure-Keeps q refl

  pub require_entry_price-Keeps :
      (p : Option Decimal) → Keeps I (require_entry_price p) (λ _. Unit {0})
  unfolding require_entry_price
  require_entry_price-Keeps none = reject-Keeps missing_entry_price
  require_entry_price-Keeps (some p) = pure-Keeps (some p) tt

  accept_quantity-Keeps : (o : Option ℕ) → Keeps I (accept_quantity o) (λ q. (o ≡ some q) × (0 < q))
  unfolding accept_quantity
  accept_quantity-Keeps none = reject-Keeps no_quantity
  accept_quantity-Keeps (some q) = elim (Bool-cases (ltb 0 q)) [
    | inl pos ↦ rw pos (pure-Keeps q (refl, ltb→lt 0 q pos))
    | inr empty ↦ rw empty (reject-Keeps no_quantity)
  ]

  accept_check-Keeps :
      (check : RiskCheck)
      → Keeps I
          (accept_check check)
          (λ q. (check.passed ≡ true) × (check.adjusted_quantity ≡ some q) × (0 < q))
  unfolding accept_check
  accept_check-Keeps check = elim (Bool-cases check.passed) [
    | inl passed ↦
        rw passed
          (Keeps-map (λ q f. (refl, f.0, f.1)) (accept_quantity-Keeps check.adjusted_quantity))
    | inr failed ↦ rw failed (reject-Keeps (check_failed check.reason))
  ]

  enforce_execution-Keeps :
      (guard : Bool) (reason : Option GateReason)
      → Keeps I (enforce_execution guard reason) (λ _. Unit {0})
  unfolding enforce_execution
  enforce_execution-Keeps guard none = pure-Keeps tt tt
  enforce_execution-Keeps true (some reason) = reject-Keeps (execution_gate reason)
  enforce_execution-Keeps false (some reason) = pure-Keeps tt tt

  check_execution-Keeps :
      (settings : GatewaySettings) (signal : UnifiedTradeSignal) (q : ℕ)
      → Keeps I (check_execution settings signal q) (λ _. Unit {0})
  unfolding check_execution
  check_execution-Keeps settings signal q = enforce_execution-Keeps _ _

-- beside a property, the capital that was last read
abbrev Reading : (State → Type 0) → Option Decimal → State → Type 0
Reading I cached s = I s × (s.cached_live_capital ≡ cached)

Reading-Rejectable :
    {I : State → Type 0} (cached : Option Decimal) → Rejectable I → Rejectable (Reading I cached)
Reading-Rejectable cached t = record { on_reject = λ reason s h. (t.on_reject reason s h.0, h.1) }

module _ {I : State → Type 0} (stable : Stable I) (cached : Option Decimal) where
  resolve_live_capital-Triple :
      (config : RiskConfig) (wallet : Option (Result Decimal))
      → Triple
          (Reading I cached)
          (resolve_live_capital config wallet)
          (λ capital s. I s × (capital ≡ available config true wallet cached))
          I
  unfolding resolve_live_capital
  resolve_live_capital-Triple config none = record { run = λ s h. (h.0, refl) }
  resolve_live_capital-Triple config (some (ok capital)) = record {
    run = λ s h. (stable.on_capital capital s h.0, refl);
  }
  resolve_live_capital-Triple config (some (raised e)) = record {
    run = λ s h. (h.0, ap (cached_or config.capital) h.1 ∙ cached_or_lem cached);
  }
    where
      cached_or_lem :
          (c : Option Decimal)
          → cached_or config.capital c ≡ available config true (some (raised e)) c
      cached_or_lem none = refl
      cached_or_lem (some c) = refl

  capital-Triple :
      (live : Bool) (config : RiskConfig) (wallet : Option (Result Decimal))
      → Triple
          (Reading I cached)
          (if live then resolve_live_capital config wallet else pure config.capital)
          (λ capital s. I s × (capital ≡ available config live wallet cached))
          I
  capital-Triple true config wallet = resolve_live_capital-Triple config wallet
  capital-Triple false config wallet = record { run = λ s h. (h.0, refl) }

  rebudget-Triple :
      (config : RiskConfig) (w : Services) (signal : UnifiedTradeSignal) (mode : TradeMode)
      (entry_price : Option Decimal) (allowed : ℕ)
      → Triple
          (Reading I cached)
          (rebudget_buy_quantity config w signal mode entry_price allowed)
          (λ left s. I s × Budgeted config w signal mode cached entry_price allowed left)
          I
  unfolding rebudget_buy_quantity
  rebudget-Triple config w signal mode none allowed = record { run = λ s h. (h.0, refl) }
  rebudget-Triple config w signal mode (some entry_price) allowed =
      elim (Bool-cases (is_buy signal.action)) [
        | inl buy ↦ rw buy (
            Keeps-bind (capital-Triple (is_live mode) config w.read_stock_account_wallet)
              λ capital is. Keeps-bind (lift-Keeps (w.read_capital_in_use mode)) λ exposure reads.
                Keeps-map
                  (λ left e. (
                    (λ h. cc),
                    (λ _. (
                      exposure,
                      reads,
                      subst
                          (λ c. within_budget config signal entry_price (sub c exposure) ≡ ok left)
                          is e,
                    )),
                  ))
                  (lift-Keeps (within_budget config signal entry_price (sub capital exposure))))
        | inr other ↦ rw other (record { run = λ s h. (h.0, ((λ _. refl), (λ h. cc))) })
      ]

  pub size_order-Sized :
      (r : Runner) (w : Services) (signal : UnifiedTradeSignal) (state : KillSwitchState)
      (existing : Option ℕ) (entry_price : Option Decimal)
      → Triple
          (Reading I cached)
          (size_order r w signal state existing entry_price)
          (λ q s. I s × Sized r w signal state cached existing entry_price q)
          I
  unfolding size_order
  size_order-Sized r w signal state existing entry_price =
      let mine = stable.rejectable in
      Keeps-bind
        (Keeps-exit (λ s h. h.0)
          (lift-Keeps (validate signal state r.risk_config (price_or_zero entry_price) existing)))
        λ check validated.
          Keeps-bind
            (Keeps-exit (λ s h. h.0) (accept_check-Keeps (Reading-Rejectable cached mine) check))
            λ allowed accepted.
              Keeps-bind
                (rebudget-Triple r.risk_config w signal state.trade_mode entry_price allowed)
                λ budget budgeted.
                  Keeps-bind (or_reject-Keeps mine insufficient_live_budget budget)
                    λ rebudgeted left.
                      Keeps-bind (lift-Keeps (cap_buy_quantity r signal rebudgeted))
                        λ cap by_setting.
                          Keeps-bind (or_reject-Keeps mine live_qty_cap_below_min_lot cap)
                            λ capped some_cap.
                              Keeps-bind
                                (lift-Keeps (cap_buy_quantity_by_liquidity r w signal capped))
                                λ liquid by_liquidity.
                                  Keeps-bind
                                    (or_reject-Keeps mine liquidity_qty_cap_below_min_lot liquid)
                                    λ q some_q.
                                      Keeps-bind (check_execution-Keeps mine r.settings signal q)
                                        λ done _. pure-Keeps q record {
                                          check = check;
                                          validated = validated;
                                          passed = accepted.0;
                                          allowed = allowed;
                                          adjusted = accepted.1;
                                          allowed_pos = accepted.2;
                                          rebudgeted = rebudgeted;
                                          budgeted =
                                              subst
                                                (Budgeted r.risk_config w signal state.trade_mode
                                                  cached entry_price allowed)
                                                left budgeted;
                                          capped = capped;
                                          by_setting = by_setting ∙ ap ok some_cap;
                                          by_liquidity = by_liquidity ∙ ap ok some_q;
                                        }

pub size_order-Keeps :
    {I : State → Type 0}
    → Stable I
    → (r : Runner) (w : Services) (signal : UnifiedTradeSignal) (state : KillSwitchState)
      (existing : Option ℕ) (entry_price : Option Decimal)
    → Keeps I (size_order r w signal state existing entry_price) (λ _. Unit {0})
size_order-Keeps {I} stable r w signal state existing entry_price = record {
  run = λ s h.
      (Triple-widen {P' = Reading I s.cached_live_capital} (λ s h. h) (λ q s h. (h.0, tt))
          (λ s h. h)
          (size_order-Sized stable s.cached_live_capital r w signal state existing entry_price)).run
        s (h, refl);
}
