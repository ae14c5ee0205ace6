-- ===== src/Pipeline.antt =====
-- From the strategies' signals to an order: services/aggregator/src/aggregator/consensus.py, then
-- validator.py and order_builder.py of services/gateway/src/gateway, as the runners call them.
use roboinvest.Prelude.{◌≡◌, ◌∙◌, ap, ℕ, true, ◌||◌, Option, some, List, ◌∷◌, ok}
use roboinvest.Decimal
use roboinvest.Decimal.{Decimal, Lt}
use roboinvest.Contracts.Enums.{is_paper}
use roboinvest.Contracts.Ids.{Uuid5}
use roboinvest.Contracts.Time.{DateTime}
use roboinvest.Contracts.Risk.{RiskCheck, KillSwitchState}
use roboinvest.Contracts.Signal.{StrategySignal, UnifiedTradeSignal}
use roboinvest.Contracts.Order.{OrderRequest, validate_order}
use roboinvest.Aggregator.Consensus.{ConsensusConfig, aggregate, bucket_by_source, is_paper_signal}
use roboinvest.Aggregator.Consensus.Emission.{aggregate-Emitted}
use roboinvest.Gateway.Config.{RiskConfig}
use roboinvest.Gateway.Validator.{validate}
use roboinvest.Gateway.Validator.Safety.{validate_admits}
use roboinvest.Gateway.Builder.{build}
use roboinvest.Gateway.Builder.Totality.{build-validate_total}

-- one of the two signals that the aggregator picks is paper-only
abbrev pub PaperOnlyPick : List StrategySignal → Type 0
PaperOnlyPick signals =
    (is_paper_signal (bucket_by_source signals).0 || is_paper_signal (bucket_by_source signals).1)
    ≡ true

-- When the aggregator emits a signal and the gateway accepts it with a quantity at a positive entry
-- price, the order is built without an error, is valid and for that quantity and the symbol of the
-- strategies' signals; and if one of the picked signals is paper-only, it is a paper order.
pub order_of_emitted :
    (to_float : Decimal → Decimal) (uuid5 : Uuid5) (cfg : ConsensusConfig) (clock : DateTime)
    (s : StrategySignal) (ss : List StrategySignal) (u : UnifiedTradeSignal)
    (state : KillSwitchState) (config : RiskConfig) (entry : Decimal) (existing : Option ℕ)
    (check : RiskCheck) (q offset : ℕ) (spread : Option Decimal)
    → aggregate to_float uuid5 cfg (some clock) clock (s ∷ ss) ≡ ok (some u)
    → validate u state config entry existing ≡ ok check
    → check.passed ≡ true
    → check.adjusted_quantity ≡ some q
    → Lt Decimal.zero entry
    → (o : OrderRequest) × (build uuid5 clock u q state.trade_mode (some entry) offset spread
        ≡ ok o)
      × (validate_order o ≡ ok o)
      × (o.quantity ≡ q)
      × (o.symbol ≡ s.symbol)
      × (PaperOnlyPick (s ∷ ss) → is_paper o.trade_mode ≡ true)
order_of_emitted to_float uuid5 cfg clock s ss u state config entry existing check q offset spread
      emitted accepted passed quantity pos =
    let e = aggregate-Emitted to_float uuid5 cfg (some clock) clock s ss u emitted in
    let (o, found, b) =
      build-validate_total uuid5 clock u state config entry existing check q offset spread e.valid
        accepted passed quantity pos in
    let (switch, paper, admitted) =
      validate_admits u state config entry existing check accepted passed in
    (
      o,
      found,
      b.valid,
      b.quantity,
      b.symbol ∙ e.symbol_kept,
      λ pick. ap is_paper b.trade_mode ∙ paper (e.paper_only ∙ pick),
    )
