-- ===== src/Aggregator/Consensus/Emission.antt =====
-- What a signal that consensus.py emits has in common with its inputs.
use roboinvest.Prelude.{ap, ◌∙◌, ◌≡◌, false, ◌||◌, Option, none, some, List, ◌∷◌, String, ok, arith}
use roboinvest.Decimal.{Decimal, ltb}
use roboinvest.Contracts.Enums.{Action, SignalSource, TradingStyle, is_paper_only}
use roboinvest.Contracts.Ids.{Uuid5}
use roboinvest.Contracts.Time.{DateTime}
use roboinvest.Contracts.Signal.{StrategySignal, UnifiedTradeSignal, validate_unified_signal}
use roboinvest.Aggregator.Consensus.{
  ConsensusConfig, threshold_for, bucket_by_source, newer, id_of, is_paper_signal, unified_from,
  build_unified, emit_single, emit_agreed, emit_conflict, aggregate_sides, aggregate, blended,
  or_clock,
}

-- The emitted signal is valid, carries the ids of both sides, is paper-only exactly when a side is,
-- and its confidence before rounding reached the threshold of its source.
pub record Emitted (to_float : Decimal → Decimal) (cfg : ConsensusConfig) (symbol : String)
    (rule ai : Option StrategySignal) (u : UnifiedTradeSignal) : Type 0 where
  pub valid : validate_unified_signal u ≡ ok u
  pub symbol_kept : u.symbol ≡ symbol
  pub paper_only : is_paper_only u.routing_intent ≡ (is_paper_signal rule || is_paper_signal ai)
  pub id_a : u.strategy_signal_id_a ≡ id_of rule
  pub id_b : u.strategy_signal_id_b ≡ id_of ai
  pub confident :
      (c : Decimal) × (u.confidence ≡ to_float c)
      × (ltb c (threshold_for cfg u.signal_source) ≡ false)

validate_unified-same : (s u : UnifiedTradeSignal) → validate_unified_signal s ≡ ok u → u ≡ s
unfolding validate_unified_signal
validate_unified-same s u h = ground arith

validate_unified-again :
    (s u : UnifiedTradeSignal) → validate_unified_signal s ≡ ok u → validate_unified_signal u ≡ ok u
validate_unified-again s u h =
    let same = validate_unified-same s u h in ap validate_unified_signal same ∙ h

module _ (to_float : Decimal → Decimal) (uuid5 : Uuid5) (cfg : ConsensusConfig)
    (now : Option DateTime) (clock : DateTime) (symbol : String) where
  unified_from-Emitted :
      (who : StrategySignal) (price : Option Decimal) (act : Action) (c : Decimal)
      (source : SignalSource) (rule ai execution : Option StrategySignal) (style : TradingStyle)
      (at : DateTime) (u : UnifiedTradeSignal)
      → ltb c (threshold_for cfg source) ≡ false
      → validate_unified_signal
          (unified_from uuid5 who symbol price act (to_float c) source rule ai execution style at)
        ≡ ok u
      → Emitted to_float cfg symbol rule ai u
  unfolding unified_from
  unified_from-Emitted who price act c source rule ai execution style at u enough h =
      let s =
        unified_from uuid5 who symbol price act (to_float c) source rule ai execution style at in
      let same : u ≡ s = validate_unified-same s u h in
      record {
        valid = validate_unified-again s u h;
        symbol_kept = ap (λ x. x.symbol) same;
        paper_only = ap (λ x. is_paper_only x.routing_intent) same ∙ ground arith;
        id_a = ap (λ x. x.strategy_signal_id_a) same;
        id_b = ap (λ x. x.strategy_signal_id_b) same;
        confident = (c, ap (λ x. x.confidence) same, rw same enough);
      }

  build_unified-Emitted :
      (price : Option Decimal) (act : Action) (c : Decimal) (source : SignalSource)
      (rule ai execution : Option StrategySignal) (style : TradingStyle) (at : DateTime)
      (u : UnifiedTradeSignal)
      → ltb c (threshold_for cfg source) ≡ false
      → build_unified to_float uuid5 symbol price act c source rule ai execution style at ≡ ok u
      → Emitted to_float cfg symbol rule ai u
  unfolding build_unified
  build_unified-Emitted price act c source none none execution style at u enough h =
      absurd (ground arith)
  build_unified-Emitted price act c source (some r) ai execution style at u enough h =
      unified_from-Emitted r price act c source (some r) ai execution style at u enough h
  build_unified-Emitted price act c source none (some a) execution style at u enough h =
      unified_from-Emitted a price act c source none (some a) execution style at u enough h

  emit_single-Emitted :
      (rule ai : Option StrategySignal) (at : DateTime) (s : StrategySignal)
      (u : UnifiedTradeSignal)
      → emit_single to_float uuid5 cfg now clock symbol rule ai at s ≡ ok (some u)
      → Emitted to_float cfg symbol rule ai u
  unfolding emit_single
  emit_single-Emitted rule ai at s u h = ground (
    arith,
    build_unified-Emitted s.price s.action s.confidence s.source rule ai (some s)
        cfg.default_holding_type at u,
  )

  emit_agreed-Emitted :
      (rule ai : StrategySignal) (u : UnifiedTradeSignal)
      → emit_agreed to_float uuid5 cfg now clock symbol rule ai ≡ ok (some u)
      → Emitted to_float cfg symbol (some rule) (some ai) u
  unfolding emit_agreed
  emit_agreed-Emitted rule ai u h =
      let mixed = blended to_float uuid5 cfg now clock symbol rule ai in
      ground (
        arith,
        build_unified-Emitted (newer rule ai).price rule.action mixed SignalSource.consensus
            (some rule) (some ai) (some (newer rule ai)) cfg.default_holding_type
            (or_clock now clock) u,
      )

  aggregate_sides-Emitted :
      (rule ai : Option StrategySignal) (u : UnifiedTradeSignal)
      → aggregate_sides to_float uuid5 cfg now clock symbol rule ai ≡ ok (some u)
      → Emitted to_float cfg symbol rule ai u
  unfolding aggregate_sides emit_conflict
  aggregate_sides-Emitted none none u h = absurd (ground arith)
  aggregate_sides-Emitted (some r) none u h = emit_single-Emitted (some r) none _ r u h
  aggregate_sides-Emitted none (some a) u h = emit_single-Emitted none (some a) _ a u h
  aggregate_sides-Emitted (some r) (some a) u h =
      let at = or_clock now (newer r a).created_at in
      ground (
        arith,
        emit_agreed-Emitted r a u,
        emit_single-Emitted (some r) (some a) at r u,
        emit_single-Emitted (some r) (some a) at a u,
      )

-- A signal that `aggregate` emits is valid, has the symbol of its inputs and the ids of the two picked
-- signals, is paper-only exactly when one of them is, and its confidence before rounding reached the
-- threshold of its source.
pub aggregate-Emitted :
    (to_float : Decimal → Decimal) (uuid5 : Uuid5) (cfg : ConsensusConfig) (now : Option DateTime)
    (clock : DateTime) (s : StrategySignal) (ss : List StrategySignal) (u : UnifiedTradeSignal)
    → aggregate to_float uuid5 cfg now clock (s ∷ ss) ≡ ok (some u)
    → Emitted to_float cfg s.symbol (bucket_by_source (s ∷ ss)).0 (bucket_by_source (s ∷ ss)).1 u
unfolding aggregate
aggregate-Emitted to_float uuid5 cfg now clock s ss u h =
    let (rule, ai) = bucket_by_source (s ∷ ss) in
    aggregate_sides-Emitted to_float uuid5 cfg now clock s.symbol rule ai u (ground arith)
