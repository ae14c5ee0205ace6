-- ===== src/Aggregator/Consensus.antt =====
-- services/aggregator/src/aggregator/consensus.py
pub mod Picks
pub mod Emission
use roboinvest.Prelude.{
  Bool, true, false, not, ◌&&◌, ◌||◌, Option, none, some, List, [], ◌∷◌, ◌++◌, String, str_eq,
  leb as leb_ℕ, if◌then◌else◌, keep_if, Result, ok, raised, value_error, index_error, ◌>>=◌,
}
use roboinvest.Decimal
use roboinvest.Decimal.{Decimal, add, mul, div, leb, ltb}
use roboinvest.Contracts.Enums.{
  Action, SignalSource, RoutingIntent, TradingStyle, same_action, is_rule, is_ai, is_paper_only,
}
use roboinvest.Contracts.Ids.{Uuid, Uuid5, deterministic_unified_signal_id}
use roboinvest.Contracts.Time.{DateTime}
use roboinvest.Contracts.Signal.{
  StrategySignal, UnifiedTradeSignal, order_fields_from, execution_fields_from,
  validate_unified_signal,
}

pub data ConflictPolicy : Type 0 where
  skip prefer_rule prefer_ai : ConflictPolicy

pub record ConsensusConfig : Type 0 where
  pub weight_rule : Decimal
  pub weight_ai : Decimal
  pub min_confidence : Decimal
  pub min_confidence_rule_only : Decimal
  pub min_confidence_ai_only : Decimal
  pub min_confidence_consensus : Decimal
  pub conflict_policy : ConflictPolicy
  pub default_holding_type : TradingStyle

unfoldable pub threshold_for : ConsensusConfig → SignalSource → Decimal
threshold_for cfg SignalSource.rule = cfg.min_confidence_rule_only
threshold_for cfg SignalSource.ai = cfg.min_confidence_ai_only
threshold_for cfg SignalSource.consensus = cfg.min_confidence_consensus

abbrev pub all_of {ℓ} : {A : Type ℓ} → (A → Bool) → List A → Bool
all_of test [] = true
all_of test (x ∷ xs) = test x && all_of test xs

-- `len({...}) <= 1`
abbrev pub all_same {ℓ} : {A : Type ℓ} → (A → A → Bool) → List A → Bool
all_same same [] = true
all_same same (x ∷ xs) = all_of (same x) xs

-- the loop of `_pick_dominant` from the best signal so far
unfoldable pub best_of : StrategySignal → List StrategySignal → StrategySignal
best_of best [] = best
best_of best (s ∷ ss) = best_of (if ltb best.confidence s.confidence then s else best) ss

abbrev pub first_best : List StrategySignal → Option StrategySignal
unfolding best_of
first_best [] = none
first_best (s ∷ ss) = some (best_of s ss)

unfoldable pub pick_dominant : List StrategySignal → Option StrategySignal
unfolding best_of
pick_dominant candidates =
    if not (all_same (λ a b. same_action a.action b.action) candidates)
    then none
    else first_best candidates

unfoldable pub bucket_by_source :
    List StrategySignal → Option StrategySignal × Option StrategySignal
unfolding pick_dominant
bucket_by_source signals = (
  pick_dominant (keep_if (λ s. is_rule s.source) signals),
  pick_dominant (keep_if (λ s. is_ai s.source) signals),
)

unfoldable pub newer : StrategySignal → StrategySignal → StrategySignal
newer a b = if leb_ℕ b.created_at.utc a.created_at.utc then a else b

abbrev pub id_of : Option StrategySignal → Option Uuid
id_of none = none
id_of (some s) = some s.signal_id

abbrev pub is_paper_signal : Option StrategySignal → Bool
is_paper_signal none = false
is_paper_signal (some s) = is_paper_only s.routing_intent

abbrev pub present : Option StrategySignal → List StrategySignal
present none = []
present (some s) = s ∷ []

abbrev pub resolved_holding_type : Option StrategySignal → TradingStyle → TradingStyle
resolved_holding_type none style = style
resolved_holding_type (some s) style = elim s.holding_type [ some own ↦ own | none ↦ style ]

-- the signal that `_build_unified` constructs, for its first contributor
unfoldable pub unified_from :
    Uuid5
    → StrategySignal
    → String
    → Option Decimal
    → Action
    → Decimal
    → SignalSource
    → Option StrategySignal
    → Option StrategySignal
    → Option StrategySignal
    → TradingStyle
    → DateTime
    → UnifiedTradeSignal
unfolding deterministic_unified_signal_id
unified_from uuid5 identity_source symbol price act confidence source rule ai execution_source
      holding_type now =
    record {
      signal_id = deterministic_unified_signal_id uuid5 symbol act (id_of rule) (id_of ai);
      routing_intent =
          if is_paper_signal rule || is_paper_signal ai
          then RoutingIntent.paper_only
          else RoutingIntent.system;
      strategy_key = identity_source.strategy_key;
      candidate_id = identity_source.candidate_id;
      symbol = symbol;
      price = price;
      action = act;
      confidence = confidence;
      signal_source = source;
      strategy_signal_id_a = id_of rule;
      strategy_signal_id_b = id_of ai;
      holding_type = resolved_holding_type execution_source holding_type;
      order_fields = order_fields_from execution_source;
      execution_fields = execution_fields_from execution_source;
      created_at = now;
    }

-- `to_float` is `float(confidence)`, as `str` prints it.
unfoldable pub build_unified :
    (Decimal → Decimal)
    → Uuid5
    → String
    → Option Decimal
    → Action
    → Decimal
    → SignalSource
    → Option StrategySignal
    → Option StrategySignal
    → Option StrategySignal
    → TradingStyle
    → DateTime
    → Result UnifiedTradeSignal
unfolding unified_from
build_unified to_float uuid5 symbol price act confidence source rule ai execution_source
      holding_type now =
    elim (present rule ++ present ai) [
      | [] ↦ raised index_error
      | identity_source ∷ _ ↦ validate_unified_signal (
          unified_from uuid5 identity_source symbol price act (to_float confidence) source rule ai
            execution_source holding_type now)
    ]

abbrev pub or_clock : Option DateTime → DateTime → DateTime
or_clock none clock = clock
or_clock (some now) clock = now

abbrev pub same_text : Option String → Option String → Bool
same_text none none = true
same_text (some a) (some b) = str_eq a b
same_text _ _ = false

abbrev pub same_identity : StrategySignal → StrategySignal → Bool
same_identity a b =
    same_text a.strategy_key b.strategy_key && same_text a.candidate_id b.candidate_id

module _ (to_float : Decimal → Decimal) (uuid5 : Uuid5) (cfg : ConsensusConfig)
    (now : Option DateTime) (clock : DateTime) (symbol : String) where
  -- the signal of one side, or of the winner of a conflict, at a time
  unfoldable pub emit_single :
      Option StrategySignal
      → Option StrategySignal
      → DateTime
      → StrategySignal
      → Result (Option UnifiedTradeSignal)
  unfolding threshold_for build_unified
  emit_single rule ai at s = if ltb s.confidence (threshold_for cfg s.source) then ok none else do
    u ←
        build_unified to_float uuid5 symbol s.price s.action s.confidence s.source rule ai (some s)
          cfg.default_holding_type at
    ok (some u)

  unfoldable pub blended : StrategySignal → StrategySignal → Decimal
  blended rule ai =
      div (add (mul rule.confidence cfg.weight_rule) (mul ai.confidence cfg.weight_ai))
        (add cfg.weight_rule cfg.weight_ai)

  -- both sides ask for the same action
  unfoldable pub emit_agreed : StrategySignal → StrategySignal → Result (Option UnifiedTradeSignal)
  unfolding threshold_for build_unified newer
  emit_agreed rule ai =
      let latest = newer rule ai in
      if leb (add cfg.weight_rule cfg.weight_ai) Decimal.zero
      then raised value_error
      else if ltb (blended rule ai) (threshold_for cfg SignalSource.consensus)
      then ok none
      else do
        u ←
            build_unified to_float uuid5 symbol latest.price rule.action (blended rule ai)
              SignalSource.consensus (some rule) (some ai) (some latest) cfg.default_holding_type
              (or_clock now clock)
        ok (some u)

  unfoldable pub emit_conflict :
      StrategySignal → StrategySignal → Result (Option UnifiedTradeSignal)
  unfolding emit_single newer
  emit_conflict rule ai =
      let at = or_clock now (newer rule ai).created_at in
      elim cfg.conflict_policy [
        | skip ↦ ok none
        | prefer_rule ↦ emit_single (some rule) (some ai) at rule
        | prefer_ai ↦ emit_single (some rule) (some ai) at ai
      ]

  unfoldable pub aggregate_sides :
      Option StrategySignal → Option StrategySignal → Result (Option UnifiedTradeSignal)
  unfolding emit_single emit_agreed emit_conflict
  aggregate_sides none none = ok none
  aggregate_sides (some rule) none = emit_single (some rule) none (or_clock now clock) rule
  aggregate_sides none (some ai) = emit_single none (some ai) (or_clock now clock) ai
  aggregate_sides (some rule) (some ai) =
      if same_action rule.action ai.action then emit_agreed rule ai else emit_conflict rule ai

-- `now` is given or absent, and `clock` is the reading of the clock.
unfoldable pub aggregate :
    (Decimal → Decimal)
    → Uuid5
    → ConsensusConfig
    → Option DateTime
    → DateTime
    → List StrategySignal
    → Result (Option UnifiedTradeSignal)
unfolding aggregate_sides bucket_by_source
aggregate to_float uuid5 cfg now clock [] = ok none
aggregate to_float uuid5 cfg now clock (s ∷ ss) =
    let signals = s ∷ ss in
    let (rule, ai) = bucket_by_source signals in
    if not (all_same (λ a b. str_eq a.symbol b.symbol) signals)
    then raised value_error
    else if not (all_same same_identity (keep_if (λ s. is_rule s.source || is_ai s.source) signals))
    then raised value_error
    else aggregate_sides to_float uuid5 cfg now clock s.symbol rule ai
