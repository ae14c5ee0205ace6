-- ===== src/Tests/Aggregator.antt =====
-- Tests of services/aggregator, and of its signals in the gateway.
use roboinvest.Pipeline.{order_of_emitted, PaperOnlyPick}
use roboinvest.Gateway.Lots.{calculate}
use roboinvest.Gateway.Builder.{build}
use roboinvest.Gateway.KillSwitch.{evaluate}
use roboinvest.Contracts.Order.{validate_order, OrderRequest}
use roboinvest.Gateway.Validator.{validate}
use roboinvest.Contracts.Risk.{pass_with, KillSwitchState}
use roboinvest.Aggregator.Consensus.Picks.{pick_dominant-Dominates, Dominates}
use roboinvest.Aggregator.Consensus.Emission.{aggregate-Emitted, Emitted}
use roboinvest.Prelude.{refl, ◌≡◌, true, none, some, [], ◌∷◌, ok}
use roboinvest.Decimal
use roboinvest.Decimal.{mul, add, div, Decimal, of_ℕ, ratio}
use roboinvest.Contracts.Enums.{
  TradeMode, Action, SignalSource, RoutingIntent, TradingStyle, is_paper,
}
use roboinvest.Contracts.Signal.{StrategySignal, UnifiedTradeSignal, no_execution_fields}
use roboinvest.Aggregator.Consensus.{
  ConsensusConfig, skip, aggregate, pick_dominant, bucket_by_source,
}
use roboinvest.Tests.Samples.{morning, new_years_eve, some_uuid5, stop_at_950, calm, capped_config}

abbrev rule_signal : StrategySignal
rule_signal = record {
  signal_id = 5;
  source = SignalSource.rule;
  routing_intent = RoutingIntent.system;
  strategy_key = some "momentum";
  candidate_id = some "c-1";
  symbol = "7203";
  price = some (of_ℕ 1000);
  action = Action.buy;
  confidence = ratio 8 10;
  holding_type = some TradingStyle.day;
  order_fields = stop_at_950;
  execution_fields = no_execution_fields;
  created_at = morning new_years_eve;
}

abbrev ai_signal : StrategySignal
ai_signal = record rule_signal {
  signal_id = 6;
  source = SignalSource.ai;
  routing_intent = RoutingIntent.paper_only;
  confidence = ratio 6 10;
}

abbrev weak_rule_signal : StrategySignal
weak_rule_signal = record rule_signal { signal_id = 4; confidence = ratio 2 10 }

abbrev consensus_config : ConsensusConfig
consensus_config = record {
  weight_rule = of_ℕ 1;
  weight_ai = of_ℕ 1;
  min_confidence = ratio 3 10;
  min_confidence_rule_only = ratio 5 10;
  min_confidence_ai_only = ratio 5 10;
  min_confidence_consensus = ratio 3 10;
  conflict_policy = skip;
  default_holding_type = TradingStyle.day;
}

abbrev exact : Decimal → Decimal
exact d = d

abbrev merged : UnifiedTradeSignal
merged = record {
  signal_id = 2;
  routing_intent = RoutingIntent.paper_only;
  strategy_key = some "momentum";
  candidate_id = some "c-1";
  symbol = "7203";
  price = some (of_ℕ 1000);
  action = Action.buy;
  confidence =
      div (add (mul (ratio 8 10) (of_ℕ 1)) (mul (ratio 6 10) (of_ℕ 1))) (add (of_ℕ 1) (of_ℕ 1));
  signal_source = SignalSource.consensus;
  strategy_signal_id_a = some 5;
  strategy_signal_id_b = some 6;
  holding_type = TradingStyle.day;
  order_fields = stop_at_950;
  execution_fields = no_execution_fields;
  created_at = morning new_years_eve;
}

emitted :
    aggregate exact some_uuid5 consensus_config
      (some (morning new_years_eve))
      (morning new_years_eve)
      (rule_signal ∷ ai_signal ∷ [])
    ≡ ok (some merged)
unfolding aggregate Decimal.leb add roboinvest.Aggregator.Consensus.blended div mul
    roboinvest.Contracts.Signal.validate_unified_signal
    roboinvest.Contracts.Signal.order_fields_from roboinvest.Contracts.Signal.execution_fields_from
emitted = refl

aggregate-Emitted_example :
    Emitted exact consensus_config "7203"
      (bucket_by_source (rule_signal ∷ ai_signal ∷ [])).0
      (bucket_by_source (rule_signal ∷ ai_signal ∷ [])).1
      merged
aggregate-Emitted_example =
    aggregate-Emitted exact some_uuid5 consensus_config (some (morning new_years_eve))
      (morning new_years_eve) rule_signal (ai_signal ∷ []) merged emitted

picked : pick_dominant (weak_rule_signal ∷ rule_signal ∷ []) ≡ some rule_signal
unfolding pick_dominant Decimal.leb
picked = refl

pick_dominant-Dominates_example : Dominates rule_signal (weak_rule_signal ∷ rule_signal ∷ [])
pick_dominant-Dominates_example =
    pick_dominant-Dominates (weak_rule_signal ∷ rule_signal ∷ []) rule_signal picked

abbrev paper_state : KillSwitchState
paper_state = record calm { trade_mode = TradeMode.paper }

accepted : validate merged paper_state capped_config (of_ℕ 1000) none ≡ ok (pass_with 300)
unfolding validate evaluate calculate Decimal.leb roboinvest.Gateway.Lots.stop_loss_of Decimal.sub
    roboinvest.Gateway.Lots.risk_amount mul roboinvest.Gateway.Lots.floor_to_lot
    roboinvest.Gateway.Lots.cap_by_notional roboinvest.Gateway.Lots.check_min_lot Decimal.truncate
    div
accepted = refl

order_of_emitted_example :
    (o : OrderRequest) × (build some_uuid5
        (morning new_years_eve)
        merged
        300
        TradeMode.paper
        (some (of_ℕ 1000))
        2
        none
      ≡ ok o)
    × (validate_order o ≡ ok o)
    × (o.quantity ≡ 300)
    × (o.symbol ≡ "7203")
    × (PaperOnlyPick (rule_signal ∷ ai_signal ∷ []) → is_paper o.trade_mode ≡ true)
unfolding Decimal.leb
order_of_emitted_example =
    order_of_emitted exact some_uuid5 consensus_config (morning new_years_eve) rule_signal
      (ai_signal ∷ []) merged paper_state capped_config (of_ℕ 1000) none (pass_with 300) 300 2 none
      emitted accepted refl refl refl
