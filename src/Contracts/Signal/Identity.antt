-- ===== src/Contracts/Signal/Identity.antt =====
-- contracts/python/trade_contracts/signal.py: the validators that run before the fields are read, and fill
-- in the id of a payload that has none. `fresh` is the `uuid4` of the field's default.
use roboinvest.Prelude.{◌||◌, ◌&&◌, Option, none, some, String, str_eq, if◌then◌else◌, is_none}
use roboinvest.Contracts.Ids.{
  Uuid, Uuid5, deterministic_strategy_signal_id, deterministic_unified_signal_id,
}
use roboinvest.Contracts.Signal.{StrategySignal, UnifiedTradeSignal}

-- `all((strategy_key, candidate_id, source, symbol, action))`: no text is empty or missing
unfoldable pub identity_signal_id :
    Uuid5 → Uuid → Option String → Option String → StrategySignal → Uuid
unfolding deterministic_strategy_signal_id
identity_signal_id uuid5 fresh (some key) (some candidate) s =
    if str_eq key "" || str_eq candidate "" || str_eq s.symbol ""
    then fresh
    else deterministic_strategy_signal_id uuid5 key candidate s.source s.symbol s.action
identity_signal_id uuid5 fresh _ _ s = fresh

unfoldable pub populate_identity_signal_id :
    Uuid5 → Uuid → Option Uuid → StrategySignal → StrategySignal
unfolding identity_signal_id
populate_identity_signal_id uuid5 fresh (some signal_id) s = record s { signal_id = signal_id }
populate_identity_signal_id uuid5 fresh none s = record s {
  signal_id = identity_signal_id uuid5 fresh s.strategy_key s.candidate_id s;
}

unfoldable pub populate_aggregate_signal_id :
    Uuid5 → Uuid → Option Uuid → UnifiedTradeSignal → UnifiedTradeSignal
unfolding deterministic_unified_signal_id
populate_aggregate_signal_id uuid5 fresh (some signal_id) s = record s { signal_id = signal_id }
populate_aggregate_signal_id uuid5 fresh none s =
    if is_none s.strategy_signal_id_a && is_none s.strategy_signal_id_b
    then record s { signal_id = fresh }
    else record s {
      signal_id =
          deterministic_unified_signal_id uuid5 s.symbol s.action s.strategy_signal_id_a
            s.strategy_signal_id_b;
    }
