-- ===== src/Contracts/Ids.antt =====
-- The deterministic identifiers of signal.py and order.py: `uuid5` of a namespace and of the JSON
-- text of a list. `uuid5` over `json.dumps` is the parameter `uuid5`; the list is what it is given.
use roboinvest.Prelude.{ℕ, String, Option, none, some, List, [], ◌∷◌}
use roboinvest.Contracts.Enums.{Side, Action, TradeMode, SignalSource}

-- a 128-bit number
abbrev pub Uuid : Type 0
Uuid = ℕ

pub data Namespace : Type 0 where
  strategy_signal unified_signal order_request : Namespace

-- an element of the list: `str` of each kind of value
pub data Part : Type 0 where
  text : String → Part
  uuid : Uuid → Part
  source : SignalSource → Part
  action : Action → Part
  mode : TradeMode → Part
  side : Side → Part
  null : Part

abbrev pub Uuid5 : Type 0
Uuid5 = Namespace → List Part → Uuid

abbrev pub uuid_or_null : Option Uuid → Part
uuid_or_null none = null
uuid_or_null (some u) = uuid u

unfoldable pub deterministic_strategy_signal_id :
    Uuid5 → String → String → SignalSource → String → Action → Uuid
deterministic_strategy_signal_id uuid5 strategy_key candidate_id src symbol act =
    uuid5 strategy_signal
      (text strategy_key ∷ text candidate_id ∷ source src ∷ text symbol ∷ action act ∷ [])

unfoldable pub deterministic_unified_signal_id :
    Uuid5 → String → Action → Option Uuid → Option Uuid → Uuid
deterministic_unified_signal_id uuid5 symbol act a b =
    uuid5 unified_signal (text symbol ∷ action act ∷ uuid_or_null a ∷ uuid_or_null b ∷ [])

unfoldable pub deterministic_order_id : Uuid5 → Uuid → TradeMode → Side → Uuid
deterministic_order_id uuid5 unified_signal_id m s =
    uuid5 order_request (uuid unified_signal_id ∷ mode m ∷ side s ∷ [])
