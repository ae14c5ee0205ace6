-- ===== src/Contracts/Enums.antt =====
-- contracts/python/trade_contracts/enums.py. The tests below are the `is` tests of the code.
use roboinvest.Prelude.{Bool, true, false}

pub data Side : Type 0 where
  buy sell : Side

pub data Action : Type 0 where
  buy sell hold : Action

pub data SignalSource : Type 0 where
  rule ai consensus : SignalSource

pub data OrderType : Type 0 where
  market limit : OrderType

pub data TradeMode : Type 0 where
  live paper : TradeMode

pub data RoutingIntent : Type 0 where
  system paper_only : RoutingIntent

pub data TradingStyle : Type 0 where
  day swing : TradingStyle

abbrev pub is_buy_side : Side → Bool
is_buy_side Side.buy = true
is_buy_side _ = false

abbrev pub is_buy : Action → Bool
is_buy Action.buy = true
is_buy _ = false

abbrev pub is_sell : Action → Bool
is_sell Action.sell = true
is_sell _ = false

abbrev pub is_hold : Action → Bool
is_hold Action.hold = true
is_hold _ = false

abbrev pub same_action : Action → Action → Bool
same_action Action.buy b = is_buy b
same_action Action.sell b = is_sell b
same_action Action.hold b = is_hold b

abbrev pub is_rule : SignalSource → Bool
is_rule SignalSource.rule = true
is_rule _ = false

abbrev pub is_ai : SignalSource → Bool
is_ai SignalSource.ai = true
is_ai _ = false

abbrev pub is_market : OrderType → Bool
is_market OrderType.market = true
is_market _ = false

abbrev pub is_limit : OrderType → Bool
is_limit OrderType.limit = true
is_limit _ = false

abbrev pub is_paper : TradeMode → Bool
is_paper TradeMode.paper = true
is_paper _ = false

abbrev pub is_live : TradeMode → Bool
is_live TradeMode.live = true
is_live _ = false

abbrev pub is_paper_only : RoutingIntent → Bool
is_paper_only RoutingIntent.paper_only = true
is_paper_only _ = false

abbrev pub is_day : TradingStyle → Bool
is_day TradingStyle.day = true
is_day _ = false

abbrev pub is_swing : TradingStyle → Bool
is_swing TradingStyle.swing = true
is_swing _ = false
