-- ===== src/Gateway/Routing.antt =====
-- services/gateway/src/gateway/router.py
use roboinvest.Prelude.{String}
use roboinvest.Contracts.Enums.{TradeMode}

pub record TopicRouting : Type 0 where
  pub live_topic : String
  pub paper_topic : String

unfoldable pub resolve_topic : TradeMode → TopicRouting → String
resolve_topic TradeMode.live routing = routing.live_topic
resolve_topic TradeMode.paper routing = routing.paper_topic
