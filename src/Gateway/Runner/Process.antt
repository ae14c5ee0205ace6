-- ===== src/Gateway/Runner/Process.antt =====
-- services/gateway/src/gateway/streaming/runner.py: `_process`, the whole handling of one signal.
use roboinvest.Prelude.{
  ℕ, Bool, true, false, not, ◌&&◌, ◌||◌, Option, none, some, is_some, ltb, if◌then◌else◌, Result,
  ok, raised,
}
use roboinvest.Decimal.{Decimal}
use roboinvest.Contracts.Enums.{TradeMode, is_buy, is_paper, is_paper_only, is_live}
use roboinvest.Contracts.Time.{in_tokyo, date}
use roboinvest.Contracts.Risk.{KillSwitchState}
use roboinvest.Contracts.Signal.{UnifiedTradeSignal}
use roboinvest.Contracts.Order.{OrderRequest}
use roboinvest.Contracts.ScannerGate.{ScannerReason, enabled, scanner_gate_reject_reason}
use roboinvest.Contracts.EventPaper.{is_event_paper_execution_signal}
use roboinvest.Gateway.Routing.{resolve_topic}
use roboinvest.Gateway.Builder.{build}
use roboinvest.Gateway.Runner.Services.{Services, Runner, KillSwitchDecision, MarketRegimeState}
use roboinvest.Gateway.Runner.Handler.{
  Handler, Decision, RejectReason, ◌>>=◌, ◌>>◌, pure, lift, return, record_call, when, rejected,
  kill_switch_read, kill_switch, paper_only_signal_in_live_mode, stale_signal, market_closed,
  late_live_buy, opening_live_buy, same_day_reentry_after_sell, pending_live_order,
  paper_symbol_order_cooldown, soft_loss_rule_only_buy, market_regime_risk_off, scanner_gate,
}
use roboinvest.Gateway.Runner.Gates.{
  is_stale_signal, is_day_session_closed, is_day_late_buy, is_day_opening_buy, is_day_buy,
  day_start, soft_loss_throttle_blocks_buy, market_regime_blocks_buy, market_regime_guard_enabled,
  scanner_thresholds, pending_key, prune, deadline_of,
}
use roboinvest.Gateway.Runner.Sizing.{reject, refused, resolve_entry, size_order}
use roboinvest.Gateway.Runner.Dispatch.{
  reservation_entry_price, risk_amount_for_order, reserve_risk, publish_order,
}
use roboinvest.Gateway.Runner.Journal.{resume_event_paper_dispatch, start_event_paper_dispatch}

-- `if test: self._log_reject(...); return ...`
unfoldable pub reject_if : Bool → RejectReason → Handler (Unit {0})
unfolding reject
reject_if test reason = when test (reject reason)

module _ (r : Runner) (w : Services) (signal : UnifiedTradeSignal) where
  -- the kill switch, and what it read
  unfoldable pub read_kill_switch : Handler KillSwitchDecision
  read_kill_switch = do
    decision ← lift w.check_kill_switch
    record_call (kill_switch_read decision)
    if decision.passed then pure decision else do
      record_call (rejected (kill_switch decision.reason))
      return record refused { kill_switch_fired = decision.disabled }

  -- `_has_same_symbol_sell_today`
  unfoldable pub has_same_symbol_sell_today : TradeMode → Result Bool
  unfolding day_start
  has_same_symbol_sell_today mode =
      if not r.settings.day_same_symbol_reentry_block_enabled || not (is_day_buy signal)
      then ok false
      else w.has_sell_since signal.symbol mode (day_start w.now)

  -- a cooldown that has not expired, after the pruning of those that have
  unfoldable pub look_up_live : TradeMode → Handler Bool
  unfolding prune deadline_of
  look_up_live mode s =
      let kept = prune w.checked_at s.pending_live_order_deadlines in
      pure (is_some (deadline_of (pending_key signal mode) kept))
        record s { pending_live_order_deadlines = kept }

  -- `_has_pending_live_order`
  unfoldable pub has_pending_live_order : TradeMode → Handler Bool
  unfolding look_up_live
  has_pending_live_order mode = if is_live mode then look_up_live mode else pure false

  unfoldable pub look_up_paper : TradeMode → Handler Bool
  unfolding prune deadline_of
  look_up_paper mode s =
      let kept = prune w.checked_at s.pending_paper_buy_deadlines in
      pure (is_some (deadline_of (pending_key signal mode) kept))
        record s { pending_paper_buy_deadlines = kept }

  -- `_has_pending_paper_buy_order`
  unfoldable pub has_pending_paper_buy_order : TradeMode → Handler Bool
  unfolding look_up_paper
  has_pending_paper_buy_order mode =
      if is_paper mode && is_buy signal.action && ltb 0 r.settings.paper_symbol_order_cooldown
      then look_up_paper mode
      else pure false

  -- the tests of `_process` behind the kill switch, up to the cooldowns
  unfoldable pub admit : TradeMode → Handler (Unit {0})
  unfolding reject_if is_stale_signal is_day_session_closed is_day_late_buy is_day_opening_buy
      has_same_symbol_sell_today has_pending_live_order has_pending_paper_buy_order
  admit mode = do
    reject_if (is_paper_only signal.routing_intent && not (is_paper mode))
        paper_only_signal_in_live_mode
    reject_if (is_stale_signal r.settings signal w.now) stale_signal
    reject_if (is_day_session_closed r.settings signal w.session_clock) market_closed
    reject_if (is_day_late_buy r.settings signal w.now) late_live_buy
    reject_if (is_day_opening_buy r.settings signal w.now) opening_live_buy
    sold ← lift (has_same_symbol_sell_today mode)
    reject_if sold same_day_reentry_after_sell
    pending ← has_pending_live_order mode
    reject_if pending pending_live_order
    cooling ← has_pending_paper_buy_order mode
    reject_if cooling paper_symbol_order_cooldown

  -- `_read_market_regime_for_signal`
  unfoldable pub read_market_regime_for_signal : Result (Option MarketRegimeState)
  unfolding date in_tokyo
  read_market_regime_for_signal =
      if not (is_buy signal.action)
        || not r.settings.market_regime_gateway_log_only_enabled
          && not r.settings.market_regime_gateway_guard_enabled
      then ok none
      else w.read_market_regime (date (in_tokyo w.now))

  -- the test on the regime; only a guard that is on rejects
  unfoldable pub check_regime : TradeMode → Option MarketRegimeState → Handler (Unit {0})
  unfolding market_regime_blocks_buy market_regime_guard_enabled reject_if
  check_regime mode none = pure tt
  check_regime mode (some regime) =
      reject_if
        (market_regime_blocks_buy signal regime && market_regime_guard_enabled r.settings mode)
        market_regime_risk_off

  -- `_scanner_gate_reject_reason`
  unfoldable pub read_scanner_gate : Result (Option ScannerReason)
  unfolding enabled scanner_gate_reject_reason date in_tokyo
  read_scanner_gate =
      if not (is_buy signal.action)
        || not r.settings.scanner_gate_log_only_enabled && not r.settings.scanner_gate_guard_enabled
        || not (enabled (scanner_thresholds r.settings))
      then ok none
      else elim (w.read_watchlist_reasons signal.symbol (date (in_tokyo w.now))) [
        | raised e ↦ raised e
        | ok reasons ↦ ok (scanner_gate_reject_reason reasons (scanner_thresholds r.settings))
      ]

  unfoldable pub check_scanner : Option ScannerReason → Handler (Unit {0})
  unfolding reject_if
  check_scanner none = pure tt
  check_scanner (some reason) =
      reject_if r.settings.scanner_gate_guard_enabled (scanner_gate reason)

  -- the gates that look at the market; each only logs unless its guard is on
  unfoldable pub check_market : KillSwitchState → Handler (Unit {0})
  unfolding soft_loss_throttle_blocks_buy reject_if read_market_regime_for_signal check_regime
      read_scanner_gate check_scanner
  check_market state = do
    reject_if
        (soft_loss_throttle_blocks_buy r.settings signal state
          && r.settings.soft_loss_throttle_guard_enabled)
        soft_loss_rule_only_buy
    regime ← lift read_market_regime_for_signal
    check_regime state.trade_mode regime
    reason ← lift read_scanner_gate
    check_scanner reason

  -- the order that `build_order` makes in `_process`
  unfoldable pub order_of : TradeMode → Option Decimal → ℕ → Result OrderRequest
  unfolding build
  order_of mode entry_price quantity =
      build r.codec.uuid5 w.now signal quantity mode entry_price
        (if is_paper mode then r.settings.paper_buy_limit_offset_ticks else 0)
        (some r.risk_config.default_stop_loss_spread_pct)

  abbrev pub is_event_paper : Bool
  is_event_paper = is_event_paper_execution_signal signal.routing_intent signal.strategy_key

  -- the reservation, the topic and the publication of an order
  unfoldable pub place : TradeMode → Option Decimal → OrderRequest → Handler Decision
  unfolding reservation_entry_price risk_amount_for_order reserve_risk resolve_topic publish_order
      start_event_paper_dispatch is_event_paper_execution_signal
  place mode entry_price order = do
    let price = reservation_entry_price order entry_price
    let risk = risk_amount_for_order order price
    reserve_risk w order price risk
    let topic = resolve_topic mode r.routing
    elim is_event_paper [
      | true ↦ start_event_paper_dispatch r w signal order topic
      | false ↦ publish_order r w signal order topic (is_some risk)
    ]

  -- what `_process` does for the state that the kill switch read
  unfoldable pub process_state : KillSwitchState → Handler Decision
  unfolding admit check_market resolve_entry size_order order_of place resume_event_paper_dispatch
      is_event_paper_execution_signal
  process_state state = do
    let mode = state.trade_mode
    admit mode
    when is_event_paper (resume_event_paper_dispatch r w signal)
    check_market state
    (existing, entry_price) ← resolve_entry w signal mode signal.action
    quantity ← size_order r w signal state existing entry_price
    order ← lift (order_of mode entry_price quantity)
    place mode entry_price order

  -- `_process`
  unfoldable pub process : Handler Decision
  unfolding read_kill_switch process_state
  process = do switch ← read_kill_switch; process_state switch.state
