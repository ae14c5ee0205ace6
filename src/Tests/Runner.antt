-- ===== src/Tests/Runner.antt =====
-- Tests of services/gateway/src/gateway/streaming/runner.py.
use roboinvest.Prelude.{◌≡◌, refl, false, true, none, some, List, [], ◌∷◌, ok, length, arith}
use roboinvest.Decimal
use roboinvest.Decimal.{of_ℕ}
use roboinvest.Gateway.Validator.{validate}
use roboinvest.Gateway.KillSwitch.{evaluate}
use roboinvest.Gateway.Lots.{calculate, stop_loss_of, risk_amount, cap_by_notional, check_min_lot}
use roboinvest.Gateway.ExecutionGate.{reject_reason}
use roboinvest.Contracts.Signal.{validate_unified_signal}
use roboinvest.Contracts.Enums.{TradeMode}
use roboinvest.Contracts.Order.{OrderRequest}
use roboinvest.Gateway.Builder.{order_type_and_limit_price, side_for, order_for, stop_loss_price}
use roboinvest.Contracts.EventPaper.{is_event_paper_execution_signal}
use roboinvest.Gateway.Runner.Process.{is_event_paper}
use roboinvest.Gateway.Runner.SellStages.{NotPending}
use roboinvest.Gateway.Runner.Gates.{deadline_of, is_day_session_closed, is_stale_signal, prune}
use roboinvest.Gateway.Routing.{resolve_topic}
use roboinvest.Gateway.Runner.Handler.{State, Call, next, published}
use roboinvest.Gateway.Runner.Gates.{pending_key}
use roboinvest.Gateway.Runner.Dispatch.{approved, record_published_order}
use roboinvest.Gateway.Runner.Sizing.{size_order}
use roboinvest.Gateway.Runner.Process.{process}
use roboinvest.Gateway.Runner.Batch.{PulledMessage, BatchStats, no_stats, run_once}
use roboinvest.Gateway.Runner.Trace.{IsSafe}
use roboinvest.Gateway.Runner.Reservations.{open_reservations}
use roboinvest.Gateway.Runner.Cooldown.{publications}
use roboinvest.Gateway.Runner.Batches.{run_once-IsSafe, run_once-IsSettled, run_once-cooldown}
use roboinvest.Gateway.Runner.Counting.{
  run_once-counts, accounted, accepted, occurrences, is_under, decisions, fired, ack_ids,
  Acknowledged,
}
use roboinvest.Gateway.Runner.Sizes.{BuyBounds, size_order_bounds}
use roboinvest.Gateway.Runner.SellStages.{sell_order}
use roboinvest.Gateway.Runner.Exits.{process_sell}
use roboinvest.Tests.Samples.{limit_order, calm}
use roboinvest.Tests.RunnerSamples.{
  runner, settings, services, broken, passing, fresh_buy, fresh_sell, holding, idle, batch,
  acknowledged_all,
}

run_once-IsSafe_example : IsSafe runner (run_once runner acknowledged_all batch idle).1.trace
run_once-IsSafe_example = run_once-IsSafe runner acknowledged_all batch idle tt

-- the publication fails, and the batch ends in an error
abbrev failing_batch : List PulledMessage
failing_batch = record { ack_id = "1"; payload = "buy"; services = broken } ∷ []

run_once-IsSettled_example :
    open_reservations (run_once runner acknowledged_all failing_batch idle).1.trace ≡ []
run_once-IsSettled_example = run_once-IsSettled runner acknowledged_all failing_batch idle refl

abbrev live_order : OrderRequest
live_order = record limit_order { trade_mode = TradeMode.live }

run_once-cooldown_example :
    publications
      (pending_key fresh_buy TradeMode.live)
      (run_once runner acknowledged_all batch
        (record_published_order runner services fresh_buy live_order idle).1).1.trace
    ≡ 0
run_once-cooldown_example =
    run_once-cooldown runner services fresh_buy live_order acknowledged_all batch idle refl
      (omega arith) (omega arith)

abbrev batch_stats : BatchStats
batch_stats = record no_stats { pulled = 2; parse_errors = 1; approved = 1; acked = 2 }

batch_runs :
    run_once runner acknowledged_all batch idle
    ≡ (ok batch_stats, (run_once runner acknowledged_all batch idle).1)
unfolding run_once validate evaluate Decimal.leb Decimal.neg calculate stop_loss_of Decimal.sub
    risk_amount Decimal.mul cap_by_notional check_min_lot Decimal.truncate Decimal.div reject_reason
    order_type_and_limit_price side_for order_for stop_loss_price
batch_runs = refl

run_once-counts_example :
    (batch_stats.approved ≡ occurrences (is_under accepted) (decisions runner batch idle))
    × (batch_stats.kill_switch_triggered ≡ occurrences fired (decisions runner batch idle))
    × (batch_stats.pulled ≡ length batch)
    × (accounted batch_stats ≡ length batch)
    × (batch_stats.acked ≡ length batch)
    × Acknowledged (ack_ids batch) (run_once runner acknowledged_all batch idle).1
run_once-counts_example =
    run_once-counts runner acknowledged_all batch idle batch_stats
      (run_once runner acknowledged_all batch idle).1 accepted batch_runs

buy_sized :
    size_order runner services fresh_buy calm (some 0) (some (of_ℕ 1000)) idle ≡ (next 100, idle)
unfolding size_order validate evaluate Decimal.leb Decimal.neg calculate stop_loss_of Decimal.sub
    risk_amount Decimal.mul cap_by_notional check_min_lot Decimal.truncate Decimal.div reject_reason
buy_sized = refl

size_order_bounds_example : BuyBounds runner services fresh_buy calm.trade_mode none (of_ℕ 1000) 100
size_order_bounds_example =
    size_order_bounds runner services fresh_buy calm (some 0) (of_ℕ 1000) 100 idle idle
      (omega arith) refl buy_sized

holding_stays_open : (evaluate passing.state).passed ≡ true
unfolding evaluate Decimal.leb Decimal.neg
holding_stays_open = refl

fresh_sell_validates : validate_unified_signal fresh_sell ≡ ok fresh_sell
unfolding validate_unified_signal Decimal.leb
fresh_sell_validates = refl

fresh_sell_is_plain : is_event_paper runner holding fresh_sell ≡ false
unfolding is_event_paper_execution_signal
fresh_sell_is_plain = refl

fresh_sell_is_fresh : is_stale_signal settings fresh_sell holding.now ≡ false
unfolding is_stale_signal
fresh_sell_is_fresh = refl

session_stays_open : is_day_session_closed settings fresh_sell holding.session_clock ≡ false
unfolding is_day_session_closed
session_stays_open = refl

nothing_pending : NotPending holding fresh_sell passing.state.trade_mode idle
unfolding deadline_of prune
nothing_pending = λ _. refl

process_sell_example :
    (s' : State) × (process runner holding fresh_sell idle ≡ (next approved, s'))
    × ((t : List Call) × (s'.trace
          ≡ published "live-orders" (sell_order runner holding fresh_sell TradeMode.live 300) true
            ∷ t))
unfolding resolve_topic
process_sell_example =
    process_sell runner holding fresh_sell passing 300 "m-1" idle refl refl refl holding_stays_open
      fresh_sell_validates refl fresh_sell_is_plain fresh_sell_is_fresh session_stays_open
      nothing_pending refl (omega arith) refl
