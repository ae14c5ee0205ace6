-- ===== src/Tests/Gateway.antt =====
-- Tests of contracts/python and services/gateway.
use roboinvest.Gateway.Builder.Totality.{build-validate_total, Built}
use roboinvest.Gateway.ExecutionGate.Limits.{reject_reason-none_iff, IsExecutable}
use roboinvest.Gateway.Validator.Safety.{validate_admits, Admitted}
use roboinvest.Gateway.KillSwitch.Losses.{evaluate-passed_iff, WithinLimits}
use roboinvest.Gateway.Lots.Bounds.{calculate_greatest, calculate_bounds}
use roboinvest.Contracts.Risk.{pass_with}
use roboinvest.Contracts.Enums.{TradeMode, Action, is_paper_only, is_paper}
use roboinvest.Gateway.Builder.{build}
use roboinvest.Tests.Samples.{
  new_years_eve, morning, gate_config, some_uuid5, risk_config, capped_config, buy_signal, calm,
}
use roboinvest.Gateway.ExecutionGate.{execution_insufficient_ask_depth, reject_reason}
use roboinvest.Contracts.Order.{OrderRequest}
use roboinvest.Contracts.Signal.{validate_unified_signal}
use roboinvest.Gateway.Validator.{validate}
use roboinvest.Gateway.Lots.{risk_amount, stop_loss_of, calculate}
use roboinvest.Gateway.KillSwitch.{evaluate}
use roboinvest.Contracts.TickSize.Order.{tse_tick_size_total, tse_tick_size_mono}
use roboinvest.Contracts.TickSize.{tse_tick_size}
use roboinvest.Prelude.{◌+◌, ◌≤◌, refl, ◌≡◌, ◌<◌, ◌*◌, ℕ, true, false, none, some, ok, ◌↔◌, ◌⊎◌}
use roboinvest.Decimal
use roboinvest.Decimal.{ratio, sub, mul, Decimal, of_ℕ, Le, Lt}

tick_size_900 : tse_tick_size (of_ℕ 900) false ≡ ok (of_ℕ 1)
unfolding tse_tick_size Decimal.leb
tick_size_900 = refl

tick_size_3001 : tse_tick_size (of_ℕ 3001) false ≡ ok (of_ℕ 5)
unfolding tse_tick_size Decimal.leb
tick_size_3001 = refl

tse_tick_size_total_example :
    (t : Decimal) × (tse_tick_size (of_ℕ 3001) true ≡ ok t) × Le (ratio 1 10) t
unfolding Decimal.leb
tse_tick_size_total_example = tse_tick_size_total (of_ℕ 3001) true refl

tse_tick_size_mono_example : Le (of_ℕ 1) (of_ℕ 5)
unfolding Decimal.leb
tse_tick_size_mono_example =
    tse_tick_size_mono (of_ℕ 900) (of_ℕ 3001) false (of_ℕ 1) (of_ℕ 5) refl tick_size_900
      tick_size_3001

evaluate-passed_iff_example :
    ((evaluate calm).passed ≡ true)
    ↔ ((calm.is_trading_allowed ≡ true) × ((is_paper calm.trade_mode ≡ true) ⊎ WithinLimits calm))
evaluate-passed_iff_example = evaluate-passed_iff calm

-- 2% of 1,000,000 at a risk of 50 a share is 400 shares; the cap of 30% allows 300.
uncapped_lot : calculate buy_signal (of_ℕ 1000) risk_config ≡ ok (pass_with 400)
unfolding calculate Decimal.leb stop_loss_of sub risk_amount mul
    roboinvest.Gateway.Lots.floor_to_lot roboinvest.Gateway.Lots.cap_by_notional
    roboinvest.Gateway.Lots.check_min_lot Decimal.truncate Decimal.div
uncapped_lot = refl

capped_lot : calculate buy_signal (of_ℕ 1000) capped_config ≡ ok (pass_with 300)
unfolding calculate Decimal.leb stop_loss_of sub risk_amount mul
    roboinvest.Gateway.Lots.floor_to_lot roboinvest.Gateway.Lots.cap_by_notional
    roboinvest.Gateway.Lots.check_min_lot Decimal.truncate Decimal.div
capped_lot = refl

calculate_bounds_example :
    (100 ≤ 300)
    × (0 < 300)
    × ((k : ℕ) × (300 ≡ k * 100))
    × Le
        (mul (sub (of_ℕ 1000) (stop_loss_of capped_config buy_signal (of_ℕ 1000))) (of_ℕ 300))
        (risk_amount capped_config buy_signal)
    × ((p : Decimal)
        → capped_config.max_notional_per_order_pct ≡ some p
        → Le (mul (of_ℕ 1000) (of_ℕ 300)) (mul capped_config.capital p))
calculate_bounds_example = calculate_bounds buy_signal (of_ℕ 1000) capped_config 300 capped_lot

calculate_greatest_example :
    Lt
      (risk_amount risk_config buy_signal)
      (mul (sub (of_ℕ 1000) (stop_loss_of risk_config buy_signal (of_ℕ 1000))) (of_ℕ (400 + 100)))
calculate_greatest_example =
    calculate_greatest buy_signal (of_ℕ 1000) risk_config 400 uncapped_lot refl

accepted : validate buy_signal calm capped_config (of_ℕ 1000) none ≡ ok (pass_with 300)
unfolding validate evaluate calculate Decimal.leb Decimal.neg stop_loss_of sub risk_amount mul
    roboinvest.Gateway.Lots.floor_to_lot roboinvest.Gateway.Lots.cap_by_notional
    roboinvest.Gateway.Lots.check_min_lot Decimal.truncate Decimal.div
accepted = refl

validate_admits_example :
    ((evaluate calm).passed ≡ true)
    × (is_paper_only buy_signal.routing_intent ≡ true → is_paper calm.trade_mode ≡ true)
    × Admitted Action.buy buy_signal calm capped_config (of_ℕ 1000) none (pass_with 300)
validate_admits_example =
    validate_admits buy_signal calm capped_config (of_ℕ 1000) none (pass_with 300) accepted refl

buy_signal_valid : validate_unified_signal buy_signal ≡ ok buy_signal
unfolding validate_unified_signal Decimal.leb
buy_signal_valid = refl

build-validate_total_example :
    (o : OrderRequest) × (build some_uuid5
        (morning new_years_eve)
        buy_signal
        300
        TradeMode.live
        (some (of_ℕ 1000))
        2
        (some (ratio 3 100))
      ≡ ok o)
    × Built some_uuid5 buy_signal 300 TradeMode.live (of_ℕ 1000) o
unfolding Decimal.leb
build-validate_total_example =
    build-validate_total some_uuid5 (morning new_years_eve) buy_signal calm capped_config
      (of_ℕ 1000) none (pass_with 300) 300 2 (some (ratio 3 100)) buy_signal_valid accepted refl
      refl refl

reject_reason-none_iff_example :
    (reject_reason buy_signal 300 gate_config ≡ none) ↔ IsExecutable buy_signal 300 gate_config
reject_reason-none_iff_example = reject_reason-none_iff buy_signal 300 gate_config refl

deep_enough : reject_reason buy_signal 300 gate_config ≡ none
unfolding reject_reason Decimal.leb mul
deep_enough = refl

too_shallow : reject_reason buy_signal 500 gate_config ≡ some execution_insufficient_ask_depth
unfolding reject_reason Decimal.leb mul
too_shallow = refl
