-- ===== src/Tests/Paper.antt =====
-- Tests of services/oms-paper.
use roboinvest.OmsPaper.Scheduler.Fire.{until_next_fire_lands}
use roboinvest.OmsPaper.Scheduler.Retry.{run_day_bounded}
use roboinvest.OmsPaper.Scheduler.{closeout_is_incomplete, run_day, CloseoutStats, until_next_fire}
use roboinvest.OmsPaper.Closeout.{build_closeout_orders}
use roboinvest.Contracts.Signal.{no_order_fields}
use roboinvest.OmsPaper.Monitor.Priority.{
  evaluate_day_exit-exit_iff, evaluate_swing_exit-exit_iff, HasReason, AtStop, AtTarget, HeldOut,
  Scheduled,
}
use roboinvest.Contracts.Enums.{SignalSource, TradeMode, Side, TradingStyle}
use roboinvest.OmsPaper.Fill.Depth.{depth, simulate_fill-depth, simulate_fill_report}
use roboinvest.Contracts.Time.{minute_length, in_tokyo, local, day_length, DateTime}
use roboinvest.OmsPaper.Closeout.Complete.{build_closeout_orders-Matches, Matches}
use roboinvest.OmsPaper.Monitor.Ratchet.{stop_never_falls, watch, NotBelow}
use roboinvest.OmsPaper.Monitor.{evaluate_swing_exit, evaluate_day_exit}
use roboinvest.OmsPaper.Position.Average.{weighted_average_entry_bounds}
use roboinvest.Tests.Samples.{
  morning, book, limit_order, swing_position, day_position, new_years_eve, some_uuid5, sell_order,
  weekends,
}
use roboinvest.OmsPaper.Position.Quantity.{
  held-apply_fill, apply_fill_refused, bought, sold, apply_fill-IsOpen, IsOpen, held,
}
use roboinvest.OmsPaper.Models.{
  filled, partial, max_hold_days, stop_loss, exit, PositionUpdate, FillResult,
}
use roboinvest.OmsPaper.Fill.Price.{simulate_fill-limit}
use roboinvest.OmsPaper.Fill.{opposite_levels, limit_crossing_levels, simulate_fill}
use roboinvest.OmsPaper.Calendar.Sessions.{
  nth_tse_business_day_after-counts, opens_within, business_days, Reopens,
}
use roboinvest.OmsPaper.Calendar.{nth_tse_business_day_after, is_tse_business_day}
use roboinvest.Prelude.{
  ◌⊎◌, ◌%◌, ◌*◌, ◌-◌, [], is_some, min, ◌∷◌, ◌&&◌, ◌-◌, suc, ◌≤◌, arith, ◌+◌, List, Bool, refl, ◌≡◌,
  ◌≢◌, ◌<◌, ℕ, true, false, none, some, ◌↔◌,
}
use native.Mathlib.Decide.{dec_le}
use roboinvest.Prelude.{◌⊎◌, ◌%◌, ◌*◌, ◌-◌, zero, suc}
use roboinvest.Decimal.{Decimal, of_ℕ, ratio, Le, Lt, quantize}
use roboinvest.OmsPaper.Position.{apply_fill, weighted_average_entry}

new_years_eve_closed : is_tse_business_day weekends new_years_eve ≡ false
unfolding is_tse_business_day
new_years_eve_closed = refl

-- 6 January 2025 was a Monday, and the first session of the year.
first_session : is_tse_business_day weekends (new_years_eve + 6) ≡ true
unfolding is_tse_business_day
first_session = refl

two_sessions : nth_tse_business_day_after weekends new_years_eve (some 2) ≡ some (new_years_eve + 7)
unfolding nth_tse_business_day_after roboinvest.OmsPaper.Calendar.advance is_tse_business_day
two_sessions = refl

-- every number up to the bound
abbrev all_upto : (ℕ → Bool) → ℕ → Bool
all_upto test zero = test 0
all_upto test (suc n) = test (suc n) && all_upto test n

all_upto-holds : (test : ℕ → Bool) (n i : ℕ) → all_upto test n ≡ true → i ≤ n → test i ≡ true
all_upto-holds test zero i h le = let e : i ≡ 0 = omega arith in rw e h
all_upto-holds test (suc n) i h le = elim (dec_le i n) [
  | yes before ↦ ground (arith, all_upto-holds test n i)
  | no after ↦ let e : i ≡ suc n = omega arith in rw e (ground arith)
]

reopens_at : (i : ℕ) → i ≤ 12 → opens_within weekends (new_years_eve + i) 6 ≡ true
unfolding is_tse_business_day
reopens_at i le = all_upto-holds (λ i. opens_within weekends (new_years_eve + i) 6) 12 i refl le

reopens : Reopens weekends new_years_eve (new_years_eve + 12)
reopens d after before =
    let e : d ≡ new_years_eve + (d - new_years_eve) = omega arith in
    rw e (reopens_at (d - new_years_eve) (omega arith))

nth_tse_business_day_after-counts_example :
    (k : ℕ) × (nth_tse_business_day_after weekends new_years_eve (some 2)
      ≡ some (new_years_eve + k))
    × (business_days weekends new_years_eve k ≡ 2)
    × (is_tse_business_day weekends (new_years_eve + k) ≡ true)
nth_tse_business_day_after-counts_example =
    nth_tse_business_day_after-counts weekends new_years_eve 1 reopens

-- 100 at 1000 and 200 at 1002, rounded to whole yen
two_levels :
    simulate_fill limit_order book
    ≡ record { filled_quantity = 300; fill_price = some (of_ℕ 1001); reason = filled }
unfolding simulate_fill limit_crossing_levels roboinvest.OmsPaper.Fill.crosses
    roboinvest.Decimal.leb roboinvest.OmsPaper.Fill.fill_from
    roboinvest.OmsPaper.Fill.consume_levels roboinvest.OmsPaper.Fill.consume
    roboinvest.OmsPaper.Fill.vwap quantize roboinvest.Decimal.div
    roboinvest.OmsPaper.Fill.total_value roboinvest.Decimal.add roboinvest.Decimal.mul
two_levels = refl

simulate_fill-depth_example :
    (simulate_fill limit_order book).filled_quantity
    ≡ min 300 (depth (limit_crossing_levels limit_order (opposite_levels limit_order book)))
simulate_fill-depth_example = simulate_fill-depth limit_order book refl

simulate_fill_report_example :
    ((0 < (simulate_fill limit_order book).filled_quantity)
      ↔ (is_some (simulate_fill limit_order book).fill_price ≡ true))
    × (((simulate_fill limit_order book).reason ≡ filled) ↔ (
        (0 < (simulate_fill limit_order book).filled_quantity)
        × ((simulate_fill limit_order book).filled_quantity ≡ 300)))
    × (((simulate_fill limit_order book).reason ≡ partial) ↔ (
        (0 < (simulate_fill limit_order book).filled_quantity)
        × ((simulate_fill limit_order book).filled_quantity < 300)))
    × ((simulate_fill limit_order book).filled_quantity ≤ 300)
simulate_fill_report_example = simulate_fill_report limit_order book

priced : (simulate_fill limit_order book).fill_price ≡ some (of_ℕ 1001)
unfolding simulate_fill limit_crossing_levels roboinvest.OmsPaper.Fill.crosses
    roboinvest.Decimal.leb roboinvest.OmsPaper.Fill.fill_from
    roboinvest.OmsPaper.Fill.consume_levels roboinvest.OmsPaper.Fill.consume
    roboinvest.OmsPaper.Fill.vwap quantize roboinvest.Decimal.div
    roboinvest.OmsPaper.Fill.total_value roboinvest.Decimal.add roboinvest.Decimal.mul
priced = refl

simulate_fill-limit_example : Le (of_ℕ 1001) (quantize 1 (of_ℕ 1003))
simulate_fill-limit_example =
    simulate_fill-limit limit_order book (of_ℕ 1003) (of_ℕ 1001) refl refl priced

abbrev sold_100 : FillResult
sold_100 = record { filled_quantity = 100; fill_price = some (of_ℕ 1010); reason = filled }

abbrev update : PositionUpdate
update =
    apply_fill weekends sell_order sold_100 (some day_position) TradingStyle.day no_order_fields
      (morning new_years_eve)

held-apply_fill_example :
    held update.position + sold Side.sell update 100 ≡ 300 + bought Side.sell update 100
held-apply_fill_example =
    held-apply_fill weekends sell_order sold_100 (some day_position) TradingStyle.day
      no_order_fields (morning new_years_eve)

apply_fill-IsOpen_example :
    IsOpen update.position
    × (update.error ≡ none → (update.position ≡ none) ↔ (update.delete ≡ true))
apply_fill-IsOpen_example =
    apply_fill-IsOpen weekends sell_order sold_100 (some day_position) TradingStyle.day
      no_order_fields (morning new_years_eve) (omega arith)

no_position :
    (apply_fill weekends sell_order sold_100 none TradingStyle.day no_order_fields
      (morning new_years_eve)).error
    ≢ none
unfolding apply_fill
no_position = λ h. cc

apply_fill_refused_example :
    ((apply_fill weekends sell_order sold_100 none TradingStyle.day no_order_fields
        (morning new_years_eve)).position
      ≡ none)
    × ((apply_fill weekends sell_order sold_100 none TradingStyle.day no_order_fields
          (morning new_years_eve)).delete
        ≡ false)
apply_fill_refused_example =
    apply_fill_refused weekends sell_order sold_100 none TradingStyle.day no_order_fields
      (morning new_years_eve) no_position

weighted_average_entry_bounds_example :
    Le (quantize 1 (of_ℕ 1000)) (weighted_average_entry 300 (of_ℕ 1000) 100 (of_ℕ 1010))
    × Le (weighted_average_entry 300 (of_ℕ 1000) 100 (of_ℕ 1010)) (quantize 1 (of_ℕ 1010))
unfolding roboinvest.Decimal.leb
weighted_average_entry_bounds_example =
    weighted_average_entry_bounds 300 100 (of_ℕ 1000) (of_ℕ 1010) (of_ℕ 1000) (of_ℕ 1010)
      (omega arith) refl refl refl refl

evaluate_day_exit-exit_iff_example :
    (evaluate_day_exit day_position (of_ℕ 940) (morning new_years_eve) ≡ exit stop_loss) ↔ (
      (day_position.holding_type ≡ TradingStyle.day)
      × HasReason
          (AtStop (some (of_ℕ 950)) (of_ℕ 940))
          (AtTarget (some (of_ℕ 1100)) (of_ℕ 940))
          (HeldOut (some 3) (morning new_years_eve) (morning new_years_eve))
          stop_loss)
evaluate_day_exit-exit_iff_example =
    evaluate_day_exit-exit_iff day_position (of_ℕ 940) (morning new_years_eve) stop_loss

evaluate_swing_exit-exit_iff_example :
    (evaluate_swing_exit swing_position (of_ℕ 990) (morning (new_years_eve + 7))
      ≡ exit max_hold_days)
    ↔ ((swing_position.holding_type ≡ TradingStyle.swing)
        × HasReason
            (AtStop (some (of_ℕ 950)) (of_ℕ 990))
            (AtTarget (some (of_ℕ 1100)) (of_ℕ 990))
            (Scheduled swing_position.scheduled_exit_date swing_position.scheduled_exit_time
              (morning (new_years_eve + 7)))
            max_hold_days)
evaluate_swing_exit-exit_iff_example =
    evaluate_swing_exit-exit_iff swing_position (of_ℕ 990) (morning (new_years_eve + 7))
      max_hold_days

abbrev ticks : List (Decimal × DateTime)
ticks = (of_ℕ 1050, morning new_years_eve) ∷ (of_ℕ 1010, morning new_years_eve) ∷ []

-- the stop follows 1050 and stays there
ratcheted : (watch evaluate_day_exit day_position ticks).stop_loss_price ≡ some (of_ℕ 998)
unfolding evaluate_day_exit roboinvest.Decimal.leb roboinvest.Contracts.Time.date quantize
    roboinvest.Decimal.mul roboinvest.Decimal.sub
ratcheted = refl

stop_never_falls_example :
    NotBelow (some (of_ℕ 950)) (watch evaluate_day_exit day_position ticks).stop_loss_price
    × NotBelow (some (of_ℕ 950)) (watch evaluate_swing_exit day_position ticks).stop_loss_price
stop_never_falls_example = stop_never_falls day_position ticks

build_closeout_orders-Matches_example :
    Matches some_uuid5
      (λ p. 9)
      (morning new_years_eve)
      TradeMode.paper
      SignalSource.rule
      weekends
      (day_position ∷ [])
      (build_closeout_orders some_uuid5
        (λ p. 9)
        (morning new_years_eve)
        TradeMode.paper
        SignalSource.rule
        (day_position ∷ swing_position ∷ []))
build_closeout_orders-Matches_example =
    build_closeout_orders-Matches some_uuid5 (λ p. 9) (morning new_years_eve) TradeMode.paper
      SignalSource.rule weekends (day_position ∷ swing_position ∷ [])

until_next_fire_lands_example :
    (until_next_fire (morning new_years_eve) 14 50 < day_length)
    × ((local (in_tokyo (morning new_years_eve)) + until_next_fire (morning new_years_eve) 14 50)
          % day_length
        ≡ (14 * 60 + 50) * minute_length)
until_next_fire_lands_example =
    until_next_fire_lands (morning new_years_eve) 14 50 (omega arith) (omega arith)

abbrev third_time : ℕ → CloseoutStats
third_time n = record {
  closed = 1;
  partial_exits = 2 - n;
  no_fills = 0;
  write_errors = 0;
  skipped_reason = none;
}

run_day_bounded_example :
    ((run_day third_time 3).0 ≤ 3)
    × ((run_day third_time 3).1 ≡ third_time (run_day third_time 3).0)
    × ((closeout_is_incomplete (run_day third_time 3).1 ≡ false) ⊎ ((run_day third_time 3).0 ≡ 3))
    × ((i : ℕ) → i < (run_day third_time 3).0 → closeout_is_incomplete (third_time i) ≡ true)
run_day_bounded_example = run_day_bounded third_time 3
