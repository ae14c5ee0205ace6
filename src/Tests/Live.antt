-- ===== src/Tests/Live.antt =====
-- Tests of services/oms-live.
use roboinvest.OmsLive.Closeout.Everything.{build_closeout_orders-Paired, Paired}
use roboinvest.OmsLive.Closeout.{build_closeout_orders}
use roboinvest.Contracts.Signal.{no_order_fields}
use roboinvest.Contracts.Enums.{SignalSource, TradeMode, Side, TradingStyle}
use roboinvest.OmsPaper.Monitor.{evaluate_day_exit}
use roboinvest.OmsLive.Parser.Report.{to_fill_result-Means, Means}
use roboinvest.OmsLive.Position.AsPaper.{
  apply_fill-as_paper, paper_fill, live_part?, terms_of, live_part,
}
use roboinvest.OmsLive.Stops.{evaluate_live_stop-eq-day, evaluate_live_stop}
use roboinvest.OmsLive.Parser.{to_fill_result}
use roboinvest.Tests.Samples.{
  some_uuid5, swing_position, weekends, new_years_eve, morning, day_position, sell_order,
}
use roboinvest.OmsPaper.Models.{FillResult}
use roboinvest.Prelude.{[], ◌∷◌, is_some, refl, ◌≡◌, true, some, ◌↔◌, ◌⊎◌}
use roboinvest.Decimal.{ratio, Decimal, of_ℕ}
use roboinvest.OmsPaper.Position as Paper
use roboinvest.OmsLive.Models.{LiveFill, KabuOrderState, partial, LiveFillReason}
use roboinvest.OmsPaper.Models as PaperModels
use roboinvest.OmsLive.Position.{apply_fill}

abbrev live_fill : LiveFill
live_fill = record {
  filled_quantity = 100;
  fill_price = some (of_ℕ 1010);
  reason = LiveFillReason.filled;
}

apply_fill-as_paper_example :
    ((apply_fill sell_order live_fill
        (some (live_part day_position))
        (terms_of TradingStyle.day no_order_fields)
        (morning new_years_eve)).position
      ≡ live_part?
          (Paper.apply_fill weekends sell_order
            (paper_fill live_fill PaperModels.filled)
            (some day_position)
            TradingStyle.day
            no_order_fields
            (morning new_years_eve)).position)
    × ((apply_fill sell_order live_fill
          (some (live_part day_position))
          (terms_of TradingStyle.day no_order_fields)
          (morning new_years_eve)).delete
        ≡ (Paper.apply_fill weekends sell_order
            (paper_fill live_fill PaperModels.filled)
            (some day_position)
            TradingStyle.day
            no_order_fields
            (morning new_years_eve)).delete)
    × ((apply_fill sell_order live_fill
          (some (live_part day_position))
          (terms_of TradingStyle.day no_order_fields)
          (morning new_years_eve)).error
        ≡ (Paper.apply_fill weekends sell_order
            (paper_fill live_fill PaperModels.filled)
            (some day_position)
            TradingStyle.day
            no_order_fields
            (morning new_years_eve)).error)
apply_fill-as_paper_example =
    apply_fill-as_paper weekends sell_order TradingStyle.day no_order_fields (morning new_years_eve)
      live_fill PaperModels.filled (some day_position) refl

abbrev half_done : KabuOrderState
half_done = record {
  order_id = "k-1";
  symbol = "7203";
  side = Side.buy;
  order_qty = 300;
  cum_qty = 100;
  state = 5;
  order_state = 5;
  price = of_ℕ 1003;
  details = record { price = of_ℕ 1001; quantity = 100; rec_type = 8 } ∷ [];
}

half_done_fill :
    to_fill_result half_done
    ≡ record { filled_quantity = 100; fill_price = some (ratio 100_100 100); reason = partial }
unfolding to_fill_result roboinvest.OmsLive.Parser.vwap_from_details roboinvest.Decimal.leb
    roboinvest.Decimal.quantize roboinvest.Decimal.div roboinvest.OmsPaper.Fill.total_value
    roboinvest.Decimal.add roboinvest.Decimal.mul
half_done_fill = refl

to_fill_result-Means_example :
    (((to_fill_result half_done).reason ≡ partial) ↔ Means partial half_done)
    × ((to_fill_result half_done).filled_quantity ≡ 100)
    × ((is_some (to_fill_result half_done).fill_price ≡ true) ↔ (
        ((to_fill_result half_done).reason ≡ LiveFillReason.filled)
        ⊎ ((to_fill_result half_done).reason ≡ partial)))
to_fill_result-Means_example = to_fill_result-Means half_done partial

evaluate_live_stop-eq-day_example :
    evaluate_live_stop (live_part swing_position) (of_ℕ 1050) (morning new_years_eve)
    ≡ evaluate_day_exit
        (record swing_position { holding_type = TradingStyle.day })
        (of_ℕ 1050)
        (morning new_years_eve)
evaluate_live_stop-eq-day_example =
    evaluate_live_stop-eq-day swing_position (of_ℕ 1050) (morning new_years_eve)

build_closeout_orders-Paired_example :
    Paired (live_part day_position ∷ live_part swing_position ∷ []) (
      build_closeout_orders some_uuid5
        (λ p. 9)
        (morning new_years_eve)
        TradeMode.live
        SignalSource.consensus
        (live_part day_position ∷ live_part swing_position ∷ []))
build_closeout_orders-Paired_example =
    build_closeout_orders-Paired some_uuid5 (λ p. 9) (morning new_years_eve) TradeMode.live
      SignalSource.consensus (live_part day_position ∷ live_part swing_position ∷ [])
