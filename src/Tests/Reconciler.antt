-- ===== src/Tests/Reconciler.antt =====
-- Tests of services/oms-live/src/oms_live/reconciler.py.
use roboinvest.Prelude.{◌≡◌, refl, ◌&&◌, not, true, none, List, [], ◌∷◌, ◌++◌, length}
use roboinvest.Decimal.{of_ℕ}
use roboinvest.Contracts.Enums.{TradingStyle}
use roboinvest.OmsLive.Models.{LivePosition}
use roboinvest.OmsLive.Position.AsPaper.{live_part}
use roboinvest.OmsLive.Reconciler.{
  KabuPositionSnapshot, has, by_symbol, kabu_symbol, live_symbol, compute_position_diff,
  apply_reconcile_actions,
}
use roboinvest.OmsLive.Reconciler.Convergence.{
  classified, compute_position_diff-classifies, compute_position_diff-converges,
}
use roboinvest.Tests.Samples.{day_position, morning, new_years_eve}

abbrev held_at_broker : KabuPositionSnapshot
held_at_broker = record {
  symbol = "6758";
  quantity = 200;
  average_price = of_ℕ 1500;
  current_price = none;
  unrealized_pnl = none;
}

abbrev broker : List KabuPositionSnapshot
broker = held_at_broker ∷ record held_at_broker { symbol = "9984"; quantity = 100 } ∷ []

abbrev database : List LivePosition
database = live_part day_position ∷ record (live_part day_position) { symbol = "9984" } ∷ []

compute_position_diff-classifies_example :
    (has kabu_symbol "6758" (compute_position_diff broker database).to_import
      ≡ (has kabu_symbol "6758" broker && not (has live_symbol "6758" database)))
    × (has live_symbol "6758" (compute_position_diff broker database).supabase_orphans
        ≡ (has live_symbol "6758" database && not (has kabu_symbol "6758" broker)))
    × (classified (compute_position_diff broker database) ≡ length (by_symbol kabu_symbol broker))
compute_position_diff-classifies_example = compute_position_diff-classifies "6758" broker database

-- one position is imported
one_imported : (compute_position_diff broker database).to_import ≡ held_at_broker ∷ []
unfolding compute_position_diff
one_imported = refl

compute_position_diff-converges_example :
    let inserted =
      apply_reconcile_actions
        (compute_position_diff broker database)
        (morning new_years_eve)
        true
        TradingStyle.swing in
    let second = compute_position_diff broker (database ++ inserted) in
    (second.to_import ≡ [])
    × (has live_symbol "7203" second.supabase_orphans
        ≡ has live_symbol "7203" (compute_position_diff broker database).supabase_orphans)
compute_position_diff-converges_example =
    compute_position_diff-converges "7203" broker database (morning new_years_eve)
      TradingStyle.swing
