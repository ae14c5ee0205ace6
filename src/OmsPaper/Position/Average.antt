-- ===== src/OmsPaper/Position/Average.antt =====
-- The entry price that position_updater.py keeps over several buys.
use roboinvest.Prelude.{ℕ, ◌+◌, ◌<◌}
use roboinvest.Decimal.{
  Decimal, of_ℕ, add, mul, quantize, Le, le_trans, add-le-add, mul-le-mul_ℕ, mul-add_ℕ-le,
  mul-add_ℕ-ge, average-ge, average-le,
}
use roboinvest.OmsPaper.Position.{weighted_average_entry}

-- The average lies between any bounds of the two prices, both rounded to whole yen.
pub weighted_average_entry_bounds :
    (q r : ℕ) (p s low high : Decimal)
    → 0 < q + r
    → Le low p
    → Le low s
    → Le p high
    → Le s high
    → Le (quantize 1 low) (weighted_average_entry q p r s)
      × Le (weighted_average_entry q p r s) (quantize 1 high)
unfolding weighted_average_entry
weighted_average_entry_bounds q r p s low high pos lp ls ph sh =
    let cost = add (mul p (of_ℕ q)) (mul s (of_ℕ r)) in
    let above : Le (mul low (of_ℕ (q + r))) cost =
      le_trans _ _ _ (mul-add_ℕ-ge low q r)
        (add-le-add _ _ _ _ (mul-le-mul_ℕ low p q lp) (mul-le-mul_ℕ low s r ls)) in
    let below : Le cost (mul high (of_ℕ (q + r))) =
      le_trans _ _ _ (add-le-add _ _ _ _ (mul-le-mul_ℕ p high q ph) (mul-le-mul_ℕ s high r sh))
        (mul-add_ℕ-le high q r) in
    (average-ge (q + r) cost low pos above, average-le (q + r) cost high pos below)
