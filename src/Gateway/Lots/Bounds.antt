-- ===== src/Gateway/Lots/Bounds.antt =====
-- What an accepted lot of lot_calculator.py satisfies.
use native.Mathlib.Nat.{div-mul-le_self, lt-mul-div-succ}
use native.Mathlib.Decide.{dec_le}
use roboinvest.Prelude.{
  true, ℕ, zero, suc, ◌+◌, ◌*◌, ◌/◌, min, ◌≤◌, ◌<◌, ◌≡◌, Option, none, some, ok, arith,
  Result-cases, inl, inr,
}
use roboinvest.Decimal
use roboinvest.Decimal.{
  Decimal, of_ℕ, sub, mul, div, leb, Le, Lt, truncate, le_total, mul-le_of_le-truncate, le_of_lt,
  lt-mul_of_truncate-lt,
}
use roboinvest.Contracts.Risk.{RiskCheck, pass_with}
use roboinvest.Contracts.Signal.{UnifiedTradeSignal}
use roboinvest.Gateway.Config.{RiskConfig}
use roboinvest.Gateway.Lots.{
  floor_to_lot, check_min_lot, cap_by_notional, risk_amount, stop_loss_of, calculate,
}

-- The greatest multiple of the lot that is at most the shares.
pub record IsFloor (shares lot floor : ℕ) : Type 0 where
  pub multiple : (k : ℕ) × (floor ≡ k * lot)
  pub fits : floor ≤ shares
  pub greatest : shares < floor + lot

pub floor_to_lot-IsFloor :
    (shares lot : ℕ) {floor : ℕ} → floor_to_lot shares lot ≡ ok floor → IsFloor shares lot floor
unfolding floor_to_lot
floor_to_lot-IsFloor shares zero h = cc
floor_to_lot-IsFloor shares (suc n) h = record {
  multiple = (shares / suc n, ground arith);
  fits = ground (arith, div-mul-le_self shares (suc n));
  greatest = ground (arith, lt-mul-div-succ shares {b = suc n} (omega arith));
}

-- What has happened when `calculate` accepts q shares.
record Accepted (signal : UnifiedTradeSignal) (entry : Decimal) (config : RiskConfig) (q : ℕ)
    : Type 0 where
  entry_pos : Lt Decimal.zero entry
  risk_pos : Lt Decimal.zero (sub entry (stop_loss_of config signal entry))
  amount_pos : Lt Decimal.zero (risk_amount config signal)
  floor : ℕ
  floored :
      floor_to_lot
        (truncate (div (risk_amount config signal) (sub entry (stop_loss_of config signal entry))))
        config.min_lot_size
      ≡ ok floor
  capped : cap_by_notional config config.max_notional_per_order_pct entry floor ≡ ok (pass_with q)

calculate-Accepted :
    (signal : UnifiedTradeSignal) (entry : Decimal) (config : RiskConfig) (q : ℕ)
    → calculate signal entry config ≡ ok (pass_with q)
    → Accepted signal entry config q
unfolding calculate
calculate-Accepted signal entry config q h =
    let shares =
      truncate (div (risk_amount config signal) (sub entry (stop_loss_of config signal entry))) in
    elim (Result-cases (floor_to_lot shares config.min_lot_size)) [
      | inl (floor, e) ↦ record {
        entry_pos = ground arith;
        risk_pos = ground arith;
        amount_pos = ground arith;
        floor = floor;
        floored = e;
        capped = ground arith;
      }
      | inr (err, e) ↦ absurd (ground arith)
    ]

min-multiple :
    (a b lot : ℕ) {q : ℕ}
    → q ≡ min a b
    → ((k : ℕ) × (a ≡ k * lot))
    → ((k : ℕ) × (b ≡ k * lot))
    → (k : ℕ) × (q ≡ k * lot)
min-multiple a b lot e m n = elim (dec_le a b) [
  | yes h ↦ (m.0, omega (arith, m.1))
  | no h ↦ (n.0, omega (arith, n.1))
]

-- The cap only lowers the lot, keeps it a multiple, and keeps its cost within the configured part
-- of the capital.
record Capped (config : RiskConfig) (pct : Option Decimal) (entry : Decimal) (floor q : ℕ)
    : Type 0 where
  lowered : q ≤ floor
  enough : config.min_lot_size ≤ q
  multiple : ((k : ℕ) × (floor ≡ k * config.min_lot_size)) → (k : ℕ) × (q ≡ k * config.min_lot_size)
  uncapped : pct ≡ none → q ≡ floor
  within : (p : Decimal) → pct ≡ some p → Le (mul entry (of_ℕ q)) (mul config.capital p)

cap_by_notional-Capped :
    (config : RiskConfig) (pct : Option Decimal) (entry : Decimal) (floor q : ℕ)
    → Lt Decimal.zero entry
    → cap_by_notional config pct entry floor ≡ ok (pass_with q)
    → Capped config pct entry floor q
unfolding cap_by_notional check_min_lot
cap_by_notional-Capped config none entry floor q pos h = record {
  lowered = ground arith;
  enough = ground arith;
  multiple = λ m. (m.0, ground arith);
  uncapped = ground arith;
  within = λ p e. absurd (cc);
}
cap_by_notional-Capped config (some pct) entry floor q pos h =
    let shares = truncate (div (mul config.capital pct) entry) in
    elim (Result-cases (floor_to_lot shares config.min_lot_size)) [
      | inl (cap, e) ↦
          let is_floor = floor_to_lot-IsFloor shares config.min_lot_size e in
          let least : q ≡ min floor cap = ground arith in
          let nonneg : Le Decimal.zero (mul config.capital pct) =
            ground (arith, le_total Decimal.zero (mul config.capital pct)) in
          let fits =
            mul-le_of_le-truncate (mul config.capital pct) entry pos q nonneg
              (omega (arith, is_floor.fits)) in
          record {
            lowered = ground arith;
            enough = ground arith;
            multiple = λ m. min-multiple floor cap config.min_lot_size least m is_floor.multiple;
            uncapped = λ e. absurd (cc);
            within = λ p e. cc fits;
          }
      | inr (err, e) ↦ absurd (ground arith)
    ]

module _ (signal : UnifiedTradeSignal) (entry : Decimal) (config : RiskConfig) (q : ℕ)
    (accepted : calculate signal entry config ≡ ok (pass_with q)) where
  -- An accepted quantity is a positive number of whole lots, its loss at the stop is within the risk
  -- amount, and its cost within the notional cap where one is configured.
  pub calculate_bounds :
      (config.min_lot_size ≤ q)
      × (0 < q)
      × ((k : ℕ) × (q ≡ k * config.min_lot_size))
      × Le (mul (sub entry (stop_loss_of config signal entry)) (of_ℕ q)) (risk_amount config signal)
      × ((p : Decimal)
          → config.max_notional_per_order_pct ≡ some p
          → Le (mul entry (of_ℕ q)) (mul config.capital p))
  calculate_bounds =
      let a = calculate-Accepted signal entry config q accepted in
      let c = cap_by_notional-Capped config _ entry a.floor q a.entry_pos a.capped in
      let f = floor_to_lot-IsFloor _ _ a.floored in
      (
        c.enough,
        omega (arith, f.fits, f.greatest, c.enough),
        c.multiple f.multiple,
        mul-le_of_le-truncate _ _ a.risk_pos q (le_of_lt _ _ a.amount_pos)
            (omega (arith, c.lowered, f.fits)),
        c.within,
      )

  -- Without a notional cap the quantity is the greatest such: one lot more would lose more than the
  -- risk amount.
  pub calculate_greatest :
      config.max_notional_per_order_pct ≡ none
      → Lt
          (risk_amount config signal)
          (mul (sub entry (stop_loss_of config signal entry)) (of_ℕ (q + config.min_lot_size)))
  calculate_greatest uncapped =
      let a = calculate-Accepted signal entry config q accepted in
      let c = cap_by_notional-Capped config _ entry a.floor q a.entry_pos a.capped in
      let f = floor_to_lot-IsFloor _ _ a.floored in
      lt-mul_of_truncate-lt _ _ a.risk_pos _ (omega (arith, c.uncapped uncapped, f.greatest))

-- A check of `calculate` that passes is `pass_with` of its quantity.
pub calculate-passed :
    (signal : UnifiedTradeSignal) (entry : Decimal) (config : RiskConfig) (check : RiskCheck)
    (q : ℕ)
    → calculate signal entry config ≡ ok check
    → check.passed ≡ true
    → check.adjusted_quantity ≡ some q
    → check ≡ pass_with q
unfolding calculate cap_by_notional floor_to_lot check_min_lot
calculate-passed signal entry config check q h p e = ground arith
