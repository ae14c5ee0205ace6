-- ===== src/Decimal/Truncate.antt =====
-- `int(a / b)` is the greatest number of units of b that fit in a.
use native.Mathlib.Nat.{mul-le-mul_right, le-div_iff_mul-le, div-lt_iff_lt-mul}
use roboinvest.Prelude.{ℕ, zero, suc, ◌+◌, ◌-◌, ◌*◌, ◌/◌, pred, ◌≤◌, ◌<◌, ◌≡◌, ap, arith}
use roboinvest.Decimal.Defs as D
use roboinvest.Decimal.Defs.{Decimal, den, common, of_ℕ, mul, div, truncate, Le, Lt}
use roboinvest.Decimal.Order.{parts_of_Le, Le_of_parts, parts_of_Lt, Lt_of_parts}

-- the parts of b * q ≤ a, for a = x - x' over suc n and b = y - y' over suc m; p is b's numerator
fits_parts :
    (x x' n y y' m q p k : ℕ)
    → y ≡ y' + suc p
    → k ≡ suc n * suc p
    → x' ≤ x
    → q ≤ (x * suc m - x' * suc m) / suc (pred k)
    → (y * q + y' * 0) * suc n + x' * suc (common m 0)
      ≤ x * suc (common m 0) + (y * 0 + y' * q) * suc n
fits_parts x x' n y y' m q p zero e k-eq h g = absurd (omega arith)
fits_parts x x' n y y' m q p (suc k) e k-eq h g =
    let below : q * suc k ≤ x * suc m - x' * suc m =
      (le-div_iff_mul-le {k = suc k} (omega arith)).0 g in
    omega (
      arith,
      below,
      mul-le-mul_right (suc m) h,
      ap (λ (t : ℕ). t * q * suc n) e,
      ap (λ (t : ℕ). q * t) k-eq,
    )

exceeds_parts :
    (x x' n y y' m q p k : ℕ)
    → y ≡ y' + suc p
    → k ≡ suc n * suc p
    → (x * suc m - x' * suc m) / suc (pred k) < q
    → x * suc (common m 0) + (y * 0 + y' * q) * suc n
      < (y * q + y' * 0) * suc n + x' * suc (common m 0)
exceeds_parts x x' n y y' m q p zero e k-eq g = absurd (omega arith)
exceeds_parts x x' n y y' m q p (suc k) e k-eq g =
    let above : x * suc m - x' * suc m < q * suc k =
      (div-lt_iff_lt-mul {k = suc k} (omega arith)).0 g in
    omega (arith, above, ap (λ (t : ℕ). t * q * suc n) e, ap (λ (t : ℕ). q * t) k-eq)

module _ (a b : Decimal) (b_pos : Lt D.zero b) where
  numerator : b.up ≡ b.down + suc (pred (b.up - b.down))
  numerator = omega (arith, parts_of_Lt _ _ b_pos)

  product : den a * (b.up - b.down) ≡ den a * suc (pred (b.up - b.down))
  product = ap (λ (t : ℕ). den a * t) (omega (arith, parts_of_Lt _ _ b_pos))

  -- Any number of units up to `int(a / b)` costs at most a.
  pub mul-le_of_le-truncate : (q : ℕ) → Le D.zero a → q ≤ truncate (div a b) → Le (mul b (of_ℕ q)) a
  unfolding truncate div mul
  mul-le_of_le-truncate q nonneg h = Le_of_parts _ _ (
      fits_parts a.up a.down a.fine b.up b.down b.fine q (pred (b.up - b.down)) _ numerator product
        (omega (arith, parts_of_Le _ _ nonneg)) h)

  -- One unit more costs more than a.
  pub lt-mul_of_truncate-lt : (q : ℕ) → truncate (div a b) < q → Lt a (mul b (of_ℕ q))
  unfolding truncate div mul
  lt-mul_of_truncate-lt q h = Lt_of_parts _ _ (
      exceeds_parts a.up a.down a.fine b.up b.down b.fine q (pred (b.up - b.down)) _ numerator
        product h)
