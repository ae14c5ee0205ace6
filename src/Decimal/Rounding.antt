-- ===== src/Decimal/Rounding.antt =====
-- `quantize` follows the order.
use native.Mathlib.Nat.{
  mul-le-mul_right, le_of_mul-le-mul_right, le-div_iff_mul-le, div-mul-le_self, mul-sub,
}
use roboinvest.Prelude.{ℕ, zero, suc, ◌<◌, ◌+◌, ◌-◌, ◌*◌, ◌/◌, ◌≤◌, arith}
use roboinvest.Decimal.Defs.{Decimal, of_ℕ, mul, div, den, nearest, quantize, Le}
use roboinvest.Decimal.Order.{parts_of_Le, Le_of_parts}
use roboinvest.Decimal.Monotone.{div-le_of_le-mul, le-div_of_mul-le}

nearest_mono : (m n m' n' : ℕ) → m * suc n' ≤ m' * suc n → nearest m (suc n) ≤ nearest m' (suc n')
unfolding nearest
nearest_mono m n m' n' h =
    let q : ℕ = (2 * m + suc n) / (2 * suc n) in
    let small : q * (2 * suc n) ≤ 2 * m + suc n = div-mul-le_self _ _ in
    (le-div_iff_mul-le {k = 2 * suc n'} (omega arith)).1 (
      le_of_mul-le-mul_right {k = suc n} (omega (arith, mul-le-mul_right (suc n') small))
        (omega arith))

-- the positive parts of x - x' over suc n and y - y' over suc m
positive_parts :
    (x x' n y y' m k : ℕ)
    → x * suc m + y' * suc n ≤ y * suc n + x' * suc m
    → (x - x') * k * suc m ≤ (y - y') * k * suc n
positive_parts x x' n y y' m k h = omega (arith, mul-le-mul_right k (gap x x' n y y' m h))
  where
    gap :
        (x x' n y y' m : ℕ)
        → x * suc m + y' * suc n ≤ y * suc n + x' * suc m
        → (x - x') * suc m ≤ (y - y') * suc n
    gap x x' n y y' m h = omega (arith, mul-sub (suc m) x x', mul-sub (suc n) y y')

pub quantize_mono : (unit : ℕ) (a b : Decimal) → Le a b → Le (quantize unit a) (quantize unit b)
unfolding quantize
quantize_mono unit a b h =
    let up =
      nearest_mono _ a.fine _ b.fine
        (positive_parts a.up a.down a.fine b.up b.down b.fine unit (parts_of_Le a b h)) in
    let down = nearest_mono _ b.fine _ a.fine (
      positive_parts b.down b.up b.fine a.down a.up a.fine unit
        (omega (arith, parts_of_Le a b h))) in
    Le_of_parts _ _ (
      omega (
        arith,
        mul-le-mul_right (den (quantize unit a)) up,
        mul-le-mul_right (den (quantize unit a)) down,
      ))

-- The rounded average of a total lies between the rounded bounds of its units.
pub average-ge :
    (n : ℕ) (total low : Decimal)
    → 0 < n
    → Le (mul low (of_ℕ n)) total
    → Le (quantize 1 low) (quantize 1 (div total (of_ℕ n)))
average-ge zero total low pos above = absurd (omega arith)
average-ge (suc n) total low pos above = quantize_mono 1 _ _ (le-div_of_mul-le total low n above)

pub average-le :
    (n : ℕ) (total high : Decimal)
    → 0 < n
    → Le total (mul high (of_ℕ n))
    → Le (quantize 1 (div total (of_ℕ n))) (quantize 1 high)
average-le zero total high pos below = absurd (omega arith)
average-le (suc n) total high pos below = quantize_mono 1 _ _ (div-le_of_le-mul total high n below)
