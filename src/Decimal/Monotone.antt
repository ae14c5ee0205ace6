-- ===== src/Decimal/Monotone.antt =====
-- Sums, multiples and averages follow the order. Each law is first stated on the parts of the
-- values, x - x' over suc n.
use native.Mathlib.Nat.{mul-le-mul_right, le_of_eq, sub-zero}
use roboinvest.Prelude.{ℕ, suc, ◌+◌, ◌-◌, ◌*◌, ◌≤◌, ◌≡◌, sym, ap, pred, zero, arith}
use roboinvest.Decimal.Defs as D
use roboinvest.Decimal.Defs.{Decimal, of_ℕ, common, add, mul, div, Le}
use roboinvest.Decimal.Order.{parts_of_Le, Le_of_parts, le_refl, le_trans}

scale_parts :
    (x x' n y y' m q : ℕ)
    → x * suc m + y' * suc n ≤ y * suc n + x' * suc m
    → (x * q + x' * 0) * suc (common m 0) + (y * 0 + y' * q) * suc (common n 0)
      ≤ (y * q + y' * 0) * suc (common n 0) + (x * 0 + x' * q) * suc (common m 0)
scale_parts x x' n y y' m q h = omega (arith, mul-le-mul_right q h)

pub mul-le-mul_ℕ : (a b : Decimal) (q : ℕ) → Le a b → Le (mul a (of_ℕ q)) (mul b (of_ℕ q))
unfolding mul
mul-le-mul_ℕ a b q h =
    Le_of_parts _ _ (scale_parts a.up a.down a.fine b.up b.down b.fine q (parts_of_Le a b h))

add_parts :
    (x x' n y y' m z z' k w w' l : ℕ)
    → x * suc m + y' * suc n ≤ y * suc n + x' * suc m
    → z * suc l + w' * suc k ≤ w * suc k + z' * suc l
    → (x * suc k + z * suc n) * suc (common m l) + (y' * suc l + w' * suc m) * suc (common n k)
      ≤ (y * suc l + w * suc m) * suc (common n k) + (x' * suc k + z' * suc n) * suc (common m l)
add_parts x x' n y y' m z z' k w w' l h g =
    omega (arith, mul-le-mul_right (suc k * suc l) h, mul-le-mul_right (suc n * suc m) g)

pub add-le-add : (a b c d : Decimal) → Le a b → Le c d → Le (add a c) (add b d)
unfolding add
add-le-add a b c d h g = Le_of_parts _ _ (
    add_parts a.up a.down a.fine b.up b.down b.fine c.up c.down c.fine d.up d.down d.fine
      (parts_of_Le a b h) (parts_of_Le c d g))

-- a q + a r and a (q + r), brought to the parts
distribute :
    (x x' n q r : ℕ)
    → ((x * q + x' * 0) * suc (common n 0) + (x * r + x' * 0) * suc (common n 0)) * suc (common n 0)
        + (x * 0 + x' * (q + r)) * suc (common (common n 0) (common n 0))
      ≡ (x * (q + r) + x' * 0) * suc (common (common n 0) (common n 0))
        + ((x * 0 + x' * q) * suc (common n 0) + (x * 0 + x' * r) * suc (common n 0))
          * suc (common n 0)
distribute x x' n q r = omega arith

pub mul-add_ℕ-le :
    (a : Decimal) (q r : ℕ) → Le (add (mul a (of_ℕ q)) (mul a (of_ℕ r))) (mul a (of_ℕ (q + r)))
unfolding add mul
mul-add_ℕ-le a q r = Le_of_parts _ _ (le_of_eq (distribute a.up a.down a.fine q r))

pub mul-add_ℕ-ge :
    (a : Decimal) (q r : ℕ) → Le (mul a (of_ℕ (q + r))) (add (mul a (of_ℕ q)) (mul a (of_ℕ r)))
unfolding add mul
mul-add_ℕ-ge a q r = Le_of_parts _ _ (le_of_eq (sym (distribute a.up a.down a.fine q r)))

-- x / (q + 1), brought to the parts; k is the product of the denominators
divide_le :
    (x x' n y y' m q k : ℕ)
    → k ≡ suc n * suc q
    → x * suc (common m 0) + (y * 0 + y' * suc q) * suc n
      ≤ (y * suc q + y' * 0) * suc n + x' * suc (common m 0)
    → x * 1 * suc m + y' * suc (pred k) ≤ y * suc (pred k) + x' * 1 * suc m
divide_le x x' n y y' m q zero e h = absurd (omega arith)
divide_le x x' n y y' m q (suc k) e h =
    omega (arith, ap (λ (t : ℕ). y' * t) e, ap (λ (t : ℕ). y * t) e)

divide_ge :
    (x x' n y y' m q k : ℕ)
    → k ≡ suc n * suc q
    → (y * suc q + y' * 0) * suc n + x' * suc (common m 0)
      ≤ x * suc (common m 0) + (y * 0 + y' * suc q) * suc n
    → y * suc (pred k) + x' * 1 * suc m ≤ x * 1 * suc m + y' * suc (pred k)
divide_ge x x' n y y' m q zero e h = absurd (omega arith)
divide_ge x x' n y y' m q (suc k) e h =
    omega (arith, ap (λ (t : ℕ). y' * t) e, ap (λ (t : ℕ). y * t) e)

less_zero : (n q : ℕ) → suc n * (suc q - 0) ≡ suc n * suc q
less_zero n q = ap (λ (t : ℕ). suc n * t) (sub-zero (suc q))

-- The average of a total that is at most `a` for each of the units is at most `a`.
pub div-le_of_le-mul :
    (x a : Decimal) (q : ℕ) → Le x (mul a (of_ℕ (suc q))) → Le (div x (of_ℕ (suc q))) a
unfolding mul div
div-le_of_le-mul x a q h = Le_of_parts _ _ (
    divide_le x.up x.down x.fine a.up a.down a.fine q (suc x.fine * (suc q - 0))
      (less_zero x.fine q) (parts_of_Le _ _ h))

pub le-div_of_mul-le :
    (x a : Decimal) (q : ℕ) → Le (mul a (of_ℕ (suc q))) x → Le a (div x (of_ℕ (suc q)))
unfolding mul div
le-div_of_mul-le x a q h = Le_of_parts _ _ (
    divide_ge x.up x.down x.fine a.up a.down a.fine q (suc x.fine * (suc q - 0))
      (less_zero x.fine q) (parts_of_Le _ _ h))

pub zero-le-mul_ℕ : (a : Decimal) (q : ℕ) → Le D.zero a → Le D.zero (mul a (of_ℕ q))
unfolding mul
zero-le-mul_ℕ a q h =
    le_trans _ (mul D.zero (of_ℕ q)) _ (Le_of_parts _ _ (omega arith)) (mul-le-mul_ℕ D.zero a q h)

le-add-zero : (a : Decimal) → Le a (add a D.zero)
unfolding add
le-add-zero a = Le_of_parts _ _ (add_zero_parts a.up a.down a.fine)
  where
    add_zero_parts :
        (x x' n : ℕ)
        → x * suc (common n 0) + (x' * 1 + 0 * suc n) * suc n
          ≤ (x * 1 + 0 * suc n) * suc n + x' * suc (common n 0)
    add_zero_parts x x' n = omega arith

pub le-add_right : (a b : Decimal) → Le D.zero b → Le a (add a b)
le-add_right a b h =
    le_trans _ (add a D.zero) _ (le-add-zero a) (add-le-add a a D.zero b (le_refl a) h)

-- a * 0 is zero, in both directions of the order
pub mul-zero-le : (a : Decimal) → Le (mul a (of_ℕ 0)) D.zero
unfolding mul
mul-zero-le a = Le_of_parts _ _ (omega arith)

pub le-mul-zero : (a : Decimal) → Le D.zero (mul a (of_ℕ 0))
unfolding mul
le-mul-zero a = Le_of_parts _ _ (omega arith)
