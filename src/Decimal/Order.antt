-- ===== src/Decimal/Order.antt =====
-- The order on decimals: total, transitive, and kept by the operations.
use native.Mathlib.Nat.{mul-le-mul_right, le_of_mul-le-mul_right}
use roboinvest.Prelude.{ℕ, suc, ◌+◌, ◌*◌, ◌≤◌, ◌<◌, ◌⊎◌, arith, leb→le, le→leb}
use roboinvest.Decimal.Defs.{Decimal, den, leb, Le, Lt}

-- The numbers that the test compares.
pub parts_of_Le :
    (a b : Decimal) → Le a b → a.up * den b + b.down * den a ≤ b.up * den a + a.down * den b
unfolding leb
parts_of_Le a b h = leb→le _ _ h

pub Le_of_parts :
    (a b : Decimal) → a.up * den b + b.down * den a ≤ b.up * den a + a.down * den b → Le a b
unfolding leb
Le_of_parts a b h = le→leb _ _ h

pub parts_of_Lt :
    (a b : Decimal) → Lt a b → a.up * den b + b.down * den a < b.up * den a + a.down * den b
unfolding leb
parts_of_Lt a b h = ground arith

pub Lt_of_parts :
    (a b : Decimal) → a.up * den b + b.down * den a < b.up * den a + a.down * den b → Lt a b
unfolding leb
Lt_of_parts a b h = ground arith

pub le_refl : (a : Decimal) → Le a a
le_refl a = Le_of_parts a a (omega arith)

pub le_total : (a b : Decimal) → Le a b ⊎ Le b a
unfolding leb
le_total a b = ground arith

pub le_of_lt : (a b : Decimal) → Lt a b → Le a b
unfolding leb
le_of_lt a b h = ground arith

-- x/n ≤ y/m and y/m ≤ z/k give x/n ≤ z/k, each side moved so that all are sums
chain :
    (x x' y y' z z' n m k : ℕ)
    → x * suc m + y' * suc n ≤ y * suc n + x' * suc m
    → y * suc k + z' * suc m ≤ z * suc m + y' * suc k
    → x * suc k + z' * suc n ≤ z * suc n + x' * suc k
chain x x' y y' z z' n m k h g =
    le_of_mul-le-mul_right {k = suc m}
      (omega (arith, mul-le-mul_right (suc k) h, mul-le-mul_right (suc n) g)) (omega arith)

pub le_trans : (a b c : Decimal) → Le a b → Le b c → Le a c
le_trans a b c h g = Le_of_parts a c (
    chain a.up a.down b.up b.down c.up c.down a.fine b.fine c.fine (parts_of_Le a b h)
      (parts_of_Le b c g))

-- The tests `a <= b` and `b < a` exclude one another.
pub not_lt_of_le : (a b : Decimal) → Le a b → Lt b a → ⊥
not_lt_of_le a b h g = ground arith

pub lt_of_lt_of_le : (a b c : Decimal) → Lt a b → Le b c → Lt a c
lt_of_lt_of_le a b c h g = ground (arith, le_trans b c a g)

pub lt_of_le_of_lt : (a b c : Decimal) → Le a b → Lt b c → Lt a c
lt_of_le_of_lt a b c h g = ground (arith, le_trans c a b)
