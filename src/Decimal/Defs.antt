-- ===== src/Decimal/Defs.antt =====
-- An exact number (up - down) / (fine + 1). Sums, differences and products of `Decimal`s are exact
-- here; the 28 significant digits of Python's context are not reached by the amounts of this code.
use roboinvest.Prelude.{ℕ, suc, ◌+◌, ◌-◌, ◌*◌, ◌/◌, pred, ◌≡◌, Bool, true, not, leb as leb_ℕ}

pub record Decimal : Type 0 where
  pub up : ℕ
  pub down : ℕ
  pub fine : ℕ

abbrev pub den : Decimal → ℕ
den a = suc a.fine

-- `Decimal(n)`
abbrev pub of_ℕ : ℕ → Decimal
of_ℕ n = record { up = n; down = 0; fine = 0 }

-- `Decimal("n / d")` for a power of ten d, as in `ratio 2 100` for `Decimal("0.02")`
abbrev pub ratio : ℕ → ℕ → Decimal
ratio n d = record { up = n; down = 0; fine = pred d }

-- (n + 1)(m + 1) - 1, for the product of two denominators
abbrev pub common : ℕ → ℕ → ℕ
common n m = n * m + n + m

unfoldable pub add : Decimal → Decimal → Decimal
add a b = record {
  up = a.up * den b + b.up * den a;
  down = a.down * den b + b.down * den a;
  fine = common a.fine b.fine;
}

unfoldable pub neg : Decimal → Decimal
neg a = record { up = a.down; down = a.up; fine = a.fine }

unfoldable pub sub : Decimal → Decimal → Decimal
sub a b = record {
  up = a.up * den b + b.down * den a;
  down = a.down * den b + b.up * den a;
  fine = common a.fine b.fine;
}

unfoldable pub mul : Decimal → Decimal → Decimal
mul a b = record {
  up = a.up * b.up + a.down * b.down;
  down = a.up * b.down + a.down * b.up;
  fine = common a.fine b.fine;
}

-- `a / b` for a positive b, which the code checks or knows wherever it divides
unfoldable pub div : Decimal → Decimal → Decimal
div a b = record { up = a.up * den b; down = a.down * den b; fine = pred (den a * (b.up - b.down)) }

-- `a <= b`
unfoldable pub leb : Decimal → Decimal → Bool
leb a b = leb_ℕ (a.up * den b + b.down * den a) (b.up * den a + a.down * den b)

-- `a < b`: there is no NaN among the values
abbrev pub ltb : Decimal → Decimal → Bool
ltb a b = not (leb b a)

abbrev pub zero : Decimal
zero = of_ℕ 0

abbrev pub one : Decimal
one = of_ℕ 1

abbrev pub Le : Decimal → Decimal → Type 0
Le a b = leb a b ≡ true

abbrev pub Lt : Decimal → Decimal → Type 0
Lt a b = ltb a b ≡ true

-- `int(a)` for a that is not negative
unfoldable pub truncate : Decimal → ℕ
truncate a = (a.up - a.down) / den a

-- the whole number nearest to m / n, a tie going up
unfoldable pub nearest : ℕ → ℕ → ℕ
nearest m n = (2 * m + n) / (2 * n)

-- `a.quantize(1 / unit, rounding=ROUND_HALF_UP)`: a tie goes away from zero
unfoldable pub quantize : ℕ → Decimal → Decimal
unfolding nearest
quantize unit a = record {
  up = nearest ((a.up - a.down) * unit) (den a);
  down = nearest ((a.down - a.up) * unit) (den a);
  fine = pred unit;
}
