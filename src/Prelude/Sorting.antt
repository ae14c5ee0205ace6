-- ===== src/Prelude/Sorting.antt =====
-- Python's stable `sorted`, counting, the order of strings, and what sorting keeps.
use Prim.Native.Nat.{ℕ, ◌+◌, ◌≤◌}
use Prim.Native.Char.{code}
use Prim.Native.String.{String}
use mathlib.Core.Path.{◌≡◌, refl}
use mathlib.Core.Bool.{Bool, true, false, ◌&&◌, ◌||◌}
use mathlib.Core.List.{List, [], ◌∷◌, map}
use native.Mathlib.Omega.{arith}
use roboinvest.Prelude.Tests.{if◌then◌else◌, ltb, ◌==◌}
use roboinvest.Prelude.Lists.{length, keep_if}

-- `s <= t`, by code points
abbrev pub str_leb : String → String → Bool
str_leb String.[] t = true
str_leb (String.◌∷◌ c s) String.[] = false
str_leb (String.◌∷◌ c s) (String.◌∷◌ d t) = ltb (code c) (code d) || code c == code d && str_leb s t

module _ {ℓ} {A : Type ℓ} where
  abbrev pub insert_by : (A → A → Bool) → A → List A → List A
  insert_by leq x [] = x ∷ []
  insert_by leq x (y ∷ ys) =
      let rest = insert_by leq x ys in if leq x y then x ∷ y ∷ ys else y ∷ rest

  -- `sorted(xs, key=...)`, where `leq x y` says that the key of x is at most that of y
  abbrev pub sort_by : (A → A → Bool) → List A → List A
  sort_by leq [] = []
  sort_by leq (x ∷ xs) = insert_by leq x (sort_by leq xs)

  abbrev pub count_if : (A → Bool) → List A → ℕ
  count_if test [] = 0
  count_if test (x ∷ xs) = (if test x then 1 else 0) + count_if test xs

  count_if-insert_by :
      (test : A → Bool) (leq : A → A → Bool) (x : A) (xs : List A)
      → count_if test (insert_by leq x xs) ≡ count_if test (x ∷ xs)
  count_if-insert_by test leq x [] = refl
  count_if-insert_by test leq x (y ∷ ys) = ground (arith, count_if-insert_by test leq x ys)

  pub count_if-sort_by :
      (test : A → Bool) (leq : A → A → Bool) (xs : List A)
      → count_if test (sort_by leq xs) ≡ count_if test xs
  count_if-sort_by test leq [] = refl
  count_if-sort_by test leq (x ∷ xs) =
      omega (arith, count_if-insert_by test leq x (sort_by leq xs), count_if-sort_by test leq xs)

  pub length-count_if : (xs : List A) → count_if (λ x. true) xs ≡ length xs
  length-count_if [] = refl
  length-count_if (x ∷ xs) = omega (arith, length-count_if xs)

  pub count_if-keep_if :
      (test : A → Bool) (xs : List A) → length (keep_if test xs) ≡ count_if test xs
  count_if-keep_if test [] = refl
  count_if-keep_if test (x ∷ xs) = ground (arith, count_if-keep_if test xs)

  -- what fails one test and holds of the others counts no more
  pub count_if-le :
      (p q : A → Bool) (xs : List A)
      → ((x : A) → p x ≡ true → q x ≡ true)
      → count_if p xs ≤ count_if q xs
  count_if-le p q [] h = omega arith
  count_if-le p q (x ∷ xs) h = ground (arith, count_if-le p q xs h, h x)

  pub count_if-or :
      (p q : A → Bool) (xs : List A) → count_if (λ x. p x || q x) xs ≤ count_if p xs + count_if q xs
  count_if-or p q [] = omega arith
  count_if-or p q (x ∷ xs) = ground (arith, count_if-or p q xs)

  pub count_if-none : (p : A → Bool) (xs : List A) → ((x : A) → p x ≡ false) → count_if p xs ≡ 0
  count_if-none p [] h = refl
  count_if-none p (x ∷ xs) h = ground (arith, count_if-none p xs h, h x)

pub count_if-map {ℓ κ} :
    {A : Type ℓ} {B : Type κ} (test : B → Bool) (f : A → B) (xs : List A)
    → count_if test (map f xs) ≡ count_if (λ x. test (f x)) xs
count_if-map test f [] = refl
count_if-map test f (x ∷ xs) = omega (arith, count_if-map test f xs)
