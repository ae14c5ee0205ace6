-- ===== src/Contracts/TickSize.antt =====
-- contracts/python/trade_contracts/tick_size.py
pub mod Order
use roboinvest.Prelude.{
  Bool, Option, none, some, List, [], ◌∷◌, if◌then◌else◌, Result, ok, raised, value_error,
  assertion_error,
}
use roboinvest.Decimal.{Decimal, of_ℕ, ratio, leb, zero}

abbrev pub Band : Type 0
Band = Option Decimal × Decimal

abbrev band : Decimal → Decimal → Band
band upper tick = (some upper, tick)

abbrev pub standard_price_bands : List Band
standard_price_bands =
    band (of_ℕ 3_000) (of_ℕ 1)
    ∷ band (of_ℕ 5_000) (of_ℕ 5)
    ∷ band (of_ℕ 30_000) (of_ℕ 10)
    ∷ band (of_ℕ 50_000) (of_ℕ 50)
    ∷ band (of_ℕ 300_000) (of_ℕ 100)
    ∷ band (of_ℕ 500_000) (of_ℕ 500)
    ∷ band (of_ℕ 3_000_000) (of_ℕ 1_000)
    ∷ band (of_ℕ 5_000_000) (of_ℕ 5_000)
    ∷ band (of_ℕ 30_000_000) (of_ℕ 10_000)
    ∷ band (of_ℕ 50_000_000) (of_ℕ 50_000)
    ∷ (none, of_ℕ 100_000)
    ∷ []

abbrev pub topix500_price_bands : List Band
topix500_price_bands =
    band (of_ℕ 1_000) (ratio 1 10)
    ∷ band (of_ℕ 3_000) (ratio 5 10)
    ∷ band (of_ℕ 5_000) (of_ℕ 1)
    ∷ band (of_ℕ 30_000) (of_ℕ 5)
    ∷ band (of_ℕ 50_000) (of_ℕ 10)
    ∷ band (of_ℕ 300_000) (of_ℕ 50)
    ∷ band (of_ℕ 500_000) (of_ℕ 100)
    ∷ band (of_ℕ 3_000_000) (of_ℕ 500)
    ∷ band (of_ℕ 5_000_000) (of_ℕ 1_000)
    ∷ band (of_ℕ 30_000_000) (of_ℕ 5_000)
    ∷ band (of_ℕ 50_000_000) (of_ℕ 10_000)
    ∷ (none, of_ℕ 50_000)
    ∷ []

-- the loop over the bands; behind the last one the code raises `AssertionError`
unfoldable pub first_band : Decimal → List Band → Result Decimal
first_band price [] = raised assertion_error
first_band price ((none, size) ∷ bands) = ok size
first_band price ((some upper, size) ∷ bands) =
    let rest = first_band price bands in if leb price upper then ok size else rest

unfoldable pub tse_tick_size : Decimal → Bool → Result Decimal
unfolding first_band
tse_tick_size price is_topix500 =
    if leb price zero
    then raised value_error
    else first_band price (if is_topix500 then topix500_price_bands else standard_price_bands)
