-- ===== src/Contracts/TickSize/Order.antt =====
-- The band tables of tick_size.py: every positive price has a tick, and ticks do not fall.
use roboinvest.Prelude.{
  Bool, true, false, ◌≡◌, refl, inl, inr, none, some, List, [], ◌∷◌, ok, arith, Bool-cases,
  if◌then◌else◌,
}
use roboinvest.Decimal
use roboinvest.Decimal.{Decimal, leb, Le, Lt, le_refl, le_trans}
use roboinvest.Contracts.TickSize.{
  Band, first_band, tse_tick_size, standard_price_bands, topix500_price_bands,
}

-- Each tick is at least the one before it, and the last band has no upper bound.
abbrev IsRising : Decimal → List Band → Type 0
IsRising floor [] = ⊥
IsRising floor ((none, size) ∷ bands) = Le floor size
IsRising floor ((some upper, size) ∷ bands) = Le floor size × IsRising size bands

first_band_total :
    (price floor : Decimal) (bands : List Band)
    → IsRising floor bands
    → (t : Decimal) × (first_band price bands ≡ ok t) × Le floor t
unfolding first_band
first_band_total price floor [] r = absurd r
first_band_total price floor ((none, size) ∷ bands) r = (size, refl, r)
first_band_total price floor ((some upper, size) ∷ bands) r = elim (Bool-cases (leb price upper)) [
  | inl e ↦ (size, rw e, r.0)
  | inr e ↦
      let (t, found, above) = first_band_total price size bands r.1 in
      (t, rw e found, le_trans floor size t r.0 above)
]

first_band_mono :
    (p q floor t u : Decimal) (bands : List Band)
    → IsRising floor bands
    → Le p q
    → first_band p bands ≡ ok t
    → first_band q bands ≡ ok u
    → Le t u
unfolding first_band
first_band_mono p q floor t u [] r h e f = absurd r
first_band_mono p q floor t u ((none, size) ∷ bands) r h e f = ground (arith, le_refl size)
first_band_mono p q floor t u ((some upper, size) ∷ bands) r h e f =
    let (v, found, above) = first_band_total q size bands r.1 in
    ground
      (arith, le_refl size, le_trans p q upper h, first_band_mono p q size t u bands r.1 h, above)

abbrev bands_of : Bool → List Band
bands_of is_topix500 = if is_topix500 then topix500_price_bands else standard_price_bands

abbrev least_tick : Bool → Decimal
least_tick is_topix500 = if is_topix500 then Decimal.ratio 1 10 else Decimal.one

bands_of-IsRising : (is_topix500 : Bool) → IsRising (least_tick is_topix500) (bands_of is_topix500)
unfolding leb
bands_of-IsRising true =
    (refl, (refl, (refl, (refl, (refl, (refl, (refl, (refl, (refl, (refl, (refl, refl)))))))))))
bands_of-IsRising false =
    (refl, (refl, (refl, (refl, (refl, (refl, (refl, (refl, (refl, (refl, refl))))))))))

-- Every positive price has a tick in both tables: the search never runs past the last band, and no
-- tick is below 1 (0.1 for TOPIX500).
pub tse_tick_size_total :
    (price : Decimal) (is_topix500 : Bool)
    → Lt Decimal.zero price
    → (t : Decimal) × (tse_tick_size price is_topix500 ≡ ok t)
      × Le (if is_topix500 then Decimal.ratio 1 10 else Decimal.one) t
unfolding tse_tick_size
tse_tick_size_total price is_topix500 pos =
    let (t, found, above) =
      first_band_total price (least_tick is_topix500) (bands_of is_topix500)
        (bands_of-IsRising is_topix500) in
    (t, ground arith, above)

-- A higher price never has a finer tick.
pub tse_tick_size_mono :
    (p q : Decimal) (is_topix500 : Bool) (t u : Decimal)
    → Le p q
    → tse_tick_size p is_topix500 ≡ ok t
    → tse_tick_size q is_topix500 ≡ ok u
    → Le t u
unfolding tse_tick_size
tse_tick_size_mono p q is_topix500 t u h e f =
    first_band_mono p q (least_tick is_topix500) t u (bands_of is_topix500)
      (bands_of-IsRising is_topix500) h (ground arith) (ground arith)
