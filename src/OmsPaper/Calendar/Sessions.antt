-- ===== src/OmsPaper/Calendar/Sessions.antt =====
-- `nth_tse_business_day_after` counts business days exactly.
use native.Mathlib.Nat.{add-zero}
use roboinvest.Prelude.{
  false≢true, ◌∙◌, ◌||◌, ap, ℕ, zero, suc, ◌+◌, ◌*◌, ◌≤◌, ◌<◌, ◌≡◌, refl, true, false, Bool,
  Bool-cases, inl, inr, some, arith, if◌then◌else◌,
}
use roboinvest.OmsPaper.Calendar.{
  HolidayCalendar, is_tse_business_day, advance, nth_tse_business_day_after,
}

module _ (calendar : HolidayCalendar) where
  abbrev is_open : ℕ → Bool
  is_open = is_tse_business_day calendar

  -- the business days among the n days after `current`
  abbrev pub business_days : ℕ → ℕ → ℕ
  business_days current zero = 0
  business_days current (suc n) =
      (if is_open (current + 1) then 1 else 0) + business_days (current + 1) n

  -- one of the n days after d is a business day
  abbrev pub opens_within : ℕ → ℕ → Bool
  opens_within d zero = false
  opens_within d (suc n) = is_open (d + 1) || opens_within (d + 1) n

  -- After each of the days the exchange opens again within `closed_run` days.
  abbrev pub Reopens : ℕ → ℕ → Type 0
  Reopens first last = (d : ℕ) → first ≤ d → d ≤ last → opens_within d calendar.closed_run ≡ true

  next_open : (d n : ℕ) → opens_within d n ≡ true → (j : ℕ) × (j < n) × (is_open (d + 1 + j) ≡ true)
  next_open d zero h = absurd (false≢true h)
  next_open d (suc n) h = elim (Bool-cases (is_open (d + 1))) [
    | inl e ↦ (0, omega arith, ap is_open (add-zero (d + 1)) ∙ e)
    | inr e ↦
        let (j, near, later) = next_open (d + 1) n (rw e at h) in
        let same : d + 1 + suc j ≡ d + 1 + 1 + j = omega arith in
        (suc j, omega (arith, near), rw same later)
  ]

  record Reached (current remaining result : ℕ) : Type 0 where
    days : ℕ
    is_after : result ≡ current + days
    counted : business_days current days ≡ remaining
    ends_open : 0 < remaining → is_open result ≡ true

  Reached-opens :
      (current remaining result : ℕ)
      → is_open (current + 1) ≡ true
      → Reached (current + 1) remaining result
      → (remaining ≡ 0 → result ≡ current + 1)
      → Reached current (suc remaining) result
  Reached-opens current remaining result opens r here = record {
    days = suc r.days;
    is_after = omega (arith, r.is_after);
    counted = ground (arith, r.counted);
    ends_open = λ _. ends remaining r.ends_open here;
  }
    where
      ends :
          (remaining : ℕ)
          → (0 < remaining → is_open result ≡ true)
          → (remaining ≡ 0 → result ≡ current + 1)
          → is_open result ≡ true
      ends zero later here = rw (here refl) opens
      ends (suc n) later here = later (omega arith)

  Reached-closed :
      (current remaining result : ℕ)
      → is_open (current + 1) ≡ false
      → Reached (current + 1) (suc remaining) result
      → Reached current (suc remaining) result
  Reached-closed current remaining result closed r = record {
    days = suc r.days;
    is_after = omega (arith, r.is_after);
    counted = ground (arith, r.counted);
    ends_open = r.ends_open;
  }

  advance-zero : (fuel current : ℕ) → advance calendar fuel current zero ≡ current
  unfolding advance
  advance-zero zero current = refl
  advance-zero (suc fuel) current = refl

  Reached-zero : (current : ℕ) → Reached current 0 current
  Reached-zero current = record {
    days = 0;
    is_after = omega arith;
    counted = refl;
    ends_open = λ h. absurd (omega arith);
  }

  -- the next business day is not the next day, so it is one day nearer to that
  nearer :
      (current j : ℕ)
      → is_open (current + 1) ≡ false
      → is_open (current + 1 + j) ≡ true
      → (i : ℕ) × (j ≡ suc i) × (is_open (current + 1 + 1 + i) ≡ true)
  nearer current zero closed opens = absurd (cc (closed, ap is_open (add-zero (current + 1))))
  nearer current (suc i) closed opens =
      let e : current + 1 + suc i ≡ current + 1 + 1 + i = omega arith in (i, refl, rw e at opens)

  -- With fuel up to the next business day and `closed_run` for each later one, the loop reaches the day
  -- that it counts to.
  advance-Reached :
      (first last : ℕ) (reopens : Reopens first last) (fuel current remaining j : ℕ)
      → first ≤ current
      → current + fuel ≤ last
      → is_open (current + 1 + j) ≡ true
      → suc j + remaining * calendar.closed_run ≤ fuel
      → Reached current (suc remaining) (advance calendar fuel current (suc remaining))
  unfolding advance
  advance-Reached first last reopens zero current remaining j after before opens h =
      absurd (omega arith)
  advance-Reached first last reopens (suc fuel) current zero j after before opens h =
      elim (Bool-cases (is_open (current + 1))) [
        | inl e ↦
            rw (e, advance-zero fuel (current + 1))
              (Reached-opens current 0 (current + 1) e (Reached-zero (current + 1)) (λ _. refl))
        | inr e ↦
            let (i, j-eq, later) = nearer current j e opens in
            rw e (
              Reached-closed current 0 _ e (
                advance-Reached first last reopens fuel (current + 1) 0 i (omega arith)
                  (omega arith) later (omega arith)))
      ]
  advance-Reached first last reopens (suc fuel) current (suc n) j after before opens h =
      elim (Bool-cases (is_open (current + 1))) [
        | inl e ↦
            let (i, near, later) =
              next_open (current + 1) _ (reopens (current + 1) (omega arith) (omega arith)) in
            rw e (
              Reached-opens current (suc n) _ e
                (advance-Reached first last reopens fuel (current + 1) n i (omega arith)
                  (omega arith) later (omega (arith, near)))
                (λ z. absurd (omega arith)))
        | inr e ↦
            let (i, j-eq, later) = nearer current j e opens in
            rw e (
              Reached-closed current (suc n) _ e (
                advance-Reached first last reopens fuel (current + 1) (suc n) i (omega arith)
                  (omega arith) later (omega arith)))
      ]

  -- If the exchange reopens within `closed_run` days after every day that the loop may see, the result
  -- for n ≥ 1 sessions is a business day, and exactly n business days lie after the opening date and up
  -- to it.
  pub nth_tse_business_day_after-counts :
      (opened n : ℕ)
      → Reopens opened (opened + suc n * calendar.closed_run)
      → (k : ℕ) × (nth_tse_business_day_after calendar opened (some (suc n)) ≡ some (opened + k))
        × (business_days opened k ≡ suc n)
        × (is_tse_business_day calendar (opened + k) ≡ true)
  unfolding nth_tse_business_day_after
  nth_tse_business_day_after-counts opened n reopens =
      let (j, near, later) = next_open opened _ (reopens opened (omega arith) (omega arith)) in
      let r =
        advance-Reached opened _ reopens (suc n * calendar.closed_run) opened n j (omega arith)
          (omega arith) later (omega (arith, near)) in
      (r.days, ap some r.is_after, r.counted, rw (← r.is_after) (r.ends_open (omega arith)))
