-- ===== src/OmsPaper/Scheduler/Retry.antt =====
-- How often scheduler.py runs the closeout of a day.
use roboinvest.Prelude.{
  ℕ, zero, suc, ◌+◌, ◌<◌, ◌≤◌, ◌≡◌, ◌⊎◌, true, false, refl, inl, inr, arith, Bool-cases,
}
use roboinvest.OmsPaper.Scheduler.{CloseoutStats, closeout_is_incomplete, retry, run_day}

-- The call that ends the loop from call n on.
record Ended (runs : ℕ → CloseoutStats) (attempts n : ℕ) (last : ℕ) (stats : CloseoutStats)
    : Type 0 where
  from : n ≤ last
  upto : last ≤ n + attempts
  result : stats ≡ runs last
  reason : (closeout_is_incomplete stats ≡ false) ⊎ (last ≡ n + attempts)
  before : (i : ℕ) → n ≤ i → i < last → closeout_is_incomplete (runs i) ≡ true

retry-Ended :
    (runs : ℕ → CloseoutStats) (attempts n : ℕ)
    → Ended runs attempts n (retry runs attempts n (runs n)).0 (retry runs attempts n (runs n)).1
unfolding retry
retry-Ended runs zero n = record {
  from = omega arith;
  upto = omega arith;
  result = refl;
  reason = inr (omega arith);
  before = λ i a b. absurd (omega arith);
}
retry-Ended runs (suc attempts) n = elim (Bool-cases (closeout_is_incomplete (runs n))) [
  | inl e ↦
      let r = retry-Ended runs attempts (suc n) in
      rw e (record {
        from = omega (arith, r.from);
        upto = omega (arith, r.upto);
        result = r.result;
        reason = ground (arith, r.reason);
        before = λ i a b. elim (cases n i a) [
          | inl same ↦ rw (← same) e
          | inr later ↦ r.before i later b
        ];
      })
  | inr e ↦ rw e (record {
    from = omega arith;
    upto = omega arith;
    result = refl;
    reason = inl e;
    before = λ i a b. absurd (omega arith);
  })
]
  where
    cases : (n i : ℕ) → n ≤ i → (n ≡ i) ⊎ (suc n ≤ i)
    cases n i a = ground arith

-- The closeout of a day runs at most 1 + attempts times; the result kept is that of the last run, which
-- was complete or used up the attempts, and every earlier run was incomplete.
pub run_day_bounded :
    (runs : ℕ → CloseoutStats) (attempts : ℕ)
    → let (last, stats) = run_day runs attempts in
      (last ≤ attempts)
      × (stats ≡ runs last)
      × ((closeout_is_incomplete stats ≡ false) ⊎ (last ≡ attempts))
      × ((i : ℕ) → i < last → closeout_is_incomplete (runs i) ≡ true)
unfolding run_day
run_day_bounded runs attempts =
    let r = retry-Ended runs attempts 0 in
    (omega (arith, r.upto), r.result, ground (arith, r.reason), λ i b. r.before i (omega arith) b)
