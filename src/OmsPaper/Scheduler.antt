-- ===== src/OmsPaper/Scheduler.antt =====
-- services/oms-paper/src/oms_paper/scheduler.py: when the closeout fires, and how often it is retried
pub mod Fire
pub mod Retry
use roboinvest.Prelude.{
  ℕ, zero, suc, ◌+◌, ◌-◌, ◌*◌, Bool, not, ◌||◌, ◌==◌, Option, none, some, String, str_eq, ltb,
  if◌then◌else◌, holds,
}
use roboinvest.Contracts.Time.{DateTime, date, time, in_tokyo, day_length, minute_length, local}

-- the counters that decide on a retry
pub record CloseoutStats : Type 0 where
  pub closed : ℕ
  pub partial_exits : ℕ
  pub no_fills : ℕ
  pub write_errors : ℕ
  pub skipped_reason : Option String

abbrev pub is_retryable : String → Bool
is_retryable r = str_eq r "read_system_status_failed" || str_eq r "list_positions_failed"

unfoldable pub closeout_is_incomplete : CloseoutStats → Bool
closeout_is_incomplete stats =
    holds is_retryable stats.skipped_reason
    || not (stats.partial_exits == 0)
    || not (stats.no_fills == 0)
    || not (stats.write_errors == 0)

-- `now_jst.replace(hour=hour, minute=minute, second=0, microsecond=0)`, on Tokyo's wall clock
unfoldable pub target_of : DateTime → ℕ → ℕ → ℕ
unfolding date
target_of now hour minute = date (in_tokyo now) * day_length + (hour * 60 + minute) * minute_length

-- the wait in microseconds
unfoldable pub until_next_fire : DateTime → ℕ → ℕ → ℕ
unfolding target_of local
until_next_fire now hour minute =
    let now_jst = local (in_tokyo now) in
    let target = target_of now hour minute in
    if ltb target now_jst then target + day_length - now_jst else target - now_jst

-- The loop of one day: `runs n` is what the n-th call of `runner.run_closeout()` returns. Given are the
-- attempts that are left, and the number and the result of the last call.
unfoldable pub retry : (ℕ → CloseoutStats) → ℕ → ℕ → CloseoutStats → ℕ × CloseoutStats
unfolding closeout_is_incomplete
retry runs zero n stats = (n, stats)
retry runs (suc attempts) n stats =
    let again = retry runs attempts (suc n) (runs (suc n)) in
    if closeout_is_incomplete stats then again else (n, stats)

unfoldable pub run_day : (ℕ → CloseoutStats) → ℕ → ℕ × CloseoutStats
unfolding retry
run_day runs attempts = retry runs attempts 0 (runs 0)
