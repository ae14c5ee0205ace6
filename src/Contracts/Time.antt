-- ===== src/Contracts/Time.antt =====
-- Python's aware `datetime`, `date` and `time`. An instant is counted in microseconds of UTC since
-- the first day of the calendar, a date in days since then, and a time in microseconds of its day.
use roboinvest.Prelude.{ℕ, ◌+◌, ◌-◌, ◌*◌, ◌/◌, ◌%◌}

-- The zone's offset is `east - west` microseconds.
pub record DateTime : Type 0 where
  pub utc : ℕ
  pub east : ℕ
  pub west : ℕ

abbrev pub day_length : ℕ
day_length = 24 * 60 * 60 * 1_000_000

abbrev pub minute_length : ℕ
minute_length = 60 * 1_000_000

-- the wall clock of the value's own zone
unfoldable pub local : DateTime → ℕ
local t = t.utc + t.east - t.west

-- `t.date()`
unfoldable pub date : DateTime → ℕ
unfolding local
date t = local t / day_length

-- `t.time()`
unfoldable pub time : DateTime → ℕ
unfolding local
time t = local t % day_length

-- `t.astimezone(ZoneInfo("Asia/Tokyo"))`; Japan has had no daylight saving time since 1951
unfoldable pub in_tokyo : DateTime → DateTime
in_tokyo t = record t { east = 9 * 60 * 60 * 1_000_000; west = 0 }
