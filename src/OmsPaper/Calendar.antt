-- ===== src/OmsPaper/Calendar.antt =====
-- services/oms-paper/src/oms_paper/calendar.py: business days of the exchange. The holidays of the
-- `jpholiday` package are a parameter.
pub mod Sessions
use roboinvest.Prelude.{
  ℕ, zero, suc, ◌+◌, ◌-◌, ◌*◌, ◌/◌, ◌%◌, Bool, not, ◌&&◌, ltb, leb, ◌==◌, if◌then◌else◌, Option,
  none, some,
}

-- `closed_run` bounds the days that the exchange stays closed in a row; it serves as fuel.
pub record HolidayCalendar : Type 0 where
  pub is_holiday : ℕ → Bool
  pub closed_run : ℕ

-- The proleptic Gregorian calendar of `datetime.date`: a year begins in March here, and day 0 of the
-- count, 1 January of year 1, is day 306 of it.
day_of_era : ℕ → ℕ
day_of_era date = (date + 306) % 146_097

year_of_era : ℕ → ℕ
year_of_era doe = (doe + doe / 36_524 - doe / 1_460 - doe / 146_096) / 365

day_of_year : ℕ → ℕ
unfolding day_of_era year_of_era
day_of_year date =
    let doe = day_of_era date in
    let yoe = year_of_era doe in doe + yoe / 100 - (365 * yoe + yoe / 4)

unfoldable pub month : ℕ → ℕ
unfolding day_of_year
month date = let mp = (5 * day_of_year date + 2) / 153 in if ltb mp 10 then mp + 3 else mp - 9

unfoldable pub day : ℕ → ℕ
unfolding day_of_year
day date =
    let doy = day_of_year date in let mp = (5 * doy + 2) / 153 in doy - (153 * mp + 2) / 5 + 1

-- Monday is 0; day 0 of the count was a Monday.
unfoldable pub weekday : ℕ → ℕ
weekday date = date % 7

unfoldable pub is_tse_business_day : HolidayCalendar → ℕ → Bool
unfolding month day weekday
is_tse_business_day calendar d =
    if leb 5 (weekday d)
    then Bool.false
    else if calendar.is_holiday d
    then Bool.false
    else if month d == 12 && day d == 31
    then Bool.false
    else not (month d == 1 && leb (day d) 3)

-- the `while` loop, on fuel
unfoldable pub advance : HolidayCalendar → ℕ → ℕ → ℕ → ℕ
advance calendar zero current remaining = current
advance calendar (suc fuel) current zero = current
advance calendar (suc fuel) current (suc remaining) =
    advance calendar fuel (current + 1)
      (if is_tse_business_day calendar (current + 1) then remaining else suc remaining)

unfoldable pub nth_tse_business_day_after : HolidayCalendar → ℕ → Option ℕ → Option ℕ
nth_tse_business_day_after calendar opened_date none = none
nth_tse_business_day_after calendar opened_date (some sessions) =
    some (advance calendar (sessions * calendar.closed_run) opened_date sessions)
