-- ===== src/OmsPaper/Scheduler/Fire.antt =====
-- When scheduler.py fires.
use roboinvest.Prelude.{ℕ, ◌+◌, ◌*◌, ◌%◌, ◌<◌, ◌≡◌, arith}
use roboinvest.Contracts.Time.{DateTime, local, date, in_tokyo, day_length, minute_length}
use roboinvest.OmsPaper.Scheduler.{until_next_fire}

-- The wait is shorter than a day, and at its end the wall clock of Tokyo shows the asked time.
pub until_next_fire_lands :
    (now : DateTime) (hour minute : ℕ)
    → hour < 24
    → minute < 60
    → (until_next_fire now hour minute < day_length)
      × ((local (in_tokyo now) + until_next_fire now hour minute) % day_length
          ≡ (hour * 60 + minute) * minute_length)
unfolding until_next_fire date
until_next_fire_lands now hour minute h m = ground arith
