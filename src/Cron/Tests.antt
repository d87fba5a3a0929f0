-- ===== src/Cron/Tests.antt =====
-- The expressions of cron.ts at concrete inputs, in UTC.
use crabbykit.Prelude.{
  units, ℕ, ◌+◌, ◌-◌, ◌*◌, ◌/◌, ◌%◌, ◌≡◌, refl, some, [], ◌∷◌, arith, if◌then◌else◌, ltb,
}
use crabbykit.Cron.{
  CronFields, DateFields, Calendar, get_utc_fields, search, compute_next, max_iterations,
}
use crabbykit.Cron.Next.{IsNext, compute_next-IsNext}
use crabbykit.Cron.Parse.{parse_field}
use crabbykit.Cron.Expressions.{
  parse_cron, match_interval, interval_to_cron, ◌>>=◌, next_fire_time, validate_cron,
  expires_at_from_duration,
}
use crabbykit.Cron.Expressions.Ranges.{IsInRange, parse_cron-IsInRange}
use crabbykit.Cron.Expressions.Intervals.{every, interval_to_cron-parse}

cron : Unit {0}
unfolding parse_cron match_interval interval_to_cron next_fire_time validate_cron
    expires_at_from_duration search compute_next get_utc_fields units parse_field every
cron = tt

-- January 1970, which began on a Thursday.
abbrev january : Calendar
january = record {
  month = λ d. 1 + d / 31 % 12;
  day = λ d. 1 + d % 31;
  day_of_week = λ d. (d + 4) % 7;
}

-- At half past nine on weekdays, from the first Saturday at noon: on Monday, four days after the
-- epoch.
on_weekdays :
    next_fire_time (units "30 9 * * MON-FRI") ((2 * 1440 + 720) * 60000) (get_utc_fields january)
    ≡ some (4 * 1440 + 570)
unfolding cron
on_weekdays = refl

-- The end of a range before a step is not read.
range_with_step : parse_field (units "1-5/2") 0 9 ≡ some (1 ∷ 3 ∷ 5 ∷ 7 ∷ 9 ∷ [])
unfolding cron
range_with_step = refl

invalid : validate_cron (units "61 * * * *") ≡ validate_cron (units "60m")
unfolding cron
invalid = refl

three_hours : expires_at_from_duration (units "3h") 1000 ≡ some 10801000
unfolding cron
three_hours = refl

-- Where the clock is put forward: the third day has 23 hours, of which that after the first is left out.
abbrev put_forward : ℕ → DateFields
unfolding get_utc_fields
put_forward t = get_utc_fields january (if ltb t (2 * 1440 + 120) then t else t + 60)

-- On the day after, at midnight: the search from the day before finds a later week.
abbrev midnight : CronFields
midnight = record {
  minutes = 0 ∷ [];
  hours = 0 ∷ [];
  days_of_month = 1 ∷ 2 ∷ 3 ∷ 4 ∷ 5 ∷ 6 ∷ 7 ∷ 8 ∷ 9 ∷ 10 ∷ 11 ∷ 12 ∷ [];
  months = 1 ∷ [];
  days_of_week = 0 ∷ [];
}

skipped_midnight :
    compute_next midnight ((2 * 1440 + 30) * 60000) put_forward ≡ some (10 * 1440 - 60)
unfolding cron
skipped_midnight = refl

compute_next-IsNext_example :
    IsNext midnight
      (get_utc_fields january)
      (120000 / 60000 + 1)
      max_iterations
      (compute_next midnight 120000 (get_utc_fields january))
compute_next-IsNext_example = compute_next-IsNext january midnight 120000

parse_cron-IsInRange_example : IsInRange (every (15, 109))
unfolding cron
parse_cron-IsInRange_example =
    parse_cron-IsInRange (units "*/15 * * * SUN-7") (every (15, 109)) refl

interval_to_cron-parse_example :
    (interval_to_cron (units "15m") >>= parse_cron) ≡ some (every (15, 109))
unfolding cron
interval_to_cron-parse_example =
    interval_to_cron-parse (units "15m") 15 109 refl (omega arith) (omega arith)
