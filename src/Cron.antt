-- ===== src/Cron.antt =====
-- packages/runtime/agent-runtime/src/scheduling/cron.ts: the next fire time. A time is the number of
-- its minute since the epoch, or of its millisecond where that is said; a set of numbers is a list of
-- which only the members are read.
pub mod Next
pub mod Parse
pub mod Expressions
mod Tests
use crabbykit.Prelude.{
  ℕ, zero, suc, ◌+◌, ◌-◌, ◌*◌, ◌/◌, ◌%◌, Bool, true, false, not, ◌&&◌, ◌||◌, Option, none, some,
  List, if◌then◌else◌, nat_beq, any,
}

pub record CronFields : Type 0 where
  pub minutes : List ℕ
  pub hours : List ℕ
  pub days_of_month : List ℕ
  pub months : List ℕ
  pub days_of_week : List ℕ

pub record DateFields : Type 0 where
  pub month : ℕ
  pub day : ℕ
  pub day_of_week : ℕ
  pub hour : ℕ
  pub minute : ℕ

abbrev pub has : List ℕ → ℕ → Bool
has values n = any (λ v. nat_beq v n) values

-- `getUTCMonth() + 1`, `getUTCDate` and `getUTCDay` of the day of this number since the epoch.
pub record Calendar : Type 0 where
  pub month : ℕ → ℕ
  pub day : ℕ → ℕ
  pub day_of_week : ℕ → ℕ

-- `getFields` without a time zone.
unfoldable pub get_utc_fields : Calendar → ℕ → DateFields
get_utc_fields calendar t = record {
  month = calendar.month (t / 1440);
  day = calendar.day (t / 1440);
  day_of_week = calendar.day_of_week (t / 1440);
  hour = t / 60 % 24;
  minute = t % 60;
}

-- What a round of the search does: it answers the time, or adds minutes to it.
pub data Step : Type 0 where
  fires : Step
  skip : ℕ → Step

-- The minutes that are left of the day and of the hour.
abbrev pub left_of_day : DateFields → ℕ
left_of_day f = (23 - f.hour) * 60 + (60 - f.minute)

abbrev pub left_of_hour : DateFields → ℕ
left_of_hour f = 60 - f.minute

unfoldable pub check_fields : CronFields → DateFields → Step
check_fields fields f =
    if not (has fields.months f.month)
    then skip (left_of_day f)
    else (if not (has fields.days_of_month f.day) || not (has fields.days_of_week f.day_of_week)
        then skip (left_of_day f)
        else (if not (has fields.hours f.hour)
            then skip (left_of_hour f)
            else (if not (has fields.minutes f.minute) then skip 1 else fires)))

abbrev pub after_step : (ℕ → Option ℕ) → Step → ℕ → Option ℕ
after_step go_on fires d = some d
after_step go_on (skip n) d = go_on (d + n)

abbrev pub max_iterations : ℕ
max_iterations = 366 * 24 * 60

-- The loop of `computeNext`; `get_fields` reads a time's fields in the time zone.
unfoldable pub search : CronFields → (ℕ → DateFields) → ℕ → ℕ → Option ℕ
unfolding check_fields
search fields get_fields zero d = none
search fields get_fields (suc left) d =
    after_step (search fields get_fields left) (check_fields fields (get_fields d)) d

-- `computeNext`, from a time in milliseconds; `none` is its error.
unfoldable pub compute_next : CronFields → ℕ → (ℕ → DateFields) → Option ℕ
unfolding search
compute_next fields from get_fields = search fields get_fields max_iterations (from / 60000 + 1)
