-- ===== src/RateLimit/Tests.antt =====
-- Runs of the limiter of sliding-window.ts at concrete inputs.
use crabbykit.Prelude.{◌≤◌, ◌≡◌, refl, some, List, [], ◌∷◌, arith, ◌*◌}
use crabbykit.RateLimit.{
  minute, Row, Options, allowed, minute_exceeded, consume, read_bucket, window_count, row_matches,
  window_start, write_bucket,
}
use crabbykit.RateLimit.Buckets.{fresh_row}
use crabbykit.RateLimit.Runs.{count_of, allowed_count, allowed_count_minute}

limiter : Unit {0}
unfolding consume read_bucket allowed_count window_count row_matches window_start write_bucket
limiter = tt

abbrev two_a_minute : Options
two_a_minute = record { key = "telegram:@alice"; per_minute = 2; per_hour = some 100 }

-- Two uses of a window that began at 1000.
abbrev used_up : List Row
used_up = fresh_row "telegram:@alice" minute 1000 2 ∷ []

-- Four calls within a minute are allowed where the window ends in between.
burst :
    allowed_count
      (fresh_row "telegram:@alice" minute 1000 0 ∷ [])
      two_a_minute
      (60000 ∷ 60500 ∷ 61000 ∷ 61001 ∷ 61002 ∷ [])
    ≡ 4
unfolding limiter
burst = refl

denied : (consume used_up two_a_minute 2000).1 ≡ minute_exceeded
unfolding limiter
denied = refl

first_call : (consume [] two_a_minute 5).1 ≡ allowed
unfolding limiter
first_call = refl

used_up_count : count_of (read_bucket used_up "telegram:@alice" minute) ≤ 2
unfolding limiter
used_up_count = omega arith

allowed_count_minute_example :
    allowed_count used_up two_a_minute (60000 ∷ 61000 ∷ 61001 ∷ []) ≤ 2 * 2
allowed_count_minute_example =
    allowed_count_minute two_a_minute used_up 60000 (60000 ∷ 61000 ∷ 61001 ∷ []) used_up_count
      (omega arith)
