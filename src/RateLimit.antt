-- ===== src/RateLimit.antt =====
-- The rate limiter of packages/runtime/agent-runtime/src/rate-limit/sliding-window.ts: a table of
-- buckets keyed by (bucket_key, window_kind), and `consume`, one synchronous critical section.
-- Times are milliseconds; where the clock went back, `now - window_start` is negative in the source
-- and 0 here, and both are below the window's length.
pub mod Buckets
pub mod Laws
pub mod Runs
mod Tests
use crabbykit.Prelude.{
  ℕ, ◌+◌, ◌-◌, ◌*◌, String, Bool, true, false, ◌&&◌, Option, none, some, List, [], ◌∷◌, ◌++◌, map,
  ◌==◌, string_eq, nat_eq, leb, if◌then◌else◌, is_some, head?, filter,
}

abbrev pub minute_ms : ℕ
minute_ms = 60000

abbrev pub hour_ms : ℕ
hour_ms = 60 * 60000

pub data WindowKind : Type 0 where
  minute hour : WindowKind

abbrev pub same_kind : WindowKind → WindowKind → Bool
same_kind minute minute = true
same_kind hour hour = true
same_kind _ _ = false

-- A row of `rate_limit_buckets`.
pub record Row : Type 0 where
  pub bucket_key : String
  pub window_kind : WindowKind
  pub window_start : ℕ
  pub count : ℕ

pub record Options : Type 0 where
  pub key : String
  pub per_minute : ℕ
  pub per_hour : Option ℕ

pub data Verdict : Type 0 where
  allowed : Verdict
  minute_exceeded hour_exceeded : Verdict

-- WHERE bucket_key = ? AND window_kind = ?
unfoldable pub row_matches : String → WindowKind → Row → Bool
row_matches key kind r = r.bucket_key == key && same_kind r.window_kind kind

unfoldable pub read_bucket : List Row → String → WindowKind → Option Row
read_bucket t key kind = head? (filter (row_matches key kind) t)

update_row : String → WindowKind → ℕ → ℕ → Row → Row
update_row key kind start n r =
    if row_matches key kind r then record r { window_start = start; count = n } else r

unfoldable pub write_bucket : List Row → String → WindowKind → Bool → ℕ → ℕ → List Row
unfolding update_row
write_bucket t key kind row_exists start n =
    if row_exists
    then map (update_row key kind start n) t
    else t ++ record { bucket_key = key; window_kind = kind; window_start = start; count = n } ∷ []

unfoldable pub window_start : Option Row → ℕ → ℕ → ℕ
window_start none now window_ms = now
window_start (some r) now window_ms =
    if leb window_ms (now - r.window_start) then now else r.window_start

-- The count that a row holds for the window that starts at `start`.
unfoldable pub window_count : Option Row → ℕ → ℕ
window_count none start = 0
window_count (some r) start = if r.window_start == start then r.count else 0

write_hour : Option ℕ → List Row → String → Bool → ℕ → ℕ → List Row
write_hour none t key row_exists start n = t
write_hour (some _) t key row_exists start n = write_bucket t key hour row_exists start n

abbrev pub hour_full : Option ℕ → ℕ → Bool
hour_full none n = false
hour_full (some limit) n = leb limit n

unfoldable pub consume : List Row → Options → ℕ → List Row × Verdict
unfolding write_hour
consume t opts now =
    let minute_row = read_bucket t opts.key minute in
    let hour_row = read_bucket t opts.key hour in
    let minute_start = window_start minute_row now minute_ms in
    let minute_count = window_count minute_row minute_start in
    let hour_start = window_start hour_row now hour_ms in
    let hour_count = window_count hour_row hour_start in
    if leb opts.per_minute minute_count
    then (t, minute_exceeded)
    else if hour_full opts.per_hour hour_count
    then (t, hour_exceeded)
    else let t' =
        write_bucket t opts.key minute (is_some minute_row) minute_start (minute_count + 1) in
      (write_hour opts.per_hour t' opts.key (is_some hour_row) hour_start (hour_count + 1), allowed)
