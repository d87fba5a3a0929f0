-- ===== src/RateLimit/Laws.antt =====
-- What one call of `consume` answers and writes, in sliding-window.ts.
use crabbykit.Prelude.{
  ℕ, ◌+◌, ◌<◌, String, ◌≡◌, refl, ◌⊎◌, inl, inr, ◌≢◌, ◌↔◌, false, Option, none, some, List, arith,
  ◌&&◌, string_eq, if◌then◌else◌, is_some,
}
use crabbykit.RateLimit.{
  WindowKind, minute, hour, Row, Options, Verdict, allowed, minute_exceeded, hour_exceeded,
  minute_ms, hour_ms, read_bucket, write_bucket, window_start, window_count, write_hour, consume,
}
use crabbykit.RateLimit.Buckets.{fresh_row, same_bucket, same_bucket-eq, read-write_bucket}

pub Verdict-cases : (v : Verdict) → (v ≡ allowed) ⊎ (v ≢ allowed)
Verdict-cases allowed = inl refl
Verdict-cases minute_exceeded = inr (ground arith)
Verdict-cases hour_exceeded = inr (ground arith)

-- What a key has used of its minute and of its hour, as a call at `now` sees it.
abbrev pub minute_used : List Row → String → ℕ → ℕ
minute_used t key now =
    let r = read_bucket t key minute in window_count r (window_start r now minute_ms)

abbrev pub hour_used : List Row → String → ℕ → ℕ
hour_used t key now = let r = read_bucket t key hour in window_count r (window_start r now hour_ms)

abbrev pub BelowHour : Option ℕ → ℕ → Type 0
BelowHour none n = Unit
BelowHour (some limit) n = n < limit

-- A call is allowed exactly if the key is below its minute limit and, where an hour limit is
-- given, below that.
pub consume-allowed_iff :
    (t : List Row) (o : Options) (now : ℕ)
    → ((consume t o now).1 ≡ allowed)
      ↔ ((minute_used t o.key now < o.per_minute) × BelowHour o.per_hour (hour_used t o.key now))
unfolding consume
consume-allowed_iff t o now = ground arith

-- A call that is not allowed writes nothing.
pub consume_denied :
    (t : List Row) (o : Options) (now : ℕ) → (consume t o now).1 ≢ allowed → (consume t o now).0 ≡ t
unfolding consume
consume_denied t o now h = ground arith

same_bucket_minute_hour : (key : String) → same_bucket key minute key hour ≡ false
unfolding same_bucket
same_bucket_minute_hour key = ground arith

read-write_hour :
    (limit : Option ℕ) (t t' : List Row) (key key' : String) (kind' : WindowKind) (start n : ℕ)
    → read_bucket t key hour ≡ read_bucket t' key hour
    → read_bucket (write_hour limit t' key (is_some (read_bucket t key hour)) start n) key' kind'
      ≡ (if is_some limit && same_bucket key hour key' kind'
          then some (fresh_row key hour start n)
          else read_bucket t' key' kind')
unfolding write_hour
read-write_hour none t t' key key' kind' start n h = refl
read-write_hour (some _) t t' key key' kind' start n h =
    rw h (read-write_bucket key key' hour kind' start n t')

-- What every bucket reads as after an allowed call: the key's minute bucket holds one use more of
-- its window, so does its hour bucket where an hour limit is given, and no other bucket changes.
pub read-consume :
    (t : List Row) (o : Options) (now : ℕ) (key' : String) (kind' : WindowKind)
    → (consume t o now).1 ≡ allowed
    → read_bucket (consume t o now).0 key' kind' ≡ (
        if is_some o.per_hour && same_bucket o.key hour key' kind'
        then some (
            fresh_row o.key hour
              (window_start (read_bucket t o.key hour) now hour_ms)
              (hour_used t o.key now + 1))
        else if same_bucket o.key minute key' kind'
        then some (
            fresh_row o.key minute
              (window_start (read_bucket t o.key minute) now minute_ms)
              (minute_used t o.key now + 1))
        else read_bucket t key' kind')
unfolding consume
read-consume t o now key' kind' h =
    let start = window_start (read_bucket t o.key minute) now minute_ms in
    let n = minute_used t o.key now + 1 in
    let t' = write_bucket t o.key minute (is_some (read_bucket t o.key minute)) start n in
    let reads = λ (k : String) (w : WindowKind). read-write_bucket o.key k minute w start n t in
    let same_hour : read_bucket t o.key hour ≡ read_bucket t' o.key hour =
      ground (arith, reads o.key hour, same_bucket_minute_hour o.key) in
    let hour_start = window_start (read_bucket t o.key hour) now hour_ms in
    ground (
      arith,
      reads key' kind',
      read-write_hour o.per_hour t t' o.key key' kind' hour_start (hour_used t o.key now + 1)
          same_hour,
    )

-- Calls under one key leave every bucket of every other key as it was.
pub consume_other_key :
    (t : List Row) (o : Options) (now : ℕ) (key' : String) (kind' : WindowKind)
    → o.key ≢ key'
    → read_bucket (consume t o now).0 key' kind' ≡ read_bucket t key' kind'
consume_other_key t o now key' kind' other = elim (Verdict-cases (consume t o now).1) [
  | inl done ↦ ground (
    arith,
    read-consume t o now key' kind',
    same_bucket-eq o.key key' minute kind',
    same_bucket-eq o.key key' hour kind',
  )
  | inr denied ↦ rw (consume_denied t o now denied)
]
