-- ===== src/RateLimit/Runs.antt =====
-- How many of the calls of a run are allowed, under one key and one pair of limits, for the
-- limiter of sliding-window.ts.
use crabbykit.Prelude.{
  ℕ, ◌+◌, ◌∙◌, ◌≢◌, ◌*◌, ◌≤◌, ◌<◌, ◌≡◌, ◌⊎◌, inl, inr, Option, none, some, List, [], ◌∷◌, arith,
  All, refl,
}
use Prim.Native.Nat.add
use native.Mathlib.Decide.{dec_le}
use crabbykit.RateLimit.{
  minute, hour, Row, Options, Verdict, allowed, minute_exceeded, hour_exceeded, minute_ms,
  read_bucket, window_start, window_count, consume,
}
use crabbykit.RateLimit.Buckets.{fresh_row, same_bucket-eq, same_bucket_self}
use crabbykit.RateLimit.Laws.{
  Verdict-cases, minute_used, consume-allowed_iff, consume_denied, read-consume,
}

abbrev one_if_allowed : Verdict → ℕ
one_if_allowed allowed = 1
one_if_allowed minute_exceeded = 0
one_if_allowed hour_exceeded = 0

one_if-denied : (v : Verdict) → v ≢ allowed → one_if_allowed v ≡ 0
one_if-denied v h = ground arith

abbrev pub count_of : Option Row → ℕ
count_of none = 0
count_of (some r) = r.count

-- The calls that are allowed in a run at the given times.
unfoldable pub allowed_count : List Row → Options → List ℕ → ℕ
allowed_count t o [] = 0
allowed_count t o (now ∷ times) =
    one_if_allowed (consume t o now).1 + allowed_count (consume t o now).0 o times

-- The stored window lies behind `now`, or there is none.
abbrev HasPassed : Option Row → ℕ → Type 0
HasPassed none now = Unit
HasPassed (some r) now = r.window_start + minute_ms ≤ now

passed-cases :
    (b : Option Row) (now : ℕ)
    → HasPassed b now ⊎ ((r : Row) × (b ≡ some r) × (now < r.window_start + minute_ms))
passed-cases none now = inl tt
passed-cases (some r) now = elim (dec_le (r.window_start + minute_ms) now) [
  | yes p ↦ inl p
  | no p ↦ inr (r, refl, omega arith)
]

before_end :
    (from now : ℕ)
    → (from ≤ now) × (now < from + minute_ms)
    → (times : List ℕ) → All (λ u. (from ≤ u) × (u < from + minute_ms)) times
    → All (λ u. u < now + minute_ms) times
before_end from now w [] h = tt
before_end from now w (u ∷ times) (h, hs) = (omega arith, before_end from now w times hs)

window_start_in :
    (r : Row) (now : ℕ)
    → now < r.window_start + minute_ms
    → window_start (some r) now minute_ms ≡ r.window_start
unfolding window_start
window_start_in r now h = ground arith

window_count_in :
    (r : Row) (now : ℕ)
    → now < r.window_start + minute_ms
    → window_count (some r) (window_start (some r) now minute_ms) ≡ r.count
unfolding window_start window_count
window_count_in r now h = ground arith

window_start_new : (b : Option Row) (now : ℕ) → HasPassed b now → window_start b now minute_ms ≡ now
unfolding window_start
window_start_new none now h = refl
window_start_new (some r) now h = ground arith

window_count_new :
    (b : Option Row) (now : ℕ) → HasPassed b now → window_count b (window_start b now minute_ms) ≡ 0
unfolding window_start window_count
window_count_new none now h = refl
window_count_new (some r) now h = ground arith

module _ (o : Options) where
  -- The minute bucket after an allowed call.
  pub consume_minute :
      (t : List Row) (now : ℕ)
      → (consume t o now).1 ≡ allowed
      → read_bucket (consume t o now).0 o.key minute
        ≡ some (
            fresh_row o.key minute
              (window_start (read_bucket t o.key minute) now minute_ms)
              (minute_used t o.key now + 1))
  consume_minute t now h = ground (
    arith,
    read-consume t o now o.key minute h,
    same_bucket-eq o.key o.key hour minute,
    same_bucket_self o.key minute,
  )

  -- The row that a call which is allowed in the stored row's window leaves, and the room it had.
  in_window :
      (t : List Row) (r : Row) (now : ℕ)
      → read_bucket t o.key minute ≡ some r
      → now < r.window_start + minute_ms
      → (consume t o now).1 ≡ allowed
      → (read_bucket (consume t o now).0 o.key minute
          ≡ some (fresh_row o.key minute r.window_start (r.count + 1)))
        × (r.count < o.per_minute)
  in_window t r now e w h =
      let used : minute_used t o.key now ≡ r.count = rw e (window_count_in r now w) in
      let start : window_start (read_bucket t o.key minute) now minute_ms ≡ r.window_start =
        rw e (window_start_in r now w) in
      (
        consume_minute t now h ∙ rw (used, start),
        omega (arith, ((consume-allowed_iff t o now).0 h).0),
      )

  -- The row that a call which is allowed outside the stored row's window leaves.
  new_window :
      (t : List Row) (now : ℕ)
      → HasPassed (read_bucket t o.key minute) now
      → (consume t o now).1 ≡ allowed
      → (read_bucket (consume t o now).0 o.key minute ≡ some (fresh_row o.key minute now 1))
        × (0 < o.per_minute)
  new_window t now w h =
      let used : minute_used t o.key now ≡ 0 =
        window_count_new (read_bucket t o.key minute) now w in
      let start = window_start_new (read_bucket t o.key minute) now w in
      (
        consume_minute t now h ∙ rw (used, start) (rw add.zero),
        omega (arith, ((consume-allowed_iff t o now).0 h).0),
      )

  -- A run whose times lie before the end of the stored row's window.
  count_in_window :
      (times : List ℕ) (t : List Row) (r : Row)
      → read_bucket t o.key minute ≡ some r
      → r.count ≤ o.per_minute
      → All (λ now. now < r.window_start + minute_ms) times
      → allowed_count t o times + r.count ≤ o.per_minute
  unfolding allowed_count
  count_in_window [] t r e h w = omega arith
  count_in_window (now ∷ times) t r e h (w, ws) = elim (Verdict-cases (consume t o now).1) [
    | inl done ↦
        let (row, room) = in_window t r now e w done in
        let rest = count_in_window times (consume t o now).0 _ row (omega arith) ws in
        rw done (omega arith)
    | inr denied ↦
        let rest = count_in_window times t r e h ws in
        rw (consume_denied t o now denied) (omega (arith, one_if-denied _ denied))
  ]

  -- A run that lasts less than a minute from its first time `from` on, after any earlier calls
  -- under the limit.
  count_in_minute :
      (from : ℕ) (times : List ℕ) (t : List Row)
      → count_of (read_bucket t o.key minute) ≤ o.per_minute
      → All (λ now. (from ≤ now) × (now < from + minute_ms)) times
      → allowed_count t o times + count_of (read_bucket t o.key minute) ≤ 2 * o.per_minute
  unfolding allowed_count
  count_in_minute from [] t h w = omega arith
  count_in_minute from (now ∷ times) t h (w, ws) = elim (Verdict-cases (consume t o now).1) [
    | inl done ↦ elim (passed-cases (read_bucket t o.key minute) now) [
      | inl passed ↦
          let (row, room) = new_window t now passed done in
          let rest =
            count_in_window times (consume t o now).0 _ row room (before_end from now w times ws) in
          rw done (omega arith)
      | inr (r, e, within) ↦
          let (row, room) = in_window t r now e within done in
          let ih =
            count_in_minute from times (consume t o now).0 (rw row (omega (arith, room))) ws in
          let same : count_of (read_bucket t o.key minute) ≡ r.count = rw e in
          rw done (omega (arith, rw row at ih))
    ]
    | inr denied ↦
        let ih = count_in_minute from times t h ws in
        rw (consume_denied t o now denied) (omega (arith, one_if-denied _ denied))
  ]

-- In a run under one key that starts with no bucket for it, at most `per_minute` of the calls
-- within a minute of a time are allowed.
pub allowed_count_fresh :
    (o : Options) (t : List Row) (from : ℕ) (times : List ℕ)
    → read_bucket t o.key minute ≡ none
    → All (λ now. (from ≤ now) × (now < from + minute_ms)) times
    → allowed_count t o times ≤ o.per_minute
unfolding allowed_count
allowed_count_fresh o t from [] e w = omega arith
allowed_count_fresh o t from (now ∷ times) e (w, ws) = elim (Verdict-cases (consume t o now).1) [
  | inl done ↦
      let (row, room) = new_window o t now (rw e tt) done in
      let rest =
        count_in_window o times (consume t o now).0 _ row room (before_end from now w times ws) in
      rw done (omega arith)
  | inr denied ↦
      let ih = allowed_count_fresh o t from times e ws in
      rw (consume_denied t o now denied) (omega (arith, one_if-denied _ denied))
]

-- In a run under one key within a minute of a time, at most `2 * per_minute` calls are allowed,
-- whatever calls under that limit came before.
pub allowed_count_minute :
    (o : Options) (t : List Row) (from : ℕ) (times : List ℕ)
    → count_of (read_bucket t o.key minute) ≤ o.per_minute
    → All (λ now. (from ≤ now) × (now < from + minute_ms)) times
    → allowed_count t o times ≤ 2 * o.per_minute
allowed_count_minute o t from times h w = omega (arith, count_in_minute o from times t h w)

-- The bucket's count never exceeds the limit: what the run theorem assumes of the table is kept.
pub consume_count :
    (o : Options) (t : List Row) (now : ℕ)
    → count_of (read_bucket t o.key minute) ≤ o.per_minute
    → count_of (read_bucket (consume t o now).0 o.key minute) ≤ o.per_minute
consume_count o t now h = elim (Verdict-cases (consume t o now).1) [
  | inl done ↦
      let below = ((consume-allowed_iff t o now).0 done).0 in
      rw (consume_minute o t now done) (omega (arith, below))
  | inr denied ↦ rw (consume_denied t o now denied) h
]
