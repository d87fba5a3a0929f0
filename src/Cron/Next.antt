-- ===== src/Cron/Next.antt =====
-- `computeNext` of cron.ts, against the times whose fields match.
use crabbykit.Prelude.{
  ℕ, zero, suc, ◌+◌, ◌-◌, ◌/◌, ◌≤◌, ◌<◌, ◌≡◌, ◌∙◌, ap, subst, Bool, true, false, ◌&&◌, Option, none,
  some, List, arith, inl, inr, Bool-cases, ltb,
}
use crabbykit.Cron.{
  CronFields, DateFields, has, Calendar, get_utc_fields, Step, fires, skip, left_of_day,
  left_of_hour, check_fields, after_step, search, compute_next, max_iterations,
}

-- A time fires where each of its fields is one of the expression's.
abbrev pub matches : CronFields → DateFields → Bool
matches fields f =
    has fields.months f.month
    && (has fields.days_of_month f.day
        && (has fields.days_of_week f.day_of_week
            && (has fields.hours f.hour && has fields.minutes f.minute)))

-- What the search from a time answers, within a number of minutes.
abbrev pub IsNext : CronFields → (ℕ → DateFields) → ℕ → ℕ → Option ℕ → Type 0
IsNext fields get_fields first limit none =
    (t : ℕ) → first ≤ t → t < first + limit → matches fields (get_fields t) ≡ false
IsNext fields get_fields first limit (some t) =
    (first ≤ t)
    × ((matches fields (get_fields t) ≡ true)
        × ((s : ℕ) → first ≤ s → s < t → matches fields (get_fields s) ≡ false))

-- A clock whose days have 24 hours and its hours 60 minutes: a field stays for what is left of its day
-- or hour.
pub record IsSteady (get_fields : ℕ → DateFields) : Type 0 where
  pub minute_bound : (t : ℕ) → (get_fields t).minute ≤ 59
  pub same_month :
      (t k : ℕ) → k < left_of_day (get_fields t) → (get_fields (t + k)).month ≡ (get_fields t).month
  pub same_day :
      (t k : ℕ) → k < left_of_day (get_fields t) → (get_fields (t + k)).day ≡ (get_fields t).day
  pub same_day_of_week :
      (t k : ℕ)
      → k < left_of_day (get_fields t)
      → (get_fields (t + k)).day_of_week ≡ (get_fields t).day_of_week
  pub same_hour :
      (t k : ℕ) → k < left_of_hour (get_fields t) → (get_fields (t + k)).hour ≡ (get_fields t).hour

pub get_utc_fields-IsSteady : (calendar : Calendar) → IsSteady (get_utc_fields calendar)
unfolding get_utc_fields
get_utc_fields-IsSteady calendar = record {
  minute_bound = λ t. omega arith;
  same_month = λ t k h. ap calendar.month (omega arith);
  same_day = λ t k h. ap calendar.day (omega arith);
  same_day_of_week = λ t k h. ap calendar.day_of_week (omega arith);
  same_hour = λ t k h. omega arith;
}

-- What a step promises about a time: it fires, or the minutes that it adds do not.
abbrev StepIsRight : CronFields → (ℕ → DateFields) → ℕ → Step → Type 0
StepIsRight fields get_fields d fires = matches fields (get_fields d) ≡ true
StepIsRight fields get_fields d (skip n) =
    (1 ≤ n) × ((k : ℕ) → k < n → matches fields (get_fields (d + k)) ≡ false)

module _ (fields : CronFields) where
  matches-month : (f : DateFields) → has fields.months f.month ≡ false → matches fields f ≡ false
  matches-month f h = ground (arith, h)

  matches-day : (f : DateFields) → has fields.days_of_month f.day ≡ false → matches fields f ≡ false
  matches-day f h = ground (arith, h)

  matches-day_of_week :
      (f : DateFields) → has fields.days_of_week f.day_of_week ≡ false → matches fields f ≡ false
  matches-day_of_week f h = ground (arith, h)

  matches-hour : (f : DateFields) → has fields.hours f.hour ≡ false → matches fields f ≡ false
  matches-hour f h = ground (arith, h)

  matches-minute : (f : DateFields) → has fields.minutes f.minute ≡ false → matches fields f ≡ false
  matches-minute f h = ground (arith, h)

module _ (fields : CronFields) (get_fields : ℕ → DateFields) (steady : IsSteady get_fields) where
  -- A field that is missed stays missed while it stays.
  stays : (values : List ℕ) (a b : ℕ) → a ≡ b → has values b ≡ false → has values a ≡ false
  stays values a b same missed = ap (λ n. has values n) same ∙ missed

  check_fields_right :
      (d : ℕ) → StepIsRight fields get_fields d (check_fields fields (get_fields d))
  unfolding check_fields
  check_fields_right d =
      let f = get_fields d in
      let low = steady.minute_bound d in
      elim (Bool-cases (has fields.months f.month)) [
        | inr missed ↦ rw missed (
          omega (arith, low),
          λ k h. matches-month fields (get_fields (d + k)) (
              stays fields.months (get_fields (d + k)).month f.month (steady.same_month d k h)
                missed),
        )
        | inl month ↦ elim (Bool-cases (has fields.days_of_month f.day)) [
          | inr missed ↦
              rw (month, missed)
                (
                  omega (arith, low),
                  λ k h. matches-day fields (get_fields (d + k)) (
                      stays fields.days_of_month (get_fields (d + k)).day f.day
                        (steady.same_day d k h) missed),
                )
          | inl day ↦ elim (Bool-cases (has fields.days_of_week f.day_of_week)) [
            | inr missed ↦
                rw (month, day, missed)
                  (
                    omega (arith, low),
                    λ k h. matches-day_of_week fields (get_fields (d + k)) (
                        stays fields.days_of_week (get_fields (d + k)).day_of_week f.day_of_week
                          (steady.same_day_of_week d k h) missed),
                  )
            | inl week ↦ elim (Bool-cases (has fields.hours f.hour)) [
              | inr missed ↦
                  rw (month, day, week, missed)
                    (
                      omega (arith, low),
                      λ k h. matches-hour fields (get_fields (d + k)) (
                          stays fields.hours (get_fields (d + k)).hour f.hour
                            (steady.same_hour d k h) missed),
                    )
              | inl hour ↦ elim (Bool-cases (has fields.minutes f.minute)) [
                | inr missed ↦
                    rw (month, day, week, hour, missed)
                      (
                        omega arith,
                        λ k h.
                            subst (λ t. matches fields (get_fields t) ≡ false) (omega (arith, h))
                              (matches-minute fields f missed),
                      )
                | inl minute ↦
                    rw (month, day, week, hour, minute)
                      (ground (arith, month, day, week, hour, minute))
              ]
            ]
          ]
        ]
      ]

  -- Nothing fires before a later time, and from there on.
  misses :
      (first n s : ℕ)
      → ((k : ℕ) → k < n → matches fields (get_fields (first + k)) ≡ false)
      → first ≤ s
      → (first + n ≤ s → matches fields (get_fields s) ≡ false)
      → matches fields (get_fields s) ≡ false
  misses first n s missed low later = elim (Bool-cases (ltb s (first + n))) [
    | inl early ↦
        subst (λ t. matches fields (get_fields t) ≡ false) (omega (arith, low))
          (missed (s - first) (ground (arith, low, early)))
    | inr late ↦ later (ground (arith, late))
  ]

  -- A search from a later time, where nothing fires until then.
  IsNext-skip :
      (first n left : ℕ) (r : Option ℕ)
      → 1 ≤ n
      → ((k : ℕ) → k < n → matches fields (get_fields (first + k)) ≡ false)
      → IsNext fields get_fields (first + n) left r
      → IsNext fields get_fields first (suc left) r
  IsNext-skip first n left none positive missed h =
      λ t low high. misses first n t missed low (λ late. h t late (omega (arith, positive, high)))
  IsNext-skip first n left (some t) positive missed (low, (fits, least)) = (
    omega (arith, low),
    (fits, λ s from until. misses first n s missed from (λ late. least s late until)),
  )

  after_step-IsNext :
      (left first : ℕ) (step : Step)
      → StepIsRight fields get_fields first step
      → ((from : ℕ) → IsNext fields get_fields from left (search fields get_fields left from))
      → IsNext fields get_fields first
          (suc left)
          (after_step (search fields get_fields left) step first)
  after_step-IsNext left first fires fits ih =
      (omega arith, (fits, λ s low high. absurd (omega (arith, low, high))))
  after_step-IsNext left first (skip n) (positive, missed) ih =
      IsNext-skip first n left (search fields get_fields left (first + n)) positive missed
        (ih (first + n))

  search-IsNext :
      (left first : ℕ) → IsNext fields get_fields first left (search fields get_fields left first)
  unfolding search
  search-IsNext zero first = λ t low high. absurd (omega (arith, low, high))
  search-IsNext (suc left) first =
      after_step-IsNext left first (check_fields fields (get_fields first))
        (check_fields_right first) (λ from. search-IsNext left from)

-- In UTC, the search answers the first minute after the time that it starts from at which every field
-- is one of the expression's; and where it fails, no such minute comes within the number of minutes of
-- 366 days.
pub compute_next-IsNext :
    (calendar : Calendar) (fields : CronFields) (from : ℕ)
    → IsNext fields
        (get_utc_fields calendar)
        (from / 60000 + 1)
        max_iterations
        (compute_next fields from (get_utc_fields calendar))
unfolding compute_next
compute_next-IsNext calendar fields from =
    search-IsNext fields (get_utc_fields calendar) (get_utc_fields-IsSteady calendar) max_iterations
      (from / 60000 + 1)
