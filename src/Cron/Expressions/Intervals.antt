-- ===== src/Cron/Expressions/Intervals.antt =====
-- `intervalToCron` of cron.ts, against what `parseCron` reads in the expression that it writes.
use crabbykit.Prelude.{
  Units, units, same_units, ℕ, zero, suc, ◌+◌, ◌%◌, filter, ◌≤◌, ◌≡◌, refl, sym, subst, Bool, true,
  false, ◌&&◌, ◌||◌, Option, none, some, List, [], ◌∷◌, ◌++◌, arith, inl, inr, Bool-cases, ltb,
  nat_beq, nat_beq_iff, decimal, if◌then◌else◌,
}
use crabbykit.Cron.{CronFields}
use crabbykit.Cron.Expressions.{
  parse_cron, match_interval, interval_expression, interval_to_cron, ◌>>=◌,
}

-- So many numbers from the first one on.
abbrev pub numbers : ℕ → ℕ → List ℕ
numbers first zero = []
numbers first (suc n) = first ∷ numbers (first + 1) n

-- The multiples of `n` among the first numbers.
abbrev pub multiples : ℕ → ℕ → List ℕ
multiples n bound = filter (λ m. nat_beq (m % n) 0) (numbers 0 bound)

-- At those of the 60 minutes of each hour that are multiples of `n`, or at minute 0 of those of the 24
-- hours of each day that are; on all 31 days, 12 months and 7 weekdays, with Sunday named twice.
unfoldable pub every : ℕ × ℕ → CronFields
every (n, u) = record {
  minutes = if nat_beq u 109 then multiples n 60 else 0 ∷ [];
  hours = if nat_beq u 109 then numbers 0 24 else multiples n 24;
  days_of_month = numbers 1 31;
  months = numbers 1 12;
  days_of_week = numbers 0 7 ++ 0 ∷ [];
}

same_sound : (a b : Units) → same_units a b ≡ true → a ≡ b
same_sound [] [] h = refl
same_sound [] (v ∷ b) h = cc
same_sound (u ∷ a) [] h = cc
same_sound (u ∷ a) (v ∷ b) h =
    let head : u ≡ v = (nat_beq_iff u v).0 (ground (arith, h)) in
    λ i. head i ∷ same_sound a b (ground (arith, h)) i

abbrev same_fields : CronFields → Option CronFields → Bool
same_fields e none = false
same_fields e (some f) =
    same_units f.minutes e.minutes
    && (same_units f.hours e.hours
        && (same_units f.days_of_month e.days_of_month
            && (same_units f.months e.months && same_units f.days_of_week e.days_of_week)))

same_fields_sound : (e : CronFields) (r : Option CronFields) → same_fields e r ≡ true → r ≡ some e
same_fields_sound e none h = cc
same_fields_sound e (some f) h =
    let minutes = same_sound f.minutes e.minutes (ground (arith, h)) in
    let hours = same_sound f.hours e.hours (ground (arith, h)) in
    let days = same_sound f.days_of_month e.days_of_month (ground (arith, h)) in
    let months = same_sound f.months e.months (ground (arith, h)) in
    let weekdays = same_sound f.days_of_week e.days_of_week (ground (arith, h)) in
    λ i. some (record {
      minutes = minutes i;
      hours = hours i;
      days_of_month = days i;
      months = months i;
      days_of_week = weekdays i;
    })

-- A test that holds of each number from 1 up to a bound.
abbrev all_up_to : ℕ → (ℕ → Bool) → Bool
all_up_to zero p = true
all_up_to (suc n) p = p (suc n) && all_up_to n p

all_up_to-true :
    (n : ℕ) (p : ℕ → Bool) → all_up_to n p ≡ true → (k : ℕ) → 1 ≤ k → k ≤ n → p k ≡ true
all_up_to-true zero p h k low high = absurd (omega (arith, low, high))
all_up_to-true (suc n) p h k low high = elim (Bool-cases (nat_beq k (suc n))) [
  | inl last ↦ subst (λ j. p j ≡ true) (sym ((nat_beq_iff k (suc n)).0 last)) (ground (arith, h))
  | inr before ↦ all_up_to-true n p (ground (arith, h)) k low (ground (arith, before, high))
]

abbrev minutes_text : ℕ → Units
unfolding units decimal
minutes_text n = units "*/" ++ (units (decimal n) ++ units " * * * *")

abbrev hours_text : ℕ → Units
unfolding units decimal
hours_text n = units "0 */" ++ (units (decimal n) ++ units " * * *")

minutes_parse :
    all_up_to 59 (λ n. same_fields (every (n, 109)) (parse_cron (minutes_text n))) ≡ true
unfolding parse_cron every minutes_text
minutes_parse = refl

hours_parse : all_up_to 23 (λ n. same_fields (every (n, 104)) (parse_cron (hours_text n))) ≡ true
unfolding parse_cron every hours_text
hours_parse = refl

-- `some` is what the two branches of `intervalToCron` write within their bounds.
interval_expression-parse :
    (n u : ℕ)
    → 1 ≤ n
    → n ≤ (if nat_beq u 109 then 59 else 23)
    → (interval_expression (n, u) >>= parse_cron) ≡ some (every (n, u))
unfolding minutes_text hours_text every
interval_expression-parse n u low high = elim (Bool-cases (nat_beq u 109)) [
  | inl is_minutes ↦
      let small : n ≤ 59 = (rw is_minutes at high) in
      let inside : (ltb n 1 || ltb 59 n) ≡ false = ground (arith, low, small) in
      rw (is_minutes, inside)
        (same_fields_sound (every (n, 109)) (parse_cron (minutes_text n)) (
          all_up_to-true 59 (λ k. same_fields (every (k, 109)) (parse_cron (minutes_text k)))
            minutes_parse n low small))
  | inr is_hours ↦
      let small : n ≤ 23 = (rw is_hours at high) in
      let inside : (ltb n 1 || ltb 23 n) ≡ false = ground (arith, low, small) in
      rw (is_hours, inside)
        (same_fields_sound (every (n, 104)) (parse_cron (hours_text n)) (
          all_up_to-true 23 (λ k. same_fields (every (k, 104)) (parse_cron (hours_text k)))
            hours_parse n low small))
]

-- An interval of 1 to 59 minutes, or of 1 to 23 hours, becomes an expression that is parsed, and its
-- fields are the minutes from 0 to 59 that are multiples of the number in every hour, or minute 0 of
-- the hours from 0 to 23 that are; with every day, month and weekday.
pub interval_to_cron-parse :
    (interval : Units) (n u : ℕ)
    → match_interval interval ≡ some (n, u)
    → 1 ≤ n
    → n ≤ (if nat_beq u 109 then 59 else 23)
    → (interval_to_cron interval >>= parse_cron) ≡ some (every (n, u))
unfolding interval_to_cron
interval_to_cron-parse interval n u matched low high =
    rw matched (interval_expression-parse n u low high)
