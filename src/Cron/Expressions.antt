-- ===== src/Cron/Expressions.antt =====
-- Whole expressions of cron.ts: five fields, or an interval, and the durations.
pub mod Ranges
pub mod Intervals
use crabbykit.Prelude.{
  Units, units, ℕ, zero, suc, ◌+◌, ◌-◌, ◌*◌, String, Bool, true, false, not, ◌&&◌, ◌||◌, Option,
  none, some, List, [], ◌∷◌, ◌++◌, if◌then◌else◌, leb, ltb, nat_beq, is_some, any, decimal,
}
use crabbykit.Cron.{CronFields, DateFields, compute_next}
use crabbykit.Cron.Parse.{digits_from, parse_field, is_digit}

abbrev is_space : ℕ → Bool
is_space u = nat_beq u 32 || leb 9 u && leb u 13

-- `trim().split(/\s+/)`, without the empty piece of an empty text.
unfoldable pub words : Units → List Units
words [] = []
words (u ∷ s) = elim s [
  | [] ↦ if is_space u then [] else (u ∷ []) ∷ []
  | v ∷ t ↦
      if is_space u
      then words s
      else (if is_space v
          then (u ∷ []) ∷ words s
          else elim (words s) [ [] ↦ (u ∷ []) ∷ [] | w ∷ more ↦ (u ∷ w) ∷ more ])
]

infixl 1 ◌>>=◌
abbrev pub ◌>>=◌ : {A : Type 0} → {B : Type 0} → Option A → (A → Option B) → Option B
none >>= f = none
some a >>= f = f a

abbrev pub fields_of :
    Option (List ℕ)
    → Option (List ℕ)
    → Option (List ℕ)
    → Option (List ℕ)
    → Option (List ℕ)
    → Option CronFields
fields_of minutes hours days months weekdays = do
  m ← minutes
  h ← hours
  d ← days
  n ← months
  w ← weekdays
  some (record { minutes = m; hours = h; days_of_month = d; months = n; days_of_week = w })

abbrev pub of_words : List Units → Option CronFields
of_words (a ∷ b ∷ c ∷ d ∷ e ∷ []) =
    fields_of (parse_field a 0 59) (parse_field b 0 23) (parse_field c 1 31) (parse_field d 1 12)
      (parse_field e 0 7)
of_words _ = none

-- `parseCron`
unfoldable pub parse_cron : Units → Option CronFields
unfolding words parse_field
parse_cron expr = of_words (words expr)

-- The units before the last, and the last, of a text that is a number and a unit.
abbrev number_and_unit : ℕ → Bool → Units → Option (ℕ × ℕ)
number_and_unit n started [] = none
number_and_unit n started (u ∷ []) = if started then some (n, u) else none
number_and_unit n started (u ∷ v ∷ s) =
    let rest = number_and_unit (n * 10 + (u - 48)) true (v ∷ s) in if is_digit u then rest else none

abbrev with_unit_in : List ℕ → Option (ℕ × ℕ) → Option (ℕ × ℕ)
with_unit_in allowed none = none
with_unit_in allowed (some (n, u)) = if any (λ v. nat_beq v u) allowed then some (n, u) else none

-- `INTERVAL_PATTERN`, and what it matches; m and h are 109 and 104.
unfoldable pub match_interval : Units → Option (ℕ × ℕ)
match_interval s = with_unit_in (109 ∷ 104 ∷ []) (number_and_unit 0 false s)

-- `intervalToCron` of what the pattern matches.
abbrev pub interval_expression : ℕ × ℕ → Option Units
interval_expression (n, u) =
    if nat_beq u 109
    then (if ltb n 1 || ltb 59 n
        then none
        else some (units "*/" ++ (units (decimal n) ++ units " * * * *")))
    else (if ltb n 1 || ltb 23 n
        then none
        else some (units "0 */" ++ (units (decimal n) ++ units " * * *")))

unfoldable pub interval_to_cron : Units → Option Units
unfolding match_interval units decimal
interval_to_cron s = match_interval s >>= interval_expression

-- The expression that an interval stands for, or the text itself.
abbrev resolved : Units → Option Units
unfolding match_interval
resolved cron = elim (match_interval cron) [ none ↦ some cron | some _ ↦ interval_to_cron cron ]

unfoldable pub next_fire_time : Units → ℕ → (ℕ → DateFields) → Option ℕ
unfolding resolved parse_cron compute_next
next_fire_time cron from get_fields = do
  expr ← resolved cron
  fields ← parse_cron expr
  compute_next fields from get_fields

unfoldable pub validate_cron : Units → Bool
unfolding resolved parse_cron
validate_cron cron = is_some (resolved cron >>= parse_cron)

abbrev duration_ms : ℕ × ℕ → ℕ
duration_ms (n, u) =
    if nat_beq u 109
    then n * 60 * 1000
    else (if nat_beq u 104 then n * 60 * 60 * 1000 else n * 24 * 60 * 60 * 1000)

-- `expiresAtFromDuration`, in milliseconds; d is 100.
unfoldable pub expires_at_from_duration : Units → ℕ → Option ℕ
expires_at_from_duration duration from = do
  d ← with_unit_in (109 ∷ 104 ∷ 100 ∷ []) (number_and_unit 0 false duration)
  some (from + duration_ms d)
