-- ===== src/Cron/Expressions/Ranges.antt =====
-- The fields that `parseCron` of cron.ts reads, against the ranges of a date.
use crabbykit.Prelude.{
  Units, ℕ, ◌≡◌, subst, false, not, Option, none, some, List, [], ◌∷◌, ◌++◌, arith, inl, inr,
  Bool-cases, any-false, nat_beq, In-append, In-filter, refl,
}
use crabbykit.Cron.{CronFields, has}
use crabbykit.Cron.Parse.{parse_field, normalized, normalize, parse_resolved, names_for}
use crabbykit.Cron.Parse.Bounds.{Within, AllWithin, parse_resolved-AllWithin}
use crabbykit.Cron.Expressions.{words, of_words, fields_of, parse_cron}

pub record IsInRange (fields : CronFields) : Type 0 where
  pub minutes : Within 0 59 fields.minutes
  pub hours : Within 0 23 fields.hours
  pub days_of_month : Within 1 31 fields.days_of_month
  pub months : Within 1 12 fields.months
  pub days_of_week : Within 0 6 fields.days_of_week

abbrev AllInRange : Option CronFields → Type 0
AllInRange none = Unit
AllInRange (some fields) = IsInRange fields

normalize-same :
    (low high : ℕ) (values : Option (List ℕ))
    → nat_beq high 7 ≡ false
    → AllWithin low high values
    → AllWithin low high (normalize high values)
unfolding normalized
normalize-same low high none other h = tt
normalize-same low high (some values) other h = rw other h

-- A week's days are from 0 to 6.
normalized-week : (values : List ℕ) → Within 0 7 values → Within 0 6 (normalized 7 values)
unfolding normalized
normalized-week values h n = elim (Bool-cases (has values 7)) [
  | inl seven ↦ rw seven (λ m.
      let (there, other) = (In-filter (λ v. not (nat_beq v 7)) n (values ++ 0 ∷ [])).0 m in
      elim ((In-append n values (0 ∷ [])).0 there) [
        | inl listed ↦ ground (arith, h n listed, other)
        | inr zero ↦ ground (arith, zero)
      ])
  | inr no_seven ↦
      rw no_seven (λ m. ground (arith, h n m, any-false (λ v. nat_beq v 7) values no_seven n m))
]

normalize-week :
    (values : Option (List ℕ)) → AllWithin 0 7 values → AllWithin 0 6 (normalize 7 values)
normalize-week none h = tt
normalize-week (some values) h = normalized-week values h

parse_field-AllWithin :
    (field : Units) (low high : ℕ)
    → nat_beq high 7 ≡ false
    → AllWithin low high (parse_field field low high)
unfolding parse_field
parse_field-AllWithin field low high other =
    normalize-same low high (parse_resolved low high (names_for high field)) other
      (parse_resolved-AllWithin low high (names_for high field))

parse_week-AllWithin : (field : Units) → AllWithin 0 6 (parse_field field 0 7)
unfolding parse_field
parse_week-AllWithin field =
    normalize-week (parse_resolved 0 7 (names_for 7 field))
      (parse_resolved-AllWithin 0 7 (names_for 7 field))

fields_of-AllInRange :
    (a b c d e : Option (List ℕ))
    → AllWithin 0 59 a
    → AllWithin 0 23 b
    → AllWithin 1 31 c
    → AllWithin 1 12 d
    → AllWithin 0 6 e
    → AllInRange (fields_of a b c d e)
fields_of-AllInRange none b c d e ha hb hc hd he = tt
fields_of-AllInRange (some a) none c d e ha hb hc hd he = tt
fields_of-AllInRange (some a) (some b) none d e ha hb hc hd he = tt
fields_of-AllInRange (some a) (some b) (some c) none e ha hb hc hd he = tt
fields_of-AllInRange (some a) (some b) (some c) (some d) none ha hb hc hd he = tt
fields_of-AllInRange (some a) (some b) (some c) (some d) (some e) ha hb hc hd he = record {
  minutes = ha;
  hours = hb;
  days_of_month = hc;
  months = hd;
  days_of_week = he;
}

of_words-AllInRange : (ws : List Units) → AllInRange (of_words ws)
of_words-AllInRange (a ∷ b ∷ c ∷ d ∷ e ∷ []) =
    fields_of-AllInRange (parse_field a 0 59) (parse_field b 0 23) (parse_field c 1 31)
      (parse_field d 1 12) (parse_field e 0 7) (parse_field-AllWithin a 0 59 refl)
      (parse_field-AllWithin b 0 23 refl) (parse_field-AllWithin c 1 31 refl)
      (parse_field-AllWithin d 1 12 refl) (parse_week-AllWithin e)
of_words-AllInRange [] = tt
of_words-AllInRange (a ∷ []) = tt
of_words-AllInRange (a ∷ b ∷ []) = tt
of_words-AllInRange (a ∷ b ∷ c ∷ []) = tt
of_words-AllInRange (a ∷ b ∷ c ∷ d ∷ []) = tt
of_words-AllInRange (a ∷ b ∷ c ∷ d ∷ e ∷ f ∷ ws) = tt

-- Where an expression is parsed, the values of each field are in the range of that field of a date;
-- days of the week are from 0 to 6.
pub parse_cron-IsInRange :
    (expr : Units) (fields : CronFields) → parse_cron expr ≡ some fields → IsInRange fields
unfolding parse_cron
parse_cron-IsInRange expr fields parsed = subst AllInRange parsed (of_words-AllInRange (words expr))
