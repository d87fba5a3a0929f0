-- ===== src/Cron/Parse/Bounds.antt =====
-- The values of a field that `parseField` of cron.ts lists, against its bounds.
use crabbykit.Prelude.{
  Units, units, same_units, ℕ, zero, suc, ◌+◌, ◌≤◌, Option, none, some, List, [], ◌∷◌, arith, inl,
  inr, Bool-cases, leb, ltb, In, In-append, on_branches, if◌then◌else◌, ◌||◌,
}
use crabbykit.Cron.{has}
use crabbykit.Cron.Parse.{
  count_by, count_from, step_values, range_values, one_value, split, parse_int, parse_part,
  append_values, parse_parts, parse_resolved, first_piece, second_piece,
}

abbrev pub Within : ℕ → ℕ → List ℕ → Type 0
Within low high values = (n : ℕ) → In n values → (low ≤ n) × (n ≤ high)

-- Where there are values, they are within the bounds.
abbrev pub AllWithin : ℕ → ℕ → Option (List ℕ) → Type 0
AllWithin low high none = Unit
AllWithin low high (some values) = Within low high values

count_by-Within : (step fuel i max : ℕ) → Within i max (count_by step fuel i max)
unfolding count_by
count_by-Within step zero i max n m = absurd m
count_by-Within step (suc fuel) i max n m =
    ground (arith, m, count_by-Within step fuel (i + step) max n)

count_from-Within :
    (step start low max : ℕ) → low ≤ start → Within low max (count_from step start max)
unfolding count_from
count_from-Within step start low max h n m =
    let (a, b) = count_by-Within step (suc max) start max n m in (omega (arith, h, a), b)

step_values-AllWithin :
    (min max : ℕ) (step start : Option ℕ) → AllWithin min max (step_values min max step start)
step_values-AllWithin min max none start = tt
step_values-AllWithin min max (some step) none = tt
step_values-AllWithin min max (some step) (some start) = elim (Bool-cases (leb step 0)) [
  | inl no_step ↦ rw no_step tt
  | inr positive ↦ elim (Bool-cases (ltb start min || ltb max start)) [
    | inl outside ↦ rw (positive, outside) tt
    | inr inside ↦
        rw (positive, inside) (count_from-Within step start min max (ground (arith, inside)))
  ]
]

range_values-AllWithin :
    (min max : ℕ) (start last : Option ℕ) → AllWithin min max (range_values min max start last)
range_values-AllWithin min max none last = tt
range_values-AllWithin min max (some start) none = tt
range_values-AllWithin min max (some start) (some last) =
    elim (Bool-cases (ltb start min || (ltb max last || ltb last start))) [
      | inl outside ↦ rw outside tt
      | inr inside ↦ rw inside (λ n m.
          let (a, b) = count_from-Within 1 start min last (ground (arith, inside)) n m in
          (a, ground (arith, inside, b)))
    ]

one_value-AllWithin : (min max : ℕ) (n : Option ℕ) → AllWithin min max (one_value min max n)
one_value-AllWithin min max none = tt
one_value-AllWithin min max (some n) = elim (Bool-cases (ltb n min || ltb max n)) [
  | inl outside ↦ rw outside tt
  | inr inside ↦ rw inside (λ v m. ground (arith, inside, m))
]

parse_part-AllWithin : (min max : ℕ) (part : Units) → AllWithin min max (parse_part min max part)
unfolding parse_part
parse_part-AllWithin min max part =
    let range = first_piece (split 47 part) in
    on_branches (AllWithin min max) (same_units part (units "*"))
      (count_from-Within 1 min min max (omega arith))
      (on_branches (AllWithin min max) (has part 47)
        (step_values-AllWithin min max (parse_int (second_piece (split 47 part)))
          (if same_units range (units "*") then some min else parse_int range))
        (on_branches (AllWithin min max) (has part 45)
          (range_values-AllWithin min max (parse_int (first_piece (split 45 part)))
            (parse_int (second_piece (split 45 part))))
          (one_value-AllWithin min max (parse_int part))))

append_values-AllWithin :
    (min max : ℕ) (a b : Option (List ℕ))
    → AllWithin min max a
    → AllWithin min max b
    → AllWithin min max (append_values a b)
append_values-AllWithin min max none b h k = tt
append_values-AllWithin min max (some values) none h k = tt
append_values-AllWithin min max (some values) (some more) h k =
    λ n m. elim ((In-append n values more).0 m) [ inl here ↦ h n here | inr there ↦ k n there ]

parse_parts-AllWithin :
    (min max : ℕ) (parts : List Units) → AllWithin min max (parse_parts min max parts)
unfolding parse_parts
parse_parts-AllWithin min max [] = λ n m. absurd m
parse_parts-AllWithin min max (part ∷ parts) =
    append_values-AllWithin min max (parse_part min max part) (parse_parts min max parts)
      (parse_part-AllWithin min max part) (parse_parts-AllWithin min max parts)

pub parse_resolved-AllWithin :
    (min max : ℕ) (field : Option Units) → AllWithin min max (parse_resolved min max field)
parse_resolved-AllWithin min max none = tt
parse_resolved-AllWithin min max (some field) = parse_parts-AllWithin min max (split 44 field)
