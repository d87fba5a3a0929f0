-- ===== src/Cron/Parse.antt =====
-- The expressions of cron.ts: intervals, fields and what they list, on the code units of a text. What
-- throws answers `none`. Of white space, only that of ASCII separates fields.
pub mod Bounds
use crabbykit.Prelude.{
  same_units, Units, units, ℕ, zero, suc, ◌+◌, ◌-◌, ◌*◌, ◌≤◌, String, Bool, true, false, not, ◌&&◌,
  ◌||◌, Option, none, some, List, [], ◌∷◌, ◌++◌, if◌then◌else◌, leb, ltb, nat_beq, any, filter,
  length, decimal,
}
use crabbykit.Cron.{CronFields, has}

-- `split` at one code unit.
unfoldable pub split : ℕ → Units → List Units
split sep [] = [] ∷ []
split sep (u ∷ s) = elim (split sep s) [
  | [] ↦ [] ∷ []
  | piece ∷ more ↦ if nat_beq u sep then [] ∷ piece ∷ more else (u ∷ piece) ∷ more
]

abbrev pub is_digit : ℕ → Bool
is_digit u = leb 48 u && leb u 57

-- The number that the digits at a text's start spell, after what was read before them.
unfoldable pub digits_from : ℕ → Units → ℕ
digits_from n [] = n
digits_from n (u ∷ s) =
    let more = digits_from (n * 10 + (u - 48)) s in if is_digit u then more else n

abbrev starts_with_digit : Units → Bool
starts_with_digit [] = false
starts_with_digit (u ∷ s) = is_digit u

abbrev unsigned : Units → Option ℕ
unsigned s = if starts_with_digit s then some (digits_from 0 s) else none

-- `Number.parseInt` in base ten of a text without white space. `none` is NaN, and a number below 0.
unfoldable pub parse_int : Units → Option ℕ
unfolding digits_from
parse_int [] = none
parse_int (u ∷ s) =
    if nat_beq u 43
    then unsigned s
    else (if nat_beq u 45
        then elim (unsigned s) [ none ↦ none | some n ↦ if nat_beq n 0 then some 0 else none ]
        else unsigned (u ∷ s))

abbrev is_letter : ℕ → Bool
is_letter u = leb 65 u && leb u 90 || leb 97 u && leb u 122

abbrev upper : ℕ → ℕ
upper u = if leb 97 u && leb u 122 then u - 32 else u

abbrev name_of : List (String × ℕ) → Units → Option ℕ
name_of [] name = none
name_of ((key, n) ∷ names) name = if same_units (units key) name then some n else name_of names name

abbrev pub day_names : List (String × ℕ)
day_names =
    ("SUN", 0) ∷ ("MON", 1) ∷ ("TUE", 2) ∷ ("WED", 3) ∷ ("THU", 4) ∷ ("FRI", 5) ∷ ("SAT", 6) ∷ []

abbrev pub month_names : List (String × ℕ)
month_names =
    ("JAN", 1)
    ∷ ("FEB", 2)
    ∷ ("MAR", 3)
    ∷ ("APR", 4)
    ∷ ("MAY", 5)
    ∷ ("JUN", 6)
    ∷ ("JUL", 7)
    ∷ ("AUG", 8)
    ∷ ("SEP", 9)
    ∷ ("OCT", 10)
    ∷ ("NOV", 11)
    ∷ ("DEC", 12)
    ∷ []

-- A name that is found, and what stands after it, or neither.
abbrev with_number : Option ℕ → Option Units → Option Units
with_number none rest = none
with_number (some n) none = none
with_number (some n) (some rest) = some (units (decimal n) ++ rest)

abbrev with_unit : ℕ → Option Units → Option Units
with_unit u none = none
with_unit u (some rest) = some (u ∷ rest)

unfoldable pub resolve_names : List (String × ℕ) → Units → Option Units
unfolding units decimal
resolve_names names (a ∷ b ∷ c ∷ s) =
    let after_name = resolve_names names s in
    let after_unit = resolve_names names (b ∷ c ∷ s) in
    if is_letter a && (is_letter b && is_letter c)
    then with_number (name_of names (upper a ∷ upper b ∷ upper c ∷ [])) after_name
    else with_unit a after_unit
resolve_names names s = some s

-- The loop `for (let i = start; i <= max; i += step)`, on fuel of one more than `max`.
unfoldable pub count_by : ℕ → ℕ → ℕ → ℕ → List ℕ
count_by step zero i max = []
count_by step (suc fuel) i max =
    let rest = count_by step fuel (i + step) max in if leb i max then i ∷ rest else []

unfoldable pub count_from : ℕ → ℕ → ℕ → List ℕ
unfolding count_by
count_from step start max = count_by step (suc max) start max

-- `[a, b] = part.split(…)`; a missing piece does not parse, as the empty one does not.
abbrev pub first_piece : List Units → Units
first_piece [] = []
first_piece (a ∷ more) = a

abbrev pub second_piece : List Units → Units
second_piece (a ∷ b ∷ more) = b
second_piece _ = []

abbrev pub step_values : ℕ → ℕ → Option ℕ → Option ℕ → Option (List ℕ)
step_values min max none start = none
step_values min max (some step) none = none
step_values min max (some step) (some start) =
    if leb step 0
    then none
    else (if ltb start min || ltb max start then none else some (count_from step start max))

abbrev pub range_values : ℕ → ℕ → Option ℕ → Option ℕ → Option (List ℕ)
range_values min max none last = none
range_values min max (some start) none = none
range_values min max (some start) (some last) =
    if ltb start min || (ltb max last || ltb last start)
    then none
    else some (count_from 1 start last)

abbrev pub one_value : ℕ → ℕ → Option ℕ → Option (List ℕ)
one_value min max none = none
one_value min max (some n) = if ltb n min || ltb max n then none else some (n ∷ [])

-- One piece of a list.
unfoldable pub parse_part : ℕ → ℕ → Units → Option (List ℕ)
unfolding count_from split parse_int units
parse_part min max part =
    let range = first_piece (split 47 part) in
    if same_units part (units "*")
    then some (count_from 1 min max)
    else (if has part 47
        then step_values min max (parse_int (second_piece (split 47 part)))
            (if same_units range (units "*") then some min else parse_int range)
        else (if has part 45
            then range_values min max (parse_int (first_piece (split 45 part)))
                (parse_int (second_piece (split 45 part)))
            else one_value min max (parse_int part)))

abbrev pub append_values : Option (List ℕ) → Option (List ℕ) → Option (List ℕ)
append_values none more = none
append_values (some values) none = none
append_values (some values) (some more) = some (values ++ more)

unfoldable pub parse_parts : ℕ → ℕ → List Units → Option (List ℕ)
unfolding parse_part
parse_parts min max [] = some []
parse_parts min max (part ∷ parts) =
    append_values (parse_part min max part) (parse_parts min max parts)

-- 7 is read as 0 in a field whose maximum is 7.
unfoldable pub normalized : ℕ → List ℕ → List ℕ
normalized max values =
    if nat_beq max 7 && has values 7
    then filter (λ n. not (nat_beq n 7)) (values ++ 0 ∷ [])
    else values

abbrev pub names_for : ℕ → Units → Option Units
names_for max field =
    if nat_beq max 7
    then resolve_names day_names field
    else (if nat_beq max 12 then resolve_names month_names field else some field)

abbrev pub parse_resolved : ℕ → ℕ → Option Units → Option (List ℕ)
parse_resolved min max none = none
parse_resolved min max (some field) = parse_parts min max (split 44 field)

abbrev pub normalize : ℕ → Option (List ℕ) → Option (List ℕ)
normalize max none = none
normalize max (some values) = some (normalized max values)

unfoldable pub parse_field : Units → ℕ → ℕ → Option (List ℕ)
unfolding resolve_names split parse_parts normalized
parse_field field min max = normalize max (parse_resolved min max (names_for max field))
