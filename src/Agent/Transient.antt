-- ===== src/Agent/Transient.antt =====
-- `isTransientError` of agent-loop.ts: its patterns as searches in the code units of a text. Ignoring
-- case, the patterns' letters are ASCII and match no others.
use crabbykit.Prelude.{
  Units, units, ℕ, String, Bool, true, false, not, ◌&&◌, ◌||◌, Option, none, some, [], ◌∷◌,
  if◌then◌else◌, leb, nat_beq, any,
}
use crabbykit.Agent.Names.{to_lower_case}

-- What is left of a text that begins so.
abbrev after : Units → Units → Option Units
after [] s = some s
after (u ∷ p) [] = none
after (u ∷ p) (v ∷ s) = if nat_beq u v then after p s else none

abbrev is_word : ℕ → Bool
is_word u =
    leb 48 u && leb u 57 || (leb 65 u && leb u 90 || (leb 97 u && leb u 122 || nat_beq u 95))

abbrev ends_word : Option Units → Bool
ends_word none = false
ends_word (some []) = true
ends_word (some (u ∷ s)) = not (is_word u)

-- `\bword\b`; the flag says that the unit before is one of a word.
unfoldable pub has_word : Bool → Units → Units → Bool
has_word in_word word [] = false
has_word in_word word (u ∷ s) =
    let later = has_word (is_word u) word s in
    (not in_word && ends_word (after word (u ∷ s))) || later

abbrev begins : Option Units → Bool
begins none = false
begins (some _) = true

unfoldable pub has_text : Units → Units → Bool
has_text p [] = begins (after p [])
has_text p (u ∷ s) = let later = has_text p s in begins (after p (u ∷ s)) || later

-- The units that `.` does not match: the ends of lines.
abbrev is_line_end : ℕ → Bool
is_line_end u = nat_beq u 10 || (nat_beq u 13 || (nat_beq u 8232 || nat_beq u 8233))

-- `.?limit`, from where `rate` ends.
abbrev limit_follows : Option Units → Bool
limit_follows none = false
limit_follows (some []) = false
limit_follows (some (u ∷ s)) =
    begins (after (units "limit") (u ∷ s))
    || (not (is_line_end u) && begins (after (units "limit") s))

unfoldable pub has_rate_limit : Units → Bool
unfolding units
has_rate_limit [] = false
has_rate_limit (u ∷ s) =
    let later = has_rate_limit s in limit_follows (after (units "rate") (u ∷ s)) || later

unfoldable pub is_transient : String → Bool
unfolding has_word has_text has_rate_limit to_lower_case
is_transient message =
    any (λ (word : String). has_word false (units word) (units message))
      ("429" ∷ "500" ∷ "502" ∷ "503" ∷ "529" ∷ [])
    || (any (λ (p : String). has_text (units p) (to_lower_case message))
          ("timeout" ∷ "econnreset" ∷ "econnrefused" ∷ "network" ∷ "overloaded" ∷ [])
        || has_rate_limit (to_lower_case message))
