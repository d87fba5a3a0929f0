-- ===== src/Agent/Names.antt =====
-- tool-call-repair.ts: the edit distance, the closest tool name, and the repair of a name's case.
-- Names are read as their code units; only ASCII letters have a lower case here.
pub mod Distance
use Prim.Native.Nat.{min}
use Prim.Native.String
use crabbykit.Prelude.{
  join, Units, units, same_units, ℕ, zero, suc, ◌+◌, ◌/◌, String, Bool, true, false, ◌&&◌, Option,
  none, some, List, [], ◌∷◌, map, if◌then◌else◌, ltb, leb, nat_beq, length, get_or_else,
}
use crabbykit.Agent.{Tool}

abbrev lower : ℕ → ℕ
lower u = if leb 65 u && leb u 90 then u + 32 else u

-- `toLowerCase`
unfoldable pub to_lower_case : String → Units
unfolding units
to_lower_case s = map lower (units s)

-- The cells of a row after its first, from the row above: `left` is the cell to the left, and the
-- row above begins with the cell above it.
unfoldable pub row_cells : ℕ → ℕ → List ℕ → Units → List ℕ
row_cells u left (diagonal ∷ above ∷ row) (v ∷ b) =
    let cell = (if nat_beq u v then diagonal else 1 + min above (min left diagonal)) in
    cell ∷ row_cells u cell (above ∷ row) b
row_cells u left _ _ = []

-- The rows of the table after its first, the last of which is kept.
unfoldable pub last_row : ℕ → List ℕ → Units → Units → List ℕ
unfolding row_cells
last_row i row [] b = row
last_row i row (u ∷ a) b = last_row (i + 1) ((i + 1) ∷ row_cells u (i + 1) row b) a b

abbrev pub first_row : ℕ → Units → List ℕ
first_row j [] = j ∷ []
first_row j (v ∷ b) = j ∷ first_row (j + 1) b

abbrev pub last_cell : ℕ → List ℕ → ℕ
last_cell d [] = d
last_cell d (x ∷ xs) = last_cell x xs

unfoldable pub levenshtein : Units → Units → ℕ
unfolding last_row
levenshtein a b = last_cell 0 (last_row 0 (first_row 0 b) a b)

-- The loop of `findClosestTool`: the best so far, with its distance.
unfoldable pub closest_from : Units → Option (String × ℕ) → List Tool → Option (String × ℕ)
unfolding levenshtein to_lower_case
closest_from name best [] = best
closest_from name none (t ∷ tools) =
    closest_from name (some (t.name, levenshtein name (to_lower_case t.name))) tools
closest_from name (some (closest, d)) (t ∷ tools) =
    let e = levenshtein name (to_lower_case t.name) in
    closest_from name (some (if ltb e d then (t.name, e) else (closest, d))) tools

abbrev close_enough : ℕ → Option (String × ℕ) → Option String
close_enough n none = none
close_enough n (some (closest, d)) =
    if nat_beq (length (units closest)) 0
    then none
    else (if leb d ((n + 1) / 2) then some closest else none)

unfoldable pub find_closest_tool : String → List Tool → Option String
unfolding closest_from units
find_closest_tool name tools =
    close_enough (length (units name)) (closest_from (to_lower_case name) none tools)

unfoldable pub repair_tool_name : String → List Tool → Option Tool
unfolding to_lower_case
repair_tool_name name [] = none
repair_tool_name name (t ∷ tools) =
    let rest = repair_tool_name name tools in
    if same_units (to_lower_case t.name) (to_lower_case name) then some t else rest

abbrev suggestion : Option String → String
suggestion none = ""
suggestion (some closest) = String.◌++◌ " Did you mean '" (String.◌++◌ closest "'?")

unfoldable pub build_tool_not_found_error : String → List Tool → String
unfolding find_closest_tool
build_tool_not_found_error name tools = String.◌++◌ "Tool '" (
    String.◌++◌ name (
      String.◌++◌ "' not found." (
        String.◌++◌ (suggestion (find_closest_tool name tools))
          (String.◌++◌ " Available tools: " (join ", " (map (λ (t : Tool). t.name) tools))))))
