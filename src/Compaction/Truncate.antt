-- ===== src/Compaction/Truncate.antt =====
-- `truncateToolResult` of compaction.ts. `to_locale` writes a number with the platform's separators.
use crabbykit.Prelude.{
  units, ℕ, zero, suc, ◌+◌, ◌-◌, ◌/◌, ◌≤◌, ◌<◌, ◌≡◌, refl, [], ◌∷◌, ◌++◌, arith, if◌then◌else◌, leb,
  nat_beq, length, true, false, take, drop, length-append,
}
use crabbykit.Compaction.{Text}

-- `s.slice(-n)`, which is the whole text where `n` is 0.
unfoldable slice_last : ℕ → Text → Text
slice_last n s = if nat_beq n 0 then s else drop (length s - n) s

unfoldable pub truncation_marker : (ℕ → Text) → ℕ → ℕ → Text
unfolding units
truncation_marker to_locale size max_chars =
    units "\n\n⚠"
    ++ (65039 ∷ units " [Content truncated — original was ")
    ++ (to_locale size ++ (units " chars, limit is " ++ (to_locale max_chars ++ units "]\n\n")))

-- Where the marker alone exceeds the limit by `over`, the lengths are negative: the one leaves out
-- the last units, the other the first.
unfoldable pub truncate_tool_result : (ℕ → Text) → Text → ℕ → Text
unfolding slice_last truncation_marker
truncate_tool_result to_locale content max_chars =
    let marker = truncation_marker to_locale (length content) max_chars in
    let available = max_chars - length marker in
    let over = length marker - max_chars in
    if leb (length content) max_chars
    then content
    else (if leb (length marker) max_chars
        then take (available / 2) content
          ++ (marker ++ slice_last (available - available / 2) content)
        else take (length content - (over + 1) / 2) content ++ (marker ++ drop (over / 2) content))

length-take : (n : ℕ) (s : Text) → n ≤ length s → length (take n s) ≡ n
length-take zero s h = refl
length-take (suc n) [] h = absurd (omega (arith, h))
length-take (suc n) (u ∷ s) h = omega (arith, length-take n s (omega (arith, h)))

length-drop : (n : ℕ) (s : Text) → n ≤ length s → length (drop n s) ≡ length s - n
length-drop zero s h = omega arith
length-drop (suc n) [] h = absurd (omega (arith, h))
length-drop (suc n) (u ∷ s) h = omega (arith, length-drop n s (omega (arith, h)))

length-slice_last : (n : ℕ) (s : Text) → 1 ≤ n → n ≤ length s → length (slice_last n s) ≡ n
unfolding slice_last
length-slice_last n s low high =
    ground (arith, low, high, length-drop (length s - n) s (omega arith))

-- A content that exceeds the limit is truncated to exactly the limit, where the marker is shorter
-- than the limit.
pub truncate_tool_result-length :
    (to_locale : ℕ → Text) (content : Text) (max_chars : ℕ)
    → max_chars < length content
    → length (truncation_marker to_locale (length content) max_chars) < max_chars
    → length (truncate_tool_result to_locale content max_chars) ≡ max_chars
unfolding truncate_tool_result
truncate_tool_result-length to_locale content max_chars long room =
    let marker = truncation_marker to_locale (length content) max_chars in
    let p = (max_chars - length marker) / 2 in
    let s = max_chars - length marker - p in
    let cut : leb (length content) max_chars ≡ false = ground (arith, long) in
    let fits : leb (length marker) max_chars ≡ true = ground (arith, room) in
    rw (cut, fits)
      (omega (
        arith,
        length-append (take p content) (marker ++ slice_last s content),
        length-append marker (slice_last s content),
        length-take p content (omega (arith, long)),
        length-slice_last s content (omega (arith, room)) (omega (arith, long)),
        room,
      ))
