-- ===== src/Compaction/Tests.antt =====
-- Calls of compaction.ts at concrete inputs.
use crabbykit.Prelude.{
  zero, suc, ◌++◌, none, ℕ, ◌≡◌, ◌≢◌, ◌≤◌, refl, some, List, [], ◌∷◌, length, In, arith,
}
use crabbykit.Compaction.{
  Text, estimate_text_tokens, text, Message, estimate_tokens, cut_from, find_cut_point,
  split_by_token_share, truncation_notice, emergency_truncate,
}
use crabbykit.Compaction.Truncate.{
  truncation_marker, truncate_tool_result, truncate_tool_result-length,
}
use crabbykit.Compaction.Stages.{CompactionConfig}
use crabbykit.Compaction.Split.{concat_all, split_by_token_share-chunks}
use crabbykit.Compaction.Keep.{IsKept, IsResult, emergency_truncate-IsKept, find_cut_point-IsResult}

-- "abcdefg"
abbrev letters : Text
letters = 97 ∷ 98 ∷ 99 ∷ 100 ∷ 101 ∷ 102 ∷ 103 ∷ []

abbrev said : ℕ → Message
said at = record { role = "user"; content = text letters; timestamp = at }

abbrev conversation : List Message
conversation = said 1 ∷ said 2 ∷ said 3 ∷ []

seven_letters : estimate_text_tokens letters ≡ 2
unfolding estimate_text_tokens
seven_letters = refl

one_message : estimate_tokens (said 1) ≡ 9
unfolding estimate_tokens estimate_text_tokens
one_message = refl

cut_inside : find_cut_point conversation 10 ≡ some (record { cut_index = 1; recent_tokens = 18 })
unfolding find_cut_point cut_from estimate_tokens estimate_text_tokens
cut_inside = refl

find_cut_point-IsResult_example : IsResult 10 conversation (find_cut_point conversation 10)
find_cut_point-IsResult_example = find_cut_point-IsResult conversation 10 (omega arith)

split_by_token_share-chunks_example :
    (concat_all (split_by_token_share conversation 2) ≡ conversation)
    × (length (split_by_token_share conversation 2) ≤ 2)
    × ((c : List Message) → In c (split_by_token_share conversation 2) → c ≢ [])
split_by_token_share-chunks_example = split_by_token_share-chunks conversation 2 (omega arith)

emergency_truncate-IsKept_example :
    (kept : List Message) × (emergency_truncate 5 conversation 40 ≡ truncation_notice 5 ∷ kept)
    × IsKept 20 conversation kept
emergency_truncate-IsKept_example = emergency_truncate-IsKept 5 conversation 40

-- A window of 30 tokens, of which the conversation takes 27.
abbrev window : CompactionConfig
window = record {
  threshold = record { numerator = 3; denominator = 4 };
  context_window_tokens = 30;
  keep_recent_tokens = 10;
  base_chunk_ratio = none;
  min_chunk_ratio = none;
}

-- Every number is written with one character.
abbrev one_digit : ℕ → Text
one_digit n = 35 ∷ []

abbrev many_letters : ℕ → Text
many_letters zero = []
many_letters (suc n) = letters ++ many_letters n

-- A result of 140 letters, cut to 100.
truncate_tool_result-length_example :
    length (truncate_tool_result one_digit (many_letters 20) 100) ≡ 100
unfolding truncation_marker
truncate_tool_result-length_example =
    truncate_tool_result-length one_digit (many_letters 20) 100 (omega arith) (omega arith)

-- Where the marker is as long as the limit, no length is left, and the whole content follows it.
marker_only : length (truncate_tool_result one_digit (many_letters 20) 61) ≡ 201
unfolding truncate_tool_result
marker_only = refl
