-- ===== src/Compaction.antt =====
-- The compaction of a conversation, packages/runtime/agent-runtime/src/compaction/compaction.ts: the
-- token estimates, the cut point, the chunks and the emergency truncation. A text is the list of its
-- UTF-16 code units. Products and quotients of numbers are exact; the source's doubles round them.
pub mod Split
pub mod Keep
pub mod Stages
pub mod Truncate
mod Tests
use Prim.Native.Nat.{max}
use Prim.Native.String
use crabbykit.Prelude.{
  units, ℕ, zero, suc, ◌+◌, ◌*◌, ◌/◌, String, Bool, true, false, ◌&&◌, ◌||◌, Option, none, some,
  List, [], ◌∷◌, ◌++◌, reverse, if◌then◌else◌, leb, ltb, nat_beq, any, length,
}

abbrev pub Text : Type 0
Text = List ℕ

-- `/[{}[\]();=><|&!~^%]/`
abbrev code_units : Text
code_units = 123 ∷ 125 ∷ 91 ∷ 93 ∷ 40 ∷ 41 ∷ 59 ∷ 61 ∷ 62 ∷ 60 ∷ 124 ∷ 38 ∷ 33 ∷ 126 ∷ 94 ∷ 37 ∷ []

abbrev has_code_indicators : Text → Bool
has_code_indicators t = any (λ u. any (λ c. nat_beq c u) code_units) t

abbrev is_json_like : Text → Bool
is_json_like [] = false
is_json_like (u ∷ _) = nat_beq u 123 || nat_beq u 91

-- `Math.ceil(length / charsPerToken)` at 2.5, 3 and 3.5 characters.
unfoldable pub estimate_text_tokens : Text → ℕ
estimate_text_tokens t =
    if nat_beq (length t) 0
    then 0
    else (if is_json_like t
        then (length t * 2 + 4) / 5
        else (if has_code_indicators t then (length t + 2) / 3 else (length t * 2 + 6) / 7))

-- A block of an array content: a text, or an object with what the estimate reads of it, its text
-- and, of a tool call, the text of its arguments.
pub data Block : Type 0 where
  string : Text → Block
  object : (block_text tool_call : Option Text) → Block
  other : Block

pub data Content : Type 0 where
  text : Text → Content
  blocks : List Block → Content
  opaque : Content

pub record Message : Type 0 where
  pub role : String
  pub content : Content
  pub timestamp : ℕ

abbrev pub message_overhead_tokens : ℕ
message_overhead_tokens = 5

abbrev text_part : Option Text → ℕ
text_part none = 0
text_part (some t) = estimate_text_tokens t

abbrev call_part : Option Text → ℕ
call_part none = 0
call_part (some arguments) = estimate_text_tokens arguments + 5

unfoldable pub block_tokens : Block → ℕ
unfolding estimate_text_tokens
block_tokens (string t) = estimate_text_tokens t
block_tokens (object block_text tool_call) = text_part block_text + call_part tool_call
block_tokens other = 0

unfoldable pub blocks_tokens : List Block → ℕ
unfolding block_tokens
blocks_tokens [] = 0
blocks_tokens (b ∷ bs) = block_tokens b + blocks_tokens bs

abbrev content_tokens : Content → ℕ
content_tokens (text t) = estimate_text_tokens t
content_tokens (blocks bs) = blocks_tokens bs
content_tokens opaque = 0

-- `Math.ceil(tokens * 1.15)`
unfoldable pub estimate_tokens : Message → ℕ
unfolding estimate_text_tokens blocks_tokens
estimate_tokens m = ((message_overhead_tokens + content_tokens m.content) * 115 + 99) / 100

unfoldable pub estimate_messages_tokens : List Message → ℕ
unfolding estimate_tokens
estimate_messages_tokens [] = 0
estimate_messages_tokens (m ∷ messages) = estimate_tokens m + estimate_messages_tokens messages

-- A fraction of the context window.
pub record Ratio : Type 0 where
  pub numerator : ℕ
  pub denominator : ℕ

unfoldable pub should_compact : ℕ → Ratio → ℕ → Bool
should_compact tokens threshold context_window_tokens =
    ltb (threshold.numerator * context_window_tokens) (tokens * threshold.denominator)

pub record Cut : Type 0 where
  pub cut_index : ℕ
  pub recent_tokens : ℕ

-- The loop from the last message back; the messages come newest first, so that the index of the
-- first is the number of those behind it.
unfoldable pub cut_from : ℕ → ℕ → List Message → Option Cut
unfolding estimate_tokens
cut_from keep accumulated [] = none
cut_from keep accumulated (m ∷ older) =
    let rest = cut_from keep (accumulated + estimate_tokens m) older in
    if leb keep (accumulated + estimate_tokens m)
    then (if nat_beq (length older) 0
        then none
        else some
            (record { cut_index = length older; recent_tokens = accumulated + estimate_tokens m }))
    else rest

unfoldable pub find_cut_point : List Message → ℕ → Option Cut
unfolding cut_from
find_cut_point messages keep_recent_tokens = cut_from keep_recent_tokens 0 (reverse messages)

-- `if (currentChunk.length > 0) chunks.push(currentChunk)`
abbrev pub last_chunk : List Message → List (List Message)
last_chunk [] = []
last_chunk (m ∷ chunk) = (m ∷ chunk) ∷ []

-- The loop of `splitByTokenShare` from a state on: the number of chunks pushed, the current chunk
-- and its tokens. It gives the chunks that are still to come.
unfoldable pub split_loop : ℕ → ℕ → ℕ → List Message → ℕ → List Message → List (List Message)
unfolding estimate_tokens
split_loop total num pushed chunk tokens [] = last_chunk chunk
split_loop total num pushed chunk tokens (m ∷ messages) =
    let pushes = (chunk ++ m ∷ []) ∷ split_loop total num (pushed + 1) [] 0 messages in
    let goes_on =
      split_loop total num pushed (chunk ++ m ∷ []) (tokens + estimate_tokens m) messages in
    if leb total ((tokens + estimate_tokens m) * num) && ltb (pushed + 1) num
    then pushes
    else goes_on

unfoldable pub split_by_token_share : List Message → ℕ → List (List Message)
unfolding split_loop estimate_messages_tokens
split_by_token_share messages num_chunks =
    if leb num_chunks 1
    then messages ∷ []
    else split_loop (estimate_messages_tokens messages) num_chunks 0 [] 0 messages

-- The loop of `emergencyTruncate` on the messages newest first.
unfoldable pub keep_recent : ℕ → ℕ → List Message → List Message → List Message
unfolding estimate_tokens
keep_recent budget tokens [] result = result
keep_recent budget tokens (m ∷ older) result =
    let rest = keep_recent budget (tokens + estimate_tokens m) older (m ∷ result) in
    if ltb budget (tokens + estimate_tokens m) then result else rest

unfoldable pub truncation_notice : ℕ → Message
unfolding units
truncation_notice ms_now = record {
  role = "user";
  content = text (
      units
        "[System notice: Earlier conversation context was lost due to context window overflow. The conversation continues from the most recent messages below.]");
  timestamp = ms_now;
}

unfoldable pub emergency_truncate : ℕ → List Message → ℕ → List Message
unfolding keep_recent truncation_notice
emergency_truncate ms_now messages context_window_tokens =
    truncation_notice ms_now ∷ keep_recent (context_window_tokens / 2) 0 (reverse messages) []
