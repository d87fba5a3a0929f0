-- ===== src/Compaction/Stages.antt =====
-- `summarizeInStages` and `compactSession` of compaction.ts, over the state `W` of what the summarizer
-- and the abort signal stand on. There is at least one message to summarize.
pub mod Covered
use Prim.Native.Nat.{max}
use crabbykit.Prelude.{
  units, ℕ, zero, suc, ◌+◌, ◌-◌, ◌*◌, ◌/◌, String, Bool, true, false, Option, none, some, List, [],
  ◌∷◌, ◌++◌, if◌then◌else◌, leb, nat_beq, length, take, get_or_else,
}
use crabbykit.Compaction.{
  Text, text, Message, Ratio, Cut, estimate_messages_tokens, should_compact, find_cut_point,
  split_by_token_share,
}

pub record CompactionConfig : Type 0 where
  pub threshold : Ratio
  pub context_window_tokens : ℕ
  pub keep_recent_tokens : ℕ
  pub base_chunk_ratio : Option Ratio
  pub min_chunk_ratio : Option Ratio

pub record CompactionResult : Type 0 where
  pub summary : Text
  pub first_kept_entry_id : Option String
  pub tokens_before : ℕ

abbrev default_base_chunk_ratio : Ratio
default_base_chunk_ratio = record { numerator = 2; denominator = 5 }

abbrev default_min_chunk_ratio : Ratio
default_min_chunk_ratio = record { numerator = 3; denominator = 20 }

-- `Math.floor(contextWindowTokens * chunkRatio)`: the greater of the two shares of the window, of which
-- the one of the base ratio is reduced where twice the tokens exceed the window.
unfoldable pub max_chunk_tokens : CompactionConfig → ℕ → ℕ
max_chunk_tokens config total =
    let base = get_or_else config.base_chunk_ratio default_base_chunk_ratio in
    let low = get_or_else config.min_chunk_ratio default_min_chunk_ratio in
    let window = config.context_window_tokens in
    max (window * low.numerator / low.denominator) (
      if leb (total * 2) window
      then window * base.numerator / base.denominator
      else window * (base.numerator * window) / (base.denominator * (total * 2)))

-- The number of chunks. A division by 0 gives infinity, for which one more than the tokens does as
-- well, since a message has at least 5.
unfoldable pub chunk_count : CompactionConfig → ℕ → ℕ
unfolding max_chunk_tokens
chunk_count config total =
    let size = max_chunk_tokens config total in
    max 1 (if nat_beq size 0 then total + 1 else (total + (size - 1)) / size)

-- `entryIds[i]`
unfoldable pub entry_at : ℕ → List String → Option String
entry_at i [] = none
entry_at zero (id ∷ ids) = some id
entry_at (suc i) (id ∷ ids) = entry_at i ids

-- A summarizer that rejects answers `none`.
abbrev pub Summarize : Type 0 → Type 0
Summarize W = List Message → Option Text → W → Option Text × W

module _ (decimal : ℕ → Text) (ms_now : ℕ) where
  abbrev merge_message : ℕ → ℕ → Text → Message
  merge_message i count s = record {
    role = "user";
    content = text (
        units "[Summary part "
        ++ (decimal i ++ (units "/" ++ (decimal count ++ (units "]\n\n" ++ s)))));
    timestamp = ms_now;
  }

  unfoldable pub merge_messages : ℕ → ℕ → List Text → List Message
  unfolding units
  merge_messages i count [] = []
  merge_messages i count (s ∷ summaries) =
      merge_message (i + 1) count s ∷ merge_messages (i + 1) count summaries

  module _ {W : Type 0} (summarize : Summarize W) (is_aborted : W → Bool) where
    -- The loop over the chunks, from the previous summary; `none` where it throws.
    unfoldable pub summarize_chunks : List (List Message) → Option Text → W → Option (List Text) × W
    summarize_chunks [] previous w = (some [], w)
    summarize_chunks (chunk ∷ chunks) previous w =
        let (summary, w1) = summarize chunk previous w in
        let (more, w2) = summarize_chunks chunks summary w1 in
        if is_aborted w then (none, w) else elim summary [
          | none ↦ (none, w1)
          | some s ↦ (elim more [ none ↦ none | some summaries ↦ some (s ∷ summaries) ], w2)
        ]

    abbrev pub merge : Option (List Text) → W → Option Text × W
    unfolding merge_messages
    merge none w = (none, w)
    merge (some summaries) w = summarize (merge_messages 0 (length summaries) summaries) none w

    abbrev pub stages : List (List Message) → W → Option Text × W
    unfolding summarize_chunks merge_messages
    stages (chunk ∷ []) w = summarize chunk none w
    stages chunks w = let (summaries, w1) = summarize_chunks chunks none w in merge summaries w1

    unfoldable pub summarize_in_stages : List Message → CompactionConfig → W → Option Text × W
    unfolding chunk_count stages
    summarize_in_stages messages config w =
        let total = estimate_messages_tokens messages in
        stages (split_by_token_share messages (chunk_count config total)) w

    -- What `compactSession` answers: that there is nothing to compact, a result, or what it throws.
    unfoldable pub compact_session :
        List Message → List String → CompactionConfig → W → Option (Option CompactionResult) × W
    unfolding summarize_in_stages entry_at
    compact_session messages entry_ids config w =
        let total = estimate_messages_tokens messages in
        if should_compact total config.threshold config.context_window_tokens
        then elim (find_cut_point messages config.keep_recent_tokens) [
          | none ↦ (some none, w)
          | some cut ↦
              let (summary, w1) = summarize_in_stages (take cut.cut_index messages) config w in
              (
                elim summary [
                  | none ↦ none
                  | some s ↦ some (
                      some (record {
                        summary = s;
                        first_kept_entry_id = entry_at cut.cut_index entry_ids;
                        tokens_before = total;
                      }))
                ],
                w1,
              )
        ]
        else (some none, w)
