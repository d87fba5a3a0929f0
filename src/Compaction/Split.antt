-- ===== src/Compaction/Split.antt =====
-- The chunks of `splitByTokenShare` in compaction.ts.
use mathlib.Core.List.{concat-ne-nil, append-nil, append_assoc}
use crabbykit.Prelude.{
  ℕ, ◌+◌, ◌≤◌, ◌*◌, ◌≡◌, ◌≢◌, refl, sym, ◌∙◌, ap, false, ◌&&◌, List, [], ◌∷◌, ◌++◌, arith, inl, inr,
  Bool-cases, leb, ltb, length, In,
}
use crabbykit.Compaction.{
  Message, estimate_tokens, estimate_messages_tokens, last_chunk, split_loop, split_by_token_share,
}

abbrev pub concat_all : List (List Message) → List Message
concat_all [] = []
concat_all (c ∷ chunks) = c ++ concat_all chunks

concat_all-last : (chunk : List Message) → concat_all (last_chunk chunk) ≡ chunk
concat_all-last [] = refl
concat_all-last (m ∷ chunk) = append-nil (m ∷ chunk)

concat_all-split_loop :
    (total num pushed : ℕ) (chunk : List Message) (tokens : ℕ) (messages : List Message)
    → concat_all (split_loop total num pushed chunk tokens messages) ≡ chunk ++ messages
unfolding split_loop
concat_all-split_loop total num pushed chunk tokens [] =
    concat_all-last chunk ∙ sym (append-nil chunk)
concat_all-split_loop total num pushed chunk tokens (m ∷ messages) =
    elim (Bool-cases (leb total ((tokens + estimate_tokens m) * num) && ltb (pushed + 1) num)) [
      | inl push ↦ rw push (
          ap (λ rest. (chunk ++ m ∷ []) ++ rest)
            (concat_all-split_loop total num (pushed + 1) [] 0 messages)
          ∙ append_assoc chunk (m ∷ []) messages)
      | inr keep ↦ rw keep (
          concat_all-split_loop total num pushed (chunk ++ m ∷ []) (tokens + estimate_tokens m)
            messages
          ∙ append_assoc chunk (m ∷ []) messages)
    ]

length-last_chunk : (chunk : List Message) → length (last_chunk chunk) ≤ 1
length-last_chunk [] = omega arith
length-last_chunk (m ∷ chunk) = omega arith

length-split_loop :
    (total num pushed : ℕ) (chunk : List Message) (tokens : ℕ) (messages : List Message)
    → pushed + 1 ≤ num
    → length (split_loop total num pushed chunk tokens messages) + pushed ≤ num
unfolding split_loop
length-split_loop total num pushed chunk tokens [] h = omega (arith, length-last_chunk chunk)
length-split_loop total num pushed chunk tokens (m ∷ messages) h =
    elim (Bool-cases (leb total ((tokens + estimate_tokens m) * num) && ltb (pushed + 1) num)) [
      | inl push ↦
          let more : pushed + 1 + 1 ≤ num = ground (arith, push) in
          rw push (omega (arith, length-split_loop total num (pushed + 1) [] 0 messages more))
      | inr keep ↦ rw keep (
          length-split_loop total num pushed (chunk ++ m ∷ []) (tokens + estimate_tokens m) messages
            h)
    ]

-- A chunk is never empty.
split_loop-ne :
    (total num pushed : ℕ) (chunk : List Message) (tokens : ℕ) (messages : List Message)
    (c : List Message)
    → In c (split_loop total num pushed chunk tokens messages)
    → c ≢ []
unfolding split_loop
split_loop-ne total num pushed [] tokens [] c m = absurd m
split_loop-ne total num pushed (d ∷ chunk) tokens [] c (inl same) = λ q. cc (sym same ∙ q)
split_loop-ne total num pushed (d ∷ chunk) tokens [] c (inr m) = absurd m
split_loop-ne total num pushed chunk tokens (d ∷ messages) c m =
    elim (Bool-cases (leb total ((tokens + estimate_tokens d) * num) && ltb (pushed + 1) num)) [
      | inl push ↦ elim (rw (push, split_loop) at m) [
        | inl same ↦ λ q. concat-ne-nil d chunk (sym same ∙ q)
        | inr later ↦ split_loop-ne total num (pushed + 1) [] 0 messages c later
      ]
      | inr keep ↦
          split_loop-ne total num pushed (chunk ++ d ∷ []) (tokens + estimate_tokens d) messages c
            (rw (keep, split_loop) at m)
    ]

-- Where more than one chunk is asked for, the chunks of `splitByTokenShare`, put together, are the
-- messages in their order, there are at most as many as asked for, and none is empty.
pub split_by_token_share-chunks :
    (messages : List Message) (num_chunks : ℕ)
    → 2 ≤ num_chunks
    → (concat_all (split_by_token_share messages num_chunks) ≡ messages)
      × (length (split_by_token_share messages num_chunks) ≤ num_chunks)
      × ((c : List Message) → In c (split_by_token_share messages num_chunks) → c ≢ [])
unfolding split_by_token_share
split_by_token_share-chunks messages num_chunks many =
    let total = estimate_messages_tokens messages in
    let loops : split_by_token_share messages num_chunks
        ≡ split_loop total num_chunks 0 [] 0 messages =
      (let more : leb num_chunks 1 ≡ false = ground (arith, many) in
        rw (more, split_by_token_share) refl) in
    rw loops (
      concat_all-split_loop total num_chunks 0 [] 0 messages,
      omega (arith, length-split_loop total num_chunks 0 [] 0 messages (omega arith)),
      split_loop-ne total num_chunks 0 [] 0 messages,
    )
