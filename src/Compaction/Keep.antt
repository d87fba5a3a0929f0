-- ===== src/Compaction/Keep.antt =====
-- `emergencyTruncate` and `findCutPoint` of compaction.ts, the loops from the last message back.
use mathlib.Core.List.{append-nil, append_assoc, reverse-reverse, reverse-cons}
use crabbykit.Prelude.{
  ℕ, ◌+◌, ◌≤◌, ◌<◌, ◌/◌, ◌≡◌, ◌⊎◌, refl, sym, ◌∙◌, ap, subst, length-append, Option, some, none,
  List, [], ◌∷◌, ◌++◌, arith, inl, inr, Bool-cases, leb, ltb, nat_beq, length, reverse,
}
use crabbykit.Compaction.{
  Message, estimate_tokens, estimate_messages_tokens, Cut, cut_from, find_cut_point, keep_recent,
  truncation_notice, emergency_truncate,
}

-- Nothing is dropped, or the last message dropped would not fit.
abbrev pub IsMaximal : ℕ → List Message → List Message → Type 0
IsMaximal budget dropped kept =
    (dropped ≡ [])
    ⊎ ((front : List Message) × (m : Message) × (dropped ≡ front ++ m ∷ [])
        × (budget < estimate_tokens m + estimate_messages_tokens kept))

abbrev pub IsKept : ℕ → List Message → List Message → Type 0
IsKept budget messages kept =
    (dropped : List Message) × (messages ≡ dropped ++ kept)
    × (estimate_messages_tokens kept ≤ budget)
    × IsMaximal budget dropped kept

keep_recent-IsKept :
    (budget tokens : ℕ) (newest_first result : List Message)
    → tokens ≡ estimate_messages_tokens result
    → tokens ≤ budget
    → IsKept budget (reverse newest_first ++ result) (keep_recent budget tokens newest_first result)
unfolding keep_recent estimate_messages_tokens
keep_recent-IsKept budget tokens [] result same fits = ([], refl, omega arith, inl refl)
keep_recent-IsKept budget tokens (m ∷ older) result same fits =
    elim (Bool-cases (ltb budget (tokens + estimate_tokens m))) [
      | inl over ↦
          let more : budget < tokens + estimate_tokens m = ground (arith, over) in
          rw over (
            reverse (m ∷ older),
            refl,
            omega arith,
            inr (reverse older, m, reverse-cons m older, omega arith),
          )
      | inr ok ↦
          let below : tokens + estimate_tokens m ≤ budget = ground (arith, ok) in
          let (dropped, parts, in_budget, maximal) =
            keep_recent-IsKept budget (tokens + estimate_tokens m) older (m ∷ result) (omega arith)
              below in
          rw ok (
            dropped,
            ap (λ xs. xs ++ result) (reverse-cons m older)
                ∙ append_assoc (reverse older) (m ∷ []) result
                ∙ parts,
            in_budget,
            maximal,
          )
    ]

-- `emergencyTruncate` answers its notice and then the longest run of the last messages whose
-- estimates sum to at most half of the context window.
pub emergency_truncate-IsKept :
    (ms_now : ℕ) (messages : List Message) (context_window_tokens : ℕ)
    → (kept : List Message) × (emergency_truncate ms_now messages context_window_tokens
        ≡ truncation_notice ms_now ∷ kept)
      × IsKept (context_window_tokens / 2) messages kept
unfolding emergency_truncate estimate_messages_tokens
emergency_truncate-IsKept ms_now messages w = (
  keep_recent (w / 2) 0 (reverse messages) [],
  refl,
  subst (λ xs. IsKept (w / 2) xs (keep_recent (w / 2) 0 (reverse messages) []))
      (append-nil (reverse (reverse messages)) ∙ reverse-reverse messages)
      (keep_recent-IsKept (w / 2) 0 (reverse messages) [] refl (omega arith)),
)

-- The cut of the messages: it is inside them, the kept part reaches the tokens asked for, and
-- without its first message it would not.
abbrev pub IsCut : ℕ → List Message → Cut → Type 0
IsCut keep messages c =
    (before : List Message) × (m : Message) × (after : List Message) × (messages
      ≡ before ++ m ∷ after)
    × (c.cut_index ≡ length before)
    × (0 < c.cut_index)
    × (c.recent_tokens ≡ estimate_messages_tokens (m ∷ after))
    × (keep ≤ c.recent_tokens)
    × (estimate_messages_tokens after < keep)

-- Without a cut, all the messages are below the tokens asked for, or all but the first are.
abbrev pub IsResult : ℕ → List Message → Option Cut → Type 0
IsResult keep messages none =
    (estimate_messages_tokens messages < keep)
    ⊎ ((m : Message) × (after : List Message) × (messages ≡ m ∷ after)
        × (estimate_messages_tokens after < keep))
IsResult keep messages (some c) = IsCut keep messages c

length-reverse : (xs : List Message) → length (reverse xs) ≡ length xs
length-reverse [] = refl
length-reverse (m ∷ xs) =
    ap length (reverse-cons m xs)
    ∙ omega (arith, length-append (reverse xs) (m ∷ []), length-reverse xs)

empty_of_length : (xs : List Message) → length xs ≡ 0 → xs ≡ []
empty_of_length [] h = refl
empty_of_length (m ∷ xs) h = absurd (omega arith)

cut_from-IsResult :
    (keep accumulated : ℕ) (newest_first after : List Message)
    → accumulated ≡ estimate_messages_tokens after
    → accumulated < keep
    → IsResult keep (reverse newest_first ++ after) (cut_from keep accumulated newest_first)
unfolding cut_from estimate_messages_tokens
cut_from-IsResult keep accumulated [] after same below = inl (omega arith)
cut_from-IsResult keep accumulated (m ∷ older) after same below =
    let parts : reverse (m ∷ older) ++ after ≡ reverse older ++ (m ∷ after) =
      ap (λ xs. xs ++ after) (reverse-cons m older) ∙ append_assoc (reverse older) (m ∷ []) after in
    elim (Bool-cases (leb keep (accumulated + estimate_tokens m))) [
      | inl reached ↦ elim (Bool-cases (nat_beq (length older) 0)) [
        | inl first ↦
            let none_older : older ≡ [] = empty_of_length older (ground (arith, first)) in
            rw (reached, first)
              (inr (m, after, parts ∙ ap (λ xs. reverse xs ++ (m ∷ after)) none_older, omega arith))
        | inr inside ↦
            let some_older : 0 < length older = ground (arith, inside) in
            let enough : keep ≤ accumulated + estimate_tokens m = ground (arith, reached) in
            rw (reached, inside)
              (
                reverse older,
                m,
                after,
                parts,
                sym (length-reverse older),
                some_older,
                omega arith,
                enough,
                omega arith,
              )
      ]
      | inr short ↦
          let less : accumulated + estimate_tokens m < keep = ground (arith, short) in
          rw short (
            subst (λ xs. IsResult keep xs (cut_from keep (accumulated + estimate_tokens m) older))
              (sym parts)
              (cut_from-IsResult keep (accumulated + estimate_tokens m) older (m ∷ after)
                (omega arith) less))
    ]

-- Where tokens are to be kept, `findCutPoint` answers the cut behind which the estimates first
-- reach them, counted from the last message, and null where they do not or only do at the first.
pub find_cut_point-IsResult :
    (messages : List Message) (keep : ℕ)
    → 0 < keep
    → IsResult keep messages (find_cut_point messages keep)
unfolding find_cut_point estimate_messages_tokens
find_cut_point-IsResult messages keep some_kept =
    subst (λ xs. IsResult keep xs (cut_from keep 0 (reverse messages)))
      (append-nil (reverse (reverse messages)) ∙ reverse-reverse messages)
      (cut_from-IsResult keep 0 (reverse messages) [] refl some_kept)
