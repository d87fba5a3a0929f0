-- ===== src/Compaction/Stages/Covered.antt =====
-- What `compactSession` of compaction.ts gives to its summarizer.
use crabbykit.Prelude.{◌≤◌, ◌≡◌, Bool, false, Option, some, List, [], ◌∷◌, ◌++◌, length}
use crabbykit.Compaction.{Text, Message}
use crabbykit.Compaction.Split.{concat_all}
use crabbykit.Compaction.Stages.{Summarize}

-- The lists that a summarizer was given are these messages in pieces, and at most one list more.
pub record IsCovered (messages : List Message) (given : List (List Message)) : Type 0 where
  pub pieces : List (List Message)
  pub merges : List (List Message)
  pub in_order : given ≡ pieces ++ merges
  pub together : concat_all pieces ≡ messages
  pub one_merge : length merges ≤ 1

module _ (answer : List Message → Option Text → Text) where
  -- A summarizer that answers, and keeps what it is given.
  abbrev pub recording : Summarize (List (List Message))
  recording messages previous given = (some (answer messages previous), given ++ messages ∷ [])

  abbrev pub never : List (List Message) → Bool
  never given = false

  abbrev summaries_of : List (List Message) → Option Text → List Text
  summaries_of [] previous = []
  summaries_of (chunk ∷ chunks) previous =
      answer chunk previous ∷ summaries_of chunks (some (answer chunk previous))
