-- ===== src/Prelude/Texts.antt =====
-- Optional texts as JavaScript tests them, and the order of SQLite's text columns.
use Prim.Native.Nat.{ℕ, zero, suc, Ordering}
use Prim.Native.String
use Prim.Native.String.{String, compare}
use mathlib.Core.Bool.{Bool, true, false}
use mathlib.Core.Path.{◌≡◌}
use mathlib.Core.Logic.{inl, inr}
use mathlib.Core.Option.{Option, none, some}
use mathlib.Core.List.{List, [], ◌∷◌}
use crabbykit.Prelude.Tests.{if◌then◌else◌, Bool-cases}
use crabbykit.Prelude.Equality.{◌==◌, string_eq}

-- `x ? … : …` on an optional text: the empty text counts as absent.
abbrev pub truthy : Option String → Option String
truthy none = none
truthy (some s) = if s == "" then none else some s

-- Texts compare as BINARY does, code point by code point.
abbrev pub text_le : String → String → Bool
text_le a b = elim (compare a b) [ Ordering.gt ↦ false | _ ↦ true ]

-- `Array.prototype.join`
abbrev pub join : String → List String → String
join sep [] = ""
join sep (s ∷ []) = s
join sep (s ∷ r ∷ more) = String.◌++◌ s (String.◌++◌ sep (join sep (r ∷ more)))

-- `s.slice(0, n)`
unfoldable pub slice : ℕ → String → String
slice zero s = ""
slice (suc n) String.[] = ""
slice (suc n) (String.◌∷◌ c s) = String.◌∷◌ c (slice n s)

-- A text that counts is the one that is there.
pub truthy-some : (active : Option String) (v : String) → truthy active ≡ some v → active ≡ some v
truthy-some none v h = absurd (cc h)
truthy-some (some s) v h = elim (Bool-cases (s == "")) [
  | inl empty ↦ absurd (cc (rw empty at h))
  | inr nonempty ↦ rw nonempty at h
]
