-- ===== src/Prelude/TextOrder.antt =====
-- The order of SQLite's text columns: totality and transitivity.
use Prim.Native.Nat.{Ordering, ℕ, zero, suc, ◌<◌, compare as compare_ℕ}
use Prim.Native.Nat.compare as compare_ℕ
use Prim.Native.String.compare
use Prim.Native.String.{String, [], ◌∷◌, compare, then}
use Prim.Native.Char.{Char, code}
use mathlib.Core.Path.{◌≡◌, refl, sym, ◌∙◌, ap}
use mathlib.Core.Logic.{◌⊎◌, inl, inr, ◌↔◌}
use mathlib.Core.Bool.{Bool, true, false}
use native.Mathlib.Omega.{arith, compare-lt, compare-eq, compare-gt}
use crabbykit.Prelude.Texts.{text_le}

abbrev le_by : Ordering → Bool
le_by Ordering.gt = false
le_by _ = true

abbrev IsOne : Ordering → Type 0
IsOne o = (o ≡ Ordering.lt) ⊎ ((o ≡ Ordering.eq) ⊎ (o ≡ Ordering.gt))

ordering_cases : (o : Ordering) → IsOne o
ordering_cases Ordering.lt = inl refl
ordering_cases Ordering.eq = inr (inl refl)
ordering_cases Ordering.gt = inr (inr refl)

text_le-le_by : (a b : String) → text_le a b ≡ le_by (compare a b)
text_le-le_by a b = refl

compare_self : (n : ℕ) → compare_ℕ n n ≡ Ordering.eq
compare_self zero = compare_ℕ.zero-zero
compare_self (suc n) = compare_ℕ.suc-suc n n ∙ compare_self n

compare_less : (m n : ℕ) → m < n → compare_ℕ m n ≡ Ordering.lt
compare_less m n h = elim (ordering_cases (compare_ℕ m n)) [
  | inl lt ↦ lt
  | inr (inl eq) ↦ absurd (omega (arith, compare-eq m n eq))
  | inr (inr gt) ↦ absurd (omega (arith, compare-gt m n gt))
]

-- Texts compare by their first characters, and by the rest where these are the same.
text_le-cons_iff :
    (c d : Char) (s t : String)
    → (text_le (c ∷ s) (d ∷ t) ≡ true)
      ↔ ((code c < code d) ⊎ ((code c ≡ code d) × (text_le s t ≡ true)))
text_le-cons_iff c d s t =
    let head : text_le (c ∷ s) (d ∷ t) ≡ le_by (then (compare_ℕ (code c) (code d)) (compare s t)) =
      ap le_by (compare.cons-cons c d s t) in
    elim (ordering_cases (compare_ℕ (code c) (code d))) [
      | inl lt ↦ (λ h. inl (compare-lt (code c) (code d) lt), λ h. head ∙ rw lt refl)
      | inr (inl eq) ↦
          let rest : text_le (c ∷ s) (d ∷ t) ≡ text_le s t = head ∙ rw eq refl in
          let same = compare-eq (code c) (code d) eq in ground (arith, rest, same)
      | inr (inr gt) ↦
          let fails : text_le (c ∷ s) (d ∷ t) ≡ false = head ∙ rw gt refl in
          let more = compare-gt (code c) (code d) gt in ground (arith, fails, more)
    ]

pub text_le_total : (a b : String) → text_le a b ≡ false → text_le b a ≡ true
text_le_total [] [] h = ap le_by compare.nil-nil
text_le_total [] (d ∷ t) h = absurd (cc (sym h ∙ ap le_by (compare.nil-cons d t)))
text_le_total (c ∷ s) [] h = ap le_by (compare.nil-cons c s)
text_le_total (c ∷ s) (d ∷ t) h =
    ground (arith, h, text_le-cons_iff c d s t, text_le-cons_iff d c t s, text_le_total s t)

pub text_le_trans : (a b c : String) → text_le a b ≡ true → text_le b c ≡ true → text_le a c ≡ true
text_le_trans [] b [] h k = ap le_by compare.nil-nil
text_le_trans [] b (e ∷ u) h k = ap le_by (compare.nil-cons e u)
text_le_trans (c ∷ s) [] u h k = absurd (cc (sym h ∙ ap le_by (compare.cons-nil c s)))
text_le_trans (c ∷ s) (d ∷ t) [] h k = absurd (cc (sym k ∙ ap le_by (compare.cons-nil d t)))
text_le_trans (c ∷ s) (d ∷ t) (e ∷ u) h k = ground (
  arith,
  h,
  k,
  text_le-cons_iff c d s t,
  text_le-cons_iff d e t u,
  text_le-cons_iff c e s u,
  text_le_trans s t u,
)
