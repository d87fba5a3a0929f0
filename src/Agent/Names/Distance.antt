-- ===== src/Agent/Names/Distance.antt =====
-- `levenshtein` of tool-call-repair.ts, against the edits that turn one text into another.
use Prim.Native.Nat.{min}
use crabbykit.Prelude.{
  Units, nat_beq_iff, ℕ, suc, ◌+◌, ◌≤◌, ◌≡◌, refl, sym, ◌∙◌, ap, subst, List, [], ◌∷◌, arith, inl,
  inr, Bool-cases, if◌then◌else◌, nat_beq, length,
}
use crabbykit.Agent.Names.{row_cells, last_row, first_row, last_cell, levenshtein}

-- The distance by recursion on the ends of the texts, which come first here.
unfoldable distance : Units → Units → ℕ
distance [] b = length b
distance (u ∷ a) [] = suc (length a)
distance (u ∷ a) (v ∷ b) =
    let above = distance a (v ∷ b) in
    let left = distance (u ∷ a) b in
    let diagonal = distance a b in
    if nat_beq u v then diagonal else 1 + min above (min left diagonal)

-- The rows of the table hold these distances: from a prefix of `b`, and the longer ones.
unfoldable more_cells : Units → Units → Units → List ℕ
unfolding distance
more_cells a p [] = []
more_cells a p (v ∷ b) = distance a (v ∷ p) ∷ more_cells a (v ∷ p) b

row_cells-distance :
    (u : ℕ) (a p b : Units)
    → row_cells u (distance (u ∷ a) p) (distance a p ∷ more_cells a p b) b ≡ more_cells (u ∷ a) p b
unfolding row_cells more_cells distance
row_cells-distance u a p [] = refl
row_cells-distance u a p (v ∷ b) =
    ap (λ xs. distance (u ∷ a) (v ∷ p) ∷ xs) (row_cells-distance u a (v ∷ p) b)

-- `a` turned round, and put before `p`.
unfoldable onto : Units → Units → Units
onto p [] = p
onto p (u ∷ a) = onto (u ∷ p) a

one_more : (n : ℕ) → n + 1 ≡ suc n
one_more n = omega arith

first_row-distance : (p b : Units) → first_row (length p) b ≡ distance [] p ∷ more_cells [] p b
unfolding more_cells distance
first_row-distance p [] = refl
first_row-distance p (v ∷ b) =
    ap (λ xs. length p ∷ xs)
      (ap (λ n. first_row n b) (one_more (length p)) ∙ first_row-distance (v ∷ p) b)

distance-none : (a : Units) → distance a [] ≡ length a
unfolding distance
distance-none [] = refl
distance-none (u ∷ a) = refl

last_row-distance :
    (a p b : Units)
    → last_row (length p) (distance p [] ∷ more_cells p [] b) a b
      ≡ distance (onto p a) [] ∷ more_cells (onto p a) [] b
unfolding last_row onto distance
last_row-distance [] p b = refl
last_row-distance (u ∷ a) p b =
    ap (λ n. last_row n (n ∷ row_cells u n (distance p [] ∷ more_cells p [] b) b) a b)
      (one_more (length p))
    ∙ ap (λ xs. last_row (suc (length p)) (suc (length p) ∷ xs) a b) (row_cells-distance u p [] b)
    ∙ last_row-distance a (u ∷ p) b

last_cell-distance :
    (d : ℕ) (a p b : Units) → last_cell d (distance a p ∷ more_cells a p b) ≡ distance a (onto p b)
unfolding more_cells onto
last_cell-distance d a p [] = refl
last_cell-distance d a p (v ∷ b) = last_cell-distance (distance a p) a (v ∷ p) b

-- The table's last cell is the distance by recursion.
levenshtein-distance : (a b : Units) → levenshtein a b ≡ distance (onto [] a) (onto [] b)
unfolding levenshtein
levenshtein-distance a b =
    ap (λ row. last_cell 0 (last_row 0 row a b)) (first_row-distance [] b)
    ∙ ap (λ row. last_cell 0 row) (last_row-distance a [] b)
    ∙ last_cell-distance 0 (onto [] a) [] b

-- `n` edits turn the first text into the second: a unit is removed, put in or replaced.
pub data Edits : Units → Units → ℕ → Type 0 where
  none : Edits [] [] 0
  keep : {a b : Units} {n : ℕ} → (u : ℕ) → Edits a b n → Edits (u ∷ a) (u ∷ b) n
  remove : {a b : Units} {n : ℕ} → (u : ℕ) → Edits a b n → Edits (u ∷ a) b (suc n)
  put : {a b : Units} {n : ℕ} → (v : ℕ) → Edits a b n → Edits a (v ∷ b) (suc n)
  replace : {a b : Units} {n : ℕ} → (u v : ℕ) → Edits a b n → Edits (u ∷ a) (v ∷ b) (suc n)

-- One unit less at the end of `b` changes the distance by one at most.
removed_from :
    (u : ℕ) (a b : Units)
    → ((v : ℕ) (c : Units) → distance a c ≤ 1 + distance a (v ∷ c))
    → distance (u ∷ a) b ≤ 1 + distance a b
unfolding distance
removed_from u a [] h = omega (arith, distance-none a)
removed_from u a (v ∷ b) h = ground (arith, h v b)

distance-put : (v : ℕ) (a b : Units) → distance a b ≤ 1 + distance a (v ∷ b)
unfolding distance
distance-put v [] b = omega arith
distance-put v (w ∷ a) b =
    ground (arith, removed_from w a b (λ x c. distance-put x a c), distance-put v a b)

distance-remove : (u : ℕ) (a b : Units) → distance (u ∷ a) b ≤ 1 + distance a b
distance-remove u a b = removed_from u a b (λ v c. distance-put v a c)

distance_sym : (a b : Units) → distance a b ≡ distance b a
unfolding distance
distance_sym [] [] = refl
distance_sym [] (v ∷ b) = refl
distance_sym (u ∷ a) [] = refl
distance_sym (u ∷ a) (v ∷ b) =
    ground (arith, distance_sym a (v ∷ b), distance_sym (u ∷ a) b, distance_sym a b)

Edits-distance : {a b : Units} {n : ℕ} → Edits a b n → distance a b ≤ n
unfolding distance
Edits-distance none = omega arith
Edits-distance (keep {a = a} {b = b} u e) = ground (arith, Edits-distance e)
Edits-distance (remove {a = a} {b = b} u e) = omega (arith, distance-remove u a b, Edits-distance e)
Edits-distance (put {a = a} {b = b} v e) =
    omega (arith, distance_sym a b, distance_sym a (v ∷ b), distance-remove v b a, Edits-distance e)
Edits-distance (replace {a = a} {b = b} u v e) = ground (arith, Edits-distance e)

add_one_comm : (n : ℕ) → suc n ≡ 1 + n
add_one_comm n = omega arith

-- The distance is reached.
take_best : (x y z : ℕ) (P : ℕ → Type 0) → P x → P y → P z → P (min x (min y z))
take_best x y z P hx hy hz = ground (arith, hx, hy, hz)

removals : (a : Units) → Edits a [] (length a)
removals [] = none
removals (u ∷ a) = remove u (removals a)

insertions : (b : Units) → Edits [] b (length b)
insertions [] = none
insertions (v ∷ b) = put v (insertions b)

distance-Edits : (a b : Units) → Edits a b (distance a b)
unfolding distance
distance-Edits [] b = insertions b
distance-Edits (u ∷ a) [] = remove u (removals a)
distance-Edits (u ∷ a) (v ∷ b) = elim (Bool-cases (nat_beq u v)) [
  | inl same ↦ rw same (
      subst (λ w. Edits (u ∷ a) (w ∷ b) (distance a b)) ((nat_beq_iff u v).0 same)
        (keep u (distance-Edits a b)))
  | inr other ↦ rw other (
      subst (λ n. Edits (u ∷ a) (v ∷ b) n)
        (add_one_comm (min (distance a (v ∷ b)) (min (distance (u ∷ a) b) (distance a b))))
        (take_best (distance a (v ∷ b)) (distance (u ∷ a) b) (distance a b)
          (λ n. Edits (u ∷ a) (v ∷ b) (suc n)) (remove u (distance-Edits a (v ∷ b)))
          (put v (distance-Edits (u ∷ a) b)) (replace u v (distance-Edits a b))))
]

-- Edits at the other end of the texts.
Edits-onto :
    {p q a b : Units} {m n : ℕ} → Edits p q m → Edits a b n → Edits (onto p a) (onto q b) (n + m)
unfolding onto
Edits-onto {p = p} {q = q} h none = subst (λ k. Edits p q k) (omega arith) h
Edits-onto h (keep u e) = Edits-onto (keep u h) e
Edits-onto {p = p} {q = q} {m = m} h (remove {a = a} {b = b} {n = n} u e) =
    subst (λ k. Edits (onto (u ∷ p) a) (onto q b) k) (omega arith) (Edits-onto (remove u h) e)
Edits-onto {p = p} {q = q} {m = m} h (put {a = a} {b = b} {n = n} v e) =
    subst (λ k. Edits (onto p a) (onto (v ∷ q) b) k) (omega arith) (Edits-onto (put v h) e)
Edits-onto {p = p} {q = q} {m = m} h (replace {a = a} {b = b} {n = n} u v e) =
    subst (λ k. Edits (onto (u ∷ p) a) (onto (v ∷ q) b) k) (omega arith)
      (Edits-onto (replace u v h) e)

onto-onto : (p a : Units) → onto [] (onto p a) ≡ onto a p
unfolding onto
onto-onto p [] = refl
onto-onto p (u ∷ a) = onto-onto (u ∷ p) a

turned : {n : ℕ} → (a b : Units) → Edits a b n → Edits (onto [] a) (onto [] b) n
turned {n} a b e = subst (λ k. Edits (onto [] a) (onto [] b) k) (omega arith) (Edits-onto none e)

turned_back : {n : ℕ} → (a b : Units) → Edits (onto [] a) (onto [] b) n → Edits a b n
unfolding onto
turned_back {n} a b e =
    subst (λ x. Edits x b n) (onto-onto [] a)
      (subst (λ y. Edits (onto [] (onto [] a)) y n) (onto-onto [] b)
        (turned (onto [] a) (onto [] b) e))

-- The distance of two texts is the least number of units to remove, put in or replace that turns
-- the first into the second: so many edits do it, and no fewer.
pub levenshtein-Edits :
    (a b : Units) → Edits a b (levenshtein a b) × ((n : ℕ) → Edits a b n → levenshtein a b ≤ n)
levenshtein-Edits a b = (
  subst (λ n. Edits a b n) (sym (levenshtein-distance a b))
      (turned_back a b (distance-Edits (onto [] a) (onto [] b))),
  λ n e. subst (λ d. d ≤ n) (sym (levenshtein-distance a b)) (Edits-distance (turned a b e)),
)
