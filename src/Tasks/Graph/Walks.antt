-- ===== src/Tasks/Graph/Walks.antt =====
-- The walk of `assertNoCycle` decides whether blocking edges lead from a task to another.
use crabbykit.Prelude.{
  ℕ, zero, suc, String, ◌≡◌, ◌≢◌, ◌↔◌, ◌⊎◌, inl, inr, refl, sym, ◌∙◌, subst, true, List, [], ◌∷◌,
  ◌==◌, string_eq, arith, length, In, Bool-cases, ==-eq, ==-ne,
}
use crabbykit.Tasks.{TaskDep}
use crabbykit.Tasks.Graph.{blocking_targets, push_all, contains, found, clear, walk, reaches_source}

-- A blocking edge, and the paths along blocking edges.
abbrev pub Edge : List TaskDep → String → String → Type 0
Edge deps u v = In v (blocking_targets deps u)

pub data Reach (deps : List TaskDep) (w : String) : String → Type 0 where
  here : Reach deps w w
  step : {u v : String} → Edge deps u v → Reach deps w v → Reach deps w u

In-push_all :
    (targets stack : List String) (c : String)
    → In c (push_all targets stack) ↔ (In c targets ⊎ In c stack)
unfolding push_all
In-push_all [] stack c = ground arith
In-push_all (t ∷ targets) stack c = ground (arith, In-push_all targets (t ∷ stack) c)

pub contains_iff : (visited : List String) (c : String) → (contains visited c ≡ true) ↔ In c visited
unfolding contains
contains_iff [] c = ground arith
contains_iff (v ∷ visited) c = ground (arith, string_eq.same_iff v c, contains_iff visited c)

skip_mem :
    (visited stack : List String) (current c : String)
    → In current visited
    → In c visited ⊎ In c (current ∷ stack)
    → In c visited ⊎ In c stack
skip_mem visited stack current c at (inl m) = inl m
skip_mem visited stack current c at (inr (inl same)) = inl (subst (λ x. In x visited) (sym same) at)
skip_mem visited stack current c at (inr (inr m)) = inr m

visit_mem :
    (visited stack : List String) (current c : String) (targets : List String)
    → In c visited ⊎ In c (current ∷ stack)
    → In c (current ∷ visited) ⊎ In c (push_all targets stack)
visit_mem visited stack current c targets (inl m) = inl (inr m)
visit_mem visited stack current c targets (inr (inl same)) = inl (inl same)
visit_mem visited stack current c targets (inr (inr m)) =
    inr ((In-push_all targets stack c).1 (inr m))

module _ (deps : List TaskDep) (source : String) where
  -- If the walk finds the source, some entry of the stack leads to it.
  walk_sound :
      (fuel : ℕ) (visited stack : List String)
      → walk deps source fuel visited stack ≡ found
      → (c : String) × In c stack × Reach deps source c
  unfolding walk
  walk_sound zero visited [] h = cc
  walk_sound zero visited (current ∷ stack) h = cc
  walk_sound (suc fuel) visited [] h = cc
  walk_sound (suc fuel) visited (current ∷ stack) h = elim (Bool-cases (current == source)) [
    | inl same ↦ (current, inl refl, subst (Reach deps source) (sym (==-eq same)) here)
    | inr other ↦ elim (Bool-cases (contains visited current)) [
      | inl seen ↦
          let (c, m, r) = walk_sound fuel visited stack (rw (other, seen, walk) at h) in
          (c, inr m, r)
      | inr new ↦
          let (c, m, r) =
            walk_sound fuel (current ∷ visited) (push_all (blocking_targets deps current) stack)
              (rw (other, new, walk) at h) in
          elim ((In-push_all _ stack c).0 m) [
            | inl edge ↦ (current, inl refl, step edge r)
            | inr later ↦ (c, inr later, r)
          ]
    ]
  ]

  -- What a walk has visited is not the source, and its edges lead to what is visited or waits.
  abbrev Explored : List String → List String → Type 0
  Explored visited stack =
      (u : String)
      → In u visited
      → (u ≢ source) × ((v : String) → Edge deps u v → In v visited ⊎ In v stack)

  Explored-closed :
      (visited : List String) {u : String}
      → Explored visited []
      → In u visited
      → ¬ Reach deps source u
  Explored-closed visited e m here = (e source m).0 refl
  Explored-closed visited e m (step {u} {v} edge r) = elim ((e u m).1 v edge) [
    | inl before ↦ Explored-closed visited e before r
    | inr waiting ↦ waiting
  ]

  Explored-skip :
      (visited stack : List String) (current : String)
      → In current visited
      → Explored visited (current ∷ stack)
      → Explored visited stack
  Explored-skip visited stack current seen e u m = (
    (e u m).0,
    λ v edge. elim ((e u m).1 v edge) [
      | inl before ↦ inl before
      | inr waiting ↦ elim waiting [
        | inl same ↦ inl (subst (λ x. In x visited) (sym same) seen)
        | inr later ↦ inr later
      ]
    ],
  )

  Explored-visit :
      (visited stack : List String) (current : String)
      → current ≢ source
      → Explored visited (current ∷ stack)
      → Explored (current ∷ visited) (push_all (blocking_targets deps current) stack)
  Explored-visit visited stack current other e u (inl same) = (
    λ p. other (sym same ∙ p),
    λ v edge. inr ((In-push_all _ stack v).1 (inl (subst (λ x. Edge deps x v) same edge))),
  )
  Explored-visit visited stack current other e u (inr m) = (
    (e u m).0,
    λ v edge. elim ((e u m).1 v edge) [
      | inl before ↦ inl (inr before)
      | inr waiting ↦ elim waiting [
        | inl same ↦ inl (inl same)
        | inr later ↦ inr ((In-push_all _ stack v).1 (inr later))
      ]
    ],
  )

  -- If the walk ends clear, nothing that it visited or that waits leads to the source.
  walk_complete :
      (fuel : ℕ) (visited stack : List String)
      → Explored visited stack
      → walk deps source fuel visited stack ≡ clear
      → (c : String) → In c visited ⊎ In c stack
      → ¬ Reach deps source c
  unfolding walk
  walk_complete zero visited [] e h c (inl m) = Explored-closed visited e m
  walk_complete zero visited [] e h c (inr m) = absurd m
  walk_complete zero visited (current ∷ stack) e h c m = cc
  walk_complete (suc fuel) visited [] e h c (inl m) = Explored-closed visited e m
  walk_complete (suc fuel) visited [] e h c (inr m) = absurd m
  walk_complete (suc fuel) visited (current ∷ stack) e h c m =
      elim (Bool-cases (current == source)) [
        | inl same ↦ λ r. ground (arith, h)
        | inr other ↦ elim (Bool-cases (contains visited current)) [
          | inl seen ↦
              let at : In current visited = (contains_iff visited current).0 seen in
              walk_complete fuel visited stack (Explored-skip visited stack current at e)
                (rw (other, seen, walk) at h) c (skip_mem visited stack current c at m)
          | inr new ↦
              walk_complete fuel (current ∷ visited)
                (push_all (blocking_targets deps current) stack)
                (Explored-visit visited stack current (==-ne other) e) (rw (other, new, walk) at h)
                c (visit_mem visited stack current c (blocking_targets deps current) m)
        ]
      ]

-- The source is found only if blocking edges lead from the target to it.
pub reaches_source-found :
    (deps : List TaskDep) (source target : String)
    → reaches_source deps source target ≡ found
    → Reach deps source target
unfolding reaches_source
reaches_source-found deps source target h =
    let (c, m, r) = walk_sound deps source (suc (length deps)) [] (target ∷ []) h in
    elim m [ inl same ↦ subst (Reach deps source) same r | inr none_left ↦ absurd none_left ]

-- The walk ends clear only if no blocking edges do.
pub reaches_source-clear :
    (deps : List TaskDep) (source target : String)
    → reaches_source deps source target ≡ clear
    → ¬ Reach deps source target
unfolding reaches_source
reaches_source-clear deps source target h =
    walk_complete deps source (suc (length deps)) [] (target ∷ []) (λ u m. absurd m) h target
      (inr (inl refl))
