-- ===== src/Tasks/Graph/Acyclic.antt =====
-- Acyclicity of the blocking edges, which `addDepInternal` keeps.
use crabbykit.Prelude.{
  String, ◌≡◌, sym, ◌⊎◌, inl, inr, Bool, true, List, [], ◌∷◌, ◌++◌, subst, subst₂, arith, In,
  filter, string_eq,
}
use text.Mathlib.TextEquality.{eq_iff}
use crabbykit.Tasks.{TaskDep, is_blocking}
use crabbykit.Tasks.Graph.{blocking_targets}
use crabbykit.Tasks.Graph.Walks.{Edge, Reach, here, step}

-- No task waits on itself along blocking edges.
abbrev pub IsAcyclic : List TaskDep → Type 0
IsAcyclic deps = (u v : String) → Edge deps u v → ¬ Reach deps u v

Edge-nil : (u v : String) → ¬ Edge [] u v
unfolding blocking_targets
Edge-nil u v e = e

pub nil-IsAcyclic : IsAcyclic []
nil-IsAcyclic u v e = absurd (Edge-nil u v e)

-- Fewer edges keep the property.
Reach-mono :
    (deps deps' : List TaskDep)
    → ((u v : String) → Edge deps' u v → Edge deps u v)
    → {w u : String} → Reach deps' w u
    → Reach deps w u
Reach-mono deps deps' sub here = here
Reach-mono deps deps' sub (step {u} {v} e r) = step (sub u v e) (Reach-mono deps deps' sub r)

pub fewer-IsAcyclic :
    (deps deps' : List TaskDep)
    → ((u v : String) → Edge deps' u v → Edge deps u v)
    → IsAcyclic deps
    → IsAcyclic deps'
fewer-IsAcyclic deps deps' sub h u v e r = h u v (sub u v e) (Reach-mono deps deps' sub r)

Edge-filter :
    (keep : TaskDep → Bool) (deps : List TaskDep) (u v : String)
    → Edge (filter keep deps) u v
    → Edge deps u v
unfolding blocking_targets
Edge-filter keep [] u v e = e
Edge-filter keep (d ∷ deps) u v e = ground (arith, Edge-filter keep deps u v)

pub filter-IsAcyclic :
    (keep : TaskDep → Bool) (deps : List TaskDep) → IsAcyclic deps → IsAcyclic (filter keep deps)
filter-IsAcyclic keep deps = fewer-IsAcyclic deps (filter keep deps) (Edge-filter keep deps)

pub Reach-trans :
    {deps : List TaskDep} {w v u : String} → Reach deps w v → Reach deps v u → Reach deps w u
Reach-trans r here = r
Reach-trans r (step e q) = step e (Reach-trans r q)

-- A blocking row is an edge.
pub Edge-of_dep :
    (deps : List TaskDep) (d : TaskDep)
    → In d deps
    → is_blocking d.dep_type ≡ true
    → Edge deps d.source_id d.target_id
unfolding blocking_targets
Edge-of_dep [] d m b = absurd m
Edge-of_dep (x ∷ deps) d m b = ground (arith, Edge-of_dep deps d, eq_iff x.source_id d.source_id)

-- One more row of `task_deps`.
Edge-append :
    (deps : List TaskDep) (d : TaskDep) (u v : String)
    → Edge (deps ++ d ∷ []) u v
    → Edge deps u v ⊎ (u ≡ d.source_id) × (v ≡ d.target_id) × (is_blocking d.dep_type ≡ true)
unfolding blocking_targets
Edge-append [] d u v e = ground (arith, eq_iff d.source_id u)
Edge-append (x ∷ deps) d u v e = ground (arith, Edge-append deps d u v)

module _ (deps : List TaskDep) (d : TaskDep) where
  -- A path with the new row is one without it, or leads to the row's source and on from its target.
  Reach-append :
      {w u : String}
      → Reach (deps ++ d ∷ []) w u
      → Reach deps w u
        ⊎ Reach deps d.source_id u × Reach deps w d.target_id × (is_blocking d.dep_type ≡ true)
  Reach-append here = inl here
  Reach-append {w} (step {u} {v} e r) = elim (Edge-append deps d u v e) [
    | inl old ↦ elim (Reach-append r) [
      | inl plain ↦ inl (step old plain)
      | inr through ↦ inr (step old through.0, through.1, through.2)
    ]
    | inr (from, to, blocking) ↦
        let start = subst (Reach deps d.source_id) (sym from) here in
        elim (Reach-append r) [
          | inl plain ↦ inr (start, subst (Reach deps w) to plain, blocking)
          | inr through ↦ inr (start, through.1, blocking)
        ]
  ]

  -- A row that is not blocking, or whose target does not lead to its source, closes no cycle.
  pub append-IsAcyclic :
      IsAcyclic deps
      → (is_blocking d.dep_type ≡ true → ¬ Reach deps d.source_id d.target_id)
      → IsAcyclic (deps ++ d ∷ [])
  append-IsAcyclic h open_end u v e r = elim (Edge-append deps d u v e) [
    | inl old ↦ elim (Reach-append r) [
      | inl plain ↦ h u v old plain
      | inr (back, on, blocking) ↦ open_end blocking (Reach-trans (step old back) on)
    ]
    | inr (from, to, blocking) ↦ elim (Reach-append r) [
      | inl plain ↦ open_end blocking (subst₂ (Reach deps) from to plain)
      | inr through ↦ open_end blocking (subst (λ x. Reach deps x d.target_id) from through.1)
    ]
  ]
