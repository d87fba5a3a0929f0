-- ===== src/Tasks/Graph/Fuel.antt =====
-- How long the walk of `assertNoCycle` takes: each edge is pushed at most once.
use crabbykit.Prelude.{
  ℕ, zero, suc, ◌+◌, ◌≤◌, String, ◌≡◌, ◌≢◌, refl, false, ◌&&◌, ◌||◌, not, if◌then◌else◌, List, [],
  ◌∷◌, ◌==◌, string_eq, arith, length,
}
use text.Mathlib.TextEquality.{eq_iff}
use crabbykit.Tasks.{TaskDep, is_blocking}
use crabbykit.Tasks.Graph.{
  blocks_from, blocking_targets, push_all, contains, out_of_fuel, walk, reaches_source,
}

length-push_all :
    (targets stack : List String) → length (push_all targets stack) ≡ length targets + length stack
unfolding push_all
length-push_all [] stack = omega arith
length-push_all (t ∷ targets) stack = omega (arith, length-push_all targets (t ∷ stack))

-- The blocking edges whose source a walk has still to visit.
pending : List TaskDep → List String → ℕ
pending [] visited = 0
pending (d ∷ deps) visited =
    (if is_blocking d.dep_type && not (contains visited d.source_id) then 1 else 0)
    + pending deps visited

contains-cons :
    (visited : List String) (current u : String)
    → contains (current ∷ visited) u ≡ (current == u || contains visited u)
unfolding contains
contains-cons visited current u = refl

targets-nil : (current : String) → blocking_targets [] current ≡ []
unfolding blocking_targets
targets-nil current = refl

targets-cons :
    (d : TaskDep) (deps : List TaskDep) (current : String)
    → length (blocking_targets (d ∷ deps) current)
      ≡ (if blocks_from current d then 1 else 0) + length (blocking_targets deps current)
unfolding blocking_targets
targets-cons d deps current = ground arith

pending-visit :
    (deps : List TaskDep) (visited : List String) (current : String)
    → contains visited current ≡ false
    → pending deps (current ∷ visited) + length (blocking_targets deps current)
      ≡ pending deps visited
unfolding pending
pending-visit [] visited current new = rw (targets-nil current) (omega arith)
pending-visit (d ∷ deps) visited current new = ground (
  arith,
  pending-visit deps visited current,
  targets-cons d deps current,
  contains-cons visited current d.source_id,
  eq_iff d.source_id current,
  eq_iff current d.source_id,
)

pending-le : (deps : List TaskDep) (visited : List String) → pending deps visited ≤ length deps
unfolding pending
pending-le [] visited = omega arith
pending-le (d ∷ deps) visited = ground (arith, pending-le deps visited)

walk_total :
    (deps : List TaskDep) (source : String) (fuel : ℕ) (visited stack : List String)
    → length stack + pending deps visited ≤ fuel
    → walk deps source fuel visited stack ≢ out_of_fuel
unfolding walk
walk_total deps source zero visited [] h = cc
walk_total deps source zero visited (current ∷ stack) h = absurd (omega arith)
walk_total deps source (suc fuel) visited [] h = cc
walk_total deps source (suc fuel) visited (current ∷ stack) h = ground (
  arith,
  walk_total deps source fuel visited stack,
  walk_total deps source fuel (current ∷ visited) (push_all (blocking_targets deps current) stack),
  pending-visit deps visited current,
  length-push_all (blocking_targets deps current) stack,
)

-- The walk of `assertNoCycle` always ends within its fuel.
pub reaches_source_total :
    (deps : List TaskDep) (source target : String) → reaches_source deps source target ≢ out_of_fuel
unfolding reaches_source
reaches_source_total deps source target =
    walk_total deps source (suc (length deps)) [] (target ∷ []) (omega (arith, pending-le deps []))
