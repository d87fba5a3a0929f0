-- ===== src/Tasks/Graph.antt =====
-- The dependency graph of task-store.ts: `assertNoCycle`, a depth-first walk over the blocking
-- edges with an explicit stack.
pub mod Walks
pub mod Fuel
pub mod Acyclic
use crabbykit.Prelude.{
  ℕ, zero, suc, String, Bool, true, false, ◌&&◌, List, [], ◌∷◌, ◌==◌, string_eq, any, length,
  filter, map,
}
use crabbykit.Tasks.{TaskDep, is_blocking}

-- SELECT target_id FROM task_deps WHERE source_id = ? AND dep_type IN ('blocks', 'parent-child')
abbrev pub blocks_from : String → TaskDep → Bool
blocks_from current d = d.source_id == current && is_blocking d.dep_type

unfoldable pub blocking_targets : List TaskDep → String → List String
blocking_targets deps current = map (λ d. d.target_id) (filter (blocks_from current) deps)

-- `for (const dep of deps) stack.push(dep.target_id)`; a stack has its top at the head.
unfoldable pub push_all : List String → List String → List String
push_all [] stack = stack
push_all (t ∷ targets) stack = push_all targets (t ∷ stack)

unfoldable pub contains : List String → String → Bool
contains visited current = any (λ v. v == current) visited

pub data Walk : Type 0 where
  found clear out_of_fuel : Walk

-- The `while` loop, with fuel.
unfoldable pub walk : List TaskDep → String → ℕ → List String → List String → Walk
walk deps source zero visited [] = clear
walk deps source zero visited (current ∷ stack) = out_of_fuel
walk deps source (suc fuel) visited [] = clear
walk deps source (suc fuel) visited (current ∷ stack) = elim (current == source) [
  | true ↦ found
  | false ↦ elim (contains visited current) [
    | true ↦ walk deps source fuel visited stack
    | false ↦
        walk deps source fuel (current ∷ visited) (push_all (blocking_targets deps current) stack)
  ]
]

-- Each round takes one entry off the stack, and each edge is pushed at most once.
unfoldable pub reaches_source : List TaskDep → String → String → Walk
reaches_source deps source target = walk deps source (suc (length deps)) [] (target ∷ [])
