-- ===== src/Tasks/Store/Cycles.antt =====
-- `addDepInternal` of task-store.ts: what it refuses, and that it closes no cycle of blocking edges.
use crabbykit.Prelude.{
  String, ◌≡◌, ◌↔◌, ap, ◌∙◌, refl, sym, ◌⊎◌, inl, inr, true, List, [], ◌∷◌, arith, Bool-cases,
  ==-eq, ==-ne, ◌==◌, string_eq, any,
}
use crabbykit.Tasks.{DepType, is_blocking, TaskDep, task_cycle}
use crabbykit.Tasks.Graph.{Walk, found, clear, out_of_fuel, reaches_source}
use crabbykit.Tasks.Graph.Walks.{Reach, reaches_source-found, reaches_source-clear}
use crabbykit.Tasks.Graph.Fuel.{reaches_source_total}
use crabbykit.Tasks.Graph.Acyclic.{IsAcyclic, append-IsAcyclic}
use crabbykit.Tasks.Db.{Db, Env, Outcome, ok, err, M, run_then, ◌>>◌, return, insert_dep, same_edge}
use crabbykit.Tasks.Db.Keeps.{Keeps, ok-then, err-then, then-Keeps}
use crabbykit.Tasks.Store.{assert_no_cycle, check_cycle, new_dep, add_dep_internal}

abbrev pub HasNoCycle : Db → Type 0
HasNoCycle db = IsAcyclic db.deps

Walk-cases : (w : Walk) → (w ≡ found) ⊎ ((w ≡ clear) ⊎ (w ≡ out_of_fuel))
Walk-cases found = inl refl
Walk-cases clear = inr (inl refl)
Walk-cases out_of_fuel = inr (inr refl)

-- A new row whose check passed closes no cycle.
insert_dep-HasNoCycle :
    (d : TaskDep) (db : Db)
    → HasNoCycle db
    → (is_blocking d.dep_type ≡ true → ¬ Reach db.deps d.source_id d.target_id)
    → HasNoCycle (insert_dep d db).1
unfolding insert_dep
insert_dep-HasNoCycle d db h open_end =
    elim (Bool-cases (any (same_edge d.source_id d.target_id) db.deps)) [
      | inl taken ↦ rw taken h
      | inr free ↦ rw free (append-IsAcyclic db.deps d h open_end)
    ]

-- What the check answers: a task that the target leads back to is refused, and only that.
check_cycle_cases :
    (source target : String) (dep_type : DepType) (db : Db)
    → (check_cycle source target dep_type db ≡ (ok tt, db))
        × (is_blocking dep_type ≡ true → ¬ Reach db.deps source target)
      ⊎ (check_cycle source target dep_type db ≡ (err (task_cycle (source ∷ target ∷ [])), db))
        × (is_blocking dep_type ≡ true)
        × Reach db.deps source target
unfolding check_cycle
check_cycle_cases source target dep_type db = elim (Bool-cases (is_blocking dep_type)) [
  | inl blocking ↦ elim (Walk-cases (reaches_source db.deps source target)) [
    | inl ends ↦ inr (
      rw (blocking, ends, assert_no_cycle),
      blocking,
      reaches_source-found db.deps source target ends,
    )
    | inr (inl ends) ↦
        inl (
          rw (blocking, ends, assert_no_cycle),
          λ _. reaches_source-clear db.deps source target ends,
        )
    | inr (inr spent) ↦ absurd (reaches_source_total db.deps source target spent)
  ]
  | inr other ↦ inl (rw other, λ b. cc)
]

checked :
    (env : Env) (source target : String) (dep_type : DepType)
    → Keeps HasNoCycle (do
      check_cycle source target dep_type
      insert_dep (new_dep env source target dep_type)
      return (new_dep env source target dep_type))
checked env source target dep_type db h =
    let d = new_dep env source target dep_type in
    let insert : M TaskDep = insert_dep d >> return d in
    let check = check_cycle source target dep_type in
    elim (check_cycle_cases source target dep_type db) [
      | inl (passed, open_end) ↦
          ok-then HasNoCycle check (λ _. insert) db db tt passed
            (then-Keeps HasNoCycle (insert_dep d) (λ _. return d) db
              (insert_dep-HasNoCycle d db h open_end) (λ _ _ p. p))
      | inr (refused, _, _) ↦ err-then HasNoCycle check (λ _. insert) db db _ refused h
    ]

pub add_dep_internal-HasNoCycle :
    (env : Env) (source target : String) (dep_type : DepType)
    → Keeps HasNoCycle (add_dep_internal env source target dep_type)
unfolding add_dep_internal
add_dep_internal-HasNoCycle env source target dep_type db h = elim (Bool-cases (source == target)) [
  | inl same ↦ rw same h
  | inr other ↦ rw other (checked env source target dep_type db h)
]

insert-ne-task_cycle :
    (d : TaskDep) (db : Db) (path : List String)
    → ¬ (((insert_dep d >> return d) db).0 ≡ err (task_cycle path))
unfolding insert_dep
insert-ne-task_cycle d db path e =
    elim (Bool-cases (any (same_edge d.source_id d.target_id) db.deps)) [
      | inl taken ↦ ground arith
      | inr free ↦ ground arith
    ]

module _ (env : Env) (source target : String) (dep_type : DepType) (db : Db) where
  abbrev checked_insert : M TaskDep
  checked_insert = do
    check_cycle source target dep_type
    insert_dep (new_dep env source target dep_type)
    return (new_dep env source target dep_type)

  refused_if :
      is_blocking dep_type ≡ true
      → Reach db.deps source target
      → (checked_insert db).0 ≡ err (task_cycle (source ∷ target ∷ []))
  refused_if blocking r = elim (check_cycle_cases source target dep_type db) [
    | inl (_, open_end) ↦ absurd (open_end blocking r)
    | inr (refused, _, _) ↦ ap (λ (o : Outcome (Unit {0}) × Db). (run_then o rest).0) refused
  ]
    where
      rest : Unit {0} → M TaskDep
      rest _ =
          insert_dep (new_dep env source target dep_type)
          >> return (new_dep env source target dep_type)

  refused_only :
      (path : List String)
      → (checked_insert db).0 ≡ err (task_cycle path)
      → (is_blocking dep_type ≡ true) × Reach db.deps source target
  refused_only path e = elim (check_cycle_cases source target dep_type db) [
    | inl (passed, _) ↦ absurd (
        insert-ne-task_cycle (new_dep env source target dep_type) db path
          (sym (ap (λ (o : Outcome (Unit {0}) × Db). (run_then o rest).0) passed) ∙ e))
    | inr (_, blocking, r) ↦ (blocking, r)
  ]
    where
      rest : Unit {0} → M TaskDep
      rest _ =
          insert_dep (new_dep env source target dep_type)
          >> return (new_dep env source target dep_type)

-- A dependency is refused as a cycle exactly if it is of a task on itself, or is blocking and
-- blocking edges lead from its target back to its source.
pub add_dep_internal-task_cycle_iff :
    (env : Env) (source target : String) (dep_type : DepType) (db : Db)
    → ((path : List String) × ((add_dep_internal env source target dep_type db).0
          ≡ err (task_cycle path)))
      ↔ ((source ≡ target) ⊎ (is_blocking dep_type ≡ true) × Reach db.deps source target)
unfolding add_dep_internal
add_dep_internal-task_cycle_iff env source target dep_type db =
    elim (Bool-cases (source == target)) [
      | inl same ↦ (λ _. inl (==-eq same), λ _. (source ∷ [], rw same))
      | inr other ↦ rw other (
        λ (path, e). inr (refused_only env source target dep_type db path e),
        λ why. (
          source ∷ target ∷ [],
          elim why [
            | inl same ↦ absurd (==-ne other same)
            | inr (blocking, r) ↦ refused_if env source target dep_type db blocking r
          ],
        ),
      )
    ]
