-- ===== src/Tasks/Tests.antt =====
-- Calls of the task store of task-store.ts at concrete inputs.
use crabbykit.Prelude.{
  truthy, String, ◌≡◌, ◌≢◌, ◌↔◌, ◌⊎◌, inl, inr, refl, true, none, some, List, [], ◌∷◌, In,
  insert_by, sort_by,
}
use crabbykit.Tasks.{
  in_progress, blocks, is_blocking, valid_transition, Task, CreateTaskInput, UpdateTaskInput,
  open_task, task_cycle, task_auth,
}
use crabbykit.Tasks.Graph.{reaches_source, walk, blocking_targets, push_all, contains, out_of_fuel}
use crabbykit.Tasks.Graph.Walks.{Reach}
use crabbykit.Tasks.Graph.Fuel.{reaches_source_total}
use crabbykit.Tasks.Db.{Db, Env, ok, err, default_auth_checker, get}
use crabbykit.Tasks.Store
use crabbykit.Tasks.Store.{
  new_dep, add_dep_internal, check_cycle, assert_no_cycle, new_task, create, update, close,
  close_columns, set_columns, link_parent, link_targets, check_parent, check_status, write_columns,
  add_dep,
}
use crabbykit.Tasks.Store.Cycles.{HasNoCycle, add_dep_internal-task_cycle_iff}
use crabbykit.Tasks.Store.Calls.{Call, tables_after, Reachable, empty, after, Reachable-HasNoCycle}
use crabbykit.Tasks.Store.Transitions.{Rewrites, IsUpdate, update_allowed, update_refused}
use crabbykit.Tasks.Queries.{ready}
use crabbykit.Tasks.Queries.Ready.{AllBlockersClosed, IsOwned, In-ready_iff}
use crabbykit.Tasks.Queries.Progress.{IsStartable, IsStartable-exists}

store : Unit {0}
unfolding create update close add_dep tables_after reaches_source walk blocking_targets push_all
    contains get new_task default_auth_checker close_columns set_columns valid_transition ready
    sort_by insert_by
store = tt

abbrev at : String → Env
at id = record {
  nanoid = id;
  iso_now = "2026-01-01T00:00:00.000Z";
  sql_now = "2026-01-01 00:00:00";
}

abbrev titled : String → List String → CreateTaskInput
titled title depends_on = record {
  title = title;
  description = none;
  acceptance = none;
  task_type = none;
  priority = none;
  parent_id = none;
  depends_on = depends_on;
}

abbrev calls_made : Db
calls_made =
    tables_after
      (tables_after (record { tasks = []; deps = [] })
        (Call.create (at "a") default_auth_checker "s" (titled "first" [])))
      (Call.create (at "b") default_auth_checker "s" (titled "second" ("a" ∷ [])))

abbrev a_task : Task
a_task = new_task (at "a") "s" (titled "first" [])

abbrev b_task : Task
b_task = new_task (at "b") "s" (titled "second" ("a" ∷ []))

abbrev two_tasks : Db
two_tasks = record { tasks = a_task ∷ b_task ∷ []; deps = new_dep (at "b") "b" "a" blocks ∷ [] }

calls_lead_to : calls_made ≡ two_tasks
unfolding store
calls_lead_to = refl

first_is_ready : ready two_tasks (some "s") ≡ a_task ∷ []
unfolding store
first_is_ready = refl

cycle_refused :
    (Store.add_dep (at "x") default_auth_checker "s" "a" "b" blocks two_tasks).0
    ≡ err (task_cycle ("a" ∷ "b" ∷ []))
unfolding store
cycle_refused = refl

reaches_source_total_example : reaches_source two_tasks.deps "a" "b" ≢ out_of_fuel
reaches_source_total_example = reaches_source_total two_tasks.deps "a" "b"

add_dep_internal-task_cycle_iff_example :
    ((path : List String) × ((add_dep_internal (at "x") "a" "b" blocks two_tasks).0
        ≡ err (task_cycle path)))
    ↔ (◌≡◌ {A = String} "a" "b" ⊎ (is_blocking blocks ≡ true) × Reach two_tasks.deps "a" "b")
add_dep_internal-task_cycle_iff_example =
    add_dep_internal-task_cycle_iff (at "x") "a" "b" blocks two_tasks

made : Reachable calls_made
made =
    after (Call.create (at "b") default_auth_checker "s" (titled "second" ("a" ∷ [])))
      (after (Call.create (at "a") default_auth_checker "s" (titled "first" [])) empty)

Reachable-HasNoCycle_example : HasNoCycle calls_made
Reachable-HasNoCycle_example = Reachable-HasNoCycle made

In-ready_iff_example : In a_task (ready two_tasks (some "s")) ↔ (
    In a_task two_tasks.tasks
    × (a_task.status ≡ open_task)
    × IsOwned (truthy (some "s")) a_task
    × AllBlockersClosed two_tasks a_task)
In-ready_iff_example = In-ready_iff two_tasks (some "s") a_task

second-In : In b_task calls_made.tasks
unfolding store
second-In = inr (inl refl)

IsStartable-exists_example : (s : Task) × IsStartable calls_made s
unfolding store
IsStartable-exists_example = IsStartable-exists calls_made b_task made second-In refl

abbrev to_progress : UpdateTaskInput
to_progress = record {
  status = some in_progress;
  priority = none;
  description = none;
  acceptance = none;
}

update_allowed_example :
    (t : Task) × ((update (at "x") default_auth_checker "s" "a" to_progress two_tasks).0 ≡ ok t)
    × (Rewrites two_tasks
          (update (at "x") default_auth_checker "s" "a" to_progress two_tasks).1
          "a"
          t
        × IsUpdate (at "x") to_progress a_task t)
unfolding store
update_allowed_example =
    update_allowed (at "x") default_auth_checker "s" "a" two_tasks to_progress a_task refl refl refl

update_refused_example :
    update (at "x") default_auth_checker "other" "a" to_progress two_tasks
    ≡ (err (task_auth "other" "s"), two_tasks)
unfolding store
update_refused_example =
    update_refused (at "x") default_auth_checker "other" "a" two_tasks to_progress
      (task_auth "other" "s") refl
