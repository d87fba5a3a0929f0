-- ===== src/Tasks/Store.antt =====
-- The operations of `TaskStore` in task-store.ts. Each receives the values that nanoid and the
-- clocks give it, and the class's `authChecker`.
pub mod Cycles
pub mod Operations
pub mod Calls
pub mod Transitions
use crabbykit.Prelude.{
  truthy, ℕ, String, Bool, true, false, not, ◌&&◌, ◌||◌, Option, none, some, List, [], ◌∷◌, ◌++◌,
  map, ◌==◌, string_eq, if◌then◌else◌, head?, filter, any, length, get_or_else, nat_beq,
}
use crabbykit.Tasks.{
  Status, open_task, in_progress, blocked, closed, TaskType, task, DepType, blocks, parent_child,
  is_blocking, valid_transition, Task, TaskDep, CreateTaskInput, UpdateTaskInput, TaskError,
  missing_task, task_auth, task_cycle, invalid_transition, unique_constraint, retrieve_failed,
}
use crabbykit.Tasks.Db.{
  Db, Env, Outcome, ok, err, M, ◌>>=◌, ◌>>◌, return, throw, AuthChecker, has_id, get, get_or_throw,
  assert_can_write, assert_valid_transition, get_owned, same_edge, insert_dep, insert_task,
  update_where_id, get_created,
}
use crabbykit.Tasks.Graph.{Walk, found, clear, reaches_source}

unfoldable pub assert_no_cycle : String → String → M (Unit {0})
assert_no_cycle source target db = elim (reaches_source db.deps source target) [
  | found ↦ (err (task_cycle (source ∷ target ∷ [])), db)
  | clear ↦ (ok tt, db)
  | _ ↦ (err TaskError.out_of_fuel, db)
]

-- `if (BLOCKING_DEP_TYPES.has(depType)) this.assertNoCycle(sourceId, targetId)`
unfoldable pub check_cycle : String → String → DepType → M (Unit {0})
unfolding assert_no_cycle
check_cycle source target dep_type =
    if is_blocking dep_type then assert_no_cycle source target else return tt

abbrev pub new_dep : Env → String → String → DepType → TaskDep
new_dep env source target dep_type = record {
  source_id = source;
  target_id = target;
  dep_type = dep_type;
  created_at = env.sql_now;
}

unfoldable pub add_dep_internal : Env → String → String → DepType → M TaskDep
unfolding check_cycle insert_dep
add_dep_internal env source target dep_type =
    if source == target then throw (task_cycle (source ∷ [])) else do
      check_cycle source target dep_type
      insert_dep (new_dep env source target dep_type)
      return (new_dep env source target dep_type)

unfoldable pub new_task : Env → String → CreateTaskInput → Task
new_task env caller input = record {
  id = env.nanoid;
  parent_id = input.parent_id;
  owner_session = caller;
  title = input.title;
  description = get_or_else input.description "";
  acceptance = get_or_else input.acceptance "";
  status = open_task;
  priority = get_or_else input.priority 2;
  task_type = get_or_else input.task_type task;
  created_at = env.iso_now;
  updated_at = env.iso_now;
  closed_at = none;
  close_reason = none;
}

-- `if (input.parentId)`: the parent exists, and the caller may write it.
unfoldable pub check_parent : AuthChecker → String → Option String → M (Unit {0})
unfolding get_owned
check_parent auth caller none = return tt
check_parent auth caller (some parent) = do get_owned auth caller parent; return tt

unfoldable pub link_parent : Env → Option String → M (Unit {0})
unfolding add_dep_internal
link_parent env none = return tt
link_parent env (some parent) = do add_dep_internal env env.nanoid parent parent_child; return tt

-- `for (const targetId of input.dependsOn)`.
unfoldable pub link_targets : Env → List String → M (Unit {0})
unfolding add_dep_internal
link_targets env [] = return tt
link_targets env (target ∷ targets) =
    let rest = link_targets env targets in do add_dep_internal env env.nanoid target blocks; rest

unfoldable pub create : Env → AuthChecker → String → CreateTaskInput → M Task
unfolding check_parent insert_task link_parent link_targets get_created
create env auth caller input = do
  check_parent auth caller (truthy input.parent_id)
  insert_task (new_task env caller input)
  link_parent env (truthy input.parent_id)
  link_targets env input.depends_on
  get_created env.nanoid

-- The columns that an update sets.
unfoldable pub set_columns : Env → UpdateTaskInput → Task → Task
set_columns env input t = record t {
  status = get_or_else input.status t.status;
  priority = get_or_else input.priority t.priority;
  description = get_or_else input.description t.description;
  acceptance = get_or_else input.acceptance t.acceptance;
  updated_at = env.sql_now;
}

abbrev pub no_sets : UpdateTaskInput → Bool
no_sets input = elim input.status [
  | some _ ↦ false
  | none ↦ elim input.priority [
    | some _ ↦ false
    | none ↦ elim input.description [
      | some _ ↦ false
      | none ↦ elim input.acceptance [ some _ ↦ false | none ↦ true ]
    ]
  ]
]

unfoldable pub check_status : Status → Option Status → M (Unit {0})
unfolding assert_valid_transition
check_status from none = return tt
check_status from (some to) = assert_valid_transition from to

unfoldable pub write_columns : Env → String → Task → UpdateTaskInput → M Task
unfolding update_where_id get_created
write_columns env task_id t input =
    if no_sets input
    then return t
    else do update_where_id task_id (set_columns env input); get_created task_id

unfoldable pub update : Env → AuthChecker → String → String → UpdateTaskInput → M Task
unfolding get_owned check_status write_columns
update env auth caller task_id input = do
  t ← get_owned auth caller task_id
  check_status t.status input.status
  write_columns env task_id t input

unfoldable pub close_columns : Env → String → Task → Task
close_columns env reason t = record t {
  status = closed;
  close_reason = some reason;
  closed_at = some env.sql_now;
  updated_at = env.sql_now;
}

unfoldable pub close : Env → AuthChecker → String → String → String → M Task
unfolding get_owned assert_valid_transition update_where_id get_created
close env auth caller task_id reason = do
  t ← get_owned auth caller task_id
  assert_valid_transition t.status closed
  update_where_id task_id (close_columns env reason)
  get_created task_id

-- source_id IN (SELECT id FROM tasks WHERE owner_session = ?)
abbrev pub owned_source : String → List Task → TaskDep → Bool
owned_source owner tasks d = any (λ t. t.owner_session == owner && t.id == d.source_id) tasks

unfoldable pub delete_by_session : String → M ℕ
delete_by_session caller db =
    let owned = filter (λ t. t.owner_session == caller) db.tasks in
    if nat_beq (length owned) 0 then (ok 0, db) else (
      ok (length owned),
      record {
        tasks = filter (λ t. not (t.owner_session == caller)) db.tasks;
        deps = filter (λ d. not (owned_source caller db.tasks d)) db.deps;
      },
    )

unfoldable pub add_dep : Env → AuthChecker → String → String → String → DepType → M TaskDep
unfolding get_owned get_or_throw add_dep_internal
add_dep env auth caller source target dep_type = do
  get_owned auth caller source
  get_or_throw target
  add_dep_internal env source target dep_type

unfoldable pub delete_dep : String → String → M (Unit {0})
delete_dep source target db =
    (ok tt, record db { deps = filter (λ d. not (same_edge source target d)) db.deps })

unfoldable pub remove_dep : AuthChecker → String → String → String → M (Unit {0})
unfolding get_owned delete_dep
remove_dep auth caller source target = do get_owned auth caller source; delete_dep source target
