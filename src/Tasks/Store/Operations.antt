-- ===== src/Tasks/Store/Operations.antt =====
-- The operations of task-store.ts keep the blocking edges free of cycles, on success and on error.
use crabbykit.Prelude.{
  truthy, String, inl, inr, not, Option, none, some, List, [], ◌∷◌, Bool-cases, ◌==◌, string_eq,
  filter, any, nat_beq, length,
}
use crabbykit.Tasks.{
  DepType, blocks, parent_child, CreateTaskInput, UpdateTaskInput, Status, Task, closed,
}
use crabbykit.Tasks.Graph.Acyclic.{filter-IsAcyclic}
use crabbykit.Tasks.Db.{
  Env, M, ◌>>◌, return, AuthChecker, get_or_throw, get_owned, insert_task, get_created,
  update_where_id, same_edge, has_id, assert_valid_transition,
}
use crabbykit.Tasks.Db.Keeps.{
  Keeps, if-Keeps, >>=-Keeps, get_or_throw-Keeps, get_created-Keeps, get_owned-Keeps,
  assert_valid_transition-Keeps,
}
use crabbykit.Tasks.Store.{
  add_dep_internal, check_parent, link_parent, link_targets, new_task, create, check_status,
  set_columns, write_columns, update, close_columns, close, delete_by_session, add_dep, delete_dep,
  remove_dep, no_sets, owned_source,
}
use crabbykit.Tasks.Store.Cycles.{HasNoCycle, add_dep_internal-HasNoCycle}

-- The other statements leave the edges, or take some away.
insert_task-HasNoCycle : (t : Task) → Keeps HasNoCycle (insert_task t)
unfolding insert_task
insert_task-HasNoCycle t db h = elim (Bool-cases (any (has_id t.id) db.tasks)) [
  | inl taken ↦ rw taken h
  | inr free ↦ rw free h
]

update_where_id-HasNoCycle :
    (task_id : String) (f : Task → Task) → Keeps HasNoCycle (update_where_id task_id f)
unfolding update_where_id
update_where_id-HasNoCycle task_id f db h = h

delete_dep-HasNoCycle : (source target : String) → Keeps HasNoCycle (delete_dep source target)
unfolding delete_dep
delete_dep-HasNoCycle source target db h =
    filter-IsAcyclic (λ d. not (same_edge source target d)) db.deps h

check_parent-HasNoCycle :
    (auth : AuthChecker) (caller : String) (parent : Option String)
    → Keeps HasNoCycle (check_parent auth caller parent)
unfolding check_parent
check_parent-HasNoCycle auth caller none = λ db h. h
check_parent-HasNoCycle auth caller (some parent) =
    >>=-Keeps HasNoCycle (get_owned auth caller parent) (λ _. return tt)
      (get_owned-Keeps HasNoCycle auth caller parent) (λ _ _ h. h)

link_parent-HasNoCycle :
    (env : Env) (parent : Option String) → Keeps HasNoCycle (link_parent env parent)
unfolding link_parent
link_parent-HasNoCycle env none = λ db h. h
link_parent-HasNoCycle env (some parent) =
    >>=-Keeps HasNoCycle (add_dep_internal env env.nanoid parent parent_child) (λ _. return tt)
      (add_dep_internal-HasNoCycle env env.nanoid parent parent_child) (λ _ _ h. h)

link_targets-HasNoCycle :
    (env : Env) (targets : List String) → Keeps HasNoCycle (link_targets env targets)
unfolding link_targets
link_targets-HasNoCycle env [] = λ db h. h
link_targets-HasNoCycle env (target ∷ targets) =
    >>=-Keeps HasNoCycle (add_dep_internal env env.nanoid target blocks)
      (λ _. link_targets env targets) (add_dep_internal-HasNoCycle env env.nanoid target blocks)
      (λ _. link_targets-HasNoCycle env targets)

-- Creating a task closes no cycle of blocking edges, also where it throws half way.
pub create-HasNoCycle :
    (env : Env) (auth : AuthChecker) (caller : String) (input : CreateTaskInput)
    → Keeps HasNoCycle (create env auth caller input)
unfolding create
create-HasNoCycle env auth caller input =
    let parent = truthy input.parent_id in
    let linked : M Task = link_targets env input.depends_on >> get_created env.nanoid in
    let inserted : M Task = link_parent env parent >> linked in
    >>=-Keeps HasNoCycle (check_parent auth caller parent)
      (λ _. insert_task (new_task env caller input) >> inserted)
      (check_parent-HasNoCycle auth caller parent)
      λ _.
        >>=-Keeps HasNoCycle (insert_task (new_task env caller input)) (λ _. inserted)
          (insert_task-HasNoCycle (new_task env caller input))
          λ _.
            >>=-Keeps HasNoCycle (link_parent env parent) (λ _. linked)
              (link_parent-HasNoCycle env parent)
              λ _.
                >>=-Keeps HasNoCycle (link_targets env input.depends_on)
                  (λ _. get_created env.nanoid) (link_targets-HasNoCycle env input.depends_on)
                  λ _. get_created-Keeps HasNoCycle env.nanoid

-- Adding a dependency closes no cycle of blocking edges.
pub add_dep-HasNoCycle :
    (env : Env) (auth : AuthChecker) (caller source target : String) (dep_type : DepType)
    → Keeps HasNoCycle (add_dep env auth caller source target dep_type)
unfolding add_dep
add_dep-HasNoCycle env auth caller source target dep_type =
    let add = add_dep_internal env source target dep_type in
    >>=-Keeps HasNoCycle (get_owned auth caller source) (λ _. get_or_throw target >> add)
      (get_owned-Keeps HasNoCycle auth caller source)
      λ _.
        >>=-Keeps HasNoCycle (get_or_throw target) (λ _. add) (get_or_throw-Keeps HasNoCycle target)
          λ _. add_dep_internal-HasNoCycle env source target dep_type

pub remove_dep-HasNoCycle :
    (auth : AuthChecker) (caller source target : String)
    → Keeps HasNoCycle (remove_dep auth caller source target)
unfolding remove_dep
remove_dep-HasNoCycle auth caller source target =
    >>=-Keeps HasNoCycle (get_owned auth caller source) (λ _. delete_dep source target)
      (get_owned-Keeps HasNoCycle auth caller source) λ _. delete_dep-HasNoCycle source target

pub delete_by_session-HasNoCycle : (caller : String) → Keeps HasNoCycle (delete_by_session caller)
unfolding delete_by_session
delete_by_session-HasNoCycle caller db h =
    let owned = filter (λ t. t.owner_session == caller) db.tasks in
    elim (Bool-cases (nat_beq (length owned) 0)) [
      | inl empty ↦ rw empty h
      | inr some_left ↦
          rw some_left (filter-IsAcyclic (λ d. not (owned_source caller db.tasks d)) db.deps h)
    ]

check_status-HasNoCycle :
    (from : Status) (to : Option Status) → Keeps HasNoCycle (check_status from to)
unfolding check_status
check_status-HasNoCycle from none = λ db h. h
check_status-HasNoCycle from (some to) = assert_valid_transition-Keeps HasNoCycle from to

write_columns-HasNoCycle :
    (env : Env) (task_id : String) (t : Task) (input : UpdateTaskInput)
    → Keeps HasNoCycle (write_columns env task_id t input)
unfolding write_columns
write_columns-HasNoCycle env task_id t input =
    let written : M Task = update_where_id task_id (set_columns env input) >> get_created task_id in
    if-Keeps HasNoCycle (no_sets input) (return t) written (λ _ h. h)
      (>>=-Keeps HasNoCycle (update_where_id task_id (set_columns env input))
        (λ _. get_created task_id) (update_where_id-HasNoCycle task_id (set_columns env input))
        λ _. get_created-Keeps HasNoCycle task_id)

pub update-HasNoCycle :
    (env : Env) (auth : AuthChecker) (caller task_id : String) (input : UpdateTaskInput)
    → Keeps HasNoCycle (update env auth caller task_id input)
unfolding update
update-HasNoCycle env auth caller task_id input =
    >>=-Keeps HasNoCycle (get_owned auth caller task_id)
      (λ t. check_status t.status input.status >> write_columns env task_id t input)
      (get_owned-Keeps HasNoCycle auth caller task_id)
      λ t.
        >>=-Keeps HasNoCycle (check_status t.status input.status)
          (λ _. write_columns env task_id t input) (check_status-HasNoCycle t.status input.status)
          λ _. write_columns-HasNoCycle env task_id t input

pub close-HasNoCycle :
    (env : Env) (auth : AuthChecker) (caller task_id reason : String)
    → Keeps HasNoCycle (close env auth caller task_id reason)
unfolding close
close-HasNoCycle env auth caller task_id reason =
    let written : M Task =
      update_where_id task_id (close_columns env reason) >> get_created task_id in
    >>=-Keeps HasNoCycle (get_owned auth caller task_id)
      (λ t. assert_valid_transition t.status closed >> written)
      (get_owned-Keeps HasNoCycle auth caller task_id)
      λ t.
        >>=-Keeps HasNoCycle (assert_valid_transition t.status closed) (λ _. written)
          (assert_valid_transition-Keeps HasNoCycle t.status closed)
          λ _.
            >>=-Keeps HasNoCycle (update_where_id task_id (close_columns env reason))
              (λ _. get_created task_id)
              (update_where_id-HasNoCycle task_id (close_columns env reason))
              λ _. get_created-Keeps HasNoCycle task_id
