-- ===== src/Tasks/Db.antt =====
-- The tables `tasks` and `task_deps` of task-store.ts under a state monad whose errors keep the
-- state, since the code runs its statements outside a transaction. The columns that the code fills
-- from nanoid and from the clocks are values that each call receives.
pub mod Keeps
use crabbykit.Prelude.{
  ℕ, String, Bool, true, false, not, ◌&&◌, ◌||◌, Option, none, some, List, [], ◌∷◌, ◌++◌, map, ◌==◌,
  string_eq, if◌then◌else◌, head?, filter, any, length, get_or_else,
}
use crabbykit.Tasks.{
  Status, valid_transition, Task, TaskDep, TaskError, missing_task, task_auth, invalid_transition,
  unique_constraint, retrieve_failed,
}

pub record Db : Type 0 where
  pub tasks : List Task
  pub deps : List TaskDep

pub record Env : Type 0 where
  pub nanoid : String
  pub iso_now : String
  pub sql_now : String

pub data Outcome (A : Type 0) : Type 0 where
  ok : A → Outcome A
  err : TaskError → Outcome A

abbrev pub M : Type 0 → Type 0
M A = Db → Outcome A × Db

abbrev pub run_then : {A B : Type 0} → Outcome A × Db → (A → M B) → Outcome B × Db
run_then (ok a, db) f = f a db
run_then (err e, db) f = (err e, db)

infixl 5 ◌>>=◌ ◌>>◌
abbrev pub ◌>>=◌ : {A B : Type 0} → M A → (A → M B) → M B
◌>>=◌ m f db = run_then (m db) f

abbrev pub ◌>>◌ : {A B : Type 0} → M A → M B → M B
m >> k = m >>= λ _. k

abbrev pub return : {A : Type 0} → A → M A
return a db = (ok a, db)

abbrev pub throw : {A : Type 0} → TaskError → M A
throw e db = (err e, db)

abbrev pub AuthChecker : Type 0
AuthChecker = String → String → Bool

unfoldable pub default_auth_checker : AuthChecker
default_auth_checker caller owner = caller == owner

abbrev pub has_id : String → Task → Bool
has_id task_id t = t.id == task_id

-- SELECT * FROM tasks WHERE id = ?; `none` is that `.one()` finds no row, and answers null or throws.
unfoldable pub get : List Task → String → Option Task
get tasks task_id = head? (filter (has_id task_id) tasks)

-- `get`, and the TaskNotFoundError that its callers throw where it does not throw itself.
unfoldable pub get_or_throw : String → M Task
get_or_throw task_id db = elim (get db.tasks task_id) [
  | none ↦ (err (missing_task task_id), db)
  | some t ↦ (ok t, db)
]

unfoldable pub assert_can_write : AuthChecker → String → String → M (Unit {0})
assert_can_write auth caller owner =
    if auth caller owner then return tt else throw (task_auth caller owner)

unfoldable pub assert_valid_transition : Status → Status → M (Unit {0})
assert_valid_transition from to =
    if valid_transition from to then return tt else throw (invalid_transition from to)

-- `get`, and the check that the caller may write.
unfoldable pub get_owned : AuthChecker → String → String → M Task
unfolding get_or_throw assert_can_write
get_owned auth caller task_id = do
  t ← get_or_throw task_id
  assert_can_write auth caller t.owner_session
  return t

-- INSERT INTO task_deps, whose primary key is (source_id, target_id).
abbrev pub same_edge : String → String → TaskDep → Bool
same_edge source target d = d.source_id == source && d.target_id == target

unfoldable pub insert_dep : TaskDep → M (Unit {0})
insert_dep d db =
    if any (same_edge d.source_id d.target_id) db.deps
    then (err unique_constraint, db)
    else (ok tt, record db { deps = db.deps ++ d ∷ [] })

-- INSERT INTO tasks, whose primary key is id.
unfoldable pub insert_task : Task → M (Unit {0})
insert_task t db =
    if any (has_id t.id) db.tasks
    then (err unique_constraint, db)
    else (ok tt, record db { tasks = db.tasks ++ t ∷ [] })

-- UPDATE tasks SET … WHERE id = ?
unfoldable pub update_where_id : String → (Task → Task) → M (Unit {0})
update_where_id task_id f db =
    (ok tt, record db { tasks = map (λ t. if has_id task_id t then f t else t) db.tasks })

-- The row that a statement of the same call has just written.
unfoldable pub get_created : String → M Task
get_created task_id db = elim (get db.tasks task_id) [
  | none ↦ (err (retrieve_failed task_id), db)
  | some t ↦ (ok t, db)
]
