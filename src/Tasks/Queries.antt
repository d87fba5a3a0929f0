-- ===== src/Tasks/Queries.antt =====
-- The queries of task-store.ts: `list`, `getDeps` and `ready`. SQLite leaves the order of rows that
-- tie open; here they keep the table's order.
pub mod Ready
pub mod Progress
use crabbykit.Prelude.{
  text_le, truthy, String, Bool, true, false, not, ◌&&◌, ◌||◌, Option, none, some, List, ◌==◌,
  string_eq, leb, ltb, if◌then◌else◌, filter, any, sort_by,
}
use crabbykit.Tasks.{is_blocking, is_closed, is_open, Task, TaskDep}
use crabbykit.Tasks.Db.{Db}

abbrev owned_by : Option String → Task → Bool
owned_by none t = true
owned_by (some owner) t = t.owner_session == owner

unfoldable pub list : Db → Option String → List Task
list db owner =
    sort_by (λ t u. text_le t.created_at u.created_at) (filter (owned_by (truthy owner)) db.tasks)

unfoldable pub get_deps : Db → String → List TaskDep
get_deps db task_id = filter (λ d. d.source_id == task_id || d.target_id == task_id) db.deps

-- A blocking row of a task whose blocker exists and is not closed.
unfoldable pub open_blocker : Db → Task → TaskDep → Bool
open_blocker db t d =
    d.source_id == t.id
    && (is_blocking d.dep_type
        && any (λ b. b.id == d.target_id && not (is_closed b.status)) db.tasks)

-- NOT EXISTS (SELECT 1 FROM task_deps d JOIN tasks blocker …)
unfoldable pub unblocked : Db → Task → Bool
unfolding open_blocker
unblocked db t = not (any (open_blocker db t) db.deps)

-- ORDER BY t.priority ASC, t.created_at ASC
unfoldable pub ready_le : Task → Task → Bool
ready_le t u =
    if ltb t.priority u.priority
    then true
    else leb t.priority u.priority && text_le t.created_at u.created_at

unfoldable pub ready : Db → Option String → List Task
unfolding unblocked ready_le
ready db owner =
    sort_by ready_le
      (filter (λ t. is_open t.status && (owned_by (truthy owner) t && unblocked db t)) db.tasks)
