-- ===== src/Tasks/Store/Calls.antt =====
-- The states of the tables of task-store.ts that sequences of calls lead to.
use crabbykit.Prelude.{String, []}
use crabbykit.Tasks.{DepType, CreateTaskInput, UpdateTaskInput}
use crabbykit.Tasks.Graph.Acyclic.{nil-IsAcyclic}
use crabbykit.Tasks.Db.{Db, Env, AuthChecker}
use crabbykit.Tasks.Store
use crabbykit.Tasks.Store.Cycles.{HasNoCycle}
use crabbykit.Tasks.Store.Operations.{
  create-HasNoCycle, update-HasNoCycle, close-HasNoCycle, delete_by_session-HasNoCycle,
  add_dep-HasNoCycle, remove_dep-HasNoCycle,
}

-- A call of the store, whatever it answers.
pub data Call : Type 0 where
  create : Env → AuthChecker → String → CreateTaskInput → Call
  update : Env → AuthChecker → String → String → UpdateTaskInput → Call
  close : Env → AuthChecker → String → String → String → Call
  delete_by_session : String → Call
  add_dep : Env → AuthChecker → String → String → String → DepType → Call
  remove_dep : AuthChecker → String → String → String → Call

-- The tables after a call.
unfoldable pub tables_after : Db → Call → Db
tables_after db (create env auth caller input) = (Store.create env auth caller input db).1
tables_after db (update env auth caller task_id input) =
    (Store.update env auth caller task_id input db).1
tables_after db (close env auth caller task_id reason) =
    (Store.close env auth caller task_id reason db).1
tables_after db (delete_by_session caller) = (Store.delete_by_session caller db).1
tables_after db (add_dep env auth caller source target dep_type) =
    (Store.add_dep env auth caller source target dep_type db).1
tables_after db (remove_dep auth caller source target) =
    (Store.remove_dep auth caller source target db).1

-- The states that calls lead to, from the empty tables on.
pub data Reachable : Db → Type 0 where
  empty : Reachable (record { tasks = []; deps = [] })
  after : {db : Db} (c : Call) → Reachable db → Reachable (tables_after db c)

tables_after-HasNoCycle : (c : Call) (db : Db) → HasNoCycle db → HasNoCycle (tables_after db c)
unfolding tables_after
tables_after-HasNoCycle (create env auth caller input) = create-HasNoCycle env auth caller input
tables_after-HasNoCycle (update env auth caller task_id input) =
    update-HasNoCycle env auth caller task_id input
tables_after-HasNoCycle (close env auth caller task_id reason) =
    close-HasNoCycle env auth caller task_id reason
tables_after-HasNoCycle (delete_by_session caller) = delete_by_session-HasNoCycle caller
tables_after-HasNoCycle (add_dep env auth caller source target dep_type) =
    add_dep-HasNoCycle env auth caller source target dep_type
tables_after-HasNoCycle (remove_dep auth caller source target) =
    remove_dep-HasNoCycle auth caller source target

-- In every state that calls of the store lead to, those that throw among them, no task waits on
-- itself along blocking edges.
pub Reachable-HasNoCycle : {db : Db} → Reachable db → HasNoCycle db
Reachable-HasNoCycle empty = nil-IsAcyclic
Reachable-HasNoCycle (after {db} c r) = tables_after-HasNoCycle c db (Reachable-HasNoCycle r)
