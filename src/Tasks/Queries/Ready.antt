-- ===== src/Tasks/Queries/Ready.antt =====
-- What `ready` of task-store.ts answers.
use crabbykit.Prelude.{
  truthy, String, ◌≡◌, ◌↔◌, true, false, not, ◌&&◌, Option, none, some, arith, ◌==◌, string_eq,
  Bool-cases, inl, inr, filter, any, In, In-filter, In-sort_by, In-any, any-true,
}
use mathlib.Core.Bool.{and-eq-true_iff}
use text.Mathlib.TextEquality.{eq_iff}
use crabbykit.Tasks.{is_blocking, is_closed, is_open, open_task, closed, Task, TaskDep, Status}
use crabbykit.Tasks.Db.{Db}
use crabbykit.Tasks.Queries.{owned_by, open_blocker, unblocked, ready_le, ready}

-- Every blocking dependency of a task leads to closed tasks only.
abbrev pub AllBlockersClosed : Db → Task → Type 0
AllBlockersClosed db t =
    (d : TaskDep)
    → In d db.deps
    → d.source_id ≡ t.id
    → is_blocking d.dep_type ≡ true
    → (b : Task) → In b db.tasks
    → b.id ≡ d.target_id
    → b.status ≡ closed

abbrev pub IsOwned : Option String → Task → Type 0
IsOwned none t = Unit
IsOwned (some owner) t = t.owner_session ≡ owner

is_closed_iff : (s : Status) → (is_closed s ≡ true) ↔ (s ≡ closed)
is_closed_iff s = ground arith

is_open_iff : (s : Status) → (is_open s ≡ true) ↔ (s ≡ open_task)
is_open_iff s = ground arith

owned_by_iff : (o : Option String) (t : Task) → (owned_by o t ≡ true) ↔ IsOwned o t
owned_by_iff none t = ground arith
owned_by_iff (some owner) t = eq_iff t.owner_session owner

-- A row blocks a task exactly if it leads from the task, as a blocking one, to an unclosed task.
pub open_blocker_iff :
    (db : Db) (t : Task) (d : TaskDep)
    → (open_blocker db t d ≡ true) ↔ (
        (d.source_id ≡ t.id)
        × (is_blocking d.dep_type ≡ true)
        × ((b : Task) × In b db.tasks × (b.id ≡ d.target_id) × (is_closed b.status ≡ false)))
unfolding open_blocker
open_blocker_iff db t d = (
  λ h.
      let (same, rest) = (and-eq-true_iff _ _).0 h in
      let (blocking, found) = (and-eq-true_iff _ _).0 rest in
      let (b, m, q) = any-true _ db.tasks found in
      let (is_b, unclosed) = (and-eq-true_iff _ _).0 q in
      ((eq_iff _ _).0 same, blocking, (b, m, (eq_iff _ _).0 is_b, ground arith)),
  λ (same, blocking, (b, m, is_b, unclosed)).
      let found =
        In-any (λ (u : Task). u.id == d.target_id && not (is_closed u.status)) db.tasks b m
          (ground (arith, eq_iff b.id d.target_id)) in
      ground (arith, eq_iff d.source_id t.id, found),
)

pub unblocked_iff : (db : Db) (t : Task) → (unblocked db t ≡ true) ↔ AllBlockersClosed db t
unfolding unblocked
unblocked_iff db t = (to, from)
  where
    to : unblocked db t ≡ true → AllBlockersClosed db t
    to h d in_deps of_t blocking b in_tasks is_b = elim (Bool-cases (is_closed b.status)) [
      | inl done ↦ (is_closed_iff b.status).0 done
      | inr unclosed ↦
          let blocks =
            (open_blocker_iff db t d).1 (of_t, blocking, (b, in_tasks, is_b, unclosed)) in
          let some_block = In-any (open_blocker db t) db.deps d in_deps blocks in ground arith
    ]

    from : AllBlockersClosed db t → unblocked db t ≡ true
    from h = elim (Bool-cases (any (open_blocker db t) db.deps)) [
      | inl found ↦
          let (d, m, q) = any-true (open_blocker db t) db.deps found in
          let (of_t, blocking, (b, in_tasks, is_b, unclosed)) = (open_blocker_iff db t d).0 q in
          let done = h d m of_t blocking b in_tasks is_b in ground (arith, is_closed_iff b.status)
      | inr none_found ↦ rw none_found
    ]

-- The ready tasks are exactly the tasks of the owner, if one is asked for, that are open and all
-- of whose blockers are closed.
pub In-ready_iff :
    (db : Db) (owner : Option String) (t : Task)
    → In t (ready db owner)
      ↔ (In t db.tasks × (t.status ≡ open_task) × IsOwned (truthy owner) t × AllBlockersClosed db t)
unfolding ready
In-ready_iff db owner t = ground (
  arith,
  In-sort_by ready_le t
      (filter (λ t. is_open t.status && (owned_by (truthy owner) t && unblocked db t)) db.tasks),
  In-filter (λ t. is_open t.status && (owned_by (truthy owner) t && unblocked db t)) t db.tasks,
  is_open_iff t.status,
  owned_by_iff (truthy owner) t,
  unblocked_iff db t,
)
