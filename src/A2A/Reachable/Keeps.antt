-- ===== src/A2A/Reachable/Keeps.antt =====
-- What the ends of prompts of claw-executor.ts keep of an invariant of the server, and so any run of it.
use crabbykit.Prelude.{ℕ, String, Option, none, some, List, [], ◌∷◌, ◌++◌, on_branches, string_eq}
use crabbykit.A2A.{Task}
use crabbykit.A2A.Store.{TaskRow, TaskDb, update_status}
use crabbykit.A2A.EventBus.{BusEvent}
use crabbykit.A2A.Executor.{Run, Server}
use crabbykit.A2A.Settle.{
  Settled, Prompted, responded, failed_with, complete_blocking, fail_blocking, settle_blocking,
  settle_detached, settle,
}
use crabbykit.A2A.Reachable.{Reachable, opened, requested, ended, outside, IsInvariant}
use crabbykit.A2A.Reachable.Requests.{handle_request-Keeps}

module _ {P : List TaskRow → List Run → Type 0} (i : IsInvariant P) where
  module _ (clock : ℕ → String) (before : List Run) (run : Run) (after : List Run) where
    fail_blocking-Keeps :
        (events : List BusEvent) (text : String) (db : TaskDb)
        → P db.tasks (before ++ run ∷ after)
        → P (fail_blocking clock run events text db).tasks.tasks (before ++ after)
    unfolding fail_blocking update_status
    fail_blocking-Keeps events text db k =
        i.on_end db.tasks before run after _ (clock 1) (λ h. absurd (cc h)) k

    complete_blocking-Keeps :
        (event : BusEvent) (task : Option Task) (db : TaskDb)
        → P db.tasks (before ++ after)
        → P (complete_blocking clock run event task db).tasks.tasks (before ++ after)
    unfolding complete_blocking fail_blocking update_status
    complete_blocking-Keeps event none db k =
        i.on_update db.tasks (before ++ after) run.task_id _ (clock 1) (λ h. absurd (cc h)) k
    complete_blocking-Keeps event (some task) db k = k

    settle_blocking-Keeps :
        (outcome : Prompted) (db : TaskDb)
        → P db.tasks (before ++ run ∷ after)
        → P (settle_blocking clock run outcome db).tasks.tasks (before ++ after)
    unfolding settle_blocking update_status
    settle_blocking-Keeps (responded response) db k =
        complete_blocking-Keeps _ _ _
          (i.on_end db.tasks before run after _ (clock 1) (λ h. absurd (cc h)) k)
    settle_blocking-Keeps (failed_with message) db k = fail_blocking-Keeps [] _ db k

    settle_detached-Keeps :
        (outcome : Prompted) (db : TaskDb)
        → P db.tasks (before ++ run ∷ after)
        → P (settle_detached clock run outcome db).tasks.tasks (before ++ after)
    unfolding settle_detached update_status
    settle_detached-Keeps (responded response) db k =
        i.on_end db.tasks before run after _ (clock 1) (λ h. absurd (cc h)) k
    settle_detached-Keeps (failed_with message) db k =
        i.on_end db.tasks before run after _ (clock 1) (λ h. absurd (cc h)) k

    settle-Keeps :
        (outcome : Prompted) (db : TaskDb)
        → P db.tasks (before ++ run ∷ after)
        → P (settle clock run outcome db).tasks.tasks (before ++ after)
    unfolding settle
    settle-Keeps outcome db k =
        on_branches (λ (r : Settled). P r.tasks.tasks (before ++ after)) run.blocking
          (settle_blocking-Keeps outcome db k) (settle_detached-Keeps outcome db k)

  pub Reachable-Keeps : {s : Server} → Reachable s → P s.tasks.tasks s.running
  Reachable-Keeps (opened sessions) = i.at_first
  Reachable-Keeps (requested env request p) =
      handle_request-Keeps i env request _ (Reachable-Keeps p)
  Reachable-Keeps (ended before run after clock outcome p) =
      settle-Keeps clock before run after outcome _ (Reachable-Keeps p)
  Reachable-Keeps (outside sessions p) = Reachable-Keeps p
