-- ===== src/A2A/Reachable.antt =====
-- The server of handler.ts and claw-executor.ts over any sequence of requests and of ends of prompts.
pub mod Requests
pub mod Keeps
use crabbykit.Prelude.{
  ℕ, String, ◌≡◌, Bool, true, false, Option, none, some, List, [], ◌∷◌, ◌++◌, map, on_branches,
  get_or_else, truthy, string_eq,
}
use crabbykit.Sessions as Sessions
use crabbykit.Sessions.{Outcome, ok, err}
use crabbykit.A2A.{
  Json, working, TaskStatus, Message, Task, MessageSendConfiguration, PushNotificationConfig,
  is_terminal_state,
}
use crabbykit.A2A.Store.{
  TaskRow, TaskDb, new_row, has_task, create_task, update_row, update_status, set_push_config,
  get_session_id_for_context,
}
use crabbykit.A2A.EventBus.{BusEvent}
use crabbykit.A2A.Executor.{Run, Server, Execution, with_session, execute_text, execute}
use crabbykit.A2A.Settle.{
  Settled, Prompted, responded, failed_with, complete_blocking, fail_blocking, settle_blocking,
  settle_detached, settle,
}
use crabbykit.A2A.Handler.{
  Env, Request, message_send, message_stream, tasks_get, tasks_cancel, tasks_list, other_method,
  Reply, Response, Checked, valid, invalid, handle_request, handle_send_message,
  handle_stream_message, handle_get_task, handle_cancel_task, handle_list_tasks, send_checked,
  stream_checked, start_message, run_message, after_execute, create_message_task, then_config,
  cancel_known, after_cancel, validate_message_params, configuration_of,
}

-- The servers that requests and ends of prompts lead to; the agent's sessions change in between.
pub data Reachable : Server → Type 0 where
  opened :
      (sessions : Sessions.Db)
      → Reachable (record {
        tasks = record { tasks = []; artifacts = []; push_configs = [] };
        sessions = sessions;
        running = [];
      })
  requested :
      {s : Server} (env : Env) (request : Request)
      → Reachable s
      → Reachable (handle_request env request s).1
  ended :
      {tasks : TaskDb} {sessions : Sessions.Db} (before : List Run) (run : Run) (after : List Run)
      (clock : ℕ → String) (outcome : Prompted)
      → Reachable (record { tasks = tasks; sessions = sessions; running = before ++ run ∷ after })
      → Reachable (record {
        tasks = (settle clock run outcome tasks).tasks;
        sessions = sessions;
        running = before ++ after;
      })
  outside :
      {s : Server} (sessions : Sessions.Db)
      → Reachable s
      → Reachable (record s { sessions = sessions })

-- What a property of the rows and the running prompts needs to hold of every such server.
pub record IsInvariant (P : List TaskRow → List Run → Type 0) : Type 0 where
  pub at_first : P [] []
  pub on_create :
      (db : TaskDb) (running : List Run) (id context_id : String) (metadata : Option Json)
      (now : String)
      → P db.tasks running
      → P
          (db.tasks
            ++ new_row id context_id
                (get_or_else (get_session_id_for_context db context_id) context_id)
                metadata
                now
              ∷ [])
          running
  pub on_start :
      (rows : List TaskRow) (running : List Run) (run : Run) (status : TaskStatus) (now : String)
      → P rows running
      → P (map (update_row run.task_id status now) rows) (running ++ run ∷ [])
  pub on_update :
      (rows : List TaskRow) (running : List Run) (task_id : String) (status : TaskStatus)
      (now : String)
      → (status.state ≡ working → ⊥)
      → P rows running
      → P (map (update_row task_id status now) rows) running
  pub on_end :
      (rows : List TaskRow) (before : List Run) (run : Run) (after : List Run) (status : TaskStatus)
      (now : String)
      → (status.state ≡ working → ⊥)
      → P rows (before ++ run ∷ after)
      → P (map (update_row run.task_id status now) rows) (before ++ after)
