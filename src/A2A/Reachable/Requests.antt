-- ===== src/A2A/Reachable/Requests.antt =====
-- What the requests of handler.ts keep of an invariant of the server.
use crabbykit.Prelude.{
  ℕ, String, Bool, true, false, Option, none, some, List, on_branches, get_or_else, truthy,
  string_eq,
}
use crabbykit.Sessions as Sessions
use crabbykit.Sessions.{Outcome, ok, err}
use crabbykit.A2A.{
  Message, Task, MessageSendConfiguration, PushNotificationConfig, is_terminal_state,
}
use crabbykit.A2A.Store.{TaskRow, TaskDb, has_task, create_task, update_status, set_push_config}
use crabbykit.A2A.EventBus.{BusEvent}
use crabbykit.A2A.Executor.{Run, Server, Execution, with_session, execute_text, execute}
use crabbykit.A2A.Handler.{
  Env, Request, message_send, message_stream, tasks_get, tasks_cancel, tasks_list, other_method,
  Reply, Response, Checked, valid, invalid, handle_request, handle_send_message,
  handle_stream_message, handle_get_task, handle_cancel_task, handle_list_tasks, send_checked,
  stream_checked, start_message, run_message, after_execute, create_message_task, then_config,
  cancel_known, after_cancel, validate_message_params, configuration_of,
}
use crabbykit.A2A.Reachable.{IsInvariant}

module _ {P : List TaskRow → List Run → Type 0} (i : IsInvariant P) where
  abbrev pub Keeps : Server → Type 0
  Keeps s = P s.tasks.tasks s.running

  abbrev KeepsTasks : List Run → Option TaskDb → Type 0
  KeepsTasks running none = Unit
  KeepsTasks running (some db) = P db.tasks running

  store_config-KeepsTasks :
      (running : List Run) (task_id : String) (config : Option PushNotificationConfig)
      (db : Option TaskDb)
      → KeepsTasks running db
      → KeepsTasks running (then_config task_id config db)
  unfolding set_push_config
  store_config-KeepsTasks running task_id config none k = tt
  store_config-KeepsTasks running task_id none (some db) k = k
  store_config-KeepsTasks running task_id (some c) (some db) k =
      on_branches (KeepsTasks running) (has_task db task_id) k tt

  create_message_task-KeepsTasks :
      (env : Env) (m : Message) (configuration : Option MessageSendConfiguration) (s : Server)
      → Keeps s
      → KeepsTasks s.running (create_message_task env m configuration s.tasks)
  unfolding create_message_task create_task
  create_message_task-KeepsTasks env m configuration s k =
      store_config-KeepsTasks s.running env.nanoid _ _ (
        on_branches (KeepsTasks s.running) (has_task s.tasks env.nanoid) tt (
          i.on_create s.tasks s.running env.nanoid (get_or_else m.context_id env.nanoid) m.metadata
            (env.clock 0) k))

  with_session-Keeps :
      (clock : ℕ → String) (task_id context_id text : String) (blocking : Bool)
      (r : Outcome String × Sessions.Db) (s : Server)
      → Keeps s
      → Keeps (with_session clock task_id context_id text blocking r s).1
  unfolding with_session update_status
  with_session-Keeps clock task_id context_id text blocking (err e, sessions) s k = k
  with_session-Keeps clock task_id context_id text blocking (ok session_id, sessions) s k =
      i.on_start s.tasks.tasks s.running _ _ (clock 3) k

  execute_text-Keeps :
      (env : Sessions.Env) (clock : ℕ → String) (task_id : String) (text : Option String)
      (m : Message) (configuration : Option MessageSendConfiguration) (s : Server)
      → Keeps s
      → Keeps (execute_text env clock task_id text m configuration s).1
  unfolding execute_text update_status
  execute_text-Keeps env clock task_id none m configuration s k =
      i.on_update s.tasks.tasks s.running task_id _ (clock 2) (λ h. absurd (cc h)) k
  execute_text-Keeps env clock task_id (some text) m configuration s k =
      with_session-Keeps clock task_id _ text _ _ s k

  after_execute-Keeps :
      (stream : Bool) (task_id : String) (r : (Execution × List BusEvent) × Server)
      → Keeps r.1
      → Keeps (after_execute stream task_id r).1
  after_execute-Keeps true task_id ((x, events), s) k = k
  after_execute-Keeps false task_id ((x, events), s) k = k

  run_message-Keeps :
      (stream : Bool) (env : Env) (m : Message) (configuration : Option MessageSendConfiguration)
      (db : Option TaskDb) (s : Server)
      → Keeps s
      → KeepsTasks s.running db
      → Keeps (run_message stream env m configuration db s).1
  unfolding run_message execute
  run_message-Keeps stream env m configuration none s k kt = k
  run_message-Keeps stream env m configuration (some tasks) s k kt =
      after_execute-Keeps stream env.nanoid _ (
        execute_text-Keeps env.sessions env.clock env.nanoid _ m configuration
          (record s { tasks = tasks }) kt)

  start_message-Keeps :
      (stream : Bool) (env : Env) (m : Message) (configuration : Option MessageSendConfiguration)
      (refusal : Option Response) (s : Server)
      → Keeps s
      → Keeps (start_message stream env m configuration refusal s).1
  unfolding start_message
  start_message-Keeps stream env m configuration (some refusal) s k = k
  start_message-Keeps stream env m configuration none s k =
      run_message-Keeps stream env m configuration _ s k
        (create_message_task-KeepsTasks env m configuration s k)

  send_checked-Keeps :
      (env : Env) (c : Checked) (configuration : Option MessageSendConfiguration) (s : Server)
      → Keeps s
      → Keeps (send_checked env c configuration s).1
  unfolding send_checked
  send_checked-Keeps env (invalid detail) configuration s k = k
  send_checked-Keeps env (valid m) configuration s k =
      start_message-Keeps false env m configuration _ s k

  stream_checked-Keeps :
      (env : Env) (c : Checked) (configuration : Option MessageSendConfiguration) (s : Server)
      → Keeps s
      → Keeps (stream_checked env c configuration s).1
  unfolding stream_checked
  stream_checked-Keeps env (invalid detail) configuration s k = k
  stream_checked-Keeps env (valid m) configuration s k =
      start_message-Keeps true env m configuration none s k

  after_cancel-Keeps :
      (env : Env) (task_id : String) (cancelled : Bool) (s : Server)
      → Keeps s
      → Keeps (after_cancel env task_id cancelled s).1
  unfolding after_cancel update_status
  after_cancel-Keeps env task_id false s k = k
  after_cancel-Keeps env task_id true s k =
      i.on_update s.tasks.tasks s.running task_id _ (env.clock 1) (λ h. absurd (cc h)) k

  cancel_known-Keeps :
      (env : Env) (task_id : String) (task : Option Task) (s : Server)
      → Keeps s
      → Keeps (cancel_known env task_id task s).1
  unfolding cancel_known
  cancel_known-Keeps env task_id none s k = k
  cancel_known-Keeps env task_id (some task) s k =
      on_branches (λ (r : Reply × Server). Keeps r.1) (is_terminal_state task.status.state) k
        (after_cancel-Keeps env task_id _ s k)

  get_task-Keeps : (id : Option String) (s : Server) → Keeps s → Keeps (handle_get_task id s).1
  unfolding handle_get_task
  get_task-Keeps none s k = k
  get_task-Keeps (some id) s k = k

  cancel_task-Keeps :
      (env : Env) (id : Option String) (s : Server)
      → Keeps s
      → Keeps (handle_cancel_task env id s).1
  unfolding handle_cancel_task
  cancel_task-Keeps env none s k = k
  cancel_task-Keeps env (some id) s k = cancel_known-Keeps env id _ s k

  pub handle_request-Keeps :
      (env : Env) (request : Request) (s : Server)
      → Keeps s
      → Keeps (handle_request env request s).1
  unfolding handle_request handle_send_message handle_stream_message handle_list_tasks
  handle_request-Keeps env (message_send params) s k =
      send_checked-Keeps env (validate_message_params params) (configuration_of params) s k
  handle_request-Keeps env (message_stream params) s k =
      stream_checked-Keeps env (validate_message_params params) (configuration_of params) s k
  handle_request-Keeps env (tasks_get id) s k = get_task-Keeps (truthy id) s k
  handle_request-Keeps env (tasks_cancel id) s k = cancel_task-Keeps env (truthy id) s k
  handle_request-Keeps env (tasks_list params) s k = k
  handle_request-Keeps env (other_method name) s k = k
