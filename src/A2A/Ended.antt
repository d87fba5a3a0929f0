-- ===== src/A2A/Ended.antt =====
-- The tasks that have ended under the requests of handler.ts.
use crabbykit.Prelude.{
  ℕ, String, ◌≡◌, refl, sym, ◌∙◌, ap, subst, Bool, true, false, Option, none, some, List, [], ◌∷◌,
  ◌++◌, map, inl, inr, head?, filter, any, Bool-cases, on_branches, truthy, string_eq, ◌==◌, ==-eq,
  ==-ne, ◌≢◌, arith,
}
use crabbykit.Sessions as Sessions
use crabbykit.Sessions.{Outcome, ok, err}
use crabbykit.A2A.{
  is_terminal_state, TaskStatus, Message, Task, MessageSendConfiguration, PushNotificationConfig,
}
use crabbykit.A2A.Store.{
  TaskRow, TaskDb, has_task, create_task, update_row, update_status, get_task, task_of, row_to_task,
  set_push_config,
}
use crabbykit.A2A.EventBus.{BusEvent}
use crabbykit.A2A.Executor.{Server, Execution, with_session, execute_text, execute}
use crabbykit.A2A.Handler.{
  Env, Request, message_send, message_stream, tasks_get, tasks_cancel, tasks_list, other_method,
  Reply, Response, Checked, valid, invalid, handle_request, handle_send_message,
  handle_stream_message, handle_get_task, handle_cancel_task, handle_list_tasks, send_checked,
  stream_checked, start_message, run_message, after_execute, create_message_task, then_config,
  cancel_known, after_cancel, validate_message_params, configuration_of,
}

first_updated :
    (task_id other : String) (status : TaskStatus) (now : String) (rows : List TaskRow)
    → task_id ≢ other
    → head? (filter (λ r. r.id == task_id) (map (update_row other status now) rows))
      ≡ head? (filter (λ r. r.id == task_id) rows)
first_updated task_id other status now [] differ = refl
first_updated task_id other status now (r ∷ rows) differ = ground (
  arith,
  first_updated task_id other status now rows differ,
  string_eq.same_iff r.id task_id,
  string_eq.same_iff r.id other,
)

first_appended :
    (task_id : String) (rows more : List TaskRow) (row : TaskRow)
    → head? (filter (λ r. r.id == task_id) rows) ≡ some row
    → head? (filter (λ r. r.id == task_id) (rows ++ more)) ≡ some row
first_appended task_id [] more row h = absurd (cc h)
first_appended task_id (r ∷ rows) more row h = elim (Bool-cases (r.id == task_id)) [
  | inl same ↦ rw same (rw same at h)
  | inr other ↦ rw other (first_appended task_id rows more row (rw other at h))
]

found-has_task :
    (task_id : String) (rows : List TaskRow) (row : TaskRow)
    → head? (filter (λ r. r.id == task_id) rows) ≡ some row
    → any (λ (r : TaskRow). r.id == task_id) rows ≡ true
found-has_task task_id [] row h = absurd (cc h)
found-has_task task_id (r ∷ rows) row h = elim (Bool-cases (r.id == task_id)) [
  | inl same ↦ rw same refl
  | inr other ↦ rw other (found-has_task task_id rows row (rw other at h))
]

found_row :
    (o : Option TaskRow) (t : Task)
    → task_of o ≡ some t
    → (row : TaskRow) × (o ≡ some row) × (row_to_task row ≡ t)
found_row none t h = absurd (cc h)
found_row (some row) t h = (row, refl, cc h)

module _ (task_id : String) (row : TaskRow) where
  abbrev Has : TaskDb → Type 0
  Has db = head? (filter (λ r. r.id == task_id) db.tasks) ≡ some row

  -- The tables that a message's request has made, where it is for another task.
  abbrev HasStill : String → Option TaskDb → Type 0
  HasStill id none = Unit
  HasStill id (some db) = Has db × (task_id ≢ id)

  update_status-Has :
      (other : String) (status : TaskStatus) (now : String) (db : TaskDb)
      → task_id ≢ other
      → Has db
      → Has (update_status other status now db)
  unfolding update_status
  update_status-Has other status now db differ h =
      first_updated task_id other status now db.tasks differ ∙ h

  then_config-HasStill :
      (id : String) (config : Option PushNotificationConfig) (db : Option TaskDb)
      → HasStill id db
      → HasStill id (then_config id config db)
  unfolding set_push_config
  then_config-HasStill id config none h = tt
  then_config-HasStill id none (some db) h = h
  then_config-HasStill id (some c) (some db) h = on_branches (HasStill id) (has_task db id) h tt

  create_message_task-HasStill :
      (env : Env) (m : Message) (configuration : Option MessageSendConfiguration) (db : TaskDb)
      → Has db
      → HasStill env.nanoid (create_message_task env m configuration db)
  unfolding create_message_task create_task
  create_message_task-HasStill env m configuration db h =
      then_config-HasStill env.nanoid _ _ (elim (Bool-cases (has_task db env.nanoid)) [
        | inl taken ↦ rw taken tt
        | inr free ↦ rw free (
          first_appended task_id db.tasks _ row h,
          λ same. absurd (
              cc (
                sym (found-has_task task_id db.tasks row h)
                ∙ ap (λ id. any (λ (r : TaskRow). r.id == id) db.tasks) same
                ∙ free)),
        )
      ])

  with_session-Has :
      (clock : ℕ → String) (id context_id text : String) (blocking : Bool)
      (r : Outcome String × Sessions.Db) (s : Server)
      → task_id ≢ id
      → Has s.tasks
      → Has (with_session clock id context_id text blocking r s).1.tasks
  unfolding with_session
  with_session-Has clock id context_id text blocking (err e, sessions) s differ h = h
  with_session-Has clock id context_id text blocking (ok session_id, sessions) s differ h =
      update_status-Has id _ (clock 3) s.tasks differ h

  execute_text-Has :
      (env : Sessions.Env) (clock : ℕ → String) (id : String) (text : Option String) (m : Message)
      (configuration : Option MessageSendConfiguration) (s : Server)
      → task_id ≢ id
      → Has s.tasks
      → Has (execute_text env clock id text m configuration s).1.tasks
  unfolding execute_text
  execute_text-Has env clock id none m configuration s differ h =
      update_status-Has id _ (clock 2) s.tasks differ h
  execute_text-Has env clock id (some text) m configuration s differ h =
      with_session-Has clock id _ text _ _ s differ h

  after_execute-Has :
      (stream : Bool) (id : String) (r : (Execution × List BusEvent) × Server)
      → Has r.1.tasks
      → Has (after_execute stream id r).1.tasks
  after_execute-Has true id ((x, events), s) h = h
  after_execute-Has false id ((x, events), s) h = h

  run_message-Has :
      (stream : Bool) (env : Env) (m : Message) (configuration : Option MessageSendConfiguration)
      (db : Option TaskDb) (s : Server)
      → Has s.tasks
      → HasStill env.nanoid db
      → Has (run_message stream env m configuration db s).1.tasks
  unfolding run_message execute
  run_message-Has stream env m configuration none s h still = h
  run_message-Has stream env m configuration (some tasks) s h (still, differ) =
      after_execute-Has stream env.nanoid _ (
        execute_text-Has env.sessions env.clock env.nanoid _ m configuration
          (record s { tasks = tasks }) differ still)

  start_message-Has :
      (stream : Bool) (env : Env) (m : Message) (configuration : Option MessageSendConfiguration)
      (refusal : Option Response) (s : Server)
      → Has s.tasks
      → Has (start_message stream env m configuration refusal s).1.tasks
  unfolding start_message
  start_message-Has stream env m configuration (some refusal) s h = h
  start_message-Has stream env m configuration none s h =
      run_message-Has stream env m configuration _ s h
        (create_message_task-HasStill env m configuration s.tasks h)

  send_checked-Has :
      (env : Env) (c : Checked) (configuration : Option MessageSendConfiguration) (s : Server)
      → Has s.tasks
      → Has (send_checked env c configuration s).1.tasks
  unfolding send_checked
  send_checked-Has env (invalid detail) configuration s h = h
  send_checked-Has env (valid m) configuration s h =
      start_message-Has false env m configuration _ s h

  stream_checked-Has :
      (env : Env) (c : Checked) (configuration : Option MessageSendConfiguration) (s : Server)
      → Has s.tasks
      → Has (stream_checked env c configuration s).1.tasks
  unfolding stream_checked
  stream_checked-Has env (invalid detail) configuration s h = h
  stream_checked-Has env (valid m) configuration s h =
      start_message-Has true env m configuration none s h

  after_cancel-Has :
      (env : Env) (id : String) (cancelled : Bool) (s : Server)
      → task_id ≢ id
      → Has s.tasks
      → Has (after_cancel env id cancelled s).1.tasks
  unfolding after_cancel
  after_cancel-Has env id false s differ h = h
  after_cancel-Has env id true s differ h = update_status-Has id _ (env.clock 1) s.tasks differ h

  cancel_known-Has :
      (env : Env) (id : String) (task : Option Task) (s : Server)
      → task_id ≢ id
      → Has s.tasks
      → Has (cancel_known env id task s).1.tasks
  unfolding cancel_known
  cancel_known-Has env id none s differ h = h
  cancel_known-Has env id (some task) s differ h =
      on_branches (λ (r : Reply × Server). Has r.1.tasks) (is_terminal_state task.status.state) h
        (after_cancel-Has env id _ s differ h)

  module _ (terminal : is_terminal_state row.state ≡ true) where
    -- A cancellation of the task itself is refused.
    cancel_itself-Has :
        (env : Env) (s : Server)
        → Has s.tasks
        → Has (handle_cancel_task env (some task_id) s).1.tasks
    unfolding handle_cancel_task cancel_known get_task
    cancel_itself-Has env s h = rw (ap task_of h) (rw terminal h)

    handle_cancel_task-Has :
        (env : Env) (id : Option String) (s : Server)
        → Has s.tasks
        → Has (handle_cancel_task env id s).1.tasks
    unfolding handle_cancel_task
    handle_cancel_task-Has env none s h = h
    handle_cancel_task-Has env (some id) s h = elim (Bool-cases (task_id == id)) [
      | inl same ↦
          subst (λ id. Has (handle_cancel_task env (some id) s).1.tasks) (==-eq same)
            (cancel_itself-Has env s h)
      | inr other ↦ cancel_known-Has env id (get_task s.tasks id) s (==-ne other) h
    ]

    handle_get_task-Has :
        (id : Option String) (s : Server) → Has s.tasks → Has (handle_get_task id s).1.tasks
    unfolding handle_get_task
    handle_get_task-Has none s h = h
    handle_get_task-Has (some id) s h = h

    handle_request-Has :
        (env : Env) (request : Request) (s : Server)
        → Has s.tasks
        → Has (handle_request env request s).1.tasks
    unfolding handle_request handle_send_message handle_stream_message handle_list_tasks
    handle_request-Has env (message_send params) s h =
        send_checked-Has env (validate_message_params params) (configuration_of params) s h
    handle_request-Has env (message_stream params) s h =
        stream_checked-Has env (validate_message_params params) (configuration_of params) s h
    handle_request-Has env (tasks_get id) s h = handle_get_task-Has (truthy id) s h
    handle_request-Has env (tasks_cancel id) s h = handle_cancel_task-Has env (truthy id) s h
    handle_request-Has env (tasks_list params) s h = h
    handle_request-Has env (other_method name) s h = h

-- No request changes a task that has ended, whatever its id is drawn to be: the task is read as before.
pub handle_request-ended_task :
    (env : Env) (request : Request) (s : Server) (task_id : String) (t : Task)
    → get_task s.tasks task_id ≡ some t
    → is_terminal_state t.status.state ≡ true
    → get_task (handle_request env request s).1.tasks task_id ≡ some t
unfolding get_task
handle_request-ended_task env request s task_id t found terminal =
    let (row, h, same) = found_row _ t found in
    ap task_of (
      handle_request-Has task_id row
        (ap (λ (x : Task). is_terminal_state x.status.state) same ∙ terminal) env request s h)
    ∙ ap some same
