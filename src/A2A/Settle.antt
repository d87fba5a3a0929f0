-- ===== src/A2A/Settle.antt =====
-- What follows the outcome of a prompt in `ClawExecutor` of
-- packages/federation/a2a/src/server/claw-executor.ts, with push-notifications.ts; and its `cancel`.
use crabbykit.Prelude.{
  ℕ, String, Bool, true, false, Option, none, some, List, [], ◌∷◌, ◌++◌, if◌then◌else◌, truthy,
  get_or_else,
}
use crabbykit.A2A.{TaskStatus, Task, PushNotificationConfig, TaskStatusUpdateEvent}
use crabbykit.A2A.Store.{
  TaskDb, get_task, get_artifacts, get_session_id, update_status, get_push_config,
}
use crabbykit.A2A.EventBus.{BusEvent, status_event, complete_event}
use crabbykit.A2A.Executor.{Run, failed_status, completed_status}

-- What `sendPrompt` comes to: a response, or what it throws, by its message where that is an `Error`.
pub data Prompted : Type 0 where
  responded : String → Prompted
  failed_with : Option String → Prompted

-- A notification that is posted to the URL of a configuration.
pub record PushNotification : Type 0 where
  pub url : String
  pub token : Option String
  pub event : TaskStatusUpdateEvent

abbrev notification : TaskStatusUpdateEvent → Option PushNotificationConfig → List PushNotification
notification event none = []
notification event (some c) = record { url = c.url; token = truthy c.token; event = event } ∷ []

unfoldable pub fire_push_notifications : TaskDb → TaskStatusUpdateEvent → List PushNotification
unfolding get_push_config
fire_push_notifications tasks event = notification event (get_push_config tasks event.task_id)

abbrev pub with_artifacts : TaskDb → Task → Task
unfolding get_artifacts
with_artifacts tasks task = record task { artifacts = some (get_artifacts tasks task.id) }

-- What a prompt's end leads to: the task that is answered, the events, the notifications, the tasks.
pub record Settled : Type 0 where
  pub answer : Option Task
  pub events : List BusEvent
  pub notifications : List PushNotification
  pub tasks : TaskDb

abbrev pub failure_text : Option String → String
failure_text message = get_or_else message "Execution failed"

-- The `catch` of `executeBlocking`, after the events that were emitted.
unfoldable pub fail_blocking : (ℕ → String) → Run → List BusEvent → String → TaskDb → Settled
unfolding update_status get_task
fail_blocking clock run events text db =
    let status = failed_status run.task_id text (clock 0) in
    let tasks = update_status run.task_id status (clock 1) db in
    let task = get_task tasks run.task_id in
    record {
      answer = task;
      events =
          events
          ++ status_event run.task_id run.context_id status true
            ∷ complete_event run.task_id task
            ∷ [];
      notifications = [];
      tasks = tasks;
    }

-- A task that is gone has no `artifacts` to set, which throws.
unfoldable pub complete_blocking : (ℕ → String) → Run → BusEvent → Option Task → TaskDb → Settled
unfolding fail_blocking with_artifacts
complete_blocking clock run event none tasks =
    fail_blocking clock run (event ∷ []) "Cannot set properties of null (setting 'artifacts')" tasks
complete_blocking clock run event (some task) tasks = record {
  answer = some (with_artifacts tasks task);
  events = event ∷ complete_event run.task_id (some (with_artifacts tasks task)) ∷ [];
  notifications = [];
  tasks = tasks;
}

unfoldable pub settle_blocking : (ℕ → String) → Run → Prompted → TaskDb → Settled
unfolding complete_blocking fail_blocking update_status get_task
settle_blocking clock run (responded response) db =
    let status = completed_status run.task_id response (clock 0) in
    let tasks = update_status run.task_id status (clock 1) db in
    complete_blocking clock run (status_event run.task_id run.context_id status true)
      (get_task tasks run.task_id) tasks
settle_blocking clock run (failed_with message) db =
    fail_blocking clock run [] (failure_text message) db

abbrev final_event : Run → TaskStatus → TaskStatusUpdateEvent
final_event run status = record {
  task_id = run.task_id;
  context_id = run.context_id;
  status = status;
  final = true;
}

unfoldable pub settle_detached : (ℕ → String) → Run → Prompted → TaskDb → Settled
unfolding update_status fire_push_notifications
settle_detached clock run (responded response) db =
    let status = completed_status run.task_id response (clock 0) in
    let tasks = update_status run.task_id status (clock 1) db in
    record {
      answer = none;
      events = status_event run.task_id run.context_id status true ∷ [];
      notifications = fire_push_notifications tasks (final_event run status);
      tasks = tasks;
    }
settle_detached clock run (failed_with message) db =
    let status = failed_status run.task_id (failure_text message) (clock 0) in
    let tasks = update_status run.task_id status (clock 1) db in
    record {
      answer = none;
      events = [];
      notifications = fire_push_notifications tasks (final_event run status);
      tasks = tasks;
    }

unfoldable pub settle : (ℕ → String) → Run → Prompted → TaskDb → Settled
unfolding settle_blocking settle_detached
settle clock run outcome db =
    if run.blocking
    then settle_blocking clock run outcome db
    else settle_detached clock run outcome db

-- `cancel`, with the handle of a session: whether it streams. An agent that streams is aborted.
abbrev streams : Option Bool → Bool
streams none = false
streams (some is_streaming) = is_streaming

abbrev cancel_session : (String → Option Bool) → Option String → Bool
cancel_session handle none = false
cancel_session handle (some session_id) = streams (handle session_id)

unfoldable pub cancel : Option (String → Option Bool) → String → TaskDb → Bool
unfolding get_session_id
cancel none task_id db = false
cancel (some handle) task_id db = cancel_session handle (truthy (get_session_id db task_id))
