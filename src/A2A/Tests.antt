-- ===== src/A2A/Tests.antt =====
-- Requests to the A2A server of packages/federation/a2a/src/server at concrete inputs.
use crabbykit.Prelude.{
  ℕ, String, ◌≡◌, refl, true, none, some, [], ◌∷◌, ◌++◌, inl, In, string_eq, sort_by, insert_by,
  slice,
}
use crabbykit.Sessions as Sessions
use crabbykit.Sessions.Store as SessionStore
use crabbykit.A2A.{
  user, text_part, Message, TaskState, working, completed, Artifact, MessageSendParams,
}
use crabbykit.A2A.Store.{
  TaskRow, TaskDb, new_row, create_task, get_task, update_status, newest_first, row_to_task,
  get_session_id_for_context, add_artifact, get_artifacts,
}
use crabbykit.A2A.Executor.{
  Run, Server, extract_text, resolve_session, with_session, started, execute_text, execute,
}
use crabbykit.A2A.Settle.{responded}
use crabbykit.A2A.Handler.{
  Env, message_send, tasks_cancel, validate_message_params, check_task, create_message_task,
  run_message, start_message, send_checked, handle_send_message, handle_request, streamed,
}
use crabbykit.A2A.Reachable.{Reachable, opened, requested}
use crabbykit.A2A.Working.{working_task-IsRunning}
use crabbykit.A2A.Ended.{handle_request-ended_task}
use crabbykit.A2A.Stream.{flat, end_events, execute-streamed}
use crabbykit.A2A.Artifacts.{stored, get_artifacts-add_artifact}

abbrev now : ℕ → String
now n = "2026-01-01T00:00:00.000Z"

abbrev session_env : Sessions.Env
session_env = record {
  nanoid = "s";
  iso_now = "2026-01-01T00:00:00.000Z";
  sql_now = "2026-01-01 00:00:00";
  ms_now = 5;
}

abbrev env : Env
env = record { nanoid = "t"; clock = now; sessions = session_env; handles = none }

abbrev hello : Message
hello = record {
  message_id = "m";
  role = some user;
  parts = text_part "Hello" none ∷ [];
  context_id = some "c";
  task_id = none;
  reference_task_ids = none;
  extensions = none;
  metadata = none;
}

abbrev params : MessageSendParams
params = record { message = some hello; configuration = none }

abbrev no_sessions : Sessions.Db
no_sessions = record { sessions = []; entries = [] }

abbrev server : Server
server = record {
  tasks = record { tasks = []; artifacts = []; push_configs = [] };
  sessions = no_sessions;
  running = [];
}

-- A message has been sent, and its prompt runs.
abbrev sent : Server
unfolding handle_request
sent = (handle_request env (message_send (some params)) server).1

sent-Reachable : Reachable sent
unfolding sent
sent-Reachable = requested env (message_send (some params)) (opened no_sessions)

abbrev row : TaskState → TaskRow
row state = record (new_row "t" "c" "c" none (now 0)) { state = state }

abbrev tasks : TaskState → TaskDb
tasks state = record { tasks = row state ∷ []; artifacts = []; push_configs = [] }

abbrev done : Server
done = record server { tasks = tasks completed }

working_task-IsRunning_example : (run : Run) × In run sent.running × (run.task_id ≡ "t")
unfolding sent handle_request handle_send_message validate_message_params send_checked check_task
    start_message create_message_task create_task get_session_id_for_context newest_first sort_by
    insert_by run_message execute extract_text execute_text resolve_session SessionStore.create
    SessionStore.get_created SessionStore.new_session SessionStore.get with_session update_status
    slice
working_task-IsRunning_example =
    working_task-IsRunning sent sent-Reachable (row working) (inl refl) refl

handle_request-ended_task_example :
    get_task (handle_request env (tasks_cancel (some "t")) done).1.tasks "t"
    ≡ some (row_to_task (row completed))
unfolding get_task
handle_request-ended_task_example =
    handle_request-ended_task env (tasks_cancel (some "t")) done "t" (row_to_task (row completed))
      refl refl

execute-streamed_example :
    streamed "t" (execute session_env now "t" hello none done).0.0 (
      end_events now
        (execute session_env now "t" hello none done).0.0
        (responded "Hi")
        (tasks working))
    ≡ (
      flat (
          end_events now
            (execute session_env now "t" hello none done).0.0
            (responded "Hi")
            (tasks working)),
      true,
    )
unfolding execute extract_text execute_text resolve_session SessionStore.create
    SessionStore.get_created SessionStore.new_session SessionStore.get with_session started slice
    get_session_id_for_context newest_first sort_by insert_by
execute-streamed_example =
    execute-streamed session_env now now "t" hello none done (responded "Hi") (tasks working)

abbrev report : Artifact
report = record {
  artifact_id = "a";
  name = some "report";
  description = none;
  parts = text_part "Done" none ∷ [];
  extensions = none;
  metadata = none;
}

get_artifacts-add_artifact_example :
    (db : TaskDb) × (add_artifact "r" "t" report (tasks working) ≡ some db)
    × (get_artifacts db "t" ≡ get_artifacts (tasks working) "t" ++ stored report ∷ [])
get_artifacts-add_artifact_example =
    get_artifacts-add_artifact "r" "t" report (tasks working) refl refl
