-- ===== src/A2A/Handler.antt =====
-- `A2AHandler` of packages/federation/a2a/src/server/handler.ts. A request is handled until its first wait;
-- what follows when a prompt ends is `finish`. The ids and the times of a request are its environment.
use crabbykit.Prelude.{
  ℕ, String, Bool, true, false, Option, none, some, List, [], ◌∷◌, ◌==◌, string_eq, if◌then◌else◌,
  truthy, get_or_else,
}
use crabbykit.Sessions as Sessions
use crabbykit.Sessions.{SessionError}
use crabbykit.A2A.{
  Role, Part, Message, canceled, Task, PushNotificationConfig, MessageSendConfiguration,
  MessageSendParams, ListTasksParams, StreamEvent, ErrorCode, method_not_found, invalid_params,
  task_not_found, task_not_cancelable, unsupported_operation, is_terminal_state,
}
use crabbykit.A2A.Store.{
  TaskDb, create_task, get_task, list_tasks, update_status, get_session_id_for_context,
  set_push_config,
}
use crabbykit.A2A.EventBus.{BusEvent, error_event, event_queue}
use crabbykit.A2A.Executor.{
  Server, Run, Execution, refused, waiting, detached, thrown, execute, plain_status,
}
use crabbykit.A2A.Settle.{Settled, cancel, with_artifacts}

pub data Result : Type 0 where
  a_task : Option Task → Result
  task_list : List Task → Result

-- The detail of an error is its message, or the id or the method that its message names; an internal
-- error has the message of what `execute` has thrown.
pub data Response : Type 0 where
  success : Result → Response
  failure : ErrorCode → String → Response
  internal_failure : SessionError → Response

-- What a request is answered with when it first waits: a response, the rejection of its promise, the
-- wait for a prompt, or a stream.
pub data Reply : Type 0 where
  replied : Response → Reply
  throws : Reply
  awaiting : Run → Reply
  streaming : String → Execution → Reply

pub data Request : Type 0 where
  message_send message_stream : Option MessageSendParams → Request
  tasks_get tasks_cancel : Option String → Request
  tasks_list : ListTasksParams → Request
  other_method : String → Request

-- The id of a new task, the readings of the clock, what the session store draws, and the handles of the
-- sessions.
pub record Env : Type 0 where
  pub nanoid : String
  pub clock : ℕ → String
  pub sessions : Sessions.Env
  pub handles : Option (String → Option Bool)

-- `validateMessageParams`: the message, or what is wrong.
pub data Checked : Type 0 where
  valid : Message → Checked
  invalid : String → Checked

abbrev check_id : Message → Checked
check_id m = if m.message_id == "" then invalid "Message must have a messageId" else valid m

abbrev check_role : Option Role → Message → Checked
check_role none m = invalid "Message must have a role"
check_role (some role) m = check_id m

abbrev check_parts : List Part → Message → Checked
check_parts [] m = invalid "Message must contain at least one part"
check_parts (p ∷ parts) m = check_role m.role m

abbrev check_message : Option Message → Checked
check_message none = invalid "Missing required field: message"
check_message (some m) = check_parts m.parts m

unfoldable pub validate_message_params : Option MessageSendParams → Checked
validate_message_params none = invalid "Missing required field: message"
validate_message_params (some params) = check_message params.message

abbrev pub configuration_of : Option MessageSendParams → Option MessageSendConfiguration
configuration_of none = none
configuration_of (some params) = params.configuration

-- The task that a message continues must be there and must not have ended.
abbrev check_existing : String → Option Task → Option Response
check_existing task_id none = some (failure task_not_found task_id)
check_existing task_id (some t) =
    if is_terminal_state t.status.state then some (failure unsupported_operation task_id) else none

unfoldable pub check_task : Option String → TaskDb → Option Response
unfolding get_task
check_task none db = none
check_task (some task_id) db = check_existing task_id (get_task db task_id)

abbrev push_config_of : Option MessageSendConfiguration → Option PushNotificationConfig
push_config_of none = none
push_config_of (some c) = c.push_notification_config

abbrev pub store_config : String → Option PushNotificationConfig → TaskDb → Option TaskDb
unfolding set_push_config
store_config task_id none db = some db
store_config task_id (some c) db = set_push_config task_id c db

abbrev pub then_config : String → Option PushNotificationConfig → Option TaskDb → Option TaskDb
then_config task_id config none = none
then_config task_id config (some db) = store_config task_id config db

-- The new task, with the session that is recorded for its context, or else the context's own id.
unfoldable pub create_message_task :
    Env → Message → Option MessageSendConfiguration → TaskDb → Option TaskDb
unfolding create_task get_session_id_for_context set_push_config
create_message_task env m configuration db =
    let context_id = get_or_else m.context_id env.nanoid in
    let session_id = get_or_else (get_session_id_for_context db context_id) context_id in
    then_config env.nanoid (push_config_of configuration)
      (create_task env.nanoid context_id session_id m.metadata (env.clock 0) db)

abbrev with_all_artifacts : TaskDb → Option Task → Option Task
with_all_artifacts db none = none
with_all_artifacts db (some task) = some (with_artifacts db task)

abbrev reply_of : Execution → TaskDb → Reply
reply_of (refused task) db = replied (success (a_task (with_all_artifacts db task)))
reply_of (waiting run) db = awaiting run
reply_of (detached run task) db = replied (success (a_task (with_all_artifacts db task)))
reply_of (thrown e) db = replied (internal_failure e)

abbrev pub after_execute : Bool → String → (Execution × List BusEvent) × Server → Reply × Server
after_execute true task_id ((x, events), s) = (streaming task_id x, s)
after_execute false task_id ((x, events), s) = (reply_of x s.tasks, s)

unfoldable pub run_message :
    Bool → Env → Message → Option MessageSendConfiguration → Option TaskDb → Server → Reply × Server
unfolding execute
run_message stream env m configuration none s = (throws, s)
run_message stream env m configuration (some tasks) s =
    after_execute stream env.nanoid
      (execute env.sessions env.clock env.nanoid m configuration (record s { tasks = tasks }))

unfoldable pub start_message :
    Bool
    → Env
    → Message
    → Option MessageSendConfiguration
    → Option Response
    → Server
    → Reply × Server
unfolding run_message create_message_task
start_message stream env m configuration (some refusal) s = (replied refusal, s)
start_message stream env m configuration none s =
    run_message stream env m configuration (create_message_task env m configuration s.tasks) s

unfoldable pub send_checked :
    Env → Checked → Option MessageSendConfiguration → Server → Reply × Server
unfolding start_message check_task
send_checked env (invalid detail) configuration s = (replied (failure invalid_params detail), s)
send_checked env (valid m) configuration s =
    start_message false env m configuration (check_task (truthy m.task_id) s.tasks) s

unfoldable pub handle_send_message : Env → Option MessageSendParams → Server → Reply × Server
unfolding send_checked validate_message_params
handle_send_message env params s =
    send_checked env (validate_message_params params) (configuration_of params) s

-- A message that is streamed may continue any task.
unfoldable pub stream_checked :
    Env → Checked → Option MessageSendConfiguration → Server → Reply × Server
unfolding start_message
stream_checked env (invalid detail) configuration s = (replied (failure invalid_params detail), s)
stream_checked env (valid m) configuration s = start_message true env m configuration none s

unfoldable pub handle_stream_message : Env → Option MessageSendParams → Server → Reply × Server
unfolding stream_checked validate_message_params
handle_stream_message env params s =
    stream_checked env (validate_message_params params) (configuration_of params) s

abbrev get_known : String → Option Task → TaskDb → Response
get_known task_id none db = failure task_not_found task_id
get_known task_id (some task) db = success (a_task (some (with_artifacts db task)))

abbrev missing_id : Response
missing_id = failure invalid_params "Missing required field: id"

unfoldable pub handle_get_task : Option String → Server → Reply × Server
unfolding get_task
handle_get_task none s = (replied missing_id, s)
handle_get_task (some task_id) s =
    (replied (get_known task_id (get_task s.tasks task_id) s.tasks), s)

-- `executor.cancel` itself waits for nothing, so its answer and the update of the status are one step.
unfoldable pub after_cancel : Env → String → Bool → Server → Reply × Server
unfolding update_status get_task
after_cancel env task_id false s = (replied (failure task_not_cancelable task_id), s)
after_cancel env task_id true s =
    let tasks = update_status task_id (plain_status canceled (env.clock 0)) (env.clock 1) s.tasks in
    (replied (success (a_task (get_task tasks task_id))), record s { tasks = tasks })

unfoldable pub cancel_known : Env → String → Option Task → Server → Reply × Server
unfolding after_cancel cancel
cancel_known env task_id none s = (replied (failure task_not_found task_id), s)
cancel_known env task_id (some task) s =
    if is_terminal_state task.status.state
    then (replied (failure task_not_cancelable task_id), s)
    else after_cancel env task_id (cancel env.handles task_id s.tasks) s

unfoldable pub handle_cancel_task : Env → Option String → Server → Reply × Server
unfolding cancel_known get_task
handle_cancel_task env none s = (replied missing_id, s)
handle_cancel_task env (some task_id) s = cancel_known env task_id (get_task s.tasks task_id) s

abbrev list_reply : Option (List Task) → Reply
list_reply none = throws
list_reply (some tasks) = replied (success (task_list tasks))

unfoldable pub handle_list_tasks : ListTasksParams → Server → Reply × Server
unfolding list_tasks
handle_list_tasks params s = (list_reply (list_tasks s.tasks params), s)

unfoldable pub handle_request : Env → Request → Server → Reply × Server
unfolding handle_send_message handle_stream_message handle_get_task handle_cancel_task
    handle_list_tasks
handle_request env (message_send params) s = handle_send_message env params s
handle_request env (message_stream params) s = handle_stream_message env params s
handle_request env (tasks_get id) s = handle_get_task (truthy id) s
handle_request env (tasks_cancel id) s = handle_cancel_task env (truthy id) s
handle_request env (tasks_list params) s = handle_list_tasks params s
handle_request env (other_method name) s = (replied (failure method_not_found name), s)

-- The response to a message that waited for its prompt.
unfoldable pub finish : Settled → Response
finish settled = success (a_task (with_all_artifacts settled.tasks settled.answer))

-- What a stream gets that starts with an execution, from the events of its prompt's end. The generator
-- subscribes after `execute` first waits.
abbrev pub later_bursts : String → Execution → List BusEvent → List (List BusEvent)
later_bursts task_id (refused task) events = []
later_bursts task_id (waiting run) events = events ∷ []
later_bursts task_id (detached run task) events = events ∷ []
later_bursts task_id (thrown e) events = (error_event task_id e ∷ []) ∷ []

unfoldable pub streamed : String → Execution → List BusEvent → List StreamEvent × Bool
unfolding event_queue
streamed task_id x events = event_queue task_id (later_bursts task_id x events)
