-- ===== src/A2A/Executor.antt =====
-- `execute` of `ClawExecutor` in packages/federation/a2a/src/server/claw-executor.ts, up to its call of
-- `sendPrompt`, which is a parameter. The clock answers by the number of its readings.
use Prim.Native.String
use crabbykit.Prelude.{
  ℕ, String, Bool, true, false, Option, none, some, List, [], ◌∷◌, ◌++◌, if◌then◌else◌, truthy,
  get_or_else, join, slice,
}
use crabbykit.Sessions as Sessions
use crabbykit.Sessions.{Session, SessionError, Outcome, ok, err}
use crabbykit.Sessions.Store as SessionStore
use crabbykit.A2A.{
  agent, Part, text_part, file_part, data_part, Message, TaskState, working, submitted, completed,
  failed, TaskStatus, Task, MessageSendConfiguration,
}
use crabbykit.A2A.Store.{TaskDb, get_task, get_session_id_for_context, update_status}
use crabbykit.A2A.EventBus.{BusEvent, status_event}

-- The text of the parts that are text parts.
abbrev texts_of : List Part → List String
texts_of [] = []
texts_of (text_part text metadata ∷ parts) = text ∷ texts_of parts
texts_of (file_part file metadata ∷ parts) = texts_of parts
texts_of (data_part payload metadata ∷ parts) = texts_of parts

abbrev joined : List String → Option String
joined [] = none
joined (text ∷ texts) = some (join "\n" (text ∷ texts))

unfoldable pub extract_text : Message → Option String
extract_text message = joined (texts_of message.parts)

abbrev pub plain_status : TaskState → String → TaskStatus
plain_status state now = record { state = state; message = none; timestamp = now }

-- The status of a task that ends, with one text of the agent.
abbrev pub said_status : TaskState → (message_id text now : String) → TaskStatus
said_status state message_id text now = record {
  state = state;
  message = some (record {
    message_id = message_id;
    role = some agent;
    parts = text_part text none ∷ [];
    context_id = none;
    task_id = none;
    reference_task_ids = none;
    extensions = none;
    metadata = none;
  });
  timestamp = now;
}

abbrev pub failed_status : (task_id text now : String) → TaskStatus
failed_status task_id text now = said_status failed (String.◌++◌ task_id "-error") text now

abbrev pub completed_status : (task_id text now : String) → TaskStatus
completed_status task_id text now = said_status completed (String.◌++◌ task_id "-response") text now

-- The session that is stored for a context, where it exists.
abbrev pub stored_session : Option String → Sessions.Db → Option String
unfolding SessionStore.get
stored_session none db = none
stored_session (some session_id) db = elim (SessionStore.get db session_id) [
  | none ↦ none
  | some s ↦ some session_id
]

abbrev created_session : Outcome Session × Sessions.Db → Outcome String × Sessions.Db
created_session (ok s, db) = (ok s.id, db)
created_session (err e, db) = (err e, db)

-- The session of a prompt: the stored one, or a new one, which can throw.
unfoldable pub resolve_session :
    Sessions.Env → String → Option String → Sessions.Db → Outcome String × Sessions.Db
unfolding SessionStore.create slice
resolve_session env text (some session_id) db = (ok session_id, db)
resolve_session env text none db = created_session (
    SessionStore.create env
      (record {
        name = some (String.◌++◌ "A2A: " (slice 50 text));
        source = some "a2a";
        sender = none;
      })
      db)

-- A call of `sendPrompt` that has no outcome yet.
pub record Run : Type 0 where
  pub task_id : String
  pub context_id : String
  pub session_id : String
  pub text : String
  pub blocking : Bool

-- Where `execute` stands when it first waits: it has answered without a prompt, it waits for one, it has
-- answered and left one running, or it has thrown.
pub data Execution : Type 0 where
  refused : Option Task → Execution
  waiting : Run → Execution
  detached : Run → Option Task → Execution
  thrown : SessionError → Execution

-- The tasks, the sessions of the agent, and the prompts that run.
pub record Server : Type 0 where
  pub tasks : TaskDb
  pub sessions : Sessions.Db
  pub running : List Run

abbrev pub is_blocking : Option MessageSendConfiguration → Bool
is_blocking none = true
is_blocking (some c) = get_or_else c.blocking true

unfoldable pub started : Run → TaskDb → Execution
unfolding get_task
started run tasks = if run.blocking then waiting run else detached run (get_task tasks run.task_id)

unfoldable pub with_session :
    (ℕ → String)
    → String
    → String
    → String
    → Bool
    → Outcome String × Sessions.Db
    → Server
    → (Execution × List BusEvent) × Server
unfolding update_status started
with_session clock task_id context_id text blocking (err e, sessions) s =
    ((thrown e, []), record s { sessions = sessions })
with_session clock task_id context_id text blocking (ok session_id, sessions) s =
    let run : Run = record {
      task_id = task_id;
      context_id = context_id;
      session_id = session_id;
      text = text;
      blocking = blocking;
    } in
    let at_work = plain_status working (clock 2) in
    let tasks = update_status task_id at_work (clock 3) s.tasks in
    (
      (
        started run tasks,
        status_event task_id context_id (plain_status submitted (clock 1)) false
            ∷ status_event task_id context_id at_work false
            ∷ [],
      ),
      record { tasks = tasks; sessions = sessions; running = s.running ++ run ∷ [] },
    )

unfoldable pub execute_text :
    Sessions.Env
    → (ℕ → String)
    → String
    → Option String
    → Message
    → Option MessageSendConfiguration
    → Server
    → (Execution × List BusEvent) × Server
unfolding with_session update_status get_task resolve_session get_session_id_for_context
execute_text env clock task_id none message configuration s =
    let status = failed_status task_id "Message contained no text content" (clock 1) in
    let tasks = update_status task_id status (clock 2) s.tasks in
    (
      (refused (get_task tasks task_id), status_event task_id task_id status true ∷ []),
      record s { tasks = tasks },
    )
execute_text env clock task_id (some text) message configuration s =
    let context_id = get_or_else message.context_id task_id in
    let stored =
      stored_session (truthy (get_session_id_for_context s.tasks context_id)) s.sessions in
    with_session clock task_id context_id text (is_blocking configuration)
      (resolve_session env text stored s.sessions) s

-- `execute` until it first waits, with the events that it has emitted.
unfoldable pub execute :
    Sessions.Env
    → (ℕ → String)
    → String
    → Message
    → Option MessageSendConfiguration
    → Server
    → (Execution × List BusEvent) × Server
unfolding execute_text extract_text
execute env clock task_id message configuration s =
    execute_text env clock task_id (truthy (extract_text message)) message configuration s
