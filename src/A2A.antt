-- ===== src/A2A.antt =====
-- The server of the A2A protocol, packages/federation/a2a/src: the types of types.ts and errors.ts. A
-- JSON value is its text. A message that comes in may lack a role; a list or a text that it lacks is
-- the empty one.
pub mod Store
pub mod EventBus
pub mod Executor
pub mod Settle
pub mod Handler
pub mod Reachable
pub mod Working
pub mod Ended
pub mod Stream
pub mod Artifacts
mod Tests
use crabbykit.Prelude.{ℕ, String, Bool, true, false, Option, List}

abbrev pub Json : Type 0
Json = String

pub data Role : Type 0 where
  user agent : Role

pub record FileContent : Type 0 where
  pub name : Option String
  pub mime_type : Option String
  pub bytes : Option String
  pub uri : Option String

-- A part with its metadata.
pub data Part : Type 0 where
  text_part : String → Option Json → Part
  file_part : FileContent → Option Json → Part
  data_part : Json → Option Json → Part

pub record Message : Type 0 where
  pub message_id : String
  pub role : Option Role
  pub parts : List Part
  pub context_id : Option String
  pub task_id : Option String
  pub reference_task_ids : Option (List String)
  pub extensions : Option (List String)
  pub metadata : Option Json

pub data TaskState : Type 0 where
  submitted working completed failed canceled rejected : TaskState
  input_required auth_required unknown : TaskState

abbrev pub is_terminal_state : TaskState → Bool
is_terminal_state completed = true
is_terminal_state canceled = true
is_terminal_state failed = true
is_terminal_state rejected = true
is_terminal_state _ = false

abbrev pub is_interrupted_state : TaskState → Bool
is_interrupted_state input_required = true
is_interrupted_state auth_required = true
is_interrupted_state _ = false

pub record TaskStatus : Type 0 where
  pub state : TaskState
  pub message : Option Message
  pub timestamp : String

pub record Artifact : Type 0 where
  pub artifact_id : String
  pub name : Option String
  pub description : Option String
  pub parts : List Part
  pub extensions : Option (List String)
  pub metadata : Option Json

pub record Task : Type 0 where
  pub id : String
  pub context_id : String
  pub status : TaskStatus
  pub artifacts : Option (List Artifact)
  pub history : Option (List Message)
  pub metadata : Option Json

pub record Authentication : Type 0 where
  pub schemes : List String
  pub credentials : Option String

pub record PushNotificationConfig : Type 0 where
  pub url : String
  pub token : Option String
  pub authentication : Option Authentication

pub record MessageSendConfiguration : Type 0 where
  pub accepted_output_modes : Option (List String)
  pub blocking : Option Bool
  pub history_length : Option ℕ
  pub push_notification_config : Option PushNotificationConfig

pub record MessageSendParams : Type 0 where
  pub message : Option Message
  pub configuration : Option MessageSendConfiguration

pub record TaskStatusUpdateEvent : Type 0 where
  pub task_id : String
  pub context_id : String
  pub status : TaskStatus
  pub final : Bool

pub record TaskArtifactUpdateEvent : Type 0 where
  pub task_id : String
  pub context_id : String
  pub artifact : Artifact
  pub append : Bool
  pub last_chunk : Bool

-- `StreamEvent`; a task that is complete may be missing.
pub data StreamEvent : Type 0 where
  status_update : TaskStatusUpdateEvent → StreamEvent
  artifact_update : TaskArtifactUpdateEvent → StreamEvent
  task_update : Option Task → StreamEvent

pub record ListTasksParams : Type 0 where
  pub context_id : Option String
  pub limit : Option ℕ
  pub offset : Option ℕ

-- The codes of the errors that the handler answers.
pub data ErrorCode : Type 0 where
  method_not_found invalid_params internal_error : ErrorCode
  task_not_found task_not_cancelable unsupported_operation : ErrorCode
