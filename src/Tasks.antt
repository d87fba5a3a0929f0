-- ===== src/Tasks.antt =====
-- The task tracker, packages/capabilities/task-tracker/src: the types of types.ts and the errors
-- of task-store.ts. The children model the store.
pub mod Graph
pub mod Db
pub mod Store
pub mod Queries
mod Tests
use crabbykit.Prelude.{ℕ, String, Bool, true, false, Option, List}

pub data Status : Type 0 where
  open_task in_progress blocked closed : Status

pub data TaskType : Type 0 where
  task epic bug : TaskType

pub data DepType : Type 0 where
  blocks parent_child related : DepType

-- `BLOCKING_DEP_TYPES.has`.
abbrev pub is_blocking : DepType → Bool
is_blocking blocks = true
is_blocking parent_child = true
is_blocking related = false

abbrev pub is_closed : Status → Bool
is_closed closed = true
is_closed _ = false

abbrev pub is_open : Status → Bool
is_open open_task = true
is_open _ = false

-- `VALID_TRANSITIONS.get(from)?.has(to)`.
unfoldable pub valid_transition : Status → Status → Bool
valid_transition open_task in_progress = true
valid_transition open_task closed = true
valid_transition in_progress closed = true
valid_transition in_progress blocked = true
valid_transition blocked in_progress = true
valid_transition blocked closed = true
valid_transition _ _ = false

-- A row of `tasks`, which `rowToTask` reads field by field.
pub record Task : Type 0 where
  pub id : String
  pub parent_id : Option String
  pub owner_session : String
  pub title : String
  pub description : String
  pub acceptance : String
  pub status : Status
  pub priority : ℕ
  pub task_type : TaskType
  pub created_at : String
  pub updated_at : String
  pub closed_at : Option String
  pub close_reason : Option String

-- A row of `task_deps`, which `rowToDep` reads field by field.
pub record TaskDep : Type 0 where
  pub source_id : String
  pub target_id : String
  pub dep_type : DepType
  pub created_at : String

pub record CreateTaskInput : Type 0 where
  pub title : String
  pub description : Option String
  pub acceptance : Option String
  pub task_type : Option TaskType
  pub priority : Option ℕ
  pub parent_id : Option String
  pub depends_on : List String

pub record UpdateTaskInput : Type 0 where
  pub status : Option Status
  pub priority : Option ℕ
  pub description : Option String
  pub acceptance : Option String

-- The error classes, and the exception of SQLite where a primary key is taken. Where `.one()` answers
-- null on no row, `missing_task` is TaskNotFoundError; where it throws, what it throws.
pub data TaskError : Type 0 where
  missing_task : String → TaskError
  task_auth : String → String → TaskError
  task_cycle : List String → TaskError
  invalid_transition : Status → Status → TaskError
  unique_constraint : TaskError
  retrieve_failed : String → TaskError
  out_of_fuel : TaskError
