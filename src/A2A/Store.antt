-- ===== src/A2A/Store.antt =====
-- `TaskStore` of packages/federation/a2a/src/server/task-store.ts over its three tables. A column of JSON
-- holds the value that it encodes. `none` is an SQL error: a key that is taken, a task that is missing
-- for a foreign key, a query with OFFSET and no LIMIT.
use Prim.Native.Nat.{max}
use crabbykit.Prelude.{
  ℕ, suc, ◌+◌, String, Bool, not, ◌&&◌, Option, none, some, List, [], ◌∷◌, ◌++◌, map, ◌==◌,
  string_eq, if◌then◌else◌, leb, text_le, head?, filter, any, take, drop, truthy, sort_by,
}
use crabbykit.A2A.{
  Json, Part, Message, TaskState, submitted, TaskStatus, Artifact, Task, Authentication,
  PushNotificationConfig, ListTasksParams,
}

pub record TaskRow : Type 0 where
  pub id : String
  pub context_id : String
  pub session_id : String
  pub state : TaskState
  pub status_message : Option Message
  pub status_timestamp : String
  pub metadata : Option Json
  pub created_at : String
  pub updated_at : String

pub record ArtifactRow : Type 0 where
  pub id : String
  pub task_id : String
  pub artifact_id : String
  pub name : Option String
  pub description : Option String
  pub parts : List Part
  pub seq : ℕ
  pub metadata : Option Json

pub record PushConfigRow : Type 0 where
  pub task_id : String
  pub url : String
  pub token : Option String
  pub auth_schemes : Option (List String)

-- The tables a2a_tasks, a2a_artifacts and a2a_push_configs.
pub record TaskDb : Type 0 where
  pub tasks : List TaskRow
  pub artifacts : List ArtifactRow
  pub push_configs : List PushConfigRow

abbrev pub has_task : TaskDb → String → Bool
has_task db task_id = any (λ r. r.id == task_id) db.tasks

abbrev pub new_row : String → String → String → Option Json → String → TaskRow
new_row id context_id session_id metadata now = record {
  id = id;
  context_id = context_id;
  session_id = session_id;
  state = submitted;
  status_message = none;
  status_timestamp = now;
  metadata = metadata;
  created_at = now;
  updated_at = now;
}

unfoldable pub create_task :
    String → String → String → Option Json → String → TaskDb → Option TaskDb
create_task id context_id session_id metadata now db =
    if has_task db id
    then none
    else some (record db { tasks = db.tasks ++ new_row id context_id session_id metadata now ∷ [] })

abbrev pub row_to_task : TaskRow → Task
row_to_task row = record {
  id = row.id;
  context_id = row.context_id;
  status = record {
    state = row.state;
    message = row.status_message;
    timestamp = row.status_timestamp;
  };
  artifacts = none;
  history = none;
  metadata = row.metadata;
}

abbrev pub task_of : Option TaskRow → Option Task
task_of none = none
task_of (some row) = some (row_to_task row)

unfoldable pub get_task : TaskDb → String → Option Task
get_task db task_id = task_of (head? (filter (λ r. r.id == task_id) db.tasks))

-- ORDER BY created_at DESC
unfoldable pub newest_first : List TaskRow → List TaskRow
unfolding sort_by
newest_first rows = sort_by (λ r s. text_le s.created_at r.created_at) rows

abbrev nonzero : Option ℕ → Option ℕ
nonzero (some (suc n)) = some (suc n)
nonzero _ = none

abbrev page : Option ℕ → Option ℕ → List TaskRow → Option (List TaskRow)
page none none rows = some rows
page none (some offset) rows = none
page (some limit) none rows = some (take limit rows)
page (some limit) (some offset) rows = some (take limit (drop offset rows))

abbrev of_context : Option String → List TaskRow → List TaskRow
of_context none rows = rows
of_context (some context_id) rows = filter (λ r. r.context_id == context_id) rows

abbrev tasks_of : Option (List TaskRow) → Option (List Task)
tasks_of none = none
tasks_of (some rows) = some (map row_to_task rows)

unfoldable pub list_tasks : TaskDb → ListTasksParams → Option (List Task)
unfolding newest_first
list_tasks db opts = tasks_of (
    page (nonzero opts.limit) (nonzero opts.offset)
      (newest_first (of_context (truthy opts.context_id) db.tasks)))

abbrev pub update_row : String → TaskStatus → String → TaskRow → TaskRow
update_row task_id status now row =
    if row.id == task_id
    then record row {
      state = status.state;
      status_message = status.message;
      status_timestamp = status.timestamp;
      updated_at = now;
    }
    else row

unfoldable pub update_status : String → TaskStatus → String → TaskDb → TaskDb
update_status task_id status now db = record db {
  tasks = map (update_row task_id status now) db.tasks;
}

abbrev pub session_of : Option TaskRow → Option String
session_of none = none
session_of (some row) = some row.session_id

unfoldable pub get_session_id : TaskDb → String → Option String
get_session_id db task_id = session_of (head? (filter (λ r. r.id == task_id) db.tasks))

unfoldable pub get_session_id_for_context : TaskDb → String → Option String
unfolding newest_first
get_session_id_for_context db context_id =
    session_of (head? (newest_first (filter (λ r. r.context_id == context_id) db.tasks)))

-- The artifacts and the configuration go by ON DELETE CASCADE.
unfoldable pub delete_task : String → TaskDb → TaskDb
delete_task task_id db = record {
  tasks = filter (λ r. not (r.id == task_id)) db.tasks;
  artifacts = filter (λ a. not (a.task_id == task_id)) db.artifacts;
  push_configs = filter (λ c. not (c.task_id == task_id)) db.push_configs;
}

abbrev pub artifacts_of : TaskDb → String → List ArtifactRow
artifacts_of db task_id = filter (λ a. a.task_id == task_id) db.artifacts

-- `(MAX(seq) ?? -1) + 1`
unfoldable pub next_seq : List ArtifactRow → ℕ
next_seq [] = 0
next_seq (a ∷ rows) = max (a.seq + 1) (next_seq rows)

abbrev pub artifact_row : String → String → Artifact → ℕ → ArtifactRow
artifact_row id task_id artifact seq = record {
  id = id;
  task_id = task_id;
  artifact_id = artifact.artifact_id;
  name = artifact.name;
  description = artifact.description;
  parts = artifact.parts;
  seq = seq;
  metadata = artifact.metadata;
}

unfoldable pub add_artifact : String → String → Artifact → TaskDb → Option TaskDb
unfolding next_seq
add_artifact id task_id artifact db =
    if has_task db task_id && not (any (λ a. a.id == id) db.artifacts)
    then some (record db {
      artifacts =
          db.artifacts
          ++ artifact_row id task_id artifact (next_seq (artifacts_of db task_id)) ∷ [];
    })
    else none

abbrev append_to_row : Option ArtifactRow → List Part → TaskDb → TaskDb
append_to_row none parts db = db
append_to_row (some row) parts db = record db {
  artifacts =
      map (λ a. if a.id == row.id then record a { parts = row.parts ++ parts } else a) db.artifacts;
}

unfoldable pub append_artifact_parts : String → String → List Part → TaskDb → TaskDb
unfolding sort_by
append_artifact_parts task_id artifact_id parts db =
    let rows = filter (λ a. a.artifact_id == artifact_id) (artifacts_of db task_id) in
    append_to_row (head? (sort_by (λ a b. leb b.seq a.seq) rows)) parts db

abbrev pub row_to_artifact : ArtifactRow → Artifact
row_to_artifact row = record {
  artifact_id = row.artifact_id;
  name = truthy row.name;
  description = truthy row.description;
  parts = row.parts;
  extensions = none;
  metadata = row.metadata;
}

unfoldable pub get_artifacts : TaskDb → String → List Artifact
unfolding sort_by
get_artifacts db task_id =
    map row_to_artifact (sort_by (λ a b. leb a.seq b.seq) (artifacts_of db task_id))

abbrev schemes_of : Option Authentication → Option (List String)
schemes_of none = none
schemes_of (some a) = some a.schemes

abbrev config_row : String → PushNotificationConfig → PushConfigRow
config_row task_id config = record {
  task_id = task_id;
  url = config.url;
  token = config.token;
  auth_schemes = schemes_of config.authentication;
}

-- INSERT OR REPLACE
unfoldable pub set_push_config : String → PushNotificationConfig → TaskDb → Option TaskDb
set_push_config task_id config db =
    if has_task db task_id
    then some (record db {
      push_configs =
          filter (λ c. not (c.task_id == task_id)) db.push_configs
          ++ config_row task_id config ∷ [];
    })
    else none

abbrev authentication_of : Option (List String) → Option Authentication
authentication_of none = none
authentication_of (some schemes) = some (record { schemes = schemes; credentials = none })

abbrev config_of : Option PushConfigRow → Option PushNotificationConfig
config_of none = none
config_of (some row) = some (record {
  url = row.url;
  token = truthy row.token;
  authentication = authentication_of row.auth_schemes;
})

unfoldable pub get_push_config : TaskDb → String → Option PushNotificationConfig
get_push_config db task_id = config_of (head? (filter (λ c. c.task_id == task_id) db.push_configs))

unfoldable pub delete_push_config : String → TaskDb → TaskDb
delete_push_config task_id db = record db {
  push_configs = filter (λ c. not (c.task_id == task_id)) db.push_configs;
}
