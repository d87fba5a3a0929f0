-- ===== src/Schedules.antt =====
-- The schedule store, packages/runtime/agent-runtime/src/scheduling: the types of types.ts and the
-- methods of `ScheduleStore` in schedule-store.ts over the table `schedules`. Times are the texts
-- that `toISOString` makes.
pub mod Rows
pub mod Due
mod Tests
use mathlib.Core.Option
use crabbykit.Prelude.{
  ℕ, String, Bool, true, false, ◌&&◌, Option, none, some, List, [], ◌∷◌, ◌++◌, map, ◌==◌, string_eq,
  if◌then◌else◌, truthy, text_le, head?, filter, any, get_or_else, sort_by,
}

pub data HandlerType : Type 0 where
  prompt callback timer : HandlerType

pub record Schedule : Type 0 where
  pub id : String
  pub name : String
  pub cron : String
  pub enabled : Bool
  pub handler_type : HandlerType
  pub prompt : Option String
  pub session_prefix : Option String
  pub owner_id : Option String
  pub next_fire_at : Option String
  pub last_fired_at : Option String
  pub timezone : Option String
  pub expires_at : Option String
  pub status : String
  pub last_error : Option String
  pub retention : ℕ
  pub created_at : String
  pub updated_at : String

pub record NewSchedule : Type 0 where
  pub id : Option String
  pub name : String
  pub cron : String
  pub enabled : Option Bool
  pub handler_type : HandlerType
  pub prompt : Option String
  pub session_prefix : Option String
  pub owner_id : Option String
  pub timezone : Option String
  pub expires_at : Option String
  pub next_fire_at : Option String
  pub retention : Option ℕ

-- A field that is absent is `none`; a nullable one that is set to null is `some none`.
pub record Updates : Type 0 where
  pub name : Option String
  pub cron : Option String
  pub enabled : Option Bool
  pub prompt : Option String
  pub session_prefix : Option String
  pub timezone : Option (Option String)
  pub next_fire_at : Option (Option String)
  pub last_fired_at : Option (Option String)
  pub status : Option String
  pub last_error : Option (Option String)
  pub retention : Option ℕ

-- What nanoid and the clocks give a call.
pub record Env : Type 0 where
  pub nanoid : String
  pub iso_now : String
  pub sql_now : String

abbrev pub default_retention : ℕ
default_retention = 10

-- SELECT * FROM schedules WHERE id = ? LIMIT 1
unfoldable pub get : List Schedule → String → Option Schedule
get rows id = head? (filter (λ s. s.id == id) rows)

unfoldable pub new_row : Env → NewSchedule → Schedule
new_row env config = record {
  id = get_or_else config.id env.nanoid;
  name = config.name;
  cron = config.cron;
  enabled = get_or_else config.enabled true;
  handler_type = config.handler_type;
  prompt = config.prompt;
  session_prefix = some (get_or_else config.session_prefix config.name);
  owner_id = config.owner_id;
  next_fire_at = config.next_fire_at;
  last_fired_at = none;
  timezone = config.timezone;
  expires_at = config.expires_at;
  status = "idle";
  last_error = none;
  retention = get_or_else config.retention default_retention;
  created_at = env.iso_now;
  updated_at = env.iso_now;
}

-- `none` is the primary key's refusal, which throws.
unfoldable pub create : Env → NewSchedule → List Schedule → Option Schedule × List Schedule
unfolding new_row get
create env config rows =
    let row = new_row env config in
    if any (λ s. s.id == row.id) rows
    then (none, rows)
    else (get (rows ++ row ∷ []) row.id, rows ++ row ∷ [])

unfoldable pub list : List Schedule → List Schedule
list rows = sort_by (λ s t. text_le s.created_at t.created_at) rows

unfoldable pub set_columns : Env → Updates → Schedule → Schedule
set_columns env updates s = record s {
  name = get_or_else updates.name s.name;
  cron = get_or_else updates.cron s.cron;
  enabled = get_or_else updates.enabled s.enabled;
  prompt = elim updates.prompt [ none ↦ s.prompt | some p ↦ some p ];
  session_prefix = elim updates.session_prefix [ none ↦ s.session_prefix | some p ↦ some p ];
  timezone = get_or_else updates.timezone s.timezone;
  next_fire_at = get_or_else updates.next_fire_at s.next_fire_at;
  last_fired_at = get_or_else updates.last_fired_at s.last_fired_at;
  status = get_or_else updates.status s.status;
  last_error = get_or_else updates.last_error s.last_error;
  retention = get_or_else updates.retention s.retention;
  updated_at = env.sql_now;
}

-- UPDATE schedules SET … WHERE id = ?
unfoldable pub update_where : String → (Schedule → Schedule) → List Schedule → List Schedule
update_where id f rows = map (λ s. if s.id == id then f s else s) rows

unfoldable pub update : Env → String → Updates → List Schedule → Option Schedule × List Schedule
unfolding get set_columns update_where
update env id updates rows = elim (get rows id) [
  | none ↦ (none, rows)
  | some _ ↦ let rows' = update_where id (set_columns env updates) rows in (get rows' id, rows')
]

unfoldable pub delete : String → List Schedule → List Schedule
delete id rows = filter (λ s. if s.id == id then false else true) rows

abbrev pub fires_by : String → Option String → Bool
fires_by now none = false
fires_by now (some at) = text_le at now

-- ORDER BY next_fire_at ASC, on rows that have one
abbrev pub next_le : Schedule → Schedule → Bool
next_le s t = text_le (get_or_else s.next_fire_at "") (get_or_else t.next_fire_at "")

unfoldable pub get_due_schedules : String → List Schedule → List Schedule
get_due_schedules now rows =
    sort_by next_le (filter (λ s. s.enabled && fires_by now s.next_fire_at) rows)

-- One row's part of MIN(next_fire_at).
abbrev min_with : Option String → Option String → Option String
min_with none m = m
min_with (some at) none = some at
min_with (some at) (some m) = if text_le at m then some at else some m

-- SELECT MIN(next_fire_at) … WHERE enabled = 1 AND next_fire_at IS NOT NULL
unfoldable pub min_next_fire_at : List Schedule → Option String
min_next_fire_at [] = none
min_next_fire_at (s ∷ rows) =
    let rest = min_next_fire_at rows in if s.enabled then min_with s.next_fire_at rest else rest

unfoldable pub get_earliest_fire_time : List Schedule → Option String
unfolding min_next_fire_at
get_earliest_fire_time rows = truthy (min_next_fire_at rows)

unfoldable pub mark_running : Env → String → List Schedule → List Schedule
unfolding update_where
mark_running env id rows =
    update_where id
      (λ s. record s {
        status = "running";
        last_fired_at = some env.iso_now;
        updated_at = env.iso_now;
      })
      rows

unfoldable pub mark_idle : Env → String → List Schedule → List Schedule
unfolding update_where
mark_idle env id rows =
    update_where id (λ s. record s { status = "idle"; last_error = none; updated_at = env.sql_now })
      rows

unfoldable pub mark_failed : Env → String → String → List Schedule → List Schedule
unfolding update_where
mark_failed env id error rows =
    update_where id
      (λ s. record s { status = "failed"; last_error = some error; updated_at = env.sql_now }) rows
