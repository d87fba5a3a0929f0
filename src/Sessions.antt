-- ===== src/Sessions.antt =====
-- The session store, packages/runtime/agent-runtime/src/session: the types of types.ts and the
-- tables of session-store.ts. An entry's type and data are one value here, as the union
-- `SessionEntry` has them; the text that JSON.stringify makes of the data is not modelled.
pub mod Store
pub mod Tree
pub mod Invariant
mod Tests
use crabbykit.Prelude.{ℕ, String, Bool, Option, List}

pub record Session : Type 0 where
  pub id : String
  pub name : String
  pub source : String
  pub sender : Option String
  pub leaf_id : Option String
  pub active_mode_id : Option String
  pub created_at : String
  pub updated_at : String

pub data Role : Type 0 where
  user assistant tool_result : Role

-- A text, the one text block that a tool's text becomes, or any other JSON value by its text.
pub data Content : Type 0 where
  text text_block json : String → Content

pub record MessageMetadata : Type 0 where
  pub hidden : Option Bool

pub record MessageEntryData : Type 0 where
  pub role : Role
  pub content : Content
  pub tool_call_id : Option String
  pub tool_name : Option String
  pub is_error : Option Bool
  pub timestamp : Option ℕ
  pub metadata : Option MessageMetadata

pub record CompactionEntryData : Type 0 where
  pub summary : String
  pub first_kept_entry_id : String
  pub tokens_before : ℕ

pub data EntryData : Type 0 where
  message : MessageEntryData → EntryData
  compaction : CompactionEntryData → EntryData
  model_change : (provider model_id : String) → EntryData
  mode_enter : String → EntryData
  mode_exit : String → EntryData
  custom : (custom_type payload : String) → EntryData

-- A row of `session_entries`.
pub record Entry : Type 0 where
  pub id : String
  pub parent_id : Option String
  pub session_id : String
  pub seq : ℕ
  pub entry_data : EntryData
  pub created_at : String

pub record AgentMessage : Type 0 where
  pub role : Role
  pub content : Content
  pub tool_call_id : Option String
  pub tool_name : Option String
  pub is_error : Option Bool
  pub timestamp : ℕ
  pub metadata : Option MessageMetadata

pub record Db : Type 0 where
  pub sessions : List Session
  pub entries : List Entry

pub data SessionError : Type 0 where
  session_not_found : String → SessionError
  entry_not_found : String → String → SessionError
  retrieve_failed : String → SessionError
  unique_constraint : SessionError
  out_of_fuel : SessionError

pub data Outcome (A : Type 0) : Type 0 where
  ok : A → Outcome A
  err : SessionError → Outcome A

-- What nanoid and the clocks give a call.
pub record Env : Type 0 where
  pub nanoid : String
  pub iso_now : String
  pub sql_now : String
  pub ms_now : ℕ
