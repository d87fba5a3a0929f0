-- ===== src/Sessions/Tree.antt =====
-- The methods of session-store.ts that walk the parent chain of the entries: `buildContext`,
-- `branch` with `walkActiveModeIdAt`, and `gc`. Their loops run on fuel, one more than the largest
-- sequence number of the session.
pub mod Lookup
pub mod Walks
use Prim.Native.String
use mathlib.Core.Option
use crabbykit.Prelude.{
  ℕ, zero, suc, ◌+◌, String, Bool, true, false, not, ◌&&◌, Option, none, some, List, [], ◌∷◌, ◌++◌,
  map, reverse, ◌==◌, string_eq, if◌then◌else◌, nat_beq, truthy, filter, any, length, drop,
  get_or_else, lookup, insert,
}
use crabbykit.Sessions.{
  Session, user, tool_result, Content, text, text_block, json, MessageEntryData,
  CompactionEntryData, EntryData, message, compaction, model_change, mode_enter, mode_exit, custom,
  Entry, AgentMessage, Db, entry_not_found, out_of_fuel, Outcome, ok, err, Env, Role, assistant,
}
use crabbykit.Sessions.Store.{get, get_entries, max_seq, update_session}

-- `new Map()`, filled with `entryMap.set(entry.id, entry)` for each entry.
unfoldable pub entry_map : List Entry → List (String × Entry) → List (String × Entry)
unfolding insert
entry_map [] m = m
entry_map (e ∷ entries) m = entry_map entries (insert e.id e m)

-- `entryMap.get`
unfoldable pub find_entry : List Entry → String → Option Entry
unfolding entry_map lookup
find_entry entries id = lookup id (entry_map entries [])

abbrev pub Find : Type 0
Find = String → Option Entry

-- `current.parentId ? entryMap.get(current.parentId) : undefined`
abbrev pub find_truthy : Find → Option String → Option Entry
find_truthy find none = none
find_truthy find (some id) = find id

unfoldable pub parent_of : Find → Entry → Option Entry
parent_of find e = find_truthy find (truthy e.parent_id)

abbrev pub cons_some : Entry → Option (List Entry) → Option (List Entry)
cons_some e none = none
cons_some e (some up) = some (e ∷ up)

-- `while (current) { …; current = … }`: the entries from one up to the root; `none` is a walk that
-- spent its fuel.
unfoldable pub ancestors : Find → ℕ → Option Entry → Option (List Entry)
ancestors find zero none = some []
ancestors find zero (some e) = none
ancestors find (suc fuel) none = some []
ancestors find (suc fuel) (some e) = cons_some e (ancestors find fuel (parent_of find e))

unfoldable pub walk_fuel : List Entry → ℕ
walk_fuel entries = suc (max_seq entries)

-- The walk that `buildContext` and `gc` start at a leaf.
unfoldable pub walk_from : List Entry → String → Option (List Entry)
unfolding walk_fuel
walk_from entries leaf =
    ancestors (find_entry entries) (walk_fuel entries) (find_entry entries leaf)

-- The loop of `walkActiveModeIdAt`, which returns at the first mode change.
unfoldable pub mode_at : Find → ℕ → Option Entry → Option (Option String)
mode_at find zero none = some none
mode_at find zero (some e) = none
mode_at find (suc fuel) none = some none
mode_at find (suc fuel) (some e) = elim e.entry_data [
  | mode_exit _ ↦ some none
  | mode_enter mode ↦ some (some mode)
  | _ ↦ mode_at find fuel (parent_of find e)
]

unfoldable pub walk_active_mode_id_at : List Entry → String → Option (Option String)
unfolding walk_fuel
walk_active_mode_id_at entries leaf =
    mode_at (find_entry entries) (walk_fuel entries) (find_entry entries leaf)

-- `path.findIndex((e) => e.id === id)`
unfoldable pub find_index : String → List Entry → Option ℕ
find_index id [] = none
find_index id (e ∷ path) =
    let rest = find_index id path in if e.id == id then some 0 else Option.map suc rest

-- Where the context starts in the path, and the summary of what comes before.
pub record Boundary : Type 0 where
  pub start : ℕ
  pub summary : Option String

-- The loop from the end of the path, whose entries are given newest first: the index of the head
-- is the number of the entries behind it.
unfoldable pub resolve_boundary : List Entry → List Entry → Boundary
unfolding find_index
resolve_boundary path [] = record { start = 0; summary = none }
resolve_boundary path (e ∷ older) =
    let rest = resolve_boundary path older in
    elim e.entry_data [
      | compaction c ↦ record {
        start = get_or_else (find_index c.first_kept_entry_id path) (length older + 1);
        summary = some c.summary;
      }
      | _ ↦ rest
    ]

abbrev tool_content : Content → Content
tool_content (text s) = text_block s
tool_content c = c

unfoldable pub to_message : ℕ → MessageEntryData → AgentMessage
to_message ms_now d = elim d.role [
  | tool_result ↦ record {
    role = tool_result;
    content = tool_content d.content;
    tool_call_id = some (get_or_else d.tool_call_id "");
    tool_name = d.tool_name;
    is_error = d.is_error;
    timestamp = get_or_else d.timestamp ms_now;
    metadata = d.metadata;
  }
  | other ↦ record {
    role = other;
    content = d.content;
    tool_call_id = none;
    tool_name = none;
    is_error = none;
    timestamp = get_or_else d.timestamp ms_now;
    metadata = d.metadata;
  }
]

-- The message entries of a part of the path.
unfoldable pub messages_of : ℕ → List Entry → List AgentMessage
unfolding to_message
messages_of ms_now [] = []
messages_of ms_now (e ∷ path) =
    let rest = messages_of ms_now path in
    elim e.entry_data [ message d ↦ to_message ms_now d ∷ rest | _ ↦ rest ]

-- `if (compactionSummary)`: an empty summary gives no message.
unfoldable pub summary_message : ℕ → Option String → List AgentMessage
summary_message ms_now none = []
summary_message ms_now (some s) =
    record {
      role = user;
      content = text (String.◌++◌ "[Previous conversation summary]\n\n" s);
      tool_call_id = none;
      tool_name = none;
      is_error = none;
      timestamp = ms_now;
      metadata = none;
    }
    ∷ []

-- The messages of a walk, whose entries are given newest first.
unfoldable pub context_of : ℕ → List Entry → List AgentMessage
unfolding resolve_boundary summary_message messages_of
context_of ms_now up =
    let path = reverse up in
    let b = resolve_boundary path up in
    summary_message ms_now (truthy b.summary) ++ messages_of ms_now (drop b.start path)

abbrev map_walk {ℓ} : {A : Type ℓ} → (List Entry → A) → Option (List Entry) → Option A
map_walk f none = none
map_walk f (some up) = some (f up)

-- The leaf of a session, where `!session?.leafId` is false.
abbrev pub leaf_of : Option Session → Option String
leaf_of none = none
leaf_of (some s) = truthy s.leaf_id

unfoldable pub build_context : ℕ → Db → String → Option (List AgentMessage)
unfolding context_of walk_from
build_context ms_now db session_id = elim (leaf_of (get db session_id)) [
  | none ↦ some []
  | some leaf ↦
      let entries = get_entries db session_id in
      if nat_beq (length entries) 0
      then some []
      else map_walk (context_of ms_now) (walk_from entries leaf)
]

unfoldable pub set_branch :
    Env → String → String → Option (Option String) → Db → Outcome (Unit {0}) × Db
unfolding update_session
set_branch env session_id from_id none db = (err out_of_fuel, db)
set_branch env session_id from_id (some mode) db = (
  ok tt,
  update_session session_id
      (λ s. record s { leaf_id = some from_id; updated_at = env.sql_now; active_mode_id = mode })
      db,
)

unfoldable pub branch : Env → String → String → Db → Outcome (Unit {0}) × Db
unfolding set_branch walk_active_mode_id_at
branch env session_id from_id db =
    if any (λ e. e.id == from_id && e.session_id == session_id) db.entries
    then set_branch env session_id from_id
        (walk_active_mode_id_at (get_entries db session_id) from_id) db
    else (err (entry_not_found from_id session_id), db)

abbrev pub has_entry_id : List Entry → Entry → Bool
has_entry_id entries e = any (λ d. d.id == e.id) entries

-- The deletion of `gc`: what is not on the walk, by id.
unfoldable pub delete_unreachable : List Entry → List Entry → Db → ℕ × Db
delete_unreachable entries reachable db =
    let unreachable = filter (λ e. not (has_entry_id reachable e)) entries in
    if nat_beq (length unreachable) 0 then (0, db) else (
      length unreachable,
      record db { entries = filter (λ e. not (has_entry_id unreachable e)) db.entries },
    )

unfoldable pub gc : String → Db → Option (ℕ × Db)
unfolding walk_from delete_unreachable
gc session_id db = elim (leaf_of (get db session_id)) [
  | none ↦ some (0, db)
  | some leaf ↦
      let entries = get_entries db session_id in
      map_walk (λ up. delete_unreachable entries up db) (walk_from entries leaf)
]
