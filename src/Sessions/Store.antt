-- ===== src/Sessions/Store.antt =====
-- The methods of `SessionStore` in session-store.ts over the tables `sessions` and
-- `session_entries`.
use Prim.Native.Nat.{max}
use crabbykit.Prelude.{
  ℕ, ◌+◌, String, Bool, false, not, ◌&&◌, Option, none, some, List, [], ◌∷◌, ◌++◌, map, ◌==◌,
  string_eq, if◌then◌else◌, leb, ltb, text_le, head?, filter, any, length, take, get_or_else,
  sort_by,
}
use crabbykit.Sessions.{
  Session, EntryData, mode_enter, mode_exit, Entry, Db, session_not_found, retrieve_failed,
  unique_constraint, Outcome, ok, err, Env,
}

-- SELECT * FROM sessions WHERE id = ?
unfoldable pub get : Db → String → Option Session
get db session_id = head? (filter (λ s. s.id == session_id) db.sessions)

abbrev pub default_session_source : String
default_session_source = "websocket"

pub record CreateOptions : Type 0 where
  pub name : Option String
  pub source : Option String
  pub sender : Option String

unfoldable pub new_session : Env → CreateOptions → Session
new_session env opts = record {
  id = env.nanoid;
  name = get_or_else opts.name "";
  source = get_or_else opts.source default_session_source;
  sender = opts.sender;
  leaf_id = none;
  active_mode_id = none;
  created_at = env.sql_now;
  updated_at = env.sql_now;
}

-- The row that an insert has just written.
unfoldable pub get_created : String → Db → Outcome Session × Db
get_created session_id db = elim (get db session_id) [
  | none ↦ (err (retrieve_failed session_id), db)
  | some s ↦ (ok s, db)
]

unfoldable pub create : Env → CreateOptions → Db → Outcome Session × Db
unfolding get_created new_session
create env opts db =
    if any (λ s. s.id == env.nanoid) db.sessions
    then (err unique_constraint, db)
    else get_created env.nanoid (record db { sessions = db.sessions ++ new_session env opts ∷ [] })

abbrev sender_is : String → Option String → Bool
sender_is sender none = false
sender_is sender (some s) = s == sender

unfoldable pub find_by_source_and_sender : Db → String → String → Option Session
find_by_source_and_sender db source sender =
    head? (filter (λ s. s.source == source && sender_is sender s.sender) db.sessions)

-- ORDER BY updated_at DESC
unfoldable pub list : Db → List Session
list db = sort_by (λ s t. text_le t.updated_at s.updated_at) db.sessions

-- The entries go by ON DELETE CASCADE.
unfoldable pub delete : String → Db → Db
delete session_id db = record {
  sessions = filter (λ s. not (s.id == session_id)) db.sessions;
  entries = filter (λ e. not (e.session_id == session_id)) db.entries;
}

-- UPDATE sessions SET … WHERE id = ?
abbrev pub update_row : String → (Session → Session) → Session → Session
update_row session_id f s = if s.id == session_id then f s else s

unfoldable pub update_session : String → (Session → Session) → Db → Db
update_session session_id f db = record db { sessions = map (update_row session_id f) db.sessions }

unfoldable pub rename : Env → String → String → Db → Db
unfolding update_session
rename env session_id name =
    update_session session_id (λ s. record s { name = name; updated_at = env.sql_now })

unfoldable pub set_active_mode : Env → String → Option String → Db → Db
unfolding update_session
set_active_mode env session_id mode_id =
    update_session session_id (λ s. record s { active_mode_id = mode_id; updated_at = env.sql_now })

unfoldable pub read_active_mode_id : Db → String → Option String
read_active_mode_id db session_id = elim (get db session_id) [
  | none ↦ none
  | some s ↦ s.active_mode_id
]

abbrev pub of_session : String → Entry → Bool
of_session session_id e = e.session_id == session_id

-- SELECT * FROM session_entries WHERE session_id = ? ORDER BY seq
unfoldable pub get_entries : Db → String → List Entry
get_entries db session_id =
    sort_by (λ d e. leb d.seq e.seq) (filter (of_session session_id) db.entries)

-- SELECT COALESCE(MAX(seq), 0) …
unfoldable pub max_seq : List Entry → ℕ
max_seq [] = 0
max_seq (e ∷ entries) = max e.seq (max_seq entries)

unfoldable pub new_entry : Env → Db → String → Option String → EntryData → Entry
unfolding max_seq
new_entry env db session_id leaf_id entry_data = record {
  id = env.nanoid;
  parent_id = leaf_id;
  session_id = session_id;
  seq = max_seq (filter (of_session session_id) db.entries) + 1;
  entry_data = entry_data;
  created_at = env.iso_now;
}

-- The session's row after an append: a mode change sets the cached mode in the same UPDATE.
unfoldable pub advance : Env → EntryData → Session → Session
advance env (mode_enter mode) s = record s {
  leaf_id = some env.nanoid;
  updated_at = env.iso_now;
  active_mode_id = some mode;
}
advance env (mode_exit mode) s = record s {
  leaf_id = some env.nanoid;
  updated_at = env.iso_now;
  active_mode_id = none;
}
advance env _ s = record s { leaf_id = some env.nanoid; updated_at = env.iso_now }

unfoldable pub append_to : Env → String → Option String → EntryData → Db → Outcome Entry × Db
unfolding update_session new_entry advance
append_to env session_id leaf_id entry_data db =
    if any (λ e. e.id == env.nanoid) db.entries
    then (err unique_constraint, db)
    else let e = new_entry env db session_id leaf_id entry_data in
      (
        ok e,
        update_session session_id (advance env entry_data)
            (record db { entries = db.entries ++ e ∷ [] }),
      )

unfoldable pub append_entry : Env → String → EntryData → Db → Outcome Entry × Db
unfolding append_to
append_entry env session_id entry_data db = elim (get db session_id) [
  | none ↦ (err (session_not_found session_id), db)
  | some s ↦ append_to env session_id s.leaf_id entry_data db
]

pub record Page : Type 0 where
  pub entries : List Entry
  pub has_more : Bool

abbrev pub default_page_limit : ℕ
default_page_limit = 100

-- One row more than the page is read, to see whether there are more.
unfoldable pub get_entries_paginated : Db → String → Option ℕ → Option ℕ → Page
get_entries_paginated db session_id limit after_seq =
    let n = get_or_else limit default_page_limit in
    let rows = take (n + 1) (
      sort_by (λ d e. leb d.seq e.seq)
        (filter (λ e. of_session session_id e && ltb (get_or_else after_seq 0) e.seq)
          db.entries)) in
    record { entries = take n rows; has_more = ltb n (length rows) }
