-- ===== src/Sessions/Tests.antt =====
-- Calls of the session store of session-store.ts at concrete inputs.
use crabbykit.Prelude.{
  String, ◌≡◌, refl, Option, none, some, sort_by, insert_by, List, sym, ◌∙◌, subst, [], ◌∷◌, In,
  inl, inr, truthy,
}
use crabbykit.Sessions.{Session, user, text, EntryData, message, mode_enter, Entry, Db, Env, ok}
use crabbykit.Sessions.Store.{
  get, get_entries, max_seq, update_session, new_entry, advance, append_entry,
}
use crabbykit.Sessions.Tree.{ancestors, find_entry, parent_of, branch, walk_from, build_context}
use crabbykit.Sessions.Tree.Walks.{mode_of}
use crabbykit.Sessions.Invariant.{IsCached, walk_of, IsWellFormed, walk_total}
use crabbykit.Sessions.Invariant.Append.{appended, db_after}
use crabbykit.Sessions.Invariant.Preserved.{append_entry-IsWellFormed}
use crabbykit.Sessions.Invariant.Branch.{branch-IsWellFormed}

abbrev at : String → Env
at id = record {
  nanoid = id;
  iso_now = "2026-01-01T00:00:00.000Z";
  sql_now = "2026-01-01 00:00:00";
  ms_now = 5;
}

abbrev said : String → EntryData
said s = message (record {
  role = user;
  content = text s;
  tool_call_id = none;
  tool_name = none;
  is_error = none;
  timestamp = some 1;
  metadata = none;
})

abbrev session : Option String → Option String → Session
session leaf mode = record {
  id = "s";
  name = "";
  source = "websocket";
  sender = none;
  leaf_id = leaf;
  active_mode_id = mode;
  created_at = "2026-01-01 00:00:00";
  updated_at = "2026-01-01 00:00:00";
}

abbrev none_yet : Db
none_yet = record { sessions = session none none ∷ []; entries = [] }

only : (s : Session) → In s none_yet.sessions → s ≡ session none none
only s (inl same) = same
only s (inr m) = absurd m

none_yet-IsWellFormed : IsWellFormed none_yet
unfolding walk_of mode_of
none_yet-IsWellFormed = record {
  tree = record {
    unique = λ d e m n same. absurd m;
    parents = λ e m. absurd m;
    leaves = λ s m l there.
        absurd (cc (subst (λ (x : Session). truthy x.leaf_id ≡ some l) (only s m) there));
  };
  keys = λ s t m n same. only s m ∙ sym (only t n);
  cached = λ s m. subst (IsCached none_yet) (sym (only s m)) ([], refl, refl);
}

-- The session enters a mode, and then a message comes.
abbrev entered : Db
entered = db_after (at "e1") "s" (mode_enter "plan") none_yet (session none none)

entered-IsWellFormed : IsWellFormed entered
unfolding get
entered-IsWellFormed =
    (append_entry-IsWellFormed (at "e1") "s" (mode_enter "plan") none_yet (session none none)
      none_yet-IsWellFormed refl refl refl).1

abbrev in_mode : Session
in_mode = record (session (some "e1") (some "plan")) { updated_at = "2026-01-01T00:00:00.000Z" }

abbrev spoken : Db
spoken = db_after (at "e2") "s" (said "hi") entered in_mode

append_entry-IsWellFormed_example :
    (append_entry (at "e2") "s" (said "hi") entered
      ≡ (ok (appended (at "e2") "s" (said "hi") entered in_mode), spoken))
    × IsWellFormed spoken
unfolding get update_session advance new_entry
append_entry-IsWellFormed_example =
    append_entry-IsWellFormed (at "e2") "s" (said "hi") entered in_mode entered-IsWellFormed refl
      refl refl

abbrev first : Entry
first = appended (at "e1") "s" (mode_enter "plan") none_yet (session none none)

walk_total_example :
    (up : List Entry) × (walk_from (get_entries entered "s") "e1" ≡ some (first ∷ up))
unfolding update_session new_entry
walk_total_example =
    walk_total entered (entered-IsWellFormed.tree) "s" "e1" first (inl refl, refl, refl)

spoken-IsWellFormed : IsWellFormed spoken
unfolding get update_session advance new_entry
spoken-IsWellFormed =
    (append_entry-IsWellFormed (at "e2") "s" (said "hi") entered in_mode entered-IsWellFormed refl
      refl refl).1

-- The tables after a branch back to the first entry.
abbrev back : Db
back = record {
  sessions = record (session (some "e1") (some "plan")) { updated_at = "2026-01-01 00:00:00" } ∷ [];
  entries = spoken.entries;
}

branch-IsWellFormed_example : (branch (at "b") "s" "e1" spoken ≡ (ok tt, back)) × IsWellFormed back
unfolding update_session advance new_entry mode_of
branch-IsWellFormed_example =
    branch-IsWellFormed (at "b") "s" "e1" spoken first spoken-IsWellFormed (inl refl, refl, refl)
      refl

-- The context after the message holds the message.
context_said :
    build_context 9 spoken "s"
    ≡ some (
        record {
          role = user;
          content = text "hi";
          tool_call_id = none;
          tool_name = none;
          is_error = none;
          timestamp = 1;
          metadata = none;
        }
        ∷ [])
unfolding build_context get get_entries max_seq update_session new_entry advance sort_by insert_by
    ancestors find_entry parent_of
context_said = refl
