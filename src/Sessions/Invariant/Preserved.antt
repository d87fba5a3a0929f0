-- ===== src/Sessions/Invariant/Preserved.antt =====
-- `appendEntry` of session-store.ts: the cached modes, and the well-formedness of the tables.
use crabbykit.Prelude.{
  String, ◌≡◌, refl, sym, ◌∙◌, ap, subst, false, some, List, [], ◌∷◌, ◌++◌, arith, In, inl, inr,
  truthy, ◌==◌, string_eq, filter, leb, any, sort_by,
}
use crabbykit.Sessions.{
  Session, Entry, EntryData, message, compaction, model_change, mode_enter, mode_exit, custom, Db,
  Env, ok,
}
use crabbykit.Sessions.Store.{
  of_session, get, get_entries, update_session, new_entry, advance, append_entry,
}
use crabbykit.Sessions.Tree.Walks.{mode_of}
use crabbykit.Sessions.Invariant.{walk_of, walk_leaf, IsCached, IsWellFormed}
use crabbykit.Sessions.Invariant.Rows.{HasKeys, HasKeys-map, In-update_session}
use crabbykit.Sessions.Invariant.Append.{
  appended, db_after, append_entry-ok, advance_leaf, IsTree-db_after, get_sound,
}
use crabbykit.Sessions.Invariant.Extend.{walk_from-appended}

filter-snoc :
    (session_id : String) (entries : List Entry) (e : Entry)
    → of_session session_id e ≡ false
    → filter (of_session session_id) (entries ++ e ∷ []) ≡ filter (of_session session_id) entries
filter-snoc session_id [] e h = rw h refl
filter-snoc session_id (d ∷ entries) e h = ground (arith, filter-snoc session_id entries e h)

-- The mode that `advance` caches, from the mode of the walk before.
advance_mode :
    (env : Env) (session_id : String) (entry_data : EntryData) (db : Db) (s : Session)
    (up : List Entry)
    → s.active_mode_id ≡ mode_of up
    → (advance env entry_data s).active_mode_id
      ≡ mode_of (appended env session_id entry_data db s ∷ up)
unfolding advance new_entry mode_of
advance_mode env session_id (mode_enter mode) db s up h = refl
advance_mode env session_id (mode_exit mode) db s up h = refl
advance_mode env session_id (message _) db s up h = h
advance_mode env session_id (compaction _) db s up h = h
advance_mode env session_id (model_change _ _) db s up h = h
advance_mode env session_id (custom _ _) db s up h = h

module _ (env : Env) (session_id : String) (entry_data : EntryData) (db : Db) (s : Session)
    (wf : IsWellFormed db) (at : get db session_id ≡ some s)
    (fresh : any (λ e. e.id == env.nanoid) db.entries ≡ false)
    (named : truthy (some env.nanoid) ≡ some env.nanoid) where
  abbrev after : Db
  after = db_after env session_id entry_data db s

  get_entries-others :
      (t : Session) → t.id == session_id ≡ false → get_entries after t.id ≡ get_entries db t.id
  unfolding get_entries update_session new_entry
  get_entries-others t other = ap (sort_by (λ (d : Entry) (e : Entry). leb d.seq e.seq)) (
      filter-snoc t.id db.entries (appended env session_id entry_data db s)
        (ground (arith, string_eq.same_iff session_id t.id, string_eq.same_iff t.id session_id)))

  IsCached-others : (t : Session) → In t db.sessions → t.id == session_id ≡ false → IsCached after t
  unfolding walk_of
  IsCached-others t m other =
      let (up, walked, mode) = wf.cached t m in
      (up, ap (λ es. walk_leaf es (truthy t.leaf_id)) (get_entries-others t other) ∙ walked, mode)

  IsCached-this : IsCached after (advance env entry_data s)
  unfolding walk_of
  IsCached-this =
      let (m, s_id) = get_sound db session_id s at in
      let (up, walked, mode) = wf.cached s m in
      let (leaf, id) = advance_leaf env entry_data s in
      (
        appended env session_id entry_data db s ∷ up,
        ap (λ id. walk_leaf (get_entries after id) (truthy (advance env entry_data s).leaf_id))
              (id ∙ s_id)
            ∙ ap (λ l. walk_leaf (get_entries after session_id) (truthy l)) leaf
            ∙ ap (walk_leaf (get_entries after session_id)) named
            ∙ walk_from-appended env session_id entry_data db s wf.tree at fresh up walked,
        advance_mode env session_id entry_data db s up mode,
      )

  IsCached-after : (t : Session) → In t after.sessions → IsCached after t
  IsCached-after t m =
      let (u, in_sessions, cases) =
        In-update_session session_id (advance env entry_data)
          (record db { entries = db.entries ++ appended env session_id entry_data db s ∷ [] }) t
          m in
      elim cases [
        | inl (this, is_advanced) ↦
            let (s_in, s_id) = get_sound db session_id s at in
            let is_s : u ≡ s = wf.keys u s in_sessions s_in (this ∙ sym s_id) in
            subst (IsCached after) (sym (is_advanced ∙ ap (advance env entry_data) is_s))
              IsCached-this
        | inr (other, kept) ↦
            subst (IsCached after) (sym kept) (IsCached-others u in_sessions other)
      ]

  keys_after : HasKeys after.sessions
  unfolding update_session
  keys_after =
      HasKeys-map session_id (advance env entry_data) (λ t. (advance_leaf env entry_data t).1)
        db.sessions wf.keys

  -- On well-formed tables where the session exists, `append_entry` under an id that is not empty
  -- and not in use succeeds, and the tables that it leaves are well formed: the new entry's parent
  -- is the leaf of before, it is the new leaf, and the cached mode is the one that the walk from
  -- it gives.
  pub append_entry-IsWellFormed :
      (append_entry env session_id entry_data db
        ≡ (ok (appended env session_id entry_data db s), after))
      × IsWellFormed after
  append_entry-IsWellFormed = (
    append_entry-ok env session_id entry_data db s wf.tree at fresh,
    record {
      tree = IsTree-db_after env session_id entry_data db s wf.tree at fresh;
      keys = keys_after;
      cached = IsCached-after;
    },
  )
