-- ===== src/Sessions/Invariant/Extend.antt =====
-- `appendEntry` of session-store.ts: the walk from the entry that it adds.
use crabbykit.Prelude.{
  ℕ, suc, ◌≤◌, String, ◌≡◌, ◌≢◌, refl, sym, ◌∙◌, ap, subst, false, some, List, [], ◌∷◌, arith, In,
  inl, inr, Option-cases, truthy, ◌==◌, string_eq, In-filter, filter, any,
}
use crabbykit.Sessions.{Session, Entry, EntryData, Db, Env}
use crabbykit.Sessions.Store.{of_session, get, get_entries, max_seq, new_entry}
use crabbykit.Sessions.Tree.{
  Find, find_entry, find_truthy, parent_of, ancestors, cons_some, walk_fuel, walk_from,
}
use crabbykit.Sessions.Tree.Walks.{ancestors-none, ancestors_same, ancestors_more}
use crabbykit.Sessions.Invariant.{IsEntryOf, walk_of, IsTree, In-get_entries, le-max_seq, find_iff}
use crabbykit.Sessions.Invariant.Append.{
  appended, db_after, fresh_id, In-db_after, IsTree-db_after, get_sound,
}

max_seq-le :
    (entries : List Entry) (n : ℕ) → ((e : Entry) → In e entries → e.seq ≤ n) → max_seq entries ≤ n
unfolding max_seq
max_seq-le [] n h = omega arith
max_seq-le (e ∷ entries) n h =
    omega (arith, h e (inl refl), max_seq-le entries n (λ d m. h d (inr m)))

module _ (env : Env) (session_id : String) (entry_data : EntryData) (db : Db) (s : Session)
    (wf : IsTree db) (at : get db session_id ≡ some s)
    (fresh : any (λ e. e.id == env.nanoid) db.entries ≡ false) where
  abbrev after : Db
  after = db_after env session_id entry_data db s

  abbrev new : Entry
  new = appended env session_id entry_data db s

  abbrev find : Find
  find = find_entry (get_entries db session_id)

  abbrev find' : Find
  find' = find_entry (get_entries after session_id)

  wf' : IsTree after
  wf' = IsTree-db_after env session_id entry_data db s wf at fresh

  from_before :
      (id : String) (e : Entry) → IsEntryOf db session_id id e → IsEntryOf after session_id id e
  from_before id e (m, same, of_it) =
      ((In-db_after env session_id entry_data db s wf at fresh e).1 (inl m), same, of_it)

  find_new : find' env.nanoid ≡ some new
  unfolding new_entry
  find_new =
      (find_iff after wf' session_id env.nanoid new).1
        ((In-db_after env session_id entry_data db s wf at fresh new).1 (inr refl), refl, refl)

  find_others : (id : String) → id ≢ env.nanoid → find' id ≡ find id
  unfolding new_entry
  find_others id other = elim (Option-cases (find id)) [
    | inr (e, found) ↦
        (find_iff after wf' session_id id e).1
          (from_before id e ((find_iff db wf session_id id e).0 found))
        ∙ sym found
    | inl missing ↦ elim (Option-cases (find' id)) [
      | inl also ↦ also ∙ sym missing
      | inr (e, found) ↦
          let (m, same, of_it) = (find_iff after wf' session_id id e).0 found in
          elim ((In-db_after env session_id entry_data db s wf at fresh e).0 m) [
            | inl old ↦ cc (sym missing ∙ (find_iff db wf session_id id e).1 (old, same, of_it))
            | inr q ↦ absurd (other (sym same ∙ ap (λ (x : Entry). x.id) q))
          ]
    ]
  ]

  unnamed : (id : String) (e : Entry) → find id ≡ some e → truthy e.parent_id ≢ some env.nanoid
  unnamed id e found there =
      let (m, _, _) = (find_iff db wf session_id id e).0 found in
      let (d, (n, same, _), _) = wf.parents e m env.nanoid there in
      fresh_id env session_id entry_data db s wf at fresh d n same

  -- The fuel after the append exceeds the one before.
  fuel_grows : suc (max_seq (get_entries db session_id)) ≤ max_seq (get_entries after session_id)
  unfolding new_entry
  fuel_grows =
      let low =
        max_seq-le (get_entries db session_id) (max_seq (filter (of_session session_id) db.entries))
          (λ e m. le-max_seq (filter (of_session session_id) db.entries) e (
            let (n, of_it) = (In-get_entries db session_id e).0 m in
            (In-filter (of_session session_id) e db.entries).1
              (n, (string_eq.same_iff e.session_id session_id).1 of_it))) in
      let high = le-max_seq (get_entries after session_id) new (
        (In-get_entries after session_id new).1
          ((In-db_after env session_id entry_data db s wf at fresh new).1 (inr refl), refl)) in
      omega (arith, low, high)

  -- The walk from the parent of the new entry.
  walk_on :
      (up : List Entry)
      → walk_of db s ≡ some up
      → ancestors find'
          (max_seq (get_entries after session_id))
          (find_truthy find' (truthy s.leaf_id))
        ≡ some up
  unfolding walk_of walk_from walk_fuel
  walk_on up h = elim (Option-cases (truthy s.leaf_id)) [
    | inl root ↦
        rw root (
          ancestors-none find' (max_seq (get_entries after session_id)) ∙ (rw (root, walk_of) at h))
    | inr (l, there) ↦
        let (in_sessions, s_id) = get_sound db session_id s at in
        let (d, (n, same, of_it)) = wf.leaves s in_sessions l there in
        let d_at : find l ≡ some d = (find_iff db wf session_id l d).1 (n, same, of_it ∙ s_id) in
        let not_new : l ≢ env.nanoid =
          λ q. fresh_id env session_id entry_data db s wf at fresh d n (same ∙ q) in
        let before : ancestors find (suc (max_seq (get_entries db session_id))) (find l) ≡ some up =
          subst
            (λ k.
              ancestors (find_entry (get_entries db k)) (suc (max_seq (get_entries db k)))
                (find_entry (get_entries db k) l)
              ≡ some up)
            s_id (rw (there, walk_of) at h) in
        let more =
          ancestors_more find (suc (max_seq (get_entries db session_id)))
            (max_seq (get_entries after session_id)) (find l) up fuel_grows before in
        rw there (
          ap (ancestors find' (max_seq (get_entries after session_id)))
            (find_others l not_new ∙ d_at)
          ∙ ancestors_same find find' env.nanoid find_others unnamed
              (max_seq (get_entries after session_id)) l d d_at
          ∙ sym (ap (ancestors find (max_seq (get_entries after session_id))) d_at)
          ∙ more)
  ]

  -- The walk from the new entry is that entry, and then the session's walk of before.
  pub walk_from-appended :
      (up : List Entry)
      → walk_of db s ≡ some up
      → walk_from (get_entries after session_id) env.nanoid ≡ some (new ∷ up)
  unfolding walk_from walk_fuel ancestors parent_of new_entry
  walk_from-appended up h =
      ap (ancestors find' (suc (max_seq (get_entries after session_id)))) find_new
      ∙ ap (cons_some new) (walk_on up h)
