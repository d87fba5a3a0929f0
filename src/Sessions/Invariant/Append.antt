-- ===== src/Sessions/Invariant/Append.antt =====
-- `appendEntry` of session-store.ts: the tables that it leaves, and the tree of their entries.
use crabbykit.Prelude.{
  ◌<◌, String, ◌≡◌, ◌≢◌, ◌↔◌, refl, sym, ◌∙◌, ap, subst, false, Option, none, some, List, [], ◌∷◌,
  ◌++◌, arith, In, inl, inr, ◌⊎◌, truthy, ◌==◌, string_eq, In-filter, filter, Bool-cases, any,
  head?, In-append, In-map, In-any, ==-eq,
}
use text.Mathlib.TextEquality.{eq_iff}
use crabbykit.Sessions.{Session, Entry, EntryData, mode_enter, mode_exit, Db, Env, ok}
use crabbykit.Sessions.Store.{
  of_session, get, update_row, update_session, new_entry, advance, append_to, append_entry,
}
use crabbykit.Sessions.Tree.Lookup.{HasUniqueIds}
use crabbykit.Sessions.Invariant.{HasParent, HasLeaf, IsTree, le-max_seq}

-- A row that `get` answers is in the table, under the id asked for.
pub get_sound :
    (db : Db) (session_id : String) (s : Session)
    → get db session_id ≡ some s
    → In s db.sessions × (s.id ≡ session_id)
unfolding get
get_sound db session_id s h = go db.sessions h
  where
    go :
        (rows : List Session)
        → head? (filter (λ r. r.id == session_id) rows) ≡ some s
        → In s rows × (s.id ≡ session_id)
    go [] h = absurd (cc)
    go (r ∷ rows) h = elim (Bool-cases (r.id == session_id)) [
      | inl here ↦
          let same : s ≡ r = ground arith in
          (inl same, ap (λ (x : Session). x.id) same ∙ ==-eq here)
      | inr other ↦ let (m, e) = go rows (rw other at h) in (inr m, e)
    ]

pub advance_leaf :
    (env : Env) (entry_data : EntryData) (s : Session)
    → ((advance env entry_data s).leaf_id ≡ some env.nanoid)
      × ((advance env entry_data s).id ≡ s.id)
unfolding advance
advance_leaf env (mode_enter _) s = (refl, refl)
advance_leaf env (mode_exit _) s = (refl, refl)
advance_leaf env _ s = (refl, refl)

truthy-eq : (o : Option String) (l : String) → truthy o ≡ some l → o ≡ some l
truthy-eq none l h = cc
truthy-eq (some x) l h = elim (Bool-cases (x == "")) [
  | inl blank ↦ cc (rw blank at h)
  | inr full ↦ rw full at h
]

module _ (env : Env) (session_id : String) (entry_data : EntryData) (db : Db) (s : Session) where
  abbrev pub appended : Entry
  appended = new_entry env db session_id s.leaf_id entry_data

  abbrev pub db_after : Db
  db_after =
      update_session session_id (advance env entry_data)
        (record db { entries = db.entries ++ appended ∷ [] })

  module _ (wf : IsTree db) (at : get db session_id ≡ some s)
      (fresh : any (λ e. e.id == env.nanoid) db.entries ≡ false) where
    pub append_entry-ok : append_entry env session_id entry_data db ≡ (ok appended, db_after)
    unfolding append_entry
    append_entry-ok = rw (at, append_entry) (rw (fresh, append_to) refl)

    pub fresh_id : (e : Entry) → In e db.entries → e.id ≢ env.nanoid
    fresh_id e m same = cc (
        sym fresh
        ∙ In-any (λ (d : Entry). d.id == env.nanoid) db.entries e m
            (ground (arith, eq_iff e.id env.nanoid)))

    pub In-db_after : (e : Entry) → In e db_after.entries ↔ (In e db.entries ⊎ (e ≡ appended))
    unfolding update_session
    In-db_after e = ground (arith, In-append e db.entries (appended ∷ []))

    pub HasUniqueIds-db_after : HasUniqueIds db_after.entries
    unfolding new_entry
    HasUniqueIds-db_after d e m n same = unique_cases ((In-db_after d).0 m) ((In-db_after e).0 n)
      where
        unique_cases : In d db.entries ⊎ (d ≡ appended) → In e db.entries ⊎ (e ≡ appended) → d ≡ e
        unique_cases (inl m) (inl n) = wf.unique d e m n same
        unique_cases (inl m) (inr q) = absurd (fresh_id d m (same ∙ ap (λ (x : Entry). x.id) q))
        unique_cases (inr p) (inl n) = absurd (fresh_id e n (sym same ∙ ap (λ (x : Entry). x.id) p))
        unique_cases (inr p) (inr q) = p ∙ sym q

    pub HasParent-db_after : (e : Entry) → In e db_after.entries → HasParent db_after e
    unfolding new_entry
    HasParent-db_after e m p there = elim ((In-db_after e).0 m) [
      | inl old ↦
          let (d, (n, same, of_it), less) = wf.parents e old p there in
          (d, ((In-db_after d).1 (inl n), same, of_it), less)
      | inr q ↦
          let (in_sessions, s_id) = get_sound db session_id s at in
          let leaf : truthy s.leaf_id ≡ some p =
            subst (λ (x : Entry). truthy x.parent_id ≡ some p) q there in
          let (d, (n, same, of_it)) = wf.leaves s in_sessions p leaf in
          let low = le-max_seq (filter (of_session session_id) db.entries) d (
            (In-filter (of_session session_id) d db.entries).1
              (n, ground (arith, eq_iff d.session_id session_id))) in
          (
            d,
            (
              (In-db_after d).1 (inl n),
              same,
              of_it ∙ s_id ∙ sym (ap (λ (x : Entry). x.session_id) q),
            ),
            subst (λ (x : Entry). d.seq < x.seq) (sym q) (omega (arith, low)),
          )
    ]

    HasLeaf-db_after : (t : Session) → In t db_after.sessions → HasLeaf db_after t
    unfolding update_session new_entry
    HasLeaf-db_after t m l there =
        let (u, in_sessions, same) =
          In-map (update_row session_id (advance env entry_data)) t db.sessions m in
        elim (Bool-cases (u.id == session_id)) [
          | inl this ↦
              let is_advanced : t ≡ advance env entry_data u = same ∙ rw this refl in
              let (leaf, id) = advance_leaf env entry_data u in
              let is_new : some env.nanoid ≡ some l =
                sym leaf
                ∙ sym (ap (λ (x : Session). x.leaf_id) is_advanced)
                ∙ truthy-eq t.leaf_id l there in
              (
                appended,
                (
                  (In-db_after appended).1 (inr refl),
                  cc (is_new),
                  sym (==-eq this) ∙ sym id ∙ sym (ap (λ (x : Session). x.id) is_advanced),
                ),
              )
          | inr other ↦
              let kept : t ≡ u = same ∙ rw other refl in
              let (d, (n, d_id, of_it)) =
                wf.leaves u in_sessions l
                  (subst (λ (x : Session). truthy x.leaf_id ≡ some l) kept there) in
              (d, ((In-db_after d).1 (inl n), d_id, of_it ∙ sym (ap (λ (x : Session). x.id) kept)))
        ]

    -- The new entry has its parent in the tree, and is the leaf of its session.
    pub IsTree-db_after : IsTree db_after
    IsTree-db_after = record {
      unique = HasUniqueIds-db_after;
      parents = HasParent-db_after;
      leaves = HasLeaf-db_after;
    }
