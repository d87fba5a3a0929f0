-- ===== src/Sessions/Invariant/Branch.antt =====
-- `branch` of session-store.ts: the leaf, the cached mode, and the well-formedness of the tables.
use crabbykit.Prelude.{
  String, ◌≡◌, refl, sym, ◌∙◌, ap, subst, true, ◌&&◌, Option, some, ◌∷◌, arith, In, inl, inr,
  truthy, ◌==◌, string_eq, any, In-any,
}
use crabbykit.Sessions.{Session, Entry, Db, Env, ok}
use crabbykit.Sessions.Store.{get_entries, update_session}
use crabbykit.Sessions.Tree.{
  find_entry, walk_fuel, walk_from, walk_active_mode_id_at, set_branch, branch,
}
use crabbykit.Sessions.Tree.Walks.{mode_of, mode_at-ancestors}
use crabbykit.Sessions.Invariant.{
  IsEntryOf, HasLeaf, walk_leaf, walk_of, IsCached, IsWellFormed, walk_total,
}
use crabbykit.Sessions.Invariant.Rows.{HasKeys-map, In-update_session}

abbrev branched : Env → String → Option String → Session → Session
branched env from_id mode s = record s {
  leaf_id = some from_id;
  updated_at = env.sql_now;
  active_mode_id = mode;
}

module _ (env : Env) (session_id from_id : String) (db : Db) (e : Entry) (wf : IsWellFormed db)
    (at : IsEntryOf db session_id from_id e) (named : truthy (some from_id) ≡ some from_id) where
  abbrev mode_after : Option String
  mode_after = mode_of (e ∷ (walk_total db wf.tree session_id from_id e at).0)

  abbrev after : Db
  after = update_session session_id (branched env from_id mode_after) db

  found_mode : walk_active_mode_id_at (get_entries db session_id) from_id ≡ some mode_after
  unfolding walk_active_mode_id_at walk_from
  found_mode =
      let (up, ends) = walk_total db wf.tree session_id from_id e at in
      mode_at-ancestors (find_entry (get_entries db session_id))
        (walk_fuel (get_entries db session_id)) (find_entry (get_entries db session_id) from_id)
        (e ∷ up) ends

  branch_ok : branch env session_id from_id db ≡ (ok tt, after)
  unfolding branch set_branch
  branch_ok =
      let (m, same, of_it) = at in
      let there : any (λ (d : Entry). d.id == from_id && d.session_id == session_id) db.entries
          ≡ true =
        In-any (λ (d : Entry). d.id == from_id && d.session_id == session_id) db.entries e m
          (ground
            (arith, string_eq.same_iff e.id from_id, string_eq.same_iff e.session_id session_id)) in
      rw there (ap (λ mode. set_branch env session_id from_id mode db) found_mode)

  leaves_after : (t : Session) → In t after.sessions → HasLeaf after t
  unfolding update_session
  leaves_after t m l there =
      let (u, in_sessions, cases) =
        In-update_session session_id (branched env from_id mode_after) db t m in
      elim cases [
        | inl (this, is_branched) ↦
            let leaf : truthy (some from_id) ≡ some l =
              subst (λ (x : Session). truthy x.leaf_id ≡ some l) is_branched there in
            let is_new : some from_id ≡ some l = sym named ∙ leaf in
            let (n, same, of_it) = at in
            (
              e,
              (
                n,
                same ∙ cc (is_new),
                of_it ∙ sym this ∙ sym (ap (λ (x : Session). x.id) is_branched),
              ),
            )
        | inr (other, kept) ↦
            let (d, (n, d_id, of_it)) =
              wf.tree.leaves u in_sessions l
                (subst (λ (x : Session). truthy x.leaf_id ≡ some l) kept there) in
            (d, (n, d_id, of_it ∙ sym (ap (λ (x : Session). x.id) kept)))
      ]

  IsCached-after : (t : Session) → In t after.sessions → IsCached after t
  unfolding update_session walk_of get_entries
  IsCached-after t m =
      let (u, in_sessions, cases) =
        In-update_session session_id (branched env from_id mode_after) db t m in
      elim cases [
        | inl (this, is_branched) ↦
            let (up, ends) = walk_total db wf.tree session_id from_id e at in
            subst (IsCached after) (sym is_branched) (
              e ∷ up,
              ap (λ k. walk_leaf (get_entries db k) (truthy (some from_id))) this
                  ∙ ap (walk_leaf (get_entries db session_id)) named
                  ∙ ends,
              refl,
            )
        | inr (other, kept) ↦ subst (IsCached after) (sym kept) (wf.cached u in_sessions)
      ]

  -- On well-formed tables, `branch` to an entry of the session, whose id is not empty, succeeds,
  -- and the tables that it leaves are well formed: the entry is the leaf, and the cached mode is
  -- the one that the walk from it gives.
  pub branch-IsWellFormed : (branch env session_id from_id db ≡ (ok tt, after)) × IsWellFormed after
  unfolding update_session
  branch-IsWellFormed = (
    branch_ok,
    record {
      tree = record { unique = wf.tree.unique; parents = wf.tree.parents; leaves = leaves_after };
      keys =
          HasKeys-map session_id (branched env from_id mode_after) (λ s. refl) db.sessions wf.keys;
      cached = IsCached-after;
    },
  )
