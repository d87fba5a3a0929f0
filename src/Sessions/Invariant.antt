-- ===== src/Sessions/Invariant.antt =====
-- The well-formedness of the tables of session-store.ts: ids are unique, a parent lies in the same
-- session with a smaller sequence number, a leaf is an entry of its session, and the cached mode is
-- the one that the walk from the leaf gives.
pub mod Append
pub mod Extend
pub mod Preserved
pub mod Branch
pub mod Rows
use Prim.Native.Nat.{max}
use crabbykit.Prelude.{
  ℕ, suc, ◌+◌, ◌≤◌, ◌<◌, String, ◌≡◌, ◌≢◌, ◌↔◌, refl, sym, ◌∙◌, ap, subst, Bool, true, false,
  Option, none, some, List, [], ◌∷◌, arith, In, inl, inr, Option-cases, truthy, ◌==◌, string_eq,
  In-sort_by, In-filter, filter, leb, Bool-cases, if◌then◌else◌,
}
use text.Mathlib.TextEquality.{eq_iff}
use crabbykit.Sessions.{Session, Entry, Db}
use crabbykit.Sessions.Store.{of_session, get_entries, max_seq}
use crabbykit.Sessions.Tree.{Find, find_entry, parent_of, ancestors, walk_fuel, walk_from}
use crabbykit.Sessions.Invariant.Rows.{HasKeys}
use crabbykit.Sessions.Tree.Lookup.{HasUniqueIds, find_entry_sound, find_entry_complete}
use crabbykit.Sessions.Tree.Walks.{Descends, mode_of, ancestors_total}

-- An entry of a session, by its id.
abbrev pub IsEntryOf : Db → String → String → Entry → Type 0
IsEntryOf db session_id id d = In d db.entries × (d.id ≡ id) × (d.session_id ≡ session_id)

abbrev pub HasParent : Db → Entry → Type 0
HasParent db e =
    (p : String)
    → truthy e.parent_id ≡ some p
    → (d : Entry) × IsEntryOf db e.session_id p d × (d.seq < e.seq)

abbrev pub HasLeaf : Db → Session → Type 0
HasLeaf db s = (l : String) → truthy s.leaf_id ≡ some l → (d : Entry) × IsEntryOf db s.id l d

-- The walk from a session's leaf.
abbrev pub walk_leaf : List Entry → Option String → Option (List Entry)
walk_leaf entries none = some []
walk_leaf entries (some leaf) = walk_from entries leaf

unfoldable pub walk_of : Db → Session → Option (List Entry)
walk_of db s = walk_leaf (get_entries db s.id) (truthy s.leaf_id)

-- The cached mode is the one that the walk from the leaf gives.
abbrev pub IsCached : Db → Session → Type 0
IsCached db s = (up : List Entry) × (walk_of db s ≡ some up) × (s.active_mode_id ≡ mode_of up)

pub record IsTree (db : Db) : Type 0 where
  pub unique : HasUniqueIds db.entries
  pub parents : (e : Entry) → In e db.entries → HasParent db e
  pub leaves : (s : Session) → In s db.sessions → HasLeaf db s

pub record IsWellFormed (db : Db) : Type 0 where
  pub tree : IsTree db
  pub keys : HasKeys db.sessions
  pub cached : (s : Session) → In s db.sessions → IsCached db s

pub In-get_entries :
    (db : Db) (session_id : String) (e : Entry)
    → In e (get_entries db session_id) ↔ (In e db.entries × (e.session_id ≡ session_id))
unfolding get_entries
In-get_entries db session_id e = ground (
  arith,
  In-sort_by (λ d e. leb d.seq e.seq) e (filter (of_session session_id) db.entries),
  In-filter (of_session session_id) e db.entries,
  eq_iff e.session_id session_id,
)

pub get_entries-HasUniqueIds :
    (db : Db) (session_id : String)
    → HasUniqueIds db.entries
    → HasUniqueIds (get_entries db session_id)
get_entries-HasUniqueIds db session_id unique d e m n =
    unique d e ((In-get_entries db session_id d).0 m).0 ((In-get_entries db session_id e).0 n).0

pub le-max_seq : (entries : List Entry) (e : Entry) → In e entries → e.seq ≤ max_seq entries
unfolding max_seq
le-max_seq [] e m = absurd m
le-max_seq (d ∷ entries) e (inl same) = rw (← same) (omega arith)
le-max_seq (d ∷ entries) e (inr m) = omega (arith, le-max_seq entries e m)

-- What the map of a session finds.
module _ (db : Db) (tree : IsTree db) (session_id : String) where
  pub find_iff :
      (id : String) (e : Entry)
      → (find_entry (get_entries db session_id) id ≡ some e) ↔ IsEntryOf db session_id id e
  find_iff id e = (
    λ found.
        let (same, m) = find_entry_sound (get_entries db session_id) id e found in
        let (n, of_it) = (In-get_entries db session_id e).0 m in (n, same, of_it),
    λ (n, same, of_it).
        subst (λ k. find_entry (get_entries db session_id) k ≡ some e) same
          (find_entry_complete (get_entries db session_id) e
            (get_entries-HasUniqueIds db session_id tree.unique)
            ((In-get_entries db session_id e).1 (n, of_it))),
  )

  find-Descends : Descends (find_entry (get_entries db session_id))
  unfolding parent_of
  find-Descends id e p at up_to = elim (Option-cases (truthy e.parent_id)) [
    | inl root ↦ absurd (ground (arith, root))
    | inr (q, there) ↦
        let (n, _, of_it) = (find_iff id e).0 at in
        let (d, (m, d_id, d_of), less) = tree.parents e n q there in
        let (p_in, p_id, _) = (find_iff q p).0 (rw there at up_to) in
        subst (λ (x : Entry). x.seq < e.seq) (tree.unique d p m p_in (d_id ∙ sym p_id)) less
  ]

  -- The walk from an entry of the session ends within the fuel of its loop.
  pub walk_total :
      (id : String) (e : Entry)
      → IsEntryOf db session_id id e
      → (up : List Entry) × (walk_from (get_entries db session_id) id ≡ some (e ∷ up))
  unfolding walk_from walk_fuel
  walk_total id e at =
      let found = (find_iff id e).1 at in
      let below =
        le-max_seq (get_entries db session_id) e
          ((In-get_entries db session_id e).1 (at.0, at.2)) in
      let (up, ends) =
        ancestors_total (find_entry (get_entries db session_id))
          (suc (max_seq (get_entries db session_id))) id e find-Descends found
          (omega (arith, below)) in
      (up, rw found ends)
