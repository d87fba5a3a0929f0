-- ===== src/Sessions/Tree/Lookup.antt =====
-- The entry map of session-store.ts: what it finds under an id.
use crabbykit.Prelude.{
  String, ◌≡◌, inl, inr, refl, sym, ◌∙◌, subst, ap, true, some, List, [], ◌∷◌, arith, In, ◌==◌,
  string_eq, ==-eq, Bool-cases, Option-cases, is_some, lookup, insert, lookup-insert,
}
use text.Mathlib.TextEquality.{eq_iff}
use crabbykit.Sessions.{Entry}
use crabbykit.Sessions.Tree.{entry_map, find_entry}

-- No two entries share an id.
abbrev pub HasUniqueIds : List Entry → Type 0
HasUniqueIds entries = (d e : Entry) → In d entries → In e entries → d.id ≡ e.id → d ≡ e

-- What a map finds has the id that it was asked for and comes from the entries.
abbrev IsSound : (Entry → Type 0) → List (String × Entry) → Type 0
IsSound P m = (id : String) (e : Entry) → lookup id m ≡ some e → (e.id ≡ id) × P e

insert-IsSound :
    (P : Entry → Type 0) (d : Entry) (m : List (String × Entry))
    → P d
    → IsSound P m
    → IsSound P (insert d.id d m)
insert-IsSound P d m p sound id e found = elim (Bool-cases (d.id == id)) [
  | inl same ↦
      let is_d : d ≡ e = ground (arith, lookup-insert d.id id d m) in
      (sym (ap (λ (x : Entry). x.id) is_d) ∙ ==-eq same, subst P is_d p)
  | inr other ↦ sound id e (ground (arith, lookup-insert d.id id d m))
]

entry_map-IsSound :
    (P : Entry → Type 0) (entries : List Entry) (m : List (String × Entry))
    → ((e : Entry) → In e entries → P e)
    → IsSound P m
    → IsSound P (entry_map entries m)
unfolding entry_map
entry_map-IsSound P [] m h sound = sound
entry_map-IsSound P (d ∷ entries) m h sound =
    entry_map-IsSound P entries (insert d.id d m) (λ e at. h e (inr at))
      (insert-IsSound P d m (h d (inl refl)) sound)

-- An id that a map knows, and that of an entry, is found.
entry_map_keeps :
    (entries : List Entry) (m : List (String × Entry)) (id : String)
    → is_some (lookup id m) ≡ true
    → is_some (lookup id (entry_map entries m)) ≡ true
unfolding entry_map
entry_map_keeps [] m id h = h
entry_map_keeps (d ∷ entries) m id h =
    entry_map_keeps entries (insert d.id d m) id (ground (arith, lookup-insert d.id id d m))

entry_map_finds :
    (entries : List Entry) (m : List (String × Entry)) (e : Entry)
    → In e entries
    → is_some (lookup e.id (entry_map entries m)) ≡ true
unfolding entry_map
entry_map_finds [] m e at = absurd at
entry_map_finds (d ∷ entries) m e (inl same) =
    entry_map_keeps entries (insert d.id d m) e.id
      (ground (arith, lookup-insert d.id e.id d m, eq_iff d.id e.id))
entry_map_finds (d ∷ entries) m e (inr at) = entry_map_finds entries (insert d.id d m) e at

pub find_entry_sound :
    (entries : List Entry) (id : String) (e : Entry)
    → find_entry entries id ≡ some e
    → (e.id ≡ id) × In e entries
unfolding find_entry lookup
find_entry_sound entries id e found =
    entry_map-IsSound (λ d. In d entries) entries [] (λ d at. at) (λ k d h. absurd (cc)) id e found

pub find_entry_complete :
    (entries : List Entry) (e : Entry)
    → HasUniqueIds entries
    → In e entries
    → find_entry entries e.id ≡ some e
unfolding find_entry
find_entry_complete entries e unique at = elim (Option-cases (find_entry entries e.id)) [
  | inl missing ↦ absurd (ground (arith, entry_map_finds entries [] e at, missing))
  | inr (d, found) ↦
      let (same, in_entries) = find_entry_sound entries e.id d found in
      found ∙ ap some (unique d e in_entries at same)
]
