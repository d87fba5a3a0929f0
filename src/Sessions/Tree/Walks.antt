-- ===== src/Sessions/Tree/Walks.antt =====
-- The walks of session-store.ts from an entry to the root: their end, their fuel, and how they depend
-- on the map.
use crabbykit.Prelude.{
  ℕ, zero, suc, ◌≤◌, ◌<◌, String, ◌≡◌, ◌≢◌, refl, sym, ◌∙◌, ap, Option, none, some, List, [], ◌∷◌,
  arith, inl, inr, Option-cases, truthy, string_eq,
}
use crabbykit.Sessions.{mode_enter, mode_exit, Entry}
use crabbykit.Sessions.Tree.{Find, parent_of, cons_some, ancestors, mode_at}

-- The mode that a walk, newest first, leaves active: that of the first mode change, if it enters.
unfoldable pub mode_of : List Entry → Option String
mode_of [] = none
mode_of (e ∷ up) = elim e.entry_data [
  | mode_exit _ ↦ none
  | mode_enter mode ↦ some mode
  | _ ↦ mode_of up
]

-- Every parent that is found has a smaller sequence number.
abbrev pub Descends : Find → Type 0
Descends find =
    (id : String) (e p : Entry) → find id ≡ some e → parent_of find e ≡ some p → p.seq < e.seq

parent_found :
    (find : Find) (e p : Entry) → parent_of find e ≡ some p → (id : String) × (find id ≡ some p)
unfolding parent_of
parent_found find e p h = elim (Option-cases (truthy e.parent_id)) [
  | inl root ↦ absurd (ground (arith, root))
  | inr (id, there) ↦ (id, rw there at h)
]

pub ancestors-none : (find : Find) (fuel : ℕ) → ancestors find fuel none ≡ some []
unfolding ancestors
ancestors-none find zero = refl
ancestors-none find (suc fuel) = refl

-- A map that agrees on every id but one finds the same parent, unless it is that one.
parent_same :
    (find find' : Find) (new_id : String) (e : Entry)
    → ((id : String) → id ≢ new_id → find' id ≡ find id)
    → truthy e.parent_id ≢ some new_id
    → parent_of find' e ≡ parent_of find e
unfolding parent_of
parent_same find find' new_id e others unnamed = elim (Option-cases (truthy e.parent_id)) [
  | inl root ↦ rw root
  | inr (id, there) ↦ rw there (others id (λ q. unnamed (there ∙ ap some q)))
]

cons_some-some :
    (e : Entry) (o : Option (List Entry)) (up : List Entry)
    → cons_some e o ≡ some up
    → (rest : List Entry) × (o ≡ some rest) × (up ≡ e ∷ rest)
cons_some-some e none up h = cc
cons_some-some e (some rest) up h = (rest, refl, cc)

module _ (find : Find) where
  -- A walk ends if its fuel exceeds the sequence number that it starts at.
  pub ancestors_total :
      (fuel : ℕ) (id : String) (e : Entry)
      → Descends find
      → find id ≡ some e
      → e.seq < fuel
      → (up : List Entry) × (ancestors find fuel (some e) ≡ some (e ∷ up))
  unfolding ancestors
  ancestors_total zero id e down at h = absurd (omega arith)
  ancestors_total (suc fuel) id e down at h = elim (Option-cases (parent_of find e)) [
    | inl root ↦ ([], rw (root, ancestors-none find fuel))
    | inr (p, up_to) ↦
        let (p_id, p_at) = parent_found find e p up_to in
        let (up, ends) =
          ancestors_total fuel p_id p down p_at (omega (arith, down id e p at up_to)) in
        (p ∷ up, rw (up_to, ends))
  ]

  -- More fuel gives the same walk.
  pub ancestors_more :
      (fuel more : ℕ) (cur : Option Entry) (up : List Entry)
      → fuel ≤ more
      → ancestors find fuel cur ≡ some up
      → ancestors find more cur ≡ some up
  unfolding ancestors
  ancestors_more zero more none up le h = ancestors-none find more ∙ h
  ancestors_more (suc fuel) more none up le h = ancestors-none find more ∙ h
  ancestors_more zero more (some e) up le h = cc
  ancestors_more (suc fuel) zero (some e) up le h = absurd (omega arith)
  ancestors_more (suc fuel) (suc more) (some e) up le h =
      let (rest, ends, same) = cons_some-some e (ancestors find fuel (parent_of find e)) up h in
      rw (ancestors_more fuel more (parent_of find e) rest (omega arith) ends) (sym (ap some same))

  -- The loop that looks for a mode change reads the mode off the walk.
  pub mode_at-ancestors :
      (fuel : ℕ) (cur : Option Entry) (up : List Entry)
      → ancestors find fuel cur ≡ some up
      → mode_at find fuel cur ≡ some (mode_of up)
  unfolding ancestors mode_at mode_of
  mode_at-ancestors zero none up h = ground arith
  mode_at-ancestors (suc fuel) none up h = ground arith
  mode_at-ancestors zero (some e) up h = cc
  mode_at-ancestors (suc fuel) (some e) up h =
      let (rest, ends, same) = cons_some-some e (ancestors find fuel (parent_of find e)) up h in
      let ih = mode_at-ancestors fuel (parent_of find e) rest ends in ground (arith, ih, same)

-- Where a map finds one more entry, whose id no parent names, the walks are those of before.
pub ancestors_same :
    (find find' : Find) (new_id : String)
    → ((id : String) → id ≢ new_id → find' id ≡ find id)
    → ((id : String) (e : Entry) → find id ≡ some e → truthy e.parent_id ≢ some new_id)
    → (fuel : ℕ) (id : String) (e : Entry) → find id ≡ some e
    → ancestors find' fuel (some e) ≡ ancestors find fuel (some e)
unfolding ancestors
ancestors_same find find' new_id others unnamed zero id e at = refl
ancestors_same find find' new_id others unnamed (suc fuel) id e at =
    elim (Option-cases (parent_of find e)) [
      | inl root ↦ rw (same ∙ root, root, ancestors-none find fuel, ancestors-none find' fuel)
      | inr (p, up_to) ↦
          let (p_id, p_at) = parent_found find e p up_to in
          let ih = ancestors_same find find' new_id others unnamed fuel p_id p p_at in
          ap (cons_some e)
            (ap (ancestors find' fuel) (same ∙ up_to) ∙ ih ∙ sym (ap (ancestors find fuel) up_to))
    ]
  where
    same : parent_of find' e ≡ parent_of find e
    same = parent_same find find' new_id e others (unnamed id e at)
