-- ===== src/Sessions/Invariant/Rows.antt =====
-- The updates of session rows in session-store.ts, by id.
use crabbykit.Prelude.{
  String, ◌≡◌, refl, sym, ◌∙◌, ap, false, List, In, inl, inr, ◌⊎◌, Bool-cases, In-map, ◌==◌,
  string_eq, map, ==-eq,
}
use crabbykit.Sessions.{Session, Db}
use crabbykit.Sessions.Store.{update_row, update_session}

-- No two rows share an id.
abbrev pub HasKeys : List Session → Type 0
HasKeys rows = (s t : Session) → In s rows → In t rows → s.id ≡ t.id → s ≡ t

module _ (session_id : String) (f : Session → Session)
    (same_id : (s : Session) → (f s).id ≡ s.id) where
  update_row-id : (s : Session) → (update_row session_id f s).id ≡ s.id
  update_row-id s = elim (Bool-cases (s.id == session_id)) [
    | inl this ↦ rw this (same_id s)
    | inr other ↦ rw other refl
  ]

  pub HasKeys-map :
      (rows : List Session) → HasKeys rows → HasKeys (map (update_row session_id f) rows)
  HasKeys-map rows keys t u m n same =
      let (t', t_in, t_from) = In-map (update_row session_id f) t rows m in
      let (u', u_in, u_from) = In-map (update_row session_id f) u rows n in
      let ids : t'.id ≡ u'.id =
        sym (ap (λ (x : Session). x.id) t_from ∙ update_row-id t')
        ∙ same
        ∙ (ap (λ (x : Session). x.id) u_from ∙ update_row-id u') in
      t_from ∙ ap (update_row session_id f) (keys t' u' t_in u_in ids) ∙ sym u_from

-- An updated row is the update of one with the id, or a row of another id as it was.
pub In-update_session :
    (session_id : String) (f : Session → Session) (db : Db) (t : Session)
    → In t (update_session session_id f db).sessions
    → (u : Session) × In u db.sessions
      × (((u.id ≡ session_id) × (t ≡ f u)) ⊎ ((u.id == session_id ≡ false) × (t ≡ u)))
unfolding update_session
In-update_session session_id f db t m =
    let (u, in_sessions, same) = In-map (update_row session_id f) t db.sessions m in
    elim (Bool-cases (u.id == session_id)) [
      | inl this ↦ (u, in_sessions, inl (==-eq this, same ∙ rw this refl))
      | inr other ↦ (u, in_sessions, inr (other, same ∙ rw other refl))
    ]
