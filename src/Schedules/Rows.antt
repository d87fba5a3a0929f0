-- ===== src/Schedules/Rows.antt =====
-- The row updates of schedule-store.ts: what `get` reads after `update`.
use mathlib.Core.Option
use crabbykit.Prelude.{
  String, ◌≡◌, refl, ◌∙◌, ap, ==_refl, none, List, [], ◌∷◌, arith, inl, inr, Option-cases, ◌==◌,
  string_eq, if◌then◌else◌,
}
use text.Mathlib.TextEquality.{eq_iff}
use crabbykit.Schedules.{Schedule, Updates, Env, get, set_columns, update_where, update}

get-update_where :
    (id key : String) (f : Schedule → Schedule) (rows : List Schedule)
    → ((s : Schedule) → (f s).id ≡ s.id)
    → get (update_where id f rows) key
      ≡ (if id == key then Option.map f (get rows key) else get rows key)
unfolding get update_where
get-update_where id key f [] same_id = ground arith
get-update_where id key f (s ∷ rows) same_id = ground (
  arith,
  get-update_where id key f rows same_id,
  same_id s,
  eq_iff id key,
  eq_iff s.id id,
  eq_iff s.id key,
)

-- `update` answers the row of the id with the given columns set, or null where there is none, and
-- afterwards `get` reads that row under the id and what it read before under every other.
pub get-update :
    (env : Env) (id : String) (updates : Updates) (rows : List Schedule)
    → ((update env id updates rows).0 ≡ Option.map (set_columns env updates) (get rows id))
      × ((key : String)
          → get (update env id updates rows).1 key ≡ (
              if id == key
              then Option.map (set_columns env updates) (get rows key)
              else get rows key))
unfolding update set_columns
get-update env id updates rows = elim (Option-cases (get rows id)) [
  | inl missing ↦
      let same : update env id updates rows ≡ (none, rows) = rw (missing, update) refl in
      (
        ap (λ r. r.0) same ∙ rw missing refl,
        λ key. ap (λ r. get r.1 key) same ∙ ground (arith, missing, eq_iff id key),
      )
  | inr (s, found) ↦
      let gets =
        λ (key : String). get-update_where id key (set_columns env updates) rows (λ t. refl) in
      let same : update env id updates rows ≡ (
        get (update_where id (set_columns env updates) rows) id,
        update_where id (set_columns env updates) rows,
      ) =
        rw (found, update) refl in
      (
        ap (λ r. r.0) same ∙ gets id ∙ rw (==_refl id) refl,
        λ key. ap (λ r. get r.1 key) same ∙ gets key,
      )
]
