-- ===== src/A2A/Artifacts.antt =====
-- The artifacts of task-store.ts in the order of their numbers.
use crabbykit.Prelude.{
  String, ◌≡◌, refl, ◌∙◌, ap, Bool, true, false, none, some, List, [], ◌∷◌, ◌++◌, map, inl, inr, In,
  filter, any, Bool-cases, if◌then◌else◌, leb, string_eq, ◌==◌, ==_refl, truthy, sort_by, insert_by,
  arith,
}
use crabbykit.A2A.{Artifact}
use crabbykit.A2A.Store.{
  ArtifactRow, TaskDb, has_task, artifacts_of, next_seq, artifact_row, add_artifact, get_artifacts,
  row_to_artifact,
}

abbrev seq_le : ArtifactRow → ArtifactRow → Bool
seq_le a b = leb a.seq b.seq

insert_by_last :
    (a x : ArtifactRow) (rows : List ArtifactRow)
    → seq_le a x ≡ true
    → insert_by seq_le a (rows ++ x ∷ []) ≡ insert_by seq_le a rows ++ x ∷ []
unfolding insert_by
insert_by_last a x [] h = rw h refl
insert_by_last a x (r ∷ rows) h = elim (Bool-cases (seq_le a r)) [
  | inl early ↦ rw early refl
  | inr late ↦ rw late (ap (λ t. r ∷ t) (insert_by_last a x rows h))
]

-- A row with the greatest number is sorted to the end.
sort_by_last :
    (rows : List ArtifactRow) (x : ArtifactRow)
    → ((a : ArtifactRow) → In a rows → seq_le a x ≡ true)
    → sort_by seq_le (rows ++ x ∷ []) ≡ sort_by seq_le rows ++ x ∷ []
unfolding sort_by insert_by
sort_by_last [] x h = refl
sort_by_last (a ∷ rows) x h =
    ap (insert_by seq_le a) (sort_by_last rows x (λ b m. h b (inr m)))
    ∙ insert_by_last a x (sort_by seq_le rows) (h a (inl refl))

next_seq-bound :
    (rows : List ArtifactRow) (a : ArtifactRow) → In a rows → leb a.seq (next_seq rows) ≡ true
unfolding next_seq
next_seq-bound [] a m = absurd m
next_seq-bound (r ∷ rows) a (inl same) = rw (ap (λ (x : ArtifactRow). x.seq) same) (ground arith)
next_seq-bound (r ∷ rows) a (inr m) = ground (arith, next_seq-bound rows a m)

map_last :
    (x : ArtifactRow) (rows : List ArtifactRow)
    → map row_to_artifact (rows ++ x ∷ []) ≡ map row_to_artifact rows ++ row_to_artifact x ∷ []
map_last x [] = refl
map_last x (r ∷ rows) = ap (λ t. row_to_artifact r ∷ t) (map_last x rows)

filter_last :
    (p : ArtifactRow → Bool) (x : ArtifactRow) (rows : List ArtifactRow)
    → filter p (rows ++ x ∷ []) ≡ (if p x then filter p rows ++ x ∷ [] else filter p rows)
filter_last p x [] = ground arith
filter_last p x (r ∷ rows) = ground (arith, filter_last p x rows)

-- What a row keeps of an artifact: its extensions are not stored, and texts that are empty not read.
abbrev pub stored : Artifact → Artifact
stored a = record a { name = truthy a.name; description = truthy a.description; extensions = none }

-- Where the task is there and the row's id is not taken, an artifact is added, and the task's artifacts
-- are then those before, in their order, and this one as it is stored.
pub get_artifacts-add_artifact :
    (id task_id : String) (a : Artifact) (db : TaskDb)
    → has_task db task_id ≡ true
    → any (λ (r : ArtifactRow). r.id == id) db.artifacts ≡ false
    → (db' : TaskDb) × (add_artifact id task_id a db ≡ some db')
      × (get_artifacts db' task_id ≡ get_artifacts db task_id ++ stored a ∷ [])
unfolding add_artifact get_artifacts
get_artifacts-add_artifact id task_id a db known fresh =
    let row = artifact_row id task_id a (next_seq (artifacts_of db task_id)) in
    (
      record db { artifacts = db.artifacts ++ row ∷ [] },
      rw known (rw fresh refl),
      ap (λ rows. map row_to_artifact (sort_by seq_le rows))
            (filter_last (λ r. r.task_id == task_id) row db.artifacts ∙ rw (==_refl task_id) refl)
          ∙ ap (map row_to_artifact) (
              sort_by_last (artifacts_of db task_id) row (next_seq-bound (artifacts_of db task_id)))
          ∙ map_last row (sort_by seq_le (artifacts_of db task_id)),
    )
