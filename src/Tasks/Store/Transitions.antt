-- ===== src/Tasks/Store/Transitions.antt =====
-- What `update` and `close` of task-store.ts answer and write, on every branch, and that their
-- errors write nothing.
use crabbykit.Prelude.{
  String, ◌≡◌, refl, sym, ap, ◌∙◌, subst, inl, inr, true, false, Option, none, some, List, [], ◌∷◌,
  map, arith, Option-cases, if◌then◌else◌, get_or_else, ◌==◌, string_eq, ==_refl,
}
use mathlib.Core.Option
use text.Mathlib.TextEquality.{eq_iff}
use crabbykit.Tasks.{
  Status, closed, valid_transition, Task, UpdateTaskInput, TaskError, missing_task, task_auth,
  invalid_transition,
}
use crabbykit.Tasks.Db.{
  Db, Env, Outcome, ok, err, M, ◌>>=◌, ◌>>◌, AuthChecker, has_id, get, get_owned, update_where_id,
  get_created,
}
use crabbykit.Tasks.Store.{
  set_columns, no_sets, check_status, write_columns, update, close_columns, close,
}

-- What a row reads as after an update of the rows with an id, by columns other than the id.
get-update :
    (tasks : List Task) (task_id : String) (f : Task → Task) (other_id : String)
    → ((t : Task) → (f t).id ≡ t.id)
    → get (map (λ t. if has_id task_id t then f t else t) tasks) other_id
      ≡ (if task_id == other_id then Option.map f (get tasks other_id) else get tasks other_id)
unfolding get
get-update [] task_id f other_id keep = ground arith
get-update (t ∷ tasks) task_id f other_id keep = ground (
  arith,
  get-update tasks task_id f other_id keep,
  keep t,
  eq_iff t.id task_id,
  eq_iff t.id other_id,
  eq_iff task_id other_id,
)

-- The first refusal of a write, in the order of the checks.
abbrev pub refusal : AuthChecker → String → String → Option Task → Option Status → Option TaskError
refusal auth caller task_id none to = some (missing_task task_id)
refusal auth caller task_id (some t) to =
    if auth caller t.owner_session
    then (elim to [
      | none ↦ none
      | some s ↦ if valid_transition t.status s then none else some (invalid_transition t.status s)
    ])
    else some (task_auth caller t.owner_session)

refusal-closed :
    (auth : AuthChecker) (caller task_id : String) (row : Option Task) (t : Task) (s : Status)
    (to : Option Status)
    → row ≡ some t
    → t.status ≡ closed
    → auth caller t.owner_session ≡ true
    → to ≡ some s
    → refusal auth caller task_id row to ≡ some (invalid_transition closed s)
unfolding valid_transition
refusal-closed auth caller task_id row t s to found done may set = rw (found, set, may, done) refl

ok-ne-err : {t : Task} {e : TaskError} → ¬ (ok t ≡ err e)
ok-ne-err h = cc

ok-injective : {t u : Task} → ok t ≡ ok u → t ≡ u
ok-injective h = cc

-- A write behind its checks.
abbrev guarded : AuthChecker → String → String → Option Status → (Task → M Task) → M Task
guarded auth caller task_id to write = do
  t ← get_owned auth caller task_id
  check_status t.status to
  write t

module _ (auth : AuthChecker) (caller task_id : String) (to : Option Status) (write : Task → M Task)
    (db : Db) where
  guarded_refused :
      (e : TaskError)
      → refusal auth caller task_id (get db.tasks task_id) to ≡ some e
      → guarded auth caller task_id to write db ≡ (err e, db)
  unfolding get_owned check_status
  guarded_refused e h = ground arith

  guarded_allowed :
      (t : Task)
      → get db.tasks task_id ≡ some t
      → refusal auth caller task_id (some t) to ≡ none
      → guarded auth caller task_id to write db ≡ write t db
  unfolding get_owned check_status
  guarded_allowed t e h = ground arith

-- An update of a row that exists, read back.
write_then_read :
    (task_id : String) (f : Task → Task) (db : Db) (t : Task)
    → ((u : Task) → (f u).id ≡ u.id)
    → get db.tasks task_id ≡ some t
    → (do update_where_id task_id f; get_created task_id) db
      ≡ (ok (f t), (update_where_id task_id f db).1)
unfolding update_where_id get_created
write_then_read task_id f db t keep e =
    ground (arith, get-update db.tasks task_id f task_id keep, eq_iff task_id task_id)

-- The tables after one task's row was rewritten, as `get` sees them.
abbrev pub Rewrites : Db → Db → String → Task → Type 0
Rewrites db db' task_id t' =
    ((id : String) → get db'.tasks id ≡ (if task_id == id then some t' else get db.tasks id))
    × (db'.deps ≡ db.deps)

update-Rewrites :
    (task_id : String) (f : Task → Task) (db : Db) (t : Task)
    → ((u : Task) → (f u).id ≡ u.id)
    → get db.tasks task_id ≡ some t
    → Rewrites db (update_where_id task_id f db).1 task_id (f t)
unfolding update_where_id
update-Rewrites task_id f db t keep e =
    (λ id. ground (arith, get-update db.tasks task_id f id keep, eq_iff task_id id), refl)

module _ (env : Env) (auth : AuthChecker) (caller task_id : String) (db : Db) where
  module _ (reason : String) where
    -- A refused close answers its first refusal and leaves the tables as they are.
    pub close_refused :
        (e : TaskError)
        → refusal auth caller task_id (get db.tasks task_id) (some closed) ≡ some e
        → close env auth caller task_id reason db ≡ (err e, db)
    unfolding close check_status
    close_refused e h =
        guarded_refused auth caller task_id (some closed)
          (λ _. update_where_id task_id (close_columns env reason) >> get_created task_id) db e h

    -- A close that no check refuses answers the closed task, which replaces its row, and changes
    -- no other row.
    pub close_allowed :
        (t : Task)
        → get db.tasks task_id ≡ some t
        → refusal auth caller task_id (some t) (some closed) ≡ none
        → ((close env auth caller task_id reason db).0 ≡ ok (close_columns env reason t))
          × Rewrites db
              (close env auth caller task_id reason db).1
              task_id
              (close_columns env reason t)
    unfolding close check_status close_columns
    close_allowed t e h =
        let f = close_columns env reason in
        let run =
          guarded_allowed auth caller task_id (some closed)
            (λ _. update_where_id task_id f >> get_created task_id) db t e h
          ∙ write_then_read task_id f db t (λ _. refl) e in
        (
          ap (λ (r : Outcome Task × Db). r.0) run,
          subst (λ (r : Outcome Task × Db). Rewrites db r.1 task_id (f t)) (sym run)
              (update-Rewrites task_id f db t (λ _. refl) e),
        )

  module _ (input : UpdateTaskInput) where
    -- An update throws the first refusal, of a task that is missing, of a caller that may not write, or of
    -- a transition that is not valid, and leaves the tables as they are.
    pub update_refused :
        (e : TaskError)
        → refusal auth caller task_id (get db.tasks task_id) input.status ≡ some e
        → update env auth caller task_id input db ≡ (err e, db)
    unfolding update
    update_refused e h =
        guarded_refused auth caller task_id input.status (λ t. write_columns env task_id t input) db
          e h

    update-set_columns :
        (t : Task)
        → get db.tasks task_id ≡ some t
        → refusal auth caller task_id (some t) input.status ≡ none
        → no_sets input ≡ false
        → ((update env auth caller task_id input db).0 ≡ ok (set_columns env input t))
          × Rewrites db
              (update env auth caller task_id input db).1
              task_id
              (set_columns env input t)
    unfolding update write_columns set_columns
    update-set_columns t e h sets =
        let f = set_columns env input in
        let write = λ (u : Task). write_columns env task_id u input in
        let run =
          guarded_allowed auth caller task_id input.status write db t e h
          ∙ rw sets (write_then_read task_id f db t (λ _. refl) e) in
        (
          ap (λ (r : Outcome Task × Db). r.0) run,
          subst (λ (r : Outcome Task × Db). Rewrites db r.1 task_id (f t)) (sym run)
              (update-Rewrites task_id f db t (λ _. refl) e),
        )

-- A column after an update: the value that is given for it, or else the one before.
abbrev pub IsUpdated : {A : Type 0} → Option A → A → A → Type 0
IsUpdated none before after = after ≡ before
IsUpdated (some given) before after = after ≡ given

updated :
    {A : Type 0} (given : Option A) (before : A) → IsUpdated given before (get_or_else given before)
updated none before = refl
updated (some given) before = refl

-- The second task is the first after an update: its status, priority, description and acceptance are
-- those that are given, and else those before; its time is the call's, and the rest is as it was.
pub record IsUpdate (env : Env) (input : UpdateTaskInput) (t t' : Task) : Type 0 where
  pub status : IsUpdated input.status t.status t'.status
  pub priority : IsUpdated input.priority t.priority t'.priority
  pub description : IsUpdated input.description t.description t'.description
  pub acceptance : IsUpdated input.acceptance t.acceptance t'.acceptance
  pub updated_at : t'.updated_at ≡ env.sql_now
  pub id : t'.id ≡ t.id
  pub parent_id : t'.parent_id ≡ t.parent_id
  pub owner_session : t'.owner_session ≡ t.owner_session
  pub title : t'.title ≡ t.title
  pub task_type : t'.task_type ≡ t.task_type
  pub created_at : t'.created_at ≡ t.created_at
  pub closed_at : t'.closed_at ≡ t.closed_at
  pub close_reason : t'.close_reason ≡ t.close_reason

set_columns-IsUpdate :
    (env : Env) (input : UpdateTaskInput) (t : Task)
    → IsUpdate env input t (set_columns env input t)
unfolding set_columns
set_columns-IsUpdate env input t = record {
  status = updated input.status t.status;
  priority = updated input.priority t.priority;
  description = updated input.description t.description;
  acceptance = updated input.acceptance t.acceptance;
  updated_at = refl;
  id = refl;
  parent_id = refl;
  owner_session = refl;
  title = refl;
  task_type = refl;
  created_at = refl;
  closed_at = refl;
  close_reason = refl;
}

-- An update that no check refuses, and that is given some column, answers a task, which replaces the
-- task's row, and changes no other row. The status, priority, description and acceptance of that task
-- are those that are given, and else those before; the time of its update is the call's, and all its
-- other columns are those before.
pub update_allowed :
    (env : Env) (auth : AuthChecker) (caller task_id : String) (db : Db) (input : UpdateTaskInput)
    (t : Task)
    → get db.tasks task_id ≡ some t
    → refusal auth caller task_id (some t) input.status ≡ none
    → no_sets input ≡ false
    → (t' : Task) × ((update env auth caller task_id input db).0 ≡ ok t')
      × (Rewrites db (update env auth caller task_id input db).1 task_id t'
          × IsUpdate env input t t')
update_allowed env auth caller task_id db input t e h sets =
    let (answer, rewrites) = update-set_columns env auth caller task_id db input t e h sets in
    (set_columns env input t, answer, (rewrites, set_columns-IsUpdate env input t))

close_inversion :
    (env : Env) (auth : AuthChecker) (caller task_id reason : String) (db : Db) (t : Task)
    → (close env auth caller task_id reason db).0 ≡ ok t
    → (get (close env auth caller task_id reason db).1.tasks task_id ≡ some t) × (t.status ≡ closed)
unfolding close_columns
close_inversion env auth caller task_id reason db t done =
    elim (Option-cases (refusal auth caller task_id (get db.tasks task_id) (some closed))) [
      | inr (e, refused) ↦ absurd (
          ok-ne-err (
            sym done
            ∙ ap (λ (r : Outcome Task × Db). r.0)
                (close_refused env auth caller task_id db reason e refused)))
      | inl free ↦ elim (Option-cases (get db.tasks task_id)) [
        | inl missing ↦ absurd (ground (arith, rw missing at free))
        | inr (u, found) ↦
            let (answer, rewrites) =
              close_allowed env auth caller task_id db reason u found (rw found at free) in
            let same : t ≡ close_columns env reason u = ok-injective (sym done ∙ answer) in
            (rewrites.0 task_id ∙ rw (==_refl task_id, same), rw same)
      ]
    ]

-- After a close, a caller who may write the task cannot change its status: the update is refused
-- and leaves the tables as they are.
pub closed_stays :
    (env env' : Env) (auth : AuthChecker) (caller caller' task_id reason : String) (db : Db)
    (t : Task) (input : UpdateTaskInput) (s : Status)
    → (close env auth caller task_id reason db).0 ≡ ok t
    → auth caller' t.owner_session ≡ true
    → input.status ≡ some s
    → update env' auth caller' task_id input (close env auth caller task_id reason db).1
      ≡ (err (invalid_transition closed s), (close env auth caller task_id reason db).1)
closed_stays env env' auth caller caller' task_id reason db t input s done may set =
    let (found, is_closed) = close_inversion env auth caller task_id reason db t done in
    update_refused env' auth caller' task_id (close env auth caller task_id reason db).1 input
      (invalid_transition closed s)
      (refusal-closed auth caller' task_id _ t s input.status found is_closed may set)
