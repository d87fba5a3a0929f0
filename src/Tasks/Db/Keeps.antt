-- ===== src/Tasks/Db/Keeps.antt =====
-- What a computation over the tables keeps, whatever it answers: the rule for a sequence, and the
-- reads of task-store.ts, which keep everything.
use crabbykit.Prelude.{
  String, ◌≡◌, sym, subst, Option, none, some, Bool, true, false, if◌then◌else◌,
}
use crabbykit.Tasks.{Status, Task, TaskError, valid_transition}
use crabbykit.Tasks.Db.{
  Db, Outcome, ok, err, M, run_then, ◌>>=◌, ◌>>◌, AuthChecker, get, get_or_throw, assert_can_write,
  assert_valid_transition, get_owned, get_created, return,
}

module _ (P : Db → Type 0) where
  abbrev pub Keeps : {A : Type 0} → M A → Type 0
  Keeps m = (db : Db) → P db → P (m db).1

  after :
      {A B : Type 0} (r : Outcome A × Db) (f : A → M B)
      → P r.1
      → ((a : A) → Keeps (f a))
      → P (run_then r f).1
  after (ok a, db) f p k = k a db p
  after (err e, db) f p k = p

  pub then-Keeps :
      {A B : Type 0} (m : M A) (f : A → M B) (db : Db)
      → P (m db).1
      → ((a : A) → Keeps (f a))
      → P ((m >>= f) db).1
  then-Keeps m f db p k = after (m db) f p k

  pub >>=-Keeps :
      {A B : Type 0} (m : M A) (f : A → M B) → Keeps m → ((a : A) → Keeps (f a)) → Keeps (m >>= f)
  >>=-Keeps m f h k db p = after (m db) f (h db p) k

  pub if-Keeps :
      {A : Type 0} (b : Bool) (m n : M A) → Keeps m → Keeps n → Keeps (if b then m else n)
  if-Keeps true m n h k = h
  if-Keeps false m n h k = k

  found-Keeps :
      (o : Option Task) (e : TaskError) (db : Db)
      → P db
      → P (let k : Outcome Task × Db = elim o [ none ↦ (err e, db) | some t ↦ (ok t, db) ] in k).1
  found-Keeps none e db p = p
  found-Keeps (some t) e db p = p

  pub get_or_throw-Keeps : (task_id : String) → Keeps (get_or_throw task_id)
  unfolding get_or_throw
  get_or_throw-Keeps task_id db p = found-Keeps (get db.tasks task_id) _ db p

  pub get_created-Keeps : (task_id : String) → Keeps (get_created task_id)
  unfolding get_created
  get_created-Keeps task_id db p = found-Keeps (get db.tasks task_id) _ db p

  pub assert_can_write-Keeps :
      (auth : AuthChecker) (caller owner : String) → Keeps (assert_can_write auth caller owner)
  unfolding assert_can_write
  assert_can_write-Keeps auth caller owner =
      if-Keeps (auth caller owner) _ _ (λ db p. p) (λ db p. p)

  pub assert_valid_transition-Keeps : (from to : Status) → Keeps (assert_valid_transition from to)
  unfolding assert_valid_transition
  assert_valid_transition-Keeps from to =
      if-Keeps (valid_transition from to) _ _ (λ db p. p) (λ db p. p)

  pub get_owned-Keeps :
      (auth : AuthChecker) (caller task_id : String) → Keeps (get_owned auth caller task_id)
  unfolding get_owned
  get_owned-Keeps auth caller task_id =
      >>=-Keeps (get_or_throw task_id)
        (λ t. assert_can_write auth caller t.owner_session >> return t) (get_or_throw-Keeps task_id)
        λ t.
          >>=-Keeps (assert_can_write auth caller t.owner_session) (λ _. return t)
            (assert_can_write-Keeps auth caller t.owner_session) (λ _ db p. p)

  -- A sequence whose first part has been evaluated.
  pub ok-then :
      {A B : Type 0} (m : M A) (f : A → M B) (db db' : Db) (a : A)
      → m db ≡ (ok a, db')
      → P (f a db').1
      → P ((m >>= f) db).1
  ok-then m f db db' a e p = subst (λ r. P (run_then r f).1) (sym e) p

  pub err-then :
      {A B : Type 0} (m : M A) (f : A → M B) (db db' : Db) (e : TaskError)
      → m db ≡ (err e, db')
      → P db'
      → P ((m >>= f) db).1
  err-then m f db db' e q p = subst (λ r. P (run_then r f).1) (sym q) p
