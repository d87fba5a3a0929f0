-- ===== src/Tasks/Queries/Progress.antt =====
-- While a task of task-store.ts is unclosed, some unclosed task has no open blocker: acyclic
-- dependencies do not block one another.
use crabbykit.Prelude.{
  ℕ, zero, suc, ◌+◌, ◌≤◌, ◌<◌, String, ◌≡◌, refl, sym, subst, false, List, [], ◌∷◌, arith, inl, inr,
  string_eq, Bool-cases, In, any-true, if◌then◌else◌,
}
use text.Mathlib.TextEquality.{eq_iff}
use crabbykit.Tasks.{Task, is_closed}
use crabbykit.Tasks.Graph.{contains}
use crabbykit.Tasks.Graph.Walks.{Edge, Reach, here, step, contains_iff}
use crabbykit.Tasks.Graph.Acyclic.{Reach-trans, Edge-of_dep}
use crabbykit.Tasks.Db.{Db}
use crabbykit.Tasks.Store.Cycles.{HasNoCycle}
use crabbykit.Tasks.Store.Calls.{Reachable, Reachable-HasNoCycle}
use crabbykit.Tasks.Queries.{open_blocker, unblocked}
use crabbykit.Tasks.Queries.Ready.{open_blocker_iff, unblocked_iff, AllBlockersClosed}

-- An unclosed task that waits on nothing.
abbrev pub IsStartable : Db → Task → Type 0
IsStartable db t = In t db.tasks × (is_closed t.status ≡ false) × AllBlockersClosed db t

-- The tasks that a search has still to see.
remaining : List Task → List String → ℕ
remaining [] seen = 0
remaining (t ∷ tasks) seen = (if contains seen t.id then 0 else 1) + remaining tasks seen

remaining-le :
    (tasks : List Task) (seen : List String) (u : String)
    → remaining tasks (u ∷ seen) ≤ remaining tasks seen
unfolding remaining contains
remaining-le [] seen u = omega arith
remaining-le (t ∷ tasks) seen u = ground (arith, remaining-le tasks seen u)

remaining-cons :
    (tasks : List Task) (seen : List String) (t : Task)
    → In t tasks
    → contains seen t.id ≡ false
    → remaining tasks (t.id ∷ seen) < remaining tasks seen
unfolding remaining contains
remaining-cons [] seen t m new = absurd m
remaining-cons (x ∷ tasks) seen t m new = ground (
  arith,
  remaining-cons tasks seen t,
  remaining-le tasks seen t.id,
  eq_iff t.id t.id,
  eq_iff t.id x.id,
)

-- An unclosed blocker of a task, and the edge to it.
blocker_of :
    (db : Db) (t : Task)
    → unblocked db t ≡ false
    → (b : Task) × In b db.tasks × (is_closed b.status ≡ false) × Edge db.deps t.id b.id
unfolding unblocked
blocker_of db t h =
    let (d, m, q) = any-true (open_blocker db t) db.deps (ground arith) in
    let (of_t, blocking, (b, in_tasks, is_b, unclosed)) = (open_blocker_iff db t d).0 q in
    (
      b,
      in_tasks,
      unclosed,
      subst (λ v. Edge db.deps t.id v) (sym is_b)
          (subst (λ u. Edge db.deps u d.target_id) of_t (Edge-of_dep db.deps d m blocking)),
    )

module _ (db : Db) (acyclic : HasNoCycle db) where
  -- A blocker is none of the tasks on the way to it.
  blocker_is_new :
      (seen : List String) (t b : String)
      → Edge db.deps t b
      → ((u : String) → In u seen → Reach db.deps t u)
      → contains (t ∷ seen) b ≡ false
  blocker_is_new seen t b edge way = elim (Bool-cases (contains (t ∷ seen) b)) [
    | inr new ↦ new
    | inl old ↦ elim ((contains_iff (t ∷ seen) b).0 old) [
      | inl same ↦ absurd (acyclic t b edge (subst (Reach db.deps t) (sym same) here))
      | inr before ↦ absurd (acyclic t b edge (way b before))
    ]
  ]

  search :
      (fuel : ℕ) (seen : List String) (t : Task)
      → remaining db.tasks seen ≤ fuel
      → In t db.tasks
      → is_closed t.status ≡ false
      → contains seen t.id ≡ false
      → ((u : String) → In u seen → Reach db.deps t.id u)
      → (s : Task) × IsStartable db s
  search zero seen t h m unclosed new way =
      absurd (omega (arith, remaining-cons db.tasks seen t m new))
  search (suc fuel) seen t h m unclosed new way = elim (Bool-cases (unblocked db t)) [
    | inl done ↦ (t, (m, unclosed, (unblocked_iff db t).0 done))
    | inr waits ↦
        let (b, in_tasks, b_unclosed, edge) = blocker_of db t waits in
        search fuel (t.id ∷ seen) b (omega (arith, remaining-cons db.tasks seen t m new)) in_tasks
          b_unclosed (blocker_is_new seen t.id b.id edge way) (extend b.id edge)
  ]
    where
      extend :
          (b : String) → Edge db.deps t.id b → (u : String) → In u (t.id ∷ seen) → Reach db.deps b u
      extend b edge u (inl same) = subst (Reach db.deps b) (sym same) (step edge here)
      extend b edge u (inr before) = Reach-trans (step edge here) (way u before)

-- In every state that calls of the store lead to, where some task is unclosed, some unclosed task
-- has no unclosed blocker.
pub IsStartable-exists :
    (db : Db) (t : Task)
    → Reachable db
    → In t db.tasks
    → is_closed t.status ≡ false
    → (s : Task) × IsStartable db s
unfolding contains
IsStartable-exists db t r m unclosed =
    search db (Reachable-HasNoCycle r) (remaining db.tasks []) [] t (omega arith) m unclosed refl
      (λ u before. absurd before)
