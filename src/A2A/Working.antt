-- ===== src/A2A/Working.antt =====
-- The tasks at work in the server of handler.ts and claw-executor.ts.
use crabbykit.Prelude.{
  String, ◌≡◌, refl, sym, ◌∙◌, ap, subst, Option, List, [], ◌∷◌, ◌++◌, map, ◌⊎◌, inl, inr, In,
  In-map, In-append, Bool-cases, get_or_else, string_eq, ◌==◌, ==-eq, ==-ne, ◌≢◌,
}
use crabbykit.A2A.{Json, working, TaskStatus}
use crabbykit.A2A.Store.{TaskRow, TaskDb, new_row, update_row, get_session_id_for_context}
use crabbykit.A2A.Executor.{Run, Server}
use crabbykit.A2A.Reachable.{Reachable, IsInvariant}
use crabbykit.A2A.Reachable.Keeps.{Reachable-Keeps}

-- An update of a status sets it on the rows of its task, and leaves the other rows.
update_row-cases :
    (task_id : String) (status : TaskStatus) (now : String) (a : TaskRow)
    → ((a.id ≡ task_id)
        × ((update_row task_id status now a).id ≡ task_id)
        × ((update_row task_id status now a).state ≡ status.state))
      ⊎ ((a.id ≢ task_id) × (update_row task_id status now a ≡ a))
update_row-cases task_id status now a = elim (Bool-cases (a.id == task_id)) [
  | inl same ↦ inl (==-eq same, rw same (==-eq same), rw same refl)
  | inr other ↦ inr (==-ne other, rw other refl)
]

abbrev IsRunning : List TaskRow → List Run → Type 0
IsRunning rows running =
    (r : TaskRow)
    → In r rows
    → r.state ≡ working
    → (run : Run) × In run running × (run.task_id ≡ r.id)

start-IsRunning :
    (rows : List TaskRow) (running : List Run) (run : Run) (status : TaskStatus) (now : String)
    → IsRunning rows running
    → IsRunning (map (update_row run.task_id status now) rows) (running ++ run ∷ [])
start-IsRunning rows running run status now k r m at_work =
    let (a, n, same) = In-map (update_row run.task_id status now) r rows m in
    elim (update_row-cases run.task_id status now a) [
      | inl (of_task, named, set) ↦ (
        run,
        (In-append run running (run ∷ [])).1 (inr (inl refl)),
        sym (ap (λ (r : TaskRow). r.id) same ∙ named),
      )
      | inr (other, unchanged) ↦
          let (p, q, t) =
            k a n (sym (ap (λ (r : TaskRow). r.state) (same ∙ unchanged)) ∙ at_work) in
          (
            p,
            (In-append p running (run ∷ [])).1 (inl q),
            t ∙ sym (ap (λ (r : TaskRow). r.id) (same ∙ unchanged)),
          )
    ]

-- A row that is at work after an update with another status was at work before, and is of another task.
still_working :
    (rows : List TaskRow) (task_id : String) (status : TaskStatus) (now : String)
    → (status.state ≡ working → ⊥)
    → (r : TaskRow) → In r (map (update_row task_id status now) rows)
    → r.state ≡ working
    → In r rows × (r.id ≢ task_id)
still_working rows task_id status now ends r m at_work =
    let (a, n, same) = In-map (update_row task_id status now) r rows m in
    elim (update_row-cases task_id status now a) [
      | inl (of_task, named, set) ↦
          absurd (ends (sym set ∙ sym (ap (λ (r : TaskRow). r.state) same) ∙ at_work))
      | inr (other, unchanged) ↦ (
        subst (λ x. In x rows) (sym (same ∙ unchanged)) n,
        λ h. other (ap (λ (r : TaskRow). r.id) (sym (same ∙ unchanged)) ∙ h),
      )
    ]

update-IsRunning :
    (rows : List TaskRow) (running : List Run) (task_id : String) (status : TaskStatus)
    (now : String)
    → (status.state ≡ working → ⊥)
    → IsRunning rows running
    → IsRunning (map (update_row task_id status now) rows) running
update-IsRunning rows running task_id status now ends k r m at_work =
    k r (still_working rows task_id status now ends r m at_work).0 at_work

-- A run of another task stays where a run is taken out.
other_run :
    (before : List Run) (run : Run) (after : List Run) (p : Run)
    → In p (before ++ run ∷ after)
    → p.task_id ≢ run.task_id
    → In p (before ++ after)
other_run before run after p m other = elim ((In-append p before (run ∷ after)).0 m) [
  | inl early ↦ (In-append p before after).1 (inl early)
  | inr (inl same) ↦ absurd (other (ap (λ (r : Run). r.task_id) same))
  | inr (inr late) ↦ (In-append p before after).1 (inr late)
]

end-IsRunning :
    (rows : List TaskRow) (before : List Run) (run : Run) (after : List Run) (status : TaskStatus)
    (now : String)
    → (status.state ≡ working → ⊥)
    → IsRunning rows (before ++ run ∷ after)
    → IsRunning (map (update_row run.task_id status now) rows) (before ++ after)
end-IsRunning rows before run after status now ends k r m at_work =
    let (n, other) = still_working rows run.task_id status now ends r m at_work in
    let (p, q, t) = k r n at_work in (p, other_run before run after p q (λ h. other (sym t ∙ h)), t)

create-IsRunning :
    (db : TaskDb) (running : List Run) (id context_id : String) (metadata : Option Json)
    (now : String)
    → IsRunning db.tasks running
    → IsRunning
        (db.tasks
          ++ new_row id context_id
              (get_or_else (get_session_id_for_context db context_id) context_id)
              metadata
              now
            ∷ [])
        running
create-IsRunning db running id context_id metadata now k r m at_work =
    elim ((In-append r db.tasks _).0 m) [
      | inl old ↦ k r old at_work
      | inr (inl new) ↦ absurd (cc (sym (ap (λ (r : TaskRow). r.state) new) ∙ at_work))
      | inr (inr none) ↦ absurd none
    ]

IsRunning-IsInvariant : IsInvariant IsRunning
IsRunning-IsInvariant = record {
  at_first = λ r m. absurd m;
  on_create = create-IsRunning;
  on_start = start-IsRunning;
  on_update = update-IsRunning;
  on_end = end-IsRunning;
}

-- In every server that requests and ends of prompts lead to, a task that is at work has a prompt that
-- runs for it.
pub working_task-IsRunning :
    (s : Server)
    → Reachable s
    → (r : TaskRow) → In r s.tasks.tasks
    → r.state ≡ working
    → (run : Run) × In run s.running × (run.task_id ≡ r.id)
working_task-IsRunning s reached = Reachable-Keeps IsRunning-IsInvariant reached
