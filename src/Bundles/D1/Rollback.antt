-- ===== src/Bundles/D1/Rollback.antt =====
-- `rollback` of d1-registry.ts, after a promotion.
use crabbykit.Prelude.{
  ℕ, ◌+◌, String, ◌≡◌, refl, sym, ◌∙◌, ap, Option, none, some, Option-cases, List, [], ◌∷◌, inl,
  inr, Bool-cases, lookup, insert, lookup-insert, ◌==◌, string_eq, if◌then◌else◌, arith, length,
  truthy, length-append, truthy-some, get_or_else,
}
use crabbykit.Bundles.Registry.{AgentPointer, SetActiveOptions, active_of}
use crabbykit.Bundles.D1.{
  Tables, get_active_for_agent, check_version, upserted, log_deployment, deploy, set_active,
  rollback_row, rollback_to, rolled_back, rollback,
}

-- The active version of each agent after one row is written.
written-active :
    (agent_id key : String) (row : AgentPointer) (agents : List (String × AgentPointer))
    → active_of (lookup key (insert agent_id row agents))
      ≡ (if agent_id == key then row.active_version_id else active_of (lookup key agents))
written-active agent_id key row agents =
    ap active_of (sym (lookup-insert agent_id key row agents)) ∙ ground arith

previous-upserted :
    (now : ℕ) (version_id : Option String) (row : Option AgentPointer)
    → (upserted now version_id row).previous_version_id ≡ active_of row
previous-upserted now version_id none = refl
previous-upserted now version_id (some row) = refl

active-upserted :
    (now : ℕ) (version_id : Option String) (row : Option AgentPointer)
    → (upserted now version_id row).active_version_id ≡ version_id
active-upserted now version_id none = refl
active-upserted now version_id (some row) = refl

lookup-written :
    (agent_id : String) (row : AgentPointer) (agents : List (String × AgentPointer))
    → lookup agent_id (insert agent_id row agents) ≡ some row
lookup-written agent_id row agents =
    sym (lookup-insert agent_id agent_id row agents)
    ∙ ap (λ b. if b then some row else lookup agent_id agents)
        ((string_eq.same_iff agent_id agent_id).1 refl)

-- The tables after a promotion that is accepted, with the agent's row.
abbrev row_after : ℕ → Option String → Tables → String → AgentPointer
unfolding lookup
row_after now version_id db agent_id = upserted now version_id (lookup agent_id db.agents)

-- `rollback` where the agent has a row with a previous version.
rollback-previous :
    (now : ℕ) (agent_id : String) (rationale session_id : Option String) (row : AgentPointer)
    (previous : String) (db : Tables)
    → lookup agent_id db.agents ≡ some row
    → truthy row.previous_version_id ≡ some previous
    → rollback now agent_id rationale session_id db
      ≡ some (rolled_back now agent_id rationale session_id row previous db)
unfolding rollback
rollback-previous now agent_id rationale session_id row previous db there names =
    ap (λ r. rollback_row now agent_id rationale session_id r db) there
    ∙ ap (λ p. rollback_to now agent_id rationale session_id row p db) names

set_active-accepted :
    (now : ℕ) (agent_id : String) (version_id : Option String) (options : SetActiveOptions)
    (db : Tables)
    → (set_active now agent_id version_id options db).0 ≡ none
    → (set_active now agent_id version_id options db).1 ≡ deploy now agent_id version_id options db
unfolding set_active
set_active-accepted now agent_id version_id options db accepted =
    elim (Option-cases (check_version db version_id options)) [
      | inl passes ↦ rw passes refl
      | inr (e, fails) ↦ absurd (cc (rw (fails, set_active) at accepted))
    ]

same_active :
    (agent_id key v : String) (promoted : Option String) (db : Tables)
    → get_active_for_agent db agent_id ≡ some v
    → (if agent_id == key
        then some v
        else (if agent_id == key then promoted else active_of (lookup key db.agents)))
      ≡ get_active_for_agent db key
unfolding get_active_for_agent
same_active agent_id key v promoted db active = elim (Bool-cases (agent_id == key)) [
  | inl here ↦ rw here (
      sym active
      ∙ ap (λ k. active_of (lookup k db.agents)) ((string_eq.same_iff agent_id key).0 here))
  | inr other ↦ rw other refl
]

length_logged :
    (now : ℕ) (agent_id : String) (version_id session_id rationale : Option String) (db : Tables)
    → length (log_deployment now agent_id version_id session_id rationale db).deployments
      ≡ length db.deployments + 1
unfolding log_deployment
length_logged now agent_id version_id session_id rationale db = length-append db.deployments (
    record {
      id = length db.deployments + 1;
      agent_id = agent_id;
      version_id = version_id;
      deployed_at = now;
      deployed_by_session_id = session_id;
      rationale = rationale;
    }
    ∷ [])

-- After a promotion that is accepted, of an agent that had an active version, a rollback succeeds: every
-- agent has the active version of before the promotion, the promoted one is the agent's previous
-- version, and the log has two rows more.
pub rollback-set_active :
    (now later : ℕ) (agent_id v : String) (version_id : Option String) (options : SetActiveOptions)
    (rationale session_id : Option String) (db : Tables)
    → truthy (get_active_for_agent db agent_id) ≡ some v
    → (set_active now agent_id version_id options db).0 ≡ none
    → (db' : Tables) × (rollback later agent_id rationale session_id
          (set_active now agent_id version_id options db).1
        ≡ some db')
      × ((key : String) → get_active_for_agent db' key ≡ get_active_for_agent db key)
      × (lookup agent_id db'.agents
          ≡ some (record {
            active_version_id = some v;
            previous_version_id = version_id;
            updated_at = later;
          }))
      × (length db'.deployments ≡ length db.deployments + 2)
unfolding set_active deploy log_deployment get_active_for_agent rolled_back
rollback-set_active now later agent_id v version_id options rationale session_id db active
      accepted =
    let row = row_after now version_id db agent_id in
    let d1 = deploy now agent_id version_id options db in
    let named : truthy row.previous_version_id ≡ some v =
      ap truthy (previous-upserted now version_id (lookup agent_id db.agents)) ∙ active in
    let back : AgentPointer = record {
      active_version_id = some v;
      previous_version_id = row.active_version_id;
      updated_at = later;
    } in
    (
      rolled_back later agent_id rationale session_id row v d1,
      ap (rollback later agent_id rationale session_id)
            (set_active-accepted now agent_id version_id options db accepted)
          ∙ rollback-previous later agent_id rationale session_id row v d1
              (lookup-written agent_id row db.agents) named,
      λ key.
          written-active agent_id key back d1.agents
          ∙ ap (λ a. if agent_id == key then some v else a)
              (written-active agent_id key row db.agents)
          ∙ same_active agent_id key v row.active_version_id db
              (truthy-some (get_active_for_agent db agent_id) v active),
      lookup-written agent_id back d1.agents
          ∙ ap
              (λ a. some (record {
                active_version_id = some v;
                previous_version_id = a;
                updated_at = later;
              }))
              (active-upserted now version_id (lookup agent_id db.agents)),
      length_logged later agent_id (some v) session_id (some (get_or_else rationale "rollback")) d1
          ∙ ap (λ n. n + 1)
              (length_logged now agent_id version_id options.session_id options.rationale db)
          ∙ (omega arith),
    )
