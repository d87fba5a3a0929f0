-- ===== src/Bundles/D1/Refines.antt =====
-- `setActive` of d1-registry.ts, against the registry in memory of in-memory-registry.ts.
use mathlib.Core.List.{map-append}
use crabbykit.Prelude.{
  ℕ, String, ◌≡◌, refl, sym, ◌∙◌, ap, subst, false, Option, none, some, Option-cases, List, [], ◌∷◌,
  ◌++◌, map, length, ◌+◌, ◌⊎◌, inl, inr, Bool-cases, lookup, insert, get_or_else, string_eq,
}
use crabbykit.Bundles.{missing_ids}
use crabbykit.Bundles.Registry as Memory
use crabbykit.Bundles.Registry.{
  Metadata, AgentPointer, DeploymentLog, Registry, SetActiveOptions, PromotionError, reserved_scope,
  known_ids_required, capability_mismatch, action_id_collision, agent_config_collision,
  config_namespace_collision, capability_config_collision, route_collision, refuse, or_then,
  metadata_at, check_reserved, check_known, check_catalog, active_of,
}
use crabbykit.Bundles.D1.{
  BundleDeployment, Tables, get_version, required_of_version, check_required, check_version,
  upserted, log_deployment, deploy, set_active,
}

abbrev pub log_of : BundleDeployment → DeploymentLog
log_of d = record {
  agent_id = d.agent_id;
  version_id = d.version_id;
  rationale = d.rationale;
  session_id = d.deployed_by_session_id;
  deployed_at = d.deployed_at;
}

-- A registry in memory that has what the tables have: the required capabilities of every version, the
-- pointers and the deployments. The rest of a version's metadata, which the tables do not keep, is
-- anything.
pub record Matches (db : Tables) (reg : Registry) : Type 0 where
  pub required :
      (id : String)
      → (metadata_at reg id).required_capabilities ≡ required_of_version (get_version db id)
  pub pointers : reg.pointers ≡ db.agents
  pub deployments : reg.deployments ≡ map log_of db.deployments

-- The refusals of what a bundle provides; those of what it requires are the others.
abbrev pub IsCollision : PromotionError → Type 0
IsCollision reserved_scope = ⊥
IsCollision known_ids_required = ⊥
IsCollision (capability_mismatch ids) = ⊥
IsCollision (action_id_collision ids) = Unit
IsCollision (agent_config_collision ids) = Unit
IsCollision (config_namespace_collision ids) = Unit
IsCollision (capability_config_collision ids) = Unit
IsCollision (route_collision routes) = Unit

-- A check that throws a collision at most.
abbrev Collides : Option PromotionError → Type 0
Collides e = (e ≡ none) ⊎ ((x : PromotionError) × (e ≡ some x) × IsCollision x)

or_then-Collides : (a b : Option PromotionError) → Collides a → Collides b → Collides (or_then a b)
or_then-Collides none b p q = q
or_then-Collides (some e) b p q = p

refuse-Collides :
    {A : Type 0} (e : List A → PromotionError)
    → ((xs : List A) → IsCollision (e xs))
    → (xs : List A) → Collides (refuse e xs)
refuse-Collides e is_collision [] = inl refl
refuse-Collides e is_collision (x ∷ xs) = inr (e (x ∷ xs), refl, is_collision (x ∷ xs))

-- What the tables throw, and what the registry in memory does: the same, or a collision where the tables
-- throw nothing.
abbrev Agrees : Option PromotionError → Option PromotionError → Type 0
Agrees e e' = (e' ≡ e) ⊎ ((e ≡ none) × ((x : PromotionError) × (e' ≡ some x) × IsCollision x))

or_then-Agrees :
    (a e e' : Option PromotionError) → Agrees e e' → Agrees (or_then a e) (or_then a e')
or_then-Agrees none e e' k = k
or_then-Agrees (some x) e e' k = inl refl

then-Agrees : (e c : Option PromotionError) → Collides c → Agrees e (or_then e c)
then-Agrees none c (inl nothing) = inl nothing
then-Agrees none c (inr collision) = inr (refl, collision)
then-Agrees (some x) c k = inl refl

check_known-Agrees :
    (meta : Metadata) (options : SetActiveOptions) (known : List String)
    → Agrees
        (refuse capability_mismatch (missing_ids meta.required_capabilities known))
        (check_known meta options known)
unfolding check_known
check_known-Agrees meta options known =
    then-Agrees (refuse capability_mismatch (missing_ids meta.required_capabilities known)) _ (
      or_then-Collides _ _ (refuse-Collides route_collision (λ xs. tt) _) (
        or_then-Collides _ _ (refuse-Collides action_id_collision (λ xs. tt) _) (
          or_then-Collides _ _ (refuse-Collides agent_config_collision (λ xs. tt) _) (
            or_then-Collides _ _ (refuse-Collides config_namespace_collision (λ xs. tt) _)
              (refuse-Collides capability_config_collision (λ xs. tt) _)))))

check_required-Agrees :
    (meta : Metadata) (options : SetActiveOptions)
    → Agrees
        (check_required meta.required_capabilities options)
        (or_then (check_reserved meta) (check_catalog meta options))
unfolding check_required check_reserved check_catalog
check_required-Agrees meta options =
    or_then-Agrees (check_reserved meta) _ _
      (elim (Bool-cases (get_or_else options.skip_catalog_check false)) [
        | inl skips ↦ rw skips (inl refl)
        | inr checks ↦ rw checks (elim (Option-cases options.known_capability_ids) [
          | inl absent ↦ rw absent (inl refl)
          | inr (known, given) ↦ rw given (check_known-Agrees meta options known)
        ])
      ])

check_version-Agrees :
    (db : Tables) (reg : Registry) (version_id : Option String) (options : SetActiveOptions)
    → Matches db reg
    → Agrees (check_version db version_id options) (Memory.check_version reg version_id options)
unfolding Memory.check_version check_version
check_version-Agrees db reg none options k = inl refl
check_version-Agrees db reg (some id) options k =
    subst
      (λ required. Agrees (check_required required options) (
        or_then (check_reserved (metadata_at reg id)) (check_catalog (metadata_at reg id) options)))
      (k.required id) (check_required-Agrees (metadata_at reg id) options)

upserted_same :
    (now : ℕ) (version_id : Option String) (row : Option AgentPointer)
    → ◌≡◌ {A = AgentPointer}
        (record {
          active_version_id = version_id;
          previous_version_id = active_of row;
          updated_at = now;
        })
        (upserted now version_id row)
upserted_same now version_id none = refl
upserted_same now version_id (some row) = refl

deploy-Matches :
    (now : ℕ) (agent_id : String) (version_id : Option String) (options : SetActiveOptions)
    (db : Tables) (reg : Registry)
    → Matches db reg
    → Matches
        (deploy now agent_id version_id options db)
        (Memory.deploy now agent_id version_id options reg)
unfolding Memory.deploy Memory.set_active_sync Memory.get_active_for_agent deploy log_deployment
    metadata_at get_version
deploy-Matches now agent_id version_id options db reg k =
    let row : BundleDeployment = record {
      id = length db.deployments + 1;
      agent_id = agent_id;
      version_id = version_id;
      deployed_at = now;
      deployed_by_session_id = options.session_id;
      rationale = options.rationale;
    } in
    record {
      required = k.required;
      pointers =
          ap
            (λ (rows : List (String × AgentPointer)).
              insert agent_id
                (record {
                  active_version_id = version_id;
                  previous_version_id = active_of (lookup agent_id rows);
                  updated_at = now;
                })
                rows)
            k.pointers
          ∙ ap (λ row. insert agent_id row db.agents)
              (upserted_same now version_id (lookup agent_id db.agents));
      deployments =
          ap (λ rows. rows ++ log_of row ∷ []) k.deployments
          ∙ sym (map-append log_of db.deployments (row ∷ []));
    }

-- The tables and a registry in memory after a call each: both throw nothing and match again; both throw
-- the same and stay; or the registry in memory throws a collision and stays, where the tables throw
-- nothing.
abbrev pub Compares :
    Tables → Registry → Option PromotionError × Tables → Option PromotionError × Registry → Type 0
Compares db reg (e, db') (e', reg') =
    ((e ≡ none) × (e' ≡ none) × Matches db' reg')
    ⊎ (((x : PromotionError) × (e ≡ some x) × (e' ≡ some x) × (db' ≡ db) × (reg' ≡ reg))
        ⊎ ((x : PromotionError) × IsCollision x × (e ≡ none) × (e' ≡ some x) × (reg' ≡ reg)))

-- Where a registry in memory matches the tables, calls of `setActive` with the same arguments compare:
-- what the tables refuse it refuses with the same error and neither changes; what it accepts the
-- tables accept, and both match again; and where only it refuses, that is for a collision of the
-- routes, actions, configurations or namespaces that the bundle provides, which the tables do not
-- check.
pub set_active-Compares :
    (now : ℕ) (agent_id : String) (version_id : Option String) (options : SetActiveOptions)
    (db : Tables) (reg : Registry)
    → Matches db reg
    → Compares db reg
        (set_active now agent_id version_id options db)
        (Memory.set_active now agent_id version_id options reg)
unfolding Memory.set_active set_active
set_active-Compares now agent_id version_id options db reg k =
    elim (check_version-Agrees db reg version_id options k) [
      | inl same ↦ elim (Option-cases (check_version db version_id options)) [
        | inl passes ↦
            rw (same ∙ passes, Memory.set_active)
              (rw passes
                (inl (refl, refl, deploy-Matches now agent_id version_id options db reg k)))
        | inr (x, fails) ↦
            rw (same ∙ fails, Memory.set_active) (rw fails (inr (inl (x, refl, refl, refl, refl))))
      ]
      | inr (passes, (x, collides, is_collision)) ↦
          rw (collides, Memory.set_active)
            (rw passes (inr (inr (x, is_collision, refl, refl, refl))))
    ]
