-- ===== src/Bundles/Registry.antt =====
-- `InMemoryBundleRegistry` of packages/runtime/bundle-host/src/in-memory-registry.ts: versions,
-- pointers of agents, and the log of deployments.
use crabbykit.Prelude.{
  ℕ, String, Bool, true, false, Option, none, some, List, [], ◌∷◌, ◌++◌, ◌==◌, string_eq,
  if◌then◌else◌, any, filter, length, lookup, insert, truthy, get_or_else,
}
use crabbykit.Bundles.{RouteSpec, has_id, missing_ids, colliding_ids, colliding_routes}

-- What the promotion reads of a version's metadata; of an array of objects with ids, the ids, and
-- of the agent config schemas, the keys.
pub record Metadata : Type 0 where
  pub required_capabilities : Option (List String)
  pub http_routes : Option (List RouteSpec)
  pub action_capability_ids : Option (List String)
  pub agent_config_schemas : Option (List String)
  pub config_namespaces : Option (List String)
  pub capability_configs : Option (List String)

pub record VersionEntry : Type 0 where
  pub version_id : String
  pub bytes : List ℕ
  pub metadata : Option Metadata
  pub created_at : ℕ

pub record AgentPointer : Type 0 where
  pub active_version_id : Option String
  pub previous_version_id : Option String
  pub updated_at : ℕ

pub record DeploymentLog : Type 0 where
  pub agent_id : String
  pub version_id : Option String
  pub rationale : Option String
  pub session_id : Option String
  pub deployed_at : ℕ

pub record Registry : Type 0 where
  pub versions : List (String × VersionEntry)
  pub pointers : List (String × AgentPointer)
  pub deployments : List DeploymentLog

pub record SetActiveOptions : Type 0 where
  pub rationale : Option String
  pub session_id : Option String
  pub skip_catalog_check : Option Bool
  pub known_capability_ids : Option (List String)
  pub known_http_routes : Option (List RouteSpec)
  pub known_agent_config_namespaces : Option (List String)
  pub known_config_namespace_ids : Option (List String)
  pub known_capability_config_ids : Option (List String)

pub data PromotionError : Type 0 where
  reserved_scope known_ids_required : PromotionError
  capability_mismatch action_id_collision agent_config_collision : List String → PromotionError
  config_namespace_collision capability_config_collision : List String → PromotionError
  route_collision : List RouteSpec → PromotionError

unfoldable pub seed : ℕ → String → List ℕ → Option Metadata → Registry → Registry
unfolding insert
seed now version_id bytes metadata reg =
    let entry : VersionEntry = record {
      version_id = version_id;
      bytes = bytes;
      metadata = metadata;
      created_at = now;
    } in
    record reg { versions = insert version_id entry reg.versions }

abbrev pub active_of : Option AgentPointer → Option String
active_of none = none
active_of (some p) = p.active_version_id

unfoldable pub get_active_for_agent : Registry → String → Option String
unfolding lookup
get_active_for_agent reg agent_id = active_of (lookup agent_id reg.pointers)

unfoldable pub set_active_sync : ℕ → String → Option String → Registry → Registry
unfolding insert get_active_for_agent
set_active_sync now agent_id version_id reg =
    let pointer : AgentPointer = record {
      active_version_id = version_id;
      previous_version_id = get_active_for_agent reg agent_id;
      updated_at = now;
    } in
    record reg { pointers = insert agent_id pointer reg.pointers }

abbrev pub reserved : List String
reserved = "spine" ∷ "llm" ∷ []

abbrev metadata_of : Option VersionEntry → Option Metadata
metadata_of none = none
metadata_of (some v) = v.metadata

abbrev no_metadata : Metadata
no_metadata = record {
  required_capabilities = none;
  http_routes = none;
  action_capability_ids = none;
  agent_config_schemas = none;
  config_namespaces = none;
  capability_configs = none;
}

unfoldable pub metadata_at : Registry → String → Metadata
unfolding lookup
metadata_at reg version_id = get_or_else (metadata_of (lookup version_id reg.versions)) no_metadata

-- `if (!result.valid) throw …`
abbrev pub refuse {ℓ} : {A : Type ℓ} → (List A → PromotionError) → List A → Option PromotionError
refuse e [] = none
refuse e (x ∷ xs) = some (e (x ∷ xs))

-- The first of two checks that throws.
abbrev pub or_then : Option PromotionError → Option PromotionError → Option PromotionError
or_then none next = next
or_then (some e) next = some e

unfoldable pub check_reserved : Metadata → Option PromotionError
check_reserved meta =
    if any (has_id reserved) (get_or_else meta.required_capabilities [])
    then some reserved_scope
    else none

-- The checks after `skipCatalogCheck`, in their order.
unfoldable pub check_known : Metadata → SetActiveOptions → List String → Option PromotionError
unfolding missing_ids colliding_ids colliding_routes
check_known meta options known =
    or_then (refuse capability_mismatch (missing_ids meta.required_capabilities known)) (
      or_then (refuse route_collision (colliding_routes meta.http_routes options.known_http_routes))
        (or_then
          (refuse action_id_collision (colliding_ids meta.action_capability_ids (some known)))
          (or_then
            (refuse agent_config_collision
              (colliding_ids meta.agent_config_schemas options.known_agent_config_namespaces))
            (or_then
              (refuse config_namespace_collision
                (colliding_ids meta.config_namespaces options.known_config_namespace_ids))
              (refuse capability_config_collision
                (colliding_ids meta.capability_configs options.known_capability_config_ids))))))

unfoldable pub check_catalog : Metadata → SetActiveOptions → Option PromotionError
unfolding check_known
check_catalog meta options =
    if get_or_else options.skip_catalog_check false
    then none
    else elim options.known_capability_ids [
      | none ↦ some known_ids_required
      | some known ↦ check_known meta options known
    ]

unfoldable pub check_version : Registry → Option String → SetActiveOptions → Option PromotionError
unfolding check_reserved check_catalog metadata_at
check_version reg none options = none
check_version reg (some version_id) options =
    or_then (check_reserved (metadata_at reg version_id))
      (check_catalog (metadata_at reg version_id) options)

unfoldable pub deploy : ℕ → String → Option String → SetActiveOptions → Registry → Registry
unfolding set_active_sync
deploy now agent_id version_id options reg =
    let log : DeploymentLog = record {
      agent_id = agent_id;
      version_id = version_id;
      rationale = options.rationale;
      session_id = options.session_id;
      deployed_at = now;
    } in
    record (set_active_sync now agent_id version_id reg) {
      deployments = reg.deployments ++ log ∷ [];
    }

unfoldable pub set_active :
    ℕ → String → Option String → SetActiveOptions → Registry → Option PromotionError × Registry
unfolding check_version deploy
set_active now agent_id version_id options reg = elim (check_version reg version_id options) [
  | none ↦ (none, deploy now agent_id version_id options reg)
  | some e ↦ (some e, reg)
]

unfoldable pub get_bytes : Registry → String → Option (List ℕ)
unfolding lookup
get_bytes reg version_id = elim (lookup version_id reg.versions) [
  | none ↦ none
  | some v ↦ some v.bytes
]

pub record CreatedVersion : Type 0 where
  pub version_id : String
  pub size_bytes : ℕ
  pub created_at : ℕ
  pub created_by : Option String
  pub metadata : Option Metadata

-- SHA-256 in hexadecimal digits is the platform's.
module _ (hash : List ℕ → String) where
  unfoldable pub create_version :
      ℕ → List ℕ → Option String → Option Metadata → Registry → CreatedVersion × Registry
  unfolding seed lookup
  create_version now bytes created_by metadata reg = elim (lookup (hash bytes) reg.versions) [
    | some existing ↦ (
      record {
        version_id = hash bytes;
        size_bytes = length existing.bytes;
        created_at = existing.created_at;
        created_by = created_by;
        metadata = existing.metadata;
      },
      reg,
    )
    | none ↦ (
      record {
        version_id = hash bytes;
        size_bytes = length bytes;
        created_at = now;
        created_by = created_by;
        metadata = metadata;
      },
      seed now (hash bytes) bytes metadata reg,
    )
  ]

abbrev logged_for : Option String → DeploymentLog → Bool
logged_for none d = true
logged_for (some agent_id) d = d.agent_id == agent_id

unfoldable pub get_deployments : Registry → Option String → List DeploymentLog
get_deployments reg agent_id = filter (logged_for (truthy agent_id)) reg.deployments
