-- ===== src/Bundles/D1.antt =====
-- `D1BundleRegistry` of packages/runtime/bundle-registry/src/d1-registry.ts (types.ts): versions, pointers
-- and deployments in three tables, the bytes in a KV store. Metadata has the types that types.ts gives
-- it; a text is sliced by its characters. The digest and what KV shows of a fresh key are parameters.
pub mod Refines
pub mod Rollback
use Prim.Native.String
use crabbykit.Prelude.{
  ℕ, zero, suc, ◌+◌, ◌*◌, String, Bool, true, false, not, Option, none, some, List, [], ◌∷◌, ◌++◌,
  ◌==◌, string_eq, if◌then◌else◌, ltb, any, filter, map, length, take, lookup, insert, truthy,
  get_or_else, slice,
}
use crabbykit.Bundles.{has_id, missing_ids}
use crabbykit.Bundles.Registry.{
  AgentPointer, SetActiveOptions, PromotionError, reserved_scope, known_ids_required,
  capability_mismatch, reserved, refuse, or_then, active_of,
}

pub record BundleMetadata : Type 0 where
  pub id : Option String
  pub name : Option String
  pub description : Option String
  pub declared_model : Option String
  pub capability_ids : Option (List String)
  pub authored_by : Option String
  pub version : Option String
  pub build_timestamp : Option ℕ
  pub runtime_hash : Option String
  pub source_name : Option String
  pub required_capabilities : Option (List String)

pub record BundleVersion : Type 0 where
  pub version_id : String
  pub kv_key : String
  pub size_bytes : ℕ
  pub created_at : ℕ
  pub created_by : Option String
  pub metadata : Option BundleMetadata

pub record BundleDeployment : Type 0 where
  pub id : ℕ
  pub agent_id : String
  pub version_id : Option String
  pub deployed_at : ℕ
  pub deployed_by_session_id : Option String
  pub rationale : Option String

-- The tables bundle_versions, agent_bundles and bundle_deployments, by their primary keys, and the KV
-- store.
pub record Tables : Type 0 where
  pub versions : List (String × BundleVersion)
  pub agents : List (String × AgentPointer)
  pub deployments : List BundleDeployment
  pub kv : List (String × List ℕ)

abbrev pub max_bundle_size_bytes : ℕ
max_bundle_size_bytes = 25 * 1024 * 1024

abbrev pub metadata_string_max : ℕ
metadata_string_max = 256

abbrev pub metadata_description_max : ℕ
metadata_description_max = 1024

abbrev pub metadata_capability_ids_max : ℕ
metadata_capability_ids_max = 32

abbrev sliced : ℕ → Option String → Option String
sliced n none = none
sliced n (some s) = some (slice n s)

-- The ids that are not empty, sliced; none of them leaves the key out.
abbrev nonempty_list : List String → Option (List String)
nonempty_list [] = none
nonempty_list (id ∷ ids) = some (id ∷ ids)

unfoldable pub sanitize_required : List String → Option (List String)
unfolding slice
sanitize_required ids = nonempty_list (
    map (slice metadata_string_max)
      (filter (λ id. not (id == "")) (take metadata_capability_ids_max ids)))

unfoldable pub sanitize_metadata : BundleMetadata → BundleMetadata
unfolding sanitize_required slice
sanitize_metadata raw = record {
  id = sliced metadata_string_max raw.id;
  name = sliced metadata_string_max raw.name;
  description = sliced metadata_description_max raw.description;
  declared_model = sliced metadata_string_max raw.declared_model;
  capability_ids = elim raw.capability_ids [
    | none ↦ none
    | some ids ↦ some (map (slice metadata_string_max) (take metadata_capability_ids_max ids))
  ];
  authored_by = sliced metadata_string_max raw.authored_by;
  version = sliced metadata_string_max raw.version;
  build_timestamp = raw.build_timestamp;
  runtime_hash = sliced metadata_string_max raw.runtime_hash;
  source_name = sliced metadata_string_max raw.source_name;
  required_capabilities = elim raw.required_capabilities [
    | none ↦ none
    | some ids ↦ sanitize_required ids
  ];
}

unfoldable pub get_active_for_agent : Tables → String → Option String
unfolding lookup
get_active_for_agent db agent_id = active_of (lookup agent_id db.agents)

unfoldable pub get_version : Tables → String → Option BundleVersion
unfolding lookup
get_version db version_id = lookup version_id db.versions

-- `version?.metadata?.requiredCapabilities`
abbrev pub required_of_version : Option BundleVersion → Option (List String)
required_of_version none = none
required_of_version (some v) = elim v.metadata [ none ↦ none | some m ↦ m.required_capabilities ]

unfoldable pub check_required : Option (List String) → SetActiveOptions → Option PromotionError
unfolding missing_ids
check_required required options =
    or_then (if any (has_id reserved) (get_or_else required []) then some reserved_scope else none)
      (if get_or_else options.skip_catalog_check false
        then none
        else elim options.known_capability_ids [
          | none ↦ some known_ids_required
          | some known ↦ refuse capability_mismatch (missing_ids required known)
        ])

unfoldable pub check_version : Tables → Option String → SetActiveOptions → Option PromotionError
unfolding check_required get_version
check_version db none options = none
check_version db (some version_id) options =
    check_required (required_of_version (get_version db version_id)) options

-- The row of INSERT … ON CONFLICT DO UPDATE, from the one that is there.
abbrev pub upserted : ℕ → Option String → Option AgentPointer → AgentPointer
upserted now version_id none = record {
  active_version_id = version_id;
  previous_version_id = none;
  updated_at = now;
}
upserted now version_id (some row) = record {
  active_version_id = version_id;
  previous_version_id = row.active_version_id;
  updated_at = now;
}

-- A row of bundle_deployments gets the next id; no row is ever deleted.
unfoldable pub log_deployment :
    ℕ → String → Option String → Option String → Option String → Tables → Tables
log_deployment now agent_id version_id session_id rationale db =
    let row : BundleDeployment = record {
      id = length db.deployments + 1;
      agent_id = agent_id;
      version_id = version_id;
      deployed_at = now;
      deployed_by_session_id = session_id;
      rationale = rationale;
    } in
    record db { deployments = db.deployments ++ row ∷ [] }

-- The batch of `setActive`.
unfoldable pub deploy : ℕ → String → Option String → SetActiveOptions → Tables → Tables
unfolding insert lookup log_deployment
deploy now agent_id version_id options db =
    log_deployment now agent_id version_id options.session_id options.rationale (record db {
      agents = insert agent_id (upserted now version_id (lookup agent_id db.agents)) db.agents;
    })

abbrev pub after_check : Option PromotionError → Tables → Tables → Option PromotionError × Tables
after_check none db deployed = (none, deployed)
after_check (some e) db deployed = (some e, db)

unfoldable pub set_active :
    ℕ → String → Option String → SetActiveOptions → Tables → Option PromotionError × Tables
unfolding check_version deploy
set_active now agent_id version_id options db =
    after_check (check_version db version_id options) db (deploy now agent_id version_id options db)

unfoldable pub get_bytes : Tables → String → Option (List ℕ)
unfolding lookup
get_bytes db version_id = lookup (String.◌++◌ "bundle:" version_id) db.kv

-- `rollback`: `none` is the error that there is no previous version.
unfoldable pub rolled_back :
    ℕ → String → Option String → Option String → AgentPointer → String → Tables → Tables
unfolding insert log_deployment
rolled_back now agent_id rationale session_id row previous db =
    log_deployment now agent_id (some previous) session_id (some (get_or_else rationale "rollback"))
      (record db {
        agents =
            insert agent_id
              (record {
                active_version_id = some previous;
                previous_version_id = row.active_version_id;
                updated_at = now;
              })
              db.agents;
      })

abbrev pub rollback_to :
    ℕ
    → String
    → Option String
    → Option String
    → AgentPointer
    → Option String
    → Tables
    → Option Tables
unfolding rolled_back
rollback_to now agent_id rationale session_id row none db = none
rollback_to now agent_id rationale session_id row (some previous) db =
    some (rolled_back now agent_id rationale session_id row previous db)

abbrev pub rollback_row :
    ℕ → String → Option String → Option String → Option AgentPointer → Tables → Option Tables
unfolding rollback_to
rollback_row now agent_id rationale session_id none db = none
rollback_row now agent_id rationale session_id (some row) db =
    rollback_to now agent_id rationale session_id row (truthy row.previous_version_id) db

unfoldable pub rollback : ℕ → String → Option String → Option String → Tables → Option Tables
unfolding rollback_row lookup
rollback now agent_id rationale session_id db =
    rollback_row now agent_id rationale session_id (lookup agent_id db.agents) db

-- What `createVersion` answers or throws.
pub data Created : Type 0 where
  created : BundleVersion → Created
  too_large readback_timed_out : Created

-- `hash` is SHA-256 in hexadecimal digits; `visible` says that the polls of `verifyKvReadback` see the
-- bytes in time.
module _ (hash : List ℕ → String) (visible : Bool) where
  abbrev new_version : ℕ → List ℕ → Option String → Option BundleMetadata → BundleVersion
  unfolding sanitize_metadata
  new_version now bytes created_by metadata = record {
    version_id = hash bytes;
    kv_key = String.◌++◌ "bundle:" (hash bytes);
    size_bytes = length bytes;
    created_at = now;
    created_by = created_by;
    metadata = elim metadata [ none ↦ none | some m ↦ some (sanitize_metadata m) ];
  }

  -- The row and the bytes are written where no version has the digest.
  unfoldable pub store_version :
      BundleVersion → List ℕ → Option BundleVersion → Tables → Created × Tables
  unfolding insert
  store_version v bytes (some existing) db = (created existing, db)
  store_version v bytes none db =
      let stored = record db { kv = insert v.kv_key bytes db.kv } in
      if visible
      then (created v, record stored { versions = insert v.version_id v stored.versions })
      else (readback_timed_out, stored)

  unfoldable pub create_version :
      ℕ → List ℕ → Option String → Option BundleMetadata → Tables → Created × Tables
  unfolding store_version new_version lookup
  create_version now bytes created_by metadata db =
      let v = new_version now bytes created_by metadata in
      if ltb max_bundle_size_bytes (length bytes)
      then (too_large, db)
      else store_version v bytes (lookup (hash bytes) db.versions) db
