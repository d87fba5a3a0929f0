-- ===== src/Bundles/Tests.antt =====
-- Promotions of in-memory-registry.ts at concrete inputs.
use crabbykit.Prelude.{
  Bool-cases, inl, inr, true, length, String, ◌≡◌, ◌↔◌, ◌⊎◌, refl, none, some, List, [], ◌∷◌, ◌==◌,
  string_eq, if◌then◌else◌, get_or_else, insert, lookup,
}
use crabbykit.Bundles.{collect, missing_ids}
use crabbykit.Bundles.Registry.{
  Metadata, Registry, SetActiveOptions, PromotionError, capability_mismatch, metadata_at, seed,
  get_active_for_agent, set_active, check_version, check_catalog, check_known, check_reserved,
}
use crabbykit.Bundles.Registry.{set_active_sync}
use crabbykit.Bundles.Interface.Instances.{in_memory, in_memory_lawful}
use crabbykit.Bundles.Dispatcher.{
  DispatcherConfig, Host, responds, has_active_bundle, required, dispatch_turn, dispatch_active,
  dispatch_version, after_guard, validated, run_turn, after_worker, validate_catalog_cached,
  read_cached, read_pointer,
}
use crabbykit.Bundles.Dispatcher.Guard.{initial, after_check, HasRequired, dispatch_turn-FitsHost}
use crabbykit.Bundles.Dispatcher.Failures.{
  IsRunning, IsReverted, failing_turns, failing_turns-IsReverted,
}
use crabbykit.Bundles.D1 as D1
use crabbykit.Bundles.D1.{Tables, BundleVersion}
use crabbykit.Bundles.D1.Refines.{Matches, Compares, set_active-Compares}
use crabbykit.Bundles.D1.Rollback.{rollback-set_active}
use crabbykit.Bundles.Validators.{AreUnreserved}
use crabbykit.Bundles.Promotion.{FitsHost, set_active-FitsHost_iff, set_active-result}

abbrev weather : Metadata
weather = record {
  required_capabilities = some ("shell" ∷ "files" ∷ "shell" ∷ []);
  http_routes = none;
  action_capability_ids = some ("weather" ∷ []);
  agent_config_schemas = none;
  config_namespaces = none;
  capability_configs = none;
}

abbrev seeded : Registry
seeded =
    seed 1 "v1" (104 ∷ 105 ∷ []) (some weather)
      (record { versions = []; pointers = []; deployments = [] })

abbrev host : List String → SetActiveOptions
host known = record {
  rationale = some "try it";
  session_id = none;
  skip_catalog_check = none;
  known_capability_ids = some known;
  known_http_routes = none;
  known_agent_config_namespaces = none;
  known_config_namespace_ids = none;
  known_capability_config_ids = none;
}

bundles : Unit {0}
unfolding in_memory set_active check_version dispatch_turn dispatch_active after_guard validated
    run_turn after_worker dispatch_version validate_catalog_cached read_cached read_pointer
    has_active_bundle lookup insert missing_ids collect seed metadata_at get_active_for_agent
    set_active_sync D1.set_active D1.check_version D1.check_required D1.get_version
    D1.get_active_for_agent D1.deploy D1.log_deployment
bundles = tt

-- A missing capability is reported once.
shell_missing :
    (set_active 2 "agent" (some "v1") (host ("files" ∷ [])) seeded).0
    ≡ some (capability_mismatch ("shell" ∷ []))
unfolding set_active check_version check_catalog check_known check_reserved metadata_at lookup
    insert seed missing_ids collect
shell_missing = refl

set_active-FitsHost_iff_example :
    ((set_active 2 "agent" (some "v1") (host ("files" ∷ "shell" ∷ [])) seeded).0 ≡ none) ↔ (
      AreUnreserved (metadata_at seeded "v1").required_capabilities
      × FitsHost (metadata_at seeded "v1") (host ("files" ∷ "shell" ∷ [])) ("files" ∷ "shell" ∷ []))
set_active-FitsHost_iff_example =
    set_active-FitsHost_iff 2 "agent" "v1" (host ("files" ∷ "shell" ∷ [])) ("files" ∷ "shell" ∷ [])
      seeded refl refl

set_active-result_example :
    ((e : PromotionError) × (set_active 2 "agent" (some "v1") (host []) seeded ≡ (some e, seeded)))
    ⊎ (((set_active 2 "agent" (some "v1") (host []) seeded).0 ≡ none)
        × ((key : String)
            → get_active_for_agent (set_active 2 "agent" (some "v1") (host []) seeded).1 key
              ≡ (if "agent" == key then some "v1" else get_active_for_agent seeded key)))
set_active-result_example = set_active-result 2 "agent" (some "v1") (host []) seeded

abbrev dispatcher : DispatcherConfig Registry
dispatcher = record { registry = in_memory 5; agent_id = "agent"; max_load_failures = none }

abbrev running : Host Registry
running = record {
  state = record {
    active_version_id = some "v1";
    consecutive_failures = 1;
    validated_version_id = some "v1";
  };
  registry = seeded;
  cached = none;
  broadcast = [];
}

failing_turns-IsReverted_example :
    IsRunning dispatcher [] true "s" "v1"
      (failing_turns dispatcher [] true "s" ("timeout" ∷ []) running)
    × IsReverted dispatcher [] true "s"
        (failing_turns dispatcher [] true "s" ("timeout" ∷ []) running).cached
        (failing_turns dispatcher [] true "s" ("timeout" ∷ "no bytes" ∷ []) running)
unfolding bundles
failing_turns-IsReverted_example =
    failing_turns-IsReverted dispatcher [] true "s" (in_memory_lawful 5)
      (λ rationale session_id r. refl) ("timeout" ∷ []) "no bytes" "v1" running refl
      (record { active = refl; validated = refl }) refl

-- The pointer is set outside of the dispatcher.
abbrev pointed : Registry
unfolding set_active_sync
pointed = set_active_sync 3 "agent" (some "v1") seeded

abbrev checked : Host Registry
unfolding has_active_bundle
checked =
    (has_active_bundle dispatcher true (record {
      state = record {
        active_version_id = none;
        consecutive_failures = 0;
        validated_version_id = none;
      };
      registry = pointed;
      cached = none;
      broadcast = [];
    })).1

dispatch_turn-FitsHost_example :
    (checked.state.active_version_id ≡ some "v1")
    × (("spine" ∷ "llm" ∷ "shell" ∷ "files" ∷ "shell" ∷ []
          ≡ "spine" ∷ "llm" ∷ get_or_else (required dispatcher "v1" checked.registry) [])
        × HasRequired dispatcher ("files" ∷ "shell" ∷ []) [] "v1" checked)
unfolding bundles
dispatch_turn-FitsHost_example =
    dispatch_turn-FitsHost dispatcher (in_memory_lawful 5) [] checked
      (after_check true (initial pointed none)) ("files" ∷ "shell" ∷ [])
      (λ v s. responds ("hello" ∷ [])) true "s" "v1"
      ("spine" ∷ "llm" ∷ "shell" ∷ "files" ∷ "shell" ∷ []) ("hello" ∷ []) refl

abbrev weather_row : BundleVersion
weather_row = record {
  version_id = "v1";
  kv_key = "bundle:v1";
  size_bytes = 2;
  created_at = 1;
  created_by = none;
  metadata = some (record {
    id = none;
    name = some "weather";
    description = none;
    declared_model = none;
    capability_ids = none;
    authored_by = none;
    version = none;
    build_timestamp = none;
    runtime_hash = none;
    source_name = none;
    required_capabilities = some ("shell" ∷ []);
  });
}

abbrev tables : Tables
tables = record {
  versions = ("v1", weather_row) ∷ [];
  agents =
      (
        "agent",
        record { active_version_id = some "v0"; previous_version_id = none; updated_at = 1 },
      )
      ∷ [];
  deployments = [];
  kv = ("bundle:v1", 104 ∷ 105 ∷ []) ∷ [];
}

-- A registry in memory with the version of the tables, which also has an action there.
abbrev in_step : Registry
in_step = record {
  versions =
      (
        "v1",
        record {
          version_id = "v1";
          bytes = 104 ∷ 105 ∷ [];
          metadata = some (record weather { required_capabilities = some ("shell" ∷ []) });
          created_at = 1;
        },
      )
      ∷ [];
  pointers = tables.agents;
  deployments = [];
}

in_step-Matches : Matches tables in_step
unfolding metadata_at D1.get_version lookup
in_step-Matches = record {
  required =
      λ id. elim (Bool-cases ("v1" == id)) [ inl here ↦ rw here refl | inr there ↦ rw there refl ];
  pointers = refl;
  deployments = refl;
}

set_active-Compares_example :
    Compares tables in_step
      (D1.set_active 2 "agent" (some "v1") (host ("shell" ∷ [])) tables)
      (set_active 2 "agent" (some "v1") (host ("shell" ∷ [])) in_step)
set_active-Compares_example =
    set_active-Compares 2 "agent" (some "v1") (host ("shell" ∷ [])) tables in_step in_step-Matches

rollback-set_active_example :
    (db' : Tables) × (D1.rollback 3 "agent" none none
        (D1.set_active 2 "agent" (some "v1") (host ("shell" ∷ [])) tables).1
      ≡ some db')
    × ((key : String) → D1.get_active_for_agent db' key ≡ D1.get_active_for_agent tables key)
    × (lookup "agent" db'.agents
        ≡ some (record {
          active_version_id = some "v0";
          previous_version_id = some "v1";
          updated_at = 3;
        }))
    × (length db'.deployments ≡ 2)
unfolding bundles
rollback-set_active_example =
    rollback-set_active 2 3 "agent" "v0" (some "v1") (host ("shell" ∷ [])) none none tables refl
      refl
