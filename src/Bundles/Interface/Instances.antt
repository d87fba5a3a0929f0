-- ===== src/Bundles/Interface/Instances.antt =====
-- The registry in memory and the one on tables, as the registry that the dispatcher uses.
use crabbykit.Prelude.{
  ℕ, String, ◌≡◌, refl, sym, ◌∙◌, ap, Bool, true, Option, none, some, List, lookup, insert,
  lookup-insert, string_eq, if◌then◌else◌, is_some,
}
use crabbykit.Bundles.Interface.{BundleRegistry, IsBundleRegistry}
use crabbykit.Bundles.Registry as Memory
use crabbykit.Bundles.Registry.{
  Registry, SetActiveOptions, metadata_at, active_of, AgentPointer, PromotionError,
}
use crabbykit.Bundles.D1 as D1
use crabbykit.Bundles.D1.{Tables, required_of_version, upserted}

abbrev pub clearing : String → Option String → SetActiveOptions
clearing rationale session_id = record {
  rationale = some rationale;
  session_id = session_id;
  skip_catalog_check = some true;
  known_capability_ids = none;
  known_http_routes = none;
  known_agent_config_namespaces = none;
  known_config_namespace_ids = none;
  known_capability_config_ids = none;
}

abbrev pub throws {ℓ} : {A : Type ℓ} → Option PromotionError × A → Bool × A
throws (e, a) = (is_some e, a)

-- Its clock stands still.
unfoldable pub in_memory : ℕ → BundleRegistry Registry
unfolding Memory.get_active_for_agent Memory.set_active metadata_at
in_memory now = record {
  get_active = λ agent_id r. Memory.get_active_for_agent r agent_id;
  clear = λ agent_id rationale session_id r.
      throws (Memory.set_active now agent_id none (clearing rationale session_id) r);
  required_of = some (λ version_id r. (metadata_at r version_id).required_capabilities);
}

unfoldable pub on_tables : ℕ → BundleRegistry Tables
unfolding D1.get_active_for_agent D1.set_active D1.get_version
on_tables now = record {
  get_active = λ agent_id db. D1.get_active_for_agent db agent_id;
  clear = λ agent_id rationale session_id db.
      throws (D1.set_active now agent_id none (clearing rationale session_id) db);
  required_of = some (λ version_id db. required_of_version (D1.get_version db version_id));
}

cleared :
    (agent_id : String) (row : AgentPointer) (agents : List (String × AgentPointer))
    → active_of (lookup agent_id (insert agent_id row agents)) ≡ row.active_version_id
cleared agent_id row agents = ap active_of (
    sym (lookup-insert agent_id agent_id row agents)
    ∙ ap (λ b. if b then some row else lookup agent_id agents)
        ((string_eq.same_iff agent_id agent_id).1 refl))

upserted-none :
    (now : ℕ) (row : Option AgentPointer) → (upserted now none row).active_version_id ≡ none
upserted-none now none = refl
upserted-none now (some row) = refl

pub in_memory_lawful : (now : ℕ) → IsBundleRegistry (in_memory now)
unfolding in_memory Memory.get_active_for_agent Memory.set_active Memory.check_version Memory.deploy
    Memory.set_active_sync metadata_at
in_memory_lawful now = record {
  no_active = λ agent_id rationale session_id r passes.
      cleared agent_id
        (record {
          active_version_id = none;
          previous_version_id = active_of (lookup agent_id r.pointers);
          updated_at = now;
        })
        r.pointers;
  same_required = λ agent_id rationale session_id r version_id. refl;
}

pub on_tables_lawful : (now : ℕ) → IsBundleRegistry (on_tables now)
unfolding on_tables D1.get_active_for_agent D1.set_active D1.check_version D1.deploy
    D1.log_deployment D1.get_version
on_tables_lawful now = record {
  no_active = λ agent_id rationale session_id db passes.
      cleared agent_id (upserted now none (lookup agent_id db.agents)) db.agents
      ∙ upserted-none now (lookup agent_id db.agents);
  same_required = λ agent_id rationale session_id db version_id. refl;
}
