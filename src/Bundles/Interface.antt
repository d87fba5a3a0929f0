-- ===== src/Bundles/Interface.antt =====
-- `BundleRegistry` of packages/runtime/agent-runtime/src/bundle-config.ts: what the dispatcher uses of
-- a registry, over the state `R` that it keeps, and what it relies on.
pub mod Instances
use crabbykit.Prelude.{String, ◌≡◌, Bool, false, Option, none, some, List}

-- Clearing the pointer of an agent is `setActive` with null, a rationale, a session and
-- `skipCatalogCheck`; its answer is whether it throws.
-- A registry without `getVersion` has none for `required_of`, which is the required capabilities of a
-- version's metadata.
pub record BundleRegistry (R : Type 0) : Type 0 where
  pub get_active : String → R → Option String
  pub clear : String → String → Option String → R → Bool × R
  pub required_of : Option (String → R → Option (List String))

-- What a version requires, where the registry can say so.
abbrev pub required_by : {R : Type 0} → BundleRegistry R → String → R → Option (List String)
required_by reg version_id r = elim reg.required_of [ none ↦ none | some f ↦ f version_id r ]

-- Where clearing does not throw, the agent has no active version; what versions require stays.
pub record IsBundleRegistry {R : Type 0} (reg : BundleRegistry R) : Type 0 where
  pub no_active :
      (agent_id rationale : String) (session_id : Option String) (r : R)
      → (reg.clear agent_id rationale session_id r).0 ≡ false
      → reg.get_active agent_id (reg.clear agent_id rationale session_id r).1 ≡ none
  pub same_required :
      (agent_id rationale : String) (session_id : Option String) (r : R) (version_id : String)
      → required_by reg version_id (reg.clear agent_id rationale session_id r).1
        ≡ required_by reg version_id r
