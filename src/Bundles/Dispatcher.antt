-- ===== src/Bundles/Dispatcher.antt =====
-- `BundleDispatcher` of packages/runtime/bundle-host/src/dispatcher.ts: which version a turn is
-- dispatched to, and how it is disabled. The registry is one that has the interface; what the worker
-- of a version answers to a turn, and the capability ids of the host at that time, are arguments. An optional `ctxStorage` is a flag.
pub mod Guard
pub mod Failures
use Prim.Native.String
use crabbykit.Prelude.{
  ℕ, ◌+◌, String, Bool, true, false, Option, none, some, List, [], ◌∷◌, ◌++◌, ◌==◌, string_eq,
  if◌then◌else◌, leb, truthy, get_or_else, is_some, join,
}
use crabbykit.Bundles.{missing_ids}
use crabbykit.Bundles.Interface.{BundleRegistry, required_by}

-- `BundleDispatchState` and the last version that was validated.
pub record DispatchState : Type 0 where
  pub active_version_id : Option String
  pub consecutive_failures : ℕ
  pub validated_version_id : Option String

-- The event of a catalog mismatch.
pub record BundleDisabled : Type 0 where
  pub rationale : String
  pub version_id : String
  pub session_id : String
  pub missing_ids : List String

-- The dispatcher, the registry, the key activeBundleVersionId of the storage, which may be absent, and
-- the events that were broadcast.
pub record Host (R : Type 0) : Type 0 where
  pub state : DispatchState
  pub registry : R
  pub cached : Option (Option String)
  pub broadcast : List BundleDisabled

-- What a worker does with a turn: the events of its response, or the message of what is thrown on the
-- way.
pub data Turn : Type 0 where
  responds : List String → Turn
  fails : String → Turn

-- The result of a turn; one that is dispatched carries its version and its token's scope too.
pub data DispatchResult : Type 0 where
  dispatched : String → List String → List String → DispatchResult
  not_dispatched : String → DispatchResult

abbrev pub default_max_load_failures : ℕ
default_max_load_failures = 3

abbrev pub same_version : Option String → Option String → Bool
same_version none none = true
same_version (some a) (some b) = a == b
same_version _ _ = false

-- A pointer that was read: a version that it disagrees with counts as validated no longer.
unfoldable pub read_pointer : Option String → DispatchState → DispatchState
read_pointer active s = record s {
  active_version_id = active;
  validated_version_id =
      if same_version active s.validated_version_id then s.validated_version_id else none;
}

module _ {R : Type 0} where
  -- `ctxStorage.put`, where there is a storage.
  abbrev pub put_cached : Bool → Option String → Host R → Host R
  put_cached storage active h = record h { cached = if storage then some active else h.cached }

  abbrev pub with_state : DispatchState → Host R → Host R
  with_state s h = record h { state = s }

-- What the dispatcher of an agent is constructed with.
pub record DispatcherConfig (R : Type 0) : Type 0 where
  pub registry : BundleRegistry R
  pub agent_id : String
  pub max_load_failures : Option ℕ

-- A worker answers a turn of a version with a token's scope.
module _ {R : Type 0} (c : DispatcherConfig R) where
  -- The warm path reads the pointer that is cached, the cold one that of the registry.
  unfoldable pub read_cached : Bool → Option (Option String) → Host R → Bool × Host R
  unfolding read_pointer
  read_cached storage (some cached) h = (is_some cached, with_state (read_pointer cached h.state) h)
  read_cached storage none h =
      let active = c.registry.get_active c.agent_id h.registry in
      (is_some active, put_cached storage active (with_state (read_pointer active h.state) h))

  unfoldable pub has_active_bundle : Bool → Host R → Bool × Host R
  unfolding read_cached
  has_active_bundle storage h = read_cached storage (if storage then h.cached else none) h

  -- The pointer of the registry is cleared, whether that throws or not, and the state is reset.
  unfoldable pub clear_and_reset : Bool → String → Option String → Host R → Host R
  clear_and_reset storage rationale session_id h = put_cached storage none (record h {
    registry = (c.registry.clear c.agent_id rationale session_id h.registry).1;
    state = record {
      active_version_id = none;
      consecutive_failures = 0;
      validated_version_id = none;
    };
  })

  unfoldable pub auto_revert : Bool → Host R → Host R
  unfolding clear_and_reset
  auto_revert storage h = clear_and_reset storage "auto-revert: poison bundle" none h

  unfoldable pub disable_for_catalog_mismatch :
      List String → String → Bool → String → Host R → Host R
  unfolding clear_and_reset
  disable_for_catalog_mismatch missing version_id storage session_id h =
      let rationale = String.◌++◌ "catalog mismatch: missing [" (
        String.◌++◌ (join ", " missing)
          (String.◌++◌ "] declared by version '" (String.◌++◌ version_id "'"))) in
      let event : BundleDisabled = record {
        rationale = rationale;
        version_id = version_id;
        session_id = session_id;
        missing_ids = missing;
      } in
      record (clear_and_reset storage rationale (some session_id) h) {
        broadcast = h.broadcast ++ event ∷ [];
      }

  -- `version?.metadata?.requiredCapabilities`, where the registry has `getVersion`.
  abbrev pub required : String → R → Option (List String)
  required version_id r = required_by c.registry version_id r

  -- `validateCatalogCached` with the missing ids, which are in the answer.
  unfoldable pub validated : String → List String → Host R → List String × Host R
  validated version_id [] h =
      ([], with_state (record h.state { validated_version_id = some version_id }) h)
  validated version_id (id ∷ ids) h = (id ∷ ids, h)

  -- `known` is what `getHostCapabilityIds` answers at this check.
  unfoldable pub validate_catalog_cached : List String → String → Host R → List String × Host R
  unfolding missing_ids validated
  validate_catalog_cached known version_id h =
      validated version_id (missing_ids (required version_id h.registry) known) h

  -- The scope of a version's token.
  abbrev pub scope_of : String → R → List String
  scope_of version_id r = "spine" ∷ "llm" ∷ get_or_else (required version_id r) []

  abbrev pub max_failures : ℕ
  max_failures = get_or_else c.max_load_failures default_max_load_failures

  -- The `catch` of `dispatchTurn`.
  unfoldable pub count_failure : Bool → Host R → Host R
  unfolding auto_revert
  count_failure storage h =
      let failures = h.state.consecutive_failures + 1 in
      let counted = with_state (record h.state { consecutive_failures = failures }) h in
      if leb max_failures failures then auto_revert storage counted else counted

  unfoldable pub after_worker :
      Bool → String → List String → Turn → Host R → DispatchResult × Host R
  unfolding count_failure
  after_worker storage version_id scope (responds events) h = (
    dispatched version_id scope events,
    with_state (record h.state { consecutive_failures = 0 }) h,
  )
  after_worker storage version_id scope (fails reason) h =
      (not_dispatched (String.◌++◌ "bundle load failed: " reason), count_failure storage h)

  -- What follows the catalog guard.
  unfoldable pub run_turn :
      (String → List String → Turn) → Bool → String → Host R → DispatchResult × Host R
  unfolding after_worker
  run_turn worker storage version_id h =
      let scope = scope_of version_id h.registry in
      after_worker storage version_id scope (worker version_id scope) h

  -- The turn where the version is not the one that was validated last.
  unfoldable pub after_guard :
      (String → List String → Turn)
      → Bool
      → String
      → String
      → List String
      → Host R
      → DispatchResult × Host R
  unfolding run_turn disable_for_catalog_mismatch
  after_guard worker storage session_id version_id [] h = run_turn worker storage version_id h
  after_guard worker storage session_id version_id (id ∷ ids) h = (
    not_dispatched (String.◌++◌ "catalog mismatch: " (join ", " (id ∷ ids))),
    disable_for_catalog_mismatch (id ∷ ids) version_id storage session_id h,
  )

  unfoldable pub dispatch_version :
      List String
      → (String → List String → Turn)
      → Bool
      → String
      → String
      → Host R
      → DispatchResult × Host R
  unfolding after_guard validate_catalog_cached
  dispatch_version known worker storage session_id version_id h =
      let (missing, h1) = validate_catalog_cached known version_id h in
      if same_version (some version_id) h.state.validated_version_id
      then run_turn worker storage version_id h
      else after_guard worker storage session_id version_id missing h1

  unfoldable pub dispatch_active :
      List String
      → (String → List String → Turn)
      → Bool
      → String
      → Option String
      → Host R
      → DispatchResult × Host R
  unfolding dispatch_version
  dispatch_active known worker storage session_id none h = (not_dispatched "no active bundle", h)
  dispatch_active known worker storage session_id (some version_id) h =
      dispatch_version known worker storage session_id version_id h

  unfoldable pub dispatch_turn :
      List String → (String → List String → Turn) → Bool → String → Host R → DispatchResult × Host R
  unfolding dispatch_active
  dispatch_turn known worker storage session_id h =
      dispatch_active known worker storage session_id (truthy h.state.active_version_id) h

  -- `dispatchClientEvent`: the version and the token's scope that an event is sent with.
  unfoldable pub client_event_target : Host R → Option (String × List String)
  client_event_target h = elim (truthy h.state.active_version_id) [
    | none ↦ none
    | some version_id ↦ some (version_id, scope_of version_id h.registry)
  ]

  unfoldable pub after_clear : Bool → Bool → Host R → Bool × Host R
  after_clear storage true h = (true, h)
  after_clear storage false h = (
    false,
    put_cached storage none
        (with_state (record h.state { active_version_id = none; consecutive_failures = 0 }) h),
  )

  -- `disable`, with whether it throws; then the state stays.
  unfoldable pub disable : Bool → String → Option String → Host R → Bool × Host R
  unfolding after_clear
  disable storage rationale session_id h =
      let (thrown, r) = c.registry.clear c.agent_id rationale session_id h.registry in
      after_clear storage thrown (record h { registry = r })

  unfoldable pub refresh_pointer : Bool → Host R → Host R
  refresh_pointer storage h =
      let active = c.registry.get_active c.agent_id h.registry in
      put_cached storage active
        (with_state (record h.state { active_version_id = active; validated_version_id = none }) h)
