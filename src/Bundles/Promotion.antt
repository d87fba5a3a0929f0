-- ===== src/Bundles/Promotion.antt =====
-- `setActive` of in-memory-registry.ts: when a promotion is accepted, and what it writes.
use crabbykit.Prelude.{
  ℕ, String, ◌≡◌, ◌↔◌, refl, sym, ◌∙◌, ap, false, Option, none, some, List, [], ◌∷◌, ◌==◌,
  string_eq, if◌then◌else◌, any, inl, inr, ◌⊎◌, arith, Bool-cases, Option-cases, get_or_else,
  insert, lookup, lookup-insert,
}
use text.Mathlib.TextEquality.{eq_iff}
use crabbykit.Bundles.{has_id, missing_ids, colliding_ids, colliding_routes}
use crabbykit.Bundles.Validators.{
  AreUnreserved, AreKnown, AreFresh, AreFreshRoutes, missing_ids-nil_iff, colliding_ids-nil_iff,
  colliding_routes-nil_iff,
}
use crabbykit.Bundles.Registry.{
  active_of, Metadata, AgentPointer, Registry, SetActiveOptions, PromotionError, reserved, refuse,
  or_then, check_reserved, check_known, check_catalog, check_version, metadata_at,
  get_active_for_agent, set_active_sync, deploy, set_active,
}

-- What the checks that `skipCatalogCheck` skips ask for.
abbrev pub FitsHost : Metadata → SetActiveOptions → List String → Type 0
FitsHost meta options known =
    AreKnown meta.required_capabilities known
    × (AreFreshRoutes meta.http_routes options.known_http_routes
        × (AreFresh meta.action_capability_ids (some known)
            × (AreFresh meta.agent_config_schemas options.known_agent_config_namespaces
                × (AreFresh meta.config_namespaces options.known_config_namespace_ids
                    × AreFresh meta.capability_configs options.known_capability_config_ids))))

refuse-none_iff :
    {A : Type 0} → (e : List A → PromotionError) (xs : List A) → (refuse e xs ≡ none) ↔ (xs ≡ [])
refuse-none_iff e [] = (λ h. refl, λ h. refl)
refuse-none_iff e (x ∷ xs) = (λ h. absurd (cc), λ h. absurd (cc))

or_then-none_iff :
    (first next : Option PromotionError)
    → (or_then first next ≡ none) ↔ ((first ≡ none) × (next ≡ none))
or_then-none_iff none next = (λ h. (refl, h), λ h. h.1)
or_then-none_iff (some e) next = (λ h. absurd (cc), λ h. absurd (cc (h.0)))

-- Two checks in a row pass where what each asks for holds.
both_iff :
    {first next : Option PromotionError} {P Q : Type 0}
    → (first ≡ none) ↔ P
    → (next ≡ none) ↔ Q
    → (or_then first next ≡ none) ↔ (P × Q)
both_iff {first} {next} p q = (
  λ h. let (a, b) = (or_then-none_iff first next).0 h in (p.0 a, q.0 b),
  λ (a, b). (or_then-none_iff first next).1 (p.1 a, q.1 b),
)

valid_iff :
    {A : Type 0}
    → {P : Type 0} (e : List A → PromotionError) (xs : List A) → (xs ≡ []) ↔ P
    → (refuse e xs ≡ none) ↔ P
valid_iff e xs p = (λ h. p.0 ((refuse-none_iff e xs).0 h), λ h. (refuse-none_iff e xs).1 (p.1 h))

valid_ids :
    (e : List String → PromotionError) (declared known : Option (List String))
    → (refuse e (colliding_ids declared known) ≡ none) ↔ AreFresh declared known
valid_ids e declared known =
    valid_iff e (colliding_ids declared known) (colliding_ids-nil_iff declared known)

check_known-none_iff :
    (meta : Metadata) (options : SetActiveOptions) (known : List String)
    → (check_known meta options known ≡ none) ↔ FitsHost meta options known
unfolding check_known
check_known-none_iff meta options known =
    both_iff
      (valid_iff PromotionError.capability_mismatch (missing_ids meta.required_capabilities known)
        (missing_ids-nil_iff meta.required_capabilities known))
      (both_iff
        (valid_iff PromotionError.route_collision
          (colliding_routes meta.http_routes options.known_http_routes)
          (colliding_routes-nil_iff meta.http_routes options.known_http_routes))
        (both_iff
          (valid_ids PromotionError.action_id_collision meta.action_capability_ids (some known))
          (both_iff
            (valid_ids PromotionError.agent_config_collision meta.agent_config_schemas
              options.known_agent_config_namespaces)
            (both_iff
              (valid_ids PromotionError.config_namespace_collision meta.config_namespaces
                options.known_config_namespace_ids)
              (valid_ids PromotionError.capability_config_collision meta.capability_configs
                options.known_capability_config_ids)))))

deploy-active :
    (now : ℕ) (agent_id key : String) (version_id : Option String) (options : SetActiveOptions)
    (reg : Registry)
    → get_active_for_agent (deploy now agent_id version_id options reg) key
      ≡ (if agent_id == key then version_id else get_active_for_agent reg key)
unfolding deploy set_active_sync get_active_for_agent
deploy-active now agent_id key version_id options reg = elim (Bool-cases (agent_id == key)) [
  | inl this ↦ rw this (ap active_of (sym (rw this at found)))
  | inr other ↦ rw other (ap active_of (sym (rw other at found)))
]
  where
    pointer : AgentPointer
    pointer = record {
      active_version_id = version_id;
      previous_version_id = get_active_for_agent reg agent_id;
      updated_at = now;
    }

    found :
        (if agent_id == key then some pointer else lookup key reg.pointers)
        ≡ lookup key (insert agent_id pointer reg.pointers)
    found = lookup-insert agent_id key pointer reg.pointers

-- `RESERVED` of the check is these two scopes.
reserved_id : (id : String) → (has_id reserved id ≡ false) ↔ ((id ≡ "spine") ⊎ (id ≡ "llm") → ⊥)
reserved_id id = ground (arith, eq_iff "spine" id, eq_iff "llm" id)

reserved_iff : (ids : List String) → (any (has_id reserved) ids ≡ false) ↔ AreUnreserved (some ids)
reserved_iff [] = (λ h id m. absurd m, λ h. refl)
reserved_iff (k ∷ ids) = elim (Bool-cases (has_id reserved k)) [
  | inl there ↦ (
    λ h. absurd (cc (rw there at h)),
    λ h. absurd (cc (sym there ∙ (reserved_id k).1 (h k (inl refl)))),
  )
  | inr gone ↦ (
    λ h id m. elim m [
      | inl same ↦ (reserved_id id).0 (ap (has_id reserved) same ∙ gone)
      | inr n ↦ (reserved_iff ids).0 (rw gone at h) id n
    ],
    λ h. rw gone ((reserved_iff ids).1 (λ id m. h id (inr m))),
  )
]

check_reserved-none_iff :
    (meta : Metadata) → (check_reserved meta ≡ none) ↔ AreUnreserved meta.required_capabilities
unfolding check_reserved
check_reserved-none_iff meta =
    let (free, passes) = reserved_iff (get_or_else meta.required_capabilities []) in
    elim (Bool-cases (any (has_id reserved) (get_or_else meta.required_capabilities []))) [
      | inl there ↦ (λ h. absurd (cc (rw there at h)), λ h. absurd (cc (sym there ∙ passes h)))
      | inr gone ↦ (λ h. free gone, λ h. rw gone refl)
    ]

set_active-none_iff :
    (now : ℕ) (agent_id : String) (version_id : Option String) (options : SetActiveOptions)
    (reg : Registry)
    → ((set_active now agent_id version_id options reg).0 ≡ none)
      ↔ (check_version reg version_id options ≡ none)
unfolding set_active
set_active-none_iff now agent_id version_id options reg =
    elim (Option-cases (check_version reg version_id options)) [
      | inl ok ↦ (λ h. ok, λ h. rw (ok, set_active) refl)
      | inr (e, bad) ↦
          (λ h. absurd (cc (rw (bad, set_active) at h)), λ h. absurd (cc (sym bad ∙ h)))
    ]

-- `setActive` of a version, where the catalog check is not skipped and the host's capability ids are
-- given, is accepted exactly where the version requires no reserved scope and fits the host: each
-- required capability is known, and no declared route, action or configuration id is.
pub set_active-FitsHost_iff :
    (now : ℕ) (agent_id version_id : String) (options : SetActiveOptions) (known : List String)
    (reg : Registry)
    → get_or_else options.skip_catalog_check false ≡ false
    → options.known_capability_ids ≡ some known
    → ((set_active now agent_id (some version_id) options reg).0 ≡ none) ↔ (
        AreUnreserved (metadata_at reg version_id).required_capabilities
        × FitsHost (metadata_at reg version_id) options known)
unfolding check_version check_catalog
set_active-FitsHost_iff now agent_id version_id options known reg checked given =
    let meta = metadata_at reg version_id in
    let catalog : check_catalog meta options ≡ check_known meta options known =
      rw (checked, check_catalog) (rw given refl) in
    let same : check_version reg (some version_id) options
        ≡ or_then (check_reserved meta) (check_known meta options known) =
      ap (or_then (check_reserved meta)) catalog in
    let (accepted, passes) = set_active-none_iff now agent_id (some version_id) options reg in
    let (fits, checks) =
      both_iff (check_reserved-none_iff meta) (check_known-none_iff meta options known) in
    (λ h. fits (sym same ∙ accepted h), λ f. passes (same ∙ checks f))

-- A call of `setActive` throws and changes nothing, or it makes its version the active one of its
-- agent and leaves every other agent's as it was.
pub set_active-result :
    (now : ℕ) (agent_id : String) (version_id : Option String) (options : SetActiveOptions)
    (reg : Registry)
    → ((e : PromotionError) × (set_active now agent_id version_id options reg ≡ (some e, reg)))
      ⊎ (((set_active now agent_id version_id options reg).0 ≡ none)
          × ((key : String)
              → get_active_for_agent (set_active now agent_id version_id options reg).1 key
                ≡ (if agent_id == key then version_id else get_active_for_agent reg key)))
unfolding set_active
set_active-result now agent_id version_id options reg =
    elim (Option-cases (check_version reg version_id options)) [
      | inl ok ↦
          let same : set_active now agent_id version_id options reg
              ≡ (none, deploy now agent_id version_id options reg) =
            rw (ok, set_active) refl in
          inr (
            ap (λ r. r.0) same,
            λ key.
                ap (λ r. get_active_for_agent r.1 key) same
                ∙ deploy-active now agent_id key version_id options reg,
          )
      | inr (e, bad) ↦ inl (e, rw (bad, set_active) refl)
    ]
