-- ===== src/Bundles/Dispatcher/Guard.antt =====
-- The catalog guard of the dispatcher in dispatcher.ts, over any sequence of its operations.
use crabbykit.Prelude.{
  truthy-some, String, ◌≡◌, refl, sym, ◌∙◌, ap, subst, Bool, true, false, Option, none, some, List,
  [], ◌∷◌, inl, inr, ◌⊎◌, In, Bool-cases, if◌then◌else◌, truthy, get_or_else, string_eq, leb, ◌+◌,
  on_branches,
}
use crabbykit.Bundles.{missing_ids}
use crabbykit.Bundles.Validators.{AreKnown, missing_ids-nil_iff}
use crabbykit.Bundles.Interface.{IsBundleRegistry}
use crabbykit.Bundles.Dispatcher.{
  DispatcherConfig, Host, Turn, responds, fails, DispatchResult, dispatched, not_dispatched,
  same_version, read_pointer, with_state, read_cached, has_active_bundle, validated,
  dispatch_active, after_clear, clear_and_reset, auto_revert, disable_for_catalog_mismatch,
  required, validate_catalog_cached, scope_of, max_failures, count_failure, after_worker, run_turn,
  after_guard, dispatch_version, dispatch_turn, disable, refresh_pointer,
}

same_version-true : (a b : Option String) → same_version a b ≡ true → a ≡ b
same_version-true none none h = refl
same_version-true (some a) none h = absurd (cc h)
same_version-true none (some b) h = absurd (cc h)
same_version-true (some a) (some b) h = ap some ((string_eq.same_iff a b).0 h)

some_injective : {a b : String} → some a ≡ some b → a ≡ b
some_injective h = cc h

module _ {R : Type 0} (c : DispatcherConfig R) where
  -- The states of the dispatcher after its operations, with the capability ids that the host had at each
  -- turn, the last one first: they may change from turn to turn. Outside of the dispatcher the registry
  -- may change, also the active version of the agent, but not what the version requires that was
  -- validated.
  pub data Reachable : List (List String) → Host R → Type 0 where
    initial :
        (r : R) (cached : Option (Option String))
        → Reachable [] (record {
          state = record {
            active_version_id = none;
            consecutive_failures = 0;
            validated_version_id = none;
          };
          registry = r;
          cached = cached;
          broadcast = [];
        })
    after_check :
        {seen : List (List String)} {h : Host R} (storage : Bool)
        → Reachable seen h
        → Reachable seen (has_active_bundle c storage h).1
    after_turn :
        {seen : List (List String)} {h : Host R} (known : List String)
        (worker : String → List String → Turn) (storage : Bool) (session_id : String)
        → Reachable seen h
        → Reachable (known ∷ seen) (dispatch_turn c known worker storage session_id h).1
    after_disable :
        {seen : List (List String)} {h : Host R} (storage : Bool) (rationale : String)
        (session_id : Option String)
        → Reachable seen h
        → Reachable seen (disable c storage rationale session_id h).1
    after_refresh :
        {seen : List (List String)} {h : Host R} (storage : Bool)
        → Reachable seen h
        → Reachable seen (refresh_pointer c storage h)
    outside :
        {seen : List (List String)} {h : Host R} (r : R)
        → ((v : String)
            → h.state.validated_version_id ≡ some v
            → required c v r ≡ required c v h.registry)
        → Reachable seen h
        → Reachable seen (record h { registry = r })

  -- What the version that was validated requires was among the ids of the host at some turn.
  abbrev pub IsValidated : List (List String) → Host R → Type 0
  IsValidated seen h =
      (v : String)
      → h.state.validated_version_id ≡ some v
      → (known : List String) × In known seen × (missing_ids (required c v h.registry) known ≡ [])

  module _ (seen : List (List String)) where
    read_pointer-IsValidated :
        (active : Option String) (h : Host R)
        → IsValidated seen h
        → IsValidated seen (with_state (read_pointer active h.state) h)
    unfolding read_pointer
    read_pointer-IsValidated active h k v same =
        elim (Bool-cases (same_version active h.state.validated_version_id)) [
          | inl agrees ↦ k v (rw agrees at same)
          | inr differs ↦ absurd (cc (rw differs at same))
        ]

    read_cached-IsValidated :
        (storage : Bool) (cached : Option (Option String)) (h : Host R)
        → IsValidated seen h
        → IsValidated seen (read_cached c storage cached h).1
    unfolding read_cached
    read_cached-IsValidated storage (some active) h k = read_pointer-IsValidated active h k
    read_cached-IsValidated storage none h k =
        read_pointer-IsValidated (c.registry.get_active c.agent_id h.registry) h k

    count_failure-IsValidated :
        (storage : Bool) (h : Host R)
        → IsValidated seen h
        → IsValidated seen (count_failure c storage h)
    unfolding count_failure auto_revert clear_and_reset
    count_failure-IsValidated storage h k =
        on_branches (IsValidated seen) (leb (max_failures c) (h.state.consecutive_failures + 1))
          (λ v none_left. absurd (cc none_left)) k

    after_worker-IsValidated :
        (storage : Bool) (version_id : String) (scope : List String) (t : Turn) (h : Host R)
        → IsValidated seen h
        → IsValidated seen (after_worker c storage version_id scope t h).1
    unfolding after_worker
    after_worker-IsValidated storage version_id scope (responds events) h k = k
    after_worker-IsValidated storage version_id scope (fails reason) h k =
        count_failure-IsValidated storage h k

    validated-IsValidated :
        (known : List String) (version_id : String) (missing : List String) (h : Host R)
        → In known seen
        → missing_ids (required c version_id h.registry) known ≡ missing
        → IsValidated seen h
        → IsValidated seen (validated c version_id missing h).1
    unfolding validated
    validated-IsValidated known version_id [] h here none_missing k = λ v same. (
      known,
      here,
      subst (λ w. missing_ids (required c w h.registry) known ≡ []) (some_injective same)
          none_missing,
    )
    validated-IsValidated known version_id (id ∷ ids) h here some_missing k = k

    after_guard-IsValidated :
        (worker : String → List String → Turn) (storage : Bool) (session_id version_id : String)
        (missing : List String) (h : Host R)
        → IsValidated seen h
        → IsValidated seen (after_guard c worker storage session_id version_id missing h).1
    unfolding after_guard run_turn disable_for_catalog_mismatch clear_and_reset
    after_guard-IsValidated worker storage session_id version_id [] h k =
        after_worker-IsValidated storage version_id (scope_of c version_id h.registry)
          (worker version_id (scope_of c version_id h.registry)) h k
    after_guard-IsValidated worker storage session_id version_id (id ∷ ids) h k =
        λ v none_left. absurd (cc none_left)

    dispatch_active-IsValidated :
        (known : List String) (worker : String → List String → Turn) (storage : Bool)
        (session_id : String) (active : Option String) (h : Host R)
        → In known seen
        → IsValidated seen h
        → IsValidated seen (dispatch_active c known worker storage session_id active h).1
    unfolding dispatch_active dispatch_version validate_catalog_cached run_turn
    dispatch_active-IsValidated known worker storage session_id none h here k = k
    dispatch_active-IsValidated known worker storage session_id (some version_id) h here k =
        let missing = missing_ids (required c version_id h.registry) known in
        on_branches (λ (r : DispatchResult × Host R). IsValidated seen r.1)
          (same_version (some version_id) h.state.validated_version_id)
          (after_worker-IsValidated storage version_id (scope_of c version_id h.registry)
            (worker version_id (scope_of c version_id h.registry)) h k)
          (after_guard-IsValidated worker storage session_id version_id
            (validated c version_id missing h).0 (validated c version_id missing h).1
            (validated-IsValidated known version_id missing h here refl k))

    after_clear-IsValidated :
        (storage thrown : Bool) (h : Host R)
        → IsValidated seen h
        → IsValidated seen (after_clear c storage thrown h).1
    unfolding after_clear
    after_clear-IsValidated storage true h k = k
    after_clear-IsValidated storage false h k = k

    module _ (lawful : IsBundleRegistry c.registry) where
      disable-IsValidated :
          (storage : Bool) (rationale : String) (session_id : Option String) (h : Host R)
          → IsValidated seen h
          → IsValidated seen (disable c storage rationale session_id h).1
      unfolding disable
      disable-IsValidated storage rationale session_id h k =
          let (thrown, r) = c.registry.clear c.agent_id rationale session_id h.registry in
          after_clear-IsValidated storage thrown (record h { registry = r })
            (λ v same.
              let (known, here, fits) = k v same in
              (
                known,
                here,
                ap (λ ids. missing_ids ids known)
                      (lawful.same_required c.agent_id rationale session_id h.registry v)
                    ∙ fits,
              ))

  more-IsValidated :
      (known : List String) (seen : List (List String)) (h : Host R)
      → IsValidated seen h
      → IsValidated (known ∷ seen) h
  more-IsValidated known seen h k v same = let (ids, here, fits) = k v same in (ids, inr here, fits)

  module _ (lawful : IsBundleRegistry c.registry) where
    Reachable-IsValidated :
        {seen : List (List String)} {h : Host R} → Reachable seen h → IsValidated seen h
    unfolding has_active_bundle dispatch_turn refresh_pointer
    Reachable-IsValidated (initial r cached) = λ v none_left. absurd (cc none_left)
    Reachable-IsValidated (after_check {seen = seen} {h = h} storage p) =
        read_cached-IsValidated seen storage (if storage then h.cached else none) h
          (Reachable-IsValidated p)
    Reachable-IsValidated (after_turn {seen = seen} {h = h} known worker storage session_id p) =
        dispatch_active-IsValidated (known ∷ seen) known worker storage session_id
          (truthy h.state.active_version_id) h (inl refl)
          (more-IsValidated known seen h (Reachable-IsValidated p))
    Reachable-IsValidated (after_disable {seen = seen} {h = h} storage rationale session_id p) =
        disable-IsValidated seen lawful storage rationale session_id h (Reachable-IsValidated p)
    Reachable-IsValidated (after_refresh storage p) = λ v none_left. absurd (cc none_left)
    Reachable-IsValidated (outside {h = h} r same p) = λ v valid.
        let (known, here, fits) = Reachable-IsValidated p v valid in
        (known, here, ap (λ ids. missing_ids ids known) (same v valid) ∙ fits)

  -- The host has what the version requires at this turn, or had it at an earlier one and the version is
  -- the one that was validated.
  abbrev pub HasRequired : List String → List (List String) → String → Host R → Type 0
  HasRequired known seen v h =
      AreKnown (required c v h.registry) known
      ⊎ ((h.state.validated_version_id ≡ some v)
          × ((ids : List String) × In ids seen × AreKnown (required c v h.registry) ids))

  -- What a turn that is dispatched is dispatched with.
  abbrev FitsHost : List String → List (List String) → Host R → DispatchResult → Type 0
  FitsHost known seen h (not_dispatched reason) = Unit
  FitsHost known seen h (dispatched v scope events) =
      (h.state.active_version_id ≡ some v)
      × ((scope ≡ scope_of c v h.registry) × HasRequired known seen v h)

  module _ (known : List String) (seen : List (List String)) where
    after_worker-FitsHost :
        (storage : Bool) (version_id : String) (t : Turn) (h h' : Host R)
        → h.state.active_version_id ≡ some version_id
        → HasRequired known seen version_id h
        → FitsHost known seen h
            (after_worker c storage version_id (scope_of c version_id h.registry) t h').0
    unfolding after_worker
    after_worker-FitsHost storage version_id (fails reason) h h' active fits = tt
    after_worker-FitsHost storage version_id (responds events) h h' active fits =
        (active, (refl, fits))

    validated-FitsHost :
        (worker : String → List String → Turn) (storage : Bool) (session_id version_id : String)
        (missing : List String) (h : Host R)
        → h.state.active_version_id ≡ some version_id
        → missing_ids (required c version_id h.registry) known ≡ missing
        → FitsHost known seen h
            (after_guard c worker storage session_id version_id
              (validated c version_id missing h).0
              (validated c version_id missing h).1).0
    unfolding after_guard run_turn validated
    validated-FitsHost worker storage session_id version_id [] h active fits =
        after_worker-FitsHost storage version_id
          (worker version_id (scope_of c version_id h.registry)) h
          (with_state (record h.state { validated_version_id = some version_id }) h) active
          (inl ((missing_ids-nil_iff (required c version_id h.registry) known).0 fits))
    validated-FitsHost worker storage session_id version_id (id ∷ ids) h active fits = tt

    dispatch_active-FitsHost :
        (worker : String → List String → Turn) (storage : Bool) (session_id : String)
        (active : Option String) (h : Host R)
        → IsValidated seen h
        → ((v : String) → active ≡ some v → h.state.active_version_id ≡ some v)
        → FitsHost known seen h (dispatch_active c known worker storage session_id active h).0
    unfolding dispatch_active dispatch_version validate_catalog_cached run_turn
    dispatch_active-FitsHost worker storage session_id none h k is_active = tt
    dispatch_active-FitsHost worker storage session_id (some v) h k is_active =
        elim (Bool-cases (same_version (some v) h.state.validated_version_id)) [
          | inl same ↦
              let valid = sym (same_version-true (some v) h.state.validated_version_id same) in
              let (ids, m, fits) = k v valid in
              rw same (
                after_worker-FitsHost storage v (worker v (scope_of c v h.registry)) h h
                  (is_active v refl)
                  (inr
                    (valid, (ids, m, (missing_ids-nil_iff (required c v h.registry) ids).0 fits))))
          | inr other ↦ rw other (
              validated-FitsHost worker storage session_id v
                (missing_ids (required c v h.registry) known) h (is_active v refl) refl)
        ]

-- In every state that the dispatcher's operations lead to, where outside of it no requirement of the
-- validated version changes, a turn that is dispatched goes to the active version, with the scope of
-- the two channels and the version's required capabilities. The host has all of these capabilities at
-- this turn, or the version is the one that was validated and the host had them all at an earlier
-- turn; the host's capabilities may be others at every turn.
pub dispatch_turn-FitsHost :
    {R : Type 0} (c : DispatcherConfig R)
    → IsBundleRegistry c.registry
    → (seen : List (List String)) (h : Host R) → Reachable c seen h
    → (known : List String) (worker : String → List String → Turn) (storage : Bool)
      (session_id v : String) (scope events : List String)
    → (dispatch_turn c known worker storage session_id h).0 ≡ dispatched v scope events
    → (h.state.active_version_id ≡ some v)
      × ((scope ≡ "spine" ∷ "llm" ∷ get_or_else (required c v h.registry) [])
          × HasRequired c known seen v h)
unfolding dispatch_turn
dispatch_turn-FitsHost c lawful seen h reached known worker storage session_id v scope events ran =
    subst (λ r. FitsHost c known seen h r) ran
      (dispatch_active-FitsHost c known seen worker storage session_id
        (truthy h.state.active_version_id) h (Reachable-IsValidated c lawful reached)
        (λ v same. truthy-some h.state.active_version_id v same))
