-- ===== src/Bundles/Dispatcher/Failures.antt =====
-- The failures that the dispatcher in dispatcher.ts counts, and the version that it gives up.
use crabbykit.Prelude.{
  suc, ◌+◌, ◌≤◌, ◌<◌, String, ◌≡◌, refl, sym, ◌∙◌, ap, subst, Bool, true, false, Option, none, some,
  List, [], ◌∷◌, ◌++◌, arith, leb, length, truthy, if◌then◌else◌, string_eq,
}
use crabbykit.Bundles.Interface.{IsBundleRegistry}
use crabbykit.Bundles.Dispatcher.{
  DispatcherConfig, Host, fails, same_version, max_failures, count_failure, auto_revert,
  clear_and_reset, after_worker, run_turn, dispatch_version, dispatch_active, dispatch_turn,
}

module _ {R : Type 0} (c : DispatcherConfig R) (known : List String) (storage : Bool)
    (session_id : String) where
  -- Turns that fail, one after another, for these reasons.
  unfoldable pub failing_turns : List String → Host R → Host R
  unfolding dispatch_turn
  failing_turns [] h = h
  failing_turns (reason ∷ reasons) h =
      failing_turns reasons (dispatch_turn c known (λ v s. fails reason) storage session_id h).1

  -- A version is active, and was validated.
  pub record IsRunning (v : String) (h : Host R) : Type 0 where
    pub active : h.state.active_version_id ≡ some v
    pub validated : h.state.validated_version_id ≡ some v

  failing_version :
      (reason v : String) (h : Host R)
      → same_version (some v) h.state.validated_version_id ≡ true
      → (dispatch_active c known (λ v s. fails reason) storage session_id (some v) h).1
        ≡ count_failure c storage h
  unfolding dispatch_active dispatch_version run_turn after_worker
  failing_version reason v h same = rw same refl

  -- A failing turn of a version that is running is counted.
  failing_turn :
      (reason v : String) (h : Host R)
      → truthy (some v) ≡ some v
      → IsRunning v h
      → (dispatch_turn c known (λ v s. fails reason) storage session_id h).1
        ≡ count_failure c storage h
  unfolding dispatch_turn
  failing_turn reason v h named k =
      ap (λ active. (dispatch_active c known (λ v s. fails reason) storage session_id active h).1)
        (ap truthy k.active ∙ named)
      ∙ failing_version reason v h
          (ap (same_version (some v)) k.validated ∙ (string_eq.same_iff v v).1 refl)

  keeps-IsRunning :
      (v : String) (h : Host R)
      → IsRunning v h
      → h.state.consecutive_failures + 1 < max_failures c
      → IsRunning v (count_failure c storage h)
        × ((count_failure c storage h).state.consecutive_failures
            ≡ h.state.consecutive_failures + 1)
  unfolding count_failure
  keeps-IsRunning v h k low =
      let early : leb (max_failures c) (h.state.consecutive_failures + 1) ≡ false =
        ground (arith, low) in
      rw early (record { active = k.active; validated = k.validated }, refl)

  -- The state after the version is given up; `no_pointer` is of the registry.
  pub record IsReverted (cached : Option (Option String)) (h : Host R) : Type 0 where
    pub no_version : h.state.active_version_id ≡ none
    pub no_failures : h.state.consecutive_failures ≡ 0
    pub cache : h.cached ≡ (if storage then some none else cached)
    pub no_pointer : c.registry.get_active c.agent_id h.registry ≡ none

  -- Clearing the pointer of the agent does not throw.
  abbrev pub Clears : Type 0
  Clears =
      (rationale : String) (session_id : Option String) (r : R)
      → (c.registry.clear c.agent_id rationale session_id r).0 ≡ false

  gives_up :
      IsBundleRegistry c.registry
      → Clears
      → (h : Host R) → max_failures c ≤ h.state.consecutive_failures + 1
      → IsReverted h.cached (count_failure c storage h)
  unfolding count_failure auto_revert clear_and_reset
  gives_up lawful clears h high =
      let late : leb (max_failures c) (h.state.consecutive_failures + 1) ≡ true =
        ground (arith, high) in
      rw late (record {
        no_version = refl;
        no_failures = refl;
        cache = refl;
        no_pointer =
            lawful.no_active c.agent_id "auto-revert: poison bundle" none h.registry
              (clears "auto-revert: poison bundle" none h.registry);
      })

  -- A version that runs is kept for fewer failures in a row than the limit, each of which is counted.
  failing_turns-IsRunning :
      (reasons : List String) (v : String) (h : Host R)
      → truthy (some v) ≡ some v
      → IsRunning v h
      → h.state.consecutive_failures + length reasons < max_failures c
      → IsRunning v (failing_turns reasons h)
        × ((failing_turns reasons h).state.consecutive_failures
            ≡ h.state.consecutive_failures + length reasons)
  unfolding failing_turns
  failing_turns-IsRunning [] v h named k low = (k, omega arith)
  failing_turns-IsRunning (reason ∷ reasons) v h named k low =
      let (k1, one_more) = keeps-IsRunning v h k (omega (arith, low)) in
      let (k2, more) =
        failing_turns-IsRunning reasons v (count_failure c storage h) named k1
          (omega (arith, low, one_more)) in
      subst
        (λ (t : Host R).
          IsRunning v t
          × (t.state.consecutive_failures ≡ h.state.consecutive_failures + suc (length reasons)))
        (sym (ap (failing_turns reasons) (failing_turn reason v h named k)))
        (k2, omega (arith, one_more, more))

  failing_turns-snoc :
      (reasons : List String) (last : String) (h : Host R)
      → failing_turns (reasons ++ last ∷ []) h
        ≡ (dispatch_turn c known (λ v s. fails last) storage session_id (failing_turns reasons h)).1
  unfolding failing_turns
  failing_turns-snoc [] last h = refl
  failing_turns-snoc (reason ∷ reasons) last h =
      failing_turns-snoc reasons last
        (dispatch_turn c known (λ v s. fails reason) storage session_id h).1

  -- A version that is active and validated and fails every turn is kept while the failures in a row stay
  -- below the limit. With the failure that reaches the limit no version is active any more, in the
  -- dispatcher, its cache and the registry, where clearing the pointer does not throw, and the count
  -- is 0 again.
  pub failing_turns-IsReverted :
      IsBundleRegistry c.registry
      → Clears
      → (reasons : List String) (last v : String) (h : Host R) → truthy (some v) ≡ some v
      → IsRunning v h
      → h.state.consecutive_failures + length reasons + 1 ≡ max_failures c
      → IsRunning v (failing_turns reasons h)
        × IsReverted (failing_turns reasons h).cached (failing_turns (reasons ++ last ∷ []) h)
  unfolding failing_turns
  failing_turns-IsReverted lawful clears reasons last v h named k full =
      let (running, failures) = failing_turns-IsRunning reasons v h named k (omega (arith, full)) in
      (
        running,
        subst (IsReverted (failing_turns reasons h).cached)
            (sym (
              failing_turns-snoc reasons last h
              ∙ failing_turn last v (failing_turns reasons h) named running))
            (gives_up lawful clears (failing_turns reasons h) (omega (arith, full, failures))),
      )
