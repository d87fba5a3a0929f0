-- ===== src/Alarm/Fired.antt =====
-- What `handleAlarmFired` of agent-runtime.ts leaves due.
use crabbykit.Prelude.{
  String, ◌≡◌, refl, sym, ◌∙◌, ap, subst, Bool, true, false, ◌&&◌, ◌||◌, Option, none, some, List,
  [], ◌∷◌, ◌⊎◌, inl, inr, In, In-filter, In-sort_by, Bool-cases, on_branches, truthy, string_eq,
}
use crabbykit.Sessions as Sessions
use crabbykit.Sessions.{Session, Outcome, ok, err}
use crabbykit.Schedules.{
  HandlerType, prompt, callback, timer, Schedule, fires_by, next_le, update, delete, mark_running,
  mark_idle, mark_failed, get_due_schedules,
}
use crabbykit.Alarm.Due.{
  IsDue, Clears, Serves, Clears-Serves, update_where-Clears, delete-Clears, drop-Clears,
  failed-Serves, next-Clears,
}
use crabbykit.Alarm.{
  Host, HookResult, Hooked, answered, hook_threw, Effects, Env, prompt_session, after_prompt,
  execute_scheduled_prompt, drop_schedule, after_timer, after_run, prompt_text, run_schedule, skips,
  override, prompt_of, with_schedules, after_hooks, after_static_hook, next_fire, fire_cron,
  fire_timer, fire_by_type, fire, fire_all, refresh_alarm, then_refresh, handle_alarm_fired,
}

-- Callbacks, hooks and prompts that leave the schedules as they are.
pub record LeavesSchedules {W : Type 0} (e : Effects W) : Type 0 where
  pub on_callback :
      (s : Schedule) (h : Host W) → (e.execute_scheduled_callback s h).1.schedules ≡ h.schedules
  pub on_hook : (s : Schedule) (h : Host W) → (e.on_schedule_fire s h).1.schedules ≡ h.schedules
  pub on_bundle : (s : Schedule) (h : Host W) → (e.bundle_alarm s h).1.schedules ≡ h.schedules
  pub on_prompt :
      (id text : String) (h : Host W) → (e.handle_prompt id text h).1.schedules ≡ h.schedules

module _ {W : Type 0} (e : Effects W) (env : Env) (leaves : LeavesSchedules e) where
  -- The rows that are due after a schedule has been served, from those before.
  abbrev HostClears : String → Host W → Host W → Type 0
  HostClears id h h' = Clears env.now id h.schedules h'.schedules

  abbrev HostServes : String → Host W → Host W → Type 0
  HostServes id h h' = Serves env.now id h.schedules h'.schedules

  onto :
      (id : String) (h h1 h2 : Host W)
      → h2.schedules ≡ h1.schedules
      → HostClears id h h1
      → HostClears id h h2
  onto id h h1 h2 same k = subst (Clears env.now id h.schedules) (sym same) k

  after_prompt-schedules :
      (s : Schedule) (r : Option String × Host W)
      → (after_prompt e env s r).1.schedules ≡ r.1.schedules
  unfolding after_prompt
  after_prompt-schedules s (some message, h) = refl
  after_prompt-schedules s (none, h) = refl

  prompt_session-schedules :
      (s : Schedule) (text : String) (r : Outcome Session × Sessions.Db) (h : Host W)
      → (prompt_session e env s text r h).1.schedules ≡ h.schedules
  unfolding prompt_session
  prompt_session-schedules s text (err error, db) h = refl
  prompt_session-schedules s text (ok session, db) h =
      after_prompt-schedules s (e.handle_prompt session.id text (record h { sessions = db }))
      ∙ leaves.on_prompt session.id text (record h { sessions = db })

  prompt_text-schedules :
      (s : Schedule) (text : Option String) (h : Host W)
      → (prompt_text e env s text h).1.schedules ≡ h.schedules
  unfolding prompt_text execute_scheduled_prompt
  prompt_text-schedules s none h = refl
  prompt_text-schedules s (some text) h = prompt_session-schedules s text _ h

  run_schedule-schedules :
      (t : HandlerType) (s : Schedule) (overriding : Option String) (h : Host W)
      → (run_schedule e env t s overriding h).1.schedules ≡ h.schedules
  unfolding run_schedule
  run_schedule-schedules prompt s overriding h = prompt_text-schedules s _ h
  run_schedule-schedules callback s overriding h = leaves.on_callback s h
  run_schedule-schedules timer s overriding h = leaves.on_callback s h

  after_run-Clears :
      (h0 : Host W) (s : Schedule) (r : Option String × Host W)
      → HostClears s.id h0 r.1
      → HostClears s.id h0 (after_run e env s r)
  unfolding after_run mark_idle mark_failed
  after_run-Clears h0 s (none, h) k =
      update_where-Clears env.now s.id _ h0.schedules h.schedules (λ a due. due) k
  after_run-Clears h0 s (some message, h) k =
      update_where-Clears env.now s.id _ h0.schedules h.schedules (λ a due. due) k

  after_hooks-Clears :
      (h0 : Host W) (s : Schedule) (result : Option HookResult) (r : Option HookResult × Host W)
      → HostClears s.id h0 r.1
      → HostClears s.id h0 (after_hooks e env s result r)
  unfolding after_hooks mark_running
  after_hooks-Clears h0 s result (bundle_result, h) k =
      let started = with_schedules e env (mark_running env.schedules s.id) h in
      let overriding = override e env (prompt_of e env bundle_result) (prompt_of e env result) in
      let r = run_schedule e env s.handler_type s overriding started in
      on_branches (HostClears s.id h0) (skips e env result || skips e env bundle_result) k (
        after_run-Clears h0 s r (
          onto s.id h0 started r.1 (run_schedule-schedules s.handler_type s overriding started)
            (update_where-Clears env.now s.id _ h0.schedules h.schedules (λ a due. due) k)))

  after_static_hook-Clears :
      (h0 : Host W) (s : Schedule) (r : Hooked × Host W)
      → HostClears s.id h0 r.1
      → HostClears s.id h0 (after_static_hook e env s r).1
  unfolding after_static_hook
  after_static_hook-Clears h0 s (hook_threw, h) k = k
  after_static_hook-Clears h0 s (answered result, h) k =
      after_hooks-Clears h0 s result (e.bundle_alarm s h)
        (onto s.id h0 h (e.bundle_alarm s h).1 (leaves.on_bundle s h) k)

  module _
      (later : (cron at : String) (timezone : Option String)
        → e.next_fire_time cron env.now timezone ≡ some at
        → fires_by env.now (some at) ≡ false) where
    fire_cron-Serves :
        (s : Schedule) (next : Option String) (h : Host W)
        → e.next_fire_time s.cron env.now s.timezone ≡ next
        → (fire_cron e env s next h).0 ≡ true
        → HostServes s.id h (fire_cron e env s next h).1
    unfolding fire_cron
    fire_cron-Serves s none h same goes_on = absurd (cc goes_on)
    fire_cron-Serves s (some at) h same goes_on =
        let advanced =
          with_schedules e env (λ rows. (update env.schedules s.id (next_fire at) rows).1) h in
        let hooked = e.on_schedule_fire s advanced in
        Clears-Serves env.now s.id h.schedules _ (
          after_static_hook-Clears h s hooked (
            onto s.id h advanced hooked.1 (leaves.on_hook s advanced) (
              next-Clears env.now env.schedules s.id at h.schedules
                (later s.cron at s.timezone same))))

    after_timer-Serves :
        (h0 : Host W) (s : Schedule) (r : Option String × Host W)
        → r.1.schedules ≡ mark_running env.schedules s.id h0.schedules
        → HostServes s.id h0 (after_timer e env s r)
    unfolding after_timer drop_schedule mark_running mark_failed
    after_timer-Serves h0 s (none, h) same =
        subst (λ rows. Serves env.now s.id h0.schedules (delete s.id rows)) (sym same)
          (Clears-Serves env.now s.id h0.schedules _
            (delete-Clears env.now s.id _ h0.schedules (λ a. refl)))
    after_timer-Serves h0 s (some message, h) same =
        subst
          (λ rows. Serves env.now s.id h0.schedules (mark_failed env.schedules s.id message rows))
          (sym same) (failed-Serves env.now s.id _ _ h0.schedules (λ a. refl) (λ a. refl))

    fire_by_type-Serves :
        (t : HandlerType) (s : Schedule) (h : Host W)
        → (fire_by_type e env t s h).0 ≡ true
        → HostServes s.id h (fire_by_type e env t s h).1
    unfolding fire_by_type fire_timer
    fire_by_type-Serves timer s h goes_on =
        let started = with_schedules e env (mark_running env.schedules s.id) h in
        after_timer-Serves h s (e.execute_scheduled_callback s started)
          (leaves.on_callback s started)
    fire_by_type-Serves prompt s h goes_on = fire_cron-Serves s _ h refl goes_on
    fire_by_type-Serves callback s h goes_on = fire_cron-Serves s _ h refl goes_on

    fire-Serves :
        (s : Schedule) (h : Host W)
        → (fire e env s h).0 ≡ true
        → HostServes s.id h (fire e env s h).1
    unfolding fire drop_schedule
    fire-Serves s h = elim (Bool-cases (fires_by env.now (truthy s.expires_at))) [
      | inl expired ↦
          rw (expired, fire)
            (λ goes_on.
              Clears-Serves env.now s.id h.schedules _ (drop-Clears env.now s.id h.schedules))
      | inr lasts ↦ rw (lasts, fire) (fire_by_type-Serves s.handler_type s h)
    ]

    -- Each row that is due has failed or is one of those that are still to fire.
    abbrev IsLeft : List Schedule → Host W → Type 0
    IsLeft schedules h =
        (r : Schedule)
        → In r h.schedules
        → IsDue env.now r
        → (r.status ≡ "failed") ⊎ ((s : Schedule) × In s schedules × (s.id ≡ r.id))

    fire-IsLeft :
        (s : Schedule) (schedules : List Schedule) (h : Host W)
        → (fire e env s h).0 ≡ true
        → IsLeft (s ∷ schedules) h
        → IsLeft schedules (fire e env s h).1
    fire-IsLeft s schedules h goes_on k r m due = elim (fire-Serves s h goes_on r m due) [
      | inl failed ↦ inl failed
      | inr (n, other) ↦ elim (k r n due) [
        | inl failed ↦ inl failed
        | inr (t, inl same, named) ↦ absurd (other (sym named ∙ ap (λ (x : Schedule). x.id) same))
        | inr (t, inr q, named) ↦ inr (t, q, named)
      ]
    ]

    fire_all-IsLeft :
        (schedules : List Schedule) (h : Host W)
        → (fire_all e env schedules h).0 ≡ true
        → IsLeft schedules h
        → IsLeft [] (fire_all e env schedules h).1
    unfolding fire_all
    fire_all-IsLeft [] h = λ goes_on k. k
    fire_all-IsLeft (s ∷ schedules) h = elim (Bool-cases (fire e env s h).0) [
      | inl on ↦
          rw (on, fire_all)
            (λ goes_on k.
              fire_all-IsLeft schedules (fire e env s h).1 goes_on (fire-IsLeft s schedules h on k))
      | inr off ↦ rw (off, fire_all) (λ goes_on k. absurd (cc goes_on))
    ]

    due-IsLeft : (h : Host W) → IsLeft (get_due_schedules env.now h.schedules) h
    unfolding get_due_schedules
    due-IsLeft h r m due = inr (
      r,
      (In-sort_by next_le r _).1 (
          (In-filter (λ s. s.enabled && fires_by env.now s.next_fire_at) r h.schedules).1 (m, due)),
      refl,
    )

    then_refresh-IsLeft :
        (r : Bool × Host W)
        → (then_refresh e env r).0 ≡ true
        → (r.0 ≡ true) × ((then_refresh e env r).1.schedules ≡ r.1.schedules)
    unfolding then_refresh refresh_alarm
    then_refresh-IsLeft (true, h) goes_on = (refl, refl)
    then_refresh-IsLeft (false, h) goes_on = absurd (cc goes_on)

-- Where callbacks, hooks and prompts leave the schedules as they are and the next fire times are after
-- the time of the alarm, an alarm that returns leaves no schedule due at that time but those that have
-- failed.
pub handle_alarm_fired-failed :
    {W : Type 0} (e : Effects W) (env : Env)
    → LeavesSchedules e
    → ((cron at : String) (timezone : Option String)
        → e.next_fire_time cron env.now timezone ≡ some at
        → fires_by env.now (some at) ≡ false)
    → (h : Host W) → (handle_alarm_fired e env h).0 ≡ true
    → (r : Schedule) → In r (handle_alarm_fired e env h).1.schedules
    → (r.enabled && fires_by env.now r.next_fire_at) ≡ true
    → r.status ≡ "failed"
unfolding handle_alarm_fired
handle_alarm_fired-failed e env leaves later h returns r m due =
    let fired = fire_all e env (get_due_schedules env.now h.schedules) h in
    let (goes_on, same) = then_refresh-IsLeft e env leaves later fired returns in
    elim (fire_all-IsLeft e env leaves later (get_due_schedules env.now h.schedules) h goes_on
      (due-IsLeft e env leaves later h) r (subst (In r) same m) due) [
        | inl failed ↦ failed
        | inr (s, none_left, named) ↦ absurd none_left
      ]
