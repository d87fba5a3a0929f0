-- ===== src/Alarm.antt =====
-- The schedules of packages/runtime/agent-runtime/src/agent-runtime.ts: `handleAlarmFired` with what it calls,
-- over the schedule store of Schedules and the session store of Sessions. What callbacks, hooks, prompts,
-- the cron parser and the platform's scheduler do are arguments, which may change the whole host.
pub mod Due
pub mod Fired
pub mod Retention
mod Tests
use Prim.Native.String
use crabbykit.Prelude.{
  ℕ, ◌-◌, String, Bool, true, false, not, ◌&&◌, ◌||◌, Option, none, some, List, [], ◌∷◌, ◌==◌,
  string_eq, if◌then◌else◌, truthy, get_or_else, filter, length, take, ltb,
}
use crabbykit.Sessions as Sessions
use crabbykit.Sessions.{Session, SessionError, Outcome, ok, err}
use crabbykit.Sessions.Store as SessionStore
use crabbykit.Schedules as Schedules
use crabbykit.Schedules.{
  HandlerType, prompt, callback, timer, Schedule, Updates, fires_by, get_due_schedules,
  get_earliest_fire_time, update, delete, mark_running, mark_idle, mark_failed,
}

-- The tables, and what else callbacks and prompts change.
pub record Host (W : Type 0) : Type 0 where
  pub schedules : List Schedule
  pub sessions : Sessions.Db
  pub world : W

pub record HookResult : Type 0 where
  pub skip : Option Bool
  pub prompt : Option String

-- `onScheduleFire` answers, or throws out of the alarm.
pub data Hooked : Type 0 where
  answered : Option HookResult → Hooked
  hook_threw : Hooked

-- What the runtime calls. A callback and a prompt answer the message of what they throw; the hook of a
-- bundle that throws counts as one that answers nothing; `nextFireTime` may throw.
pub record Effects (W : Type 0) : Type 0 where
  pub execute_scheduled_callback : Schedule → Host W → Option String × Host W
  pub forget_callback : String → W → W
  pub on_schedule_fire : Schedule → Host W → Hooked × Host W
  pub bundle_alarm : Schedule → Host W → Option HookResult × Host W
  pub handle_prompt : String → String → Host W → Option String × Host W
  pub next_fire_time : String → String → Option String → Option String
  pub error_text : SessionError → String
  pub set_wake_time : Option String → W → W

-- The times and the ids of a run of the alarm.
pub record Env : Type 0 where
  pub now : String
  pub locale_time : String
  pub schedules : Schedules.Env
  pub sessions : Sessions.Env

-- `name.startsWith(prefix)`
unfoldable pub starts_with : String → String → Bool
starts_with String.[] s = true
starts_with (String.◌∷◌ c prefix) String.[] = false
starts_with (String.◌∷◌ c prefix) (String.◌∷◌ d s) =
    let rest = starts_with prefix s in if String.◌∷◌ c "" == String.◌∷◌ d "" then rest else false

-- `session_prefix ?? name`
abbrev pub prefix_of : Schedule → String
prefix_of s = get_or_else s.session_prefix s.name

unfoldable pub delete_sessions : List Session → Sessions.Db → Sessions.Db
unfolding SessionStore.delete
delete_sessions [] db = db
delete_sessions (s ∷ sessions) db = delete_sessions sessions (SessionStore.delete s.id db)

unfoldable pub scheduled_sessions : Schedule → Sessions.Db → List Session
unfolding starts_with SessionStore.list
scheduled_sessions schedule db =
    filter (λ s. s.source == "scheduled" && starts_with (prefix_of schedule) s.name)
      (SessionStore.list db)

unfoldable pub cleanup_schedule_sessions : Schedule → Sessions.Db → Sessions.Db
unfolding delete_sessions scheduled_sessions
cleanup_schedule_sessions schedule db =
    let all_sessions = scheduled_sessions schedule db in
    if ltb schedule.retention (length all_sessions)
    then delete_sessions (take (length all_sessions - schedule.retention) all_sessions) db
    else db

abbrev pub next_fire : String → Updates
next_fire at = record {
  name = none;
  cron = none;
  enabled = none;
  prompt = none;
  session_prefix = none;
  timezone = none;
  next_fire_at = some (some at);
  last_fired_at = none;
  status = none;
  last_error = none;
  retention = none;
}

module _ {W : Type 0} (e : Effects W) (env : Env) where
  abbrev pub with_schedules : (List Schedule → List Schedule) → Host W → Host W
  with_schedules f h = record h { schedules = f h.schedules }

  -- The session of a prompt is cleaned up with the others where the prompt does not throw.
  unfoldable pub after_prompt : Schedule → Option String × Host W → Option String × Host W
  unfolding cleanup_schedule_sessions
  after_prompt schedule (some message, h) = (some message, h)
  after_prompt schedule (none, h) =
      (none, record h { sessions = cleanup_schedule_sessions schedule h.sessions })

  unfoldable pub prompt_session :
      Schedule → String → Outcome Session × Sessions.Db → Host W → Option String × Host W
  unfolding after_prompt
  prompt_session schedule text (err error, db) h =
      (some (e.error_text error), record h { sessions = db })
  prompt_session schedule text (ok session, db) h =
      after_prompt schedule (e.handle_prompt session.id text (record h { sessions = db }))

  unfoldable pub execute_scheduled_prompt : Schedule → String → Host W → Option String × Host W
  unfolding prompt_session after_prompt SessionStore.create
  execute_scheduled_prompt schedule text h =
      prompt_session schedule text
        (SessionStore.create env.sessions
          (record {
            name = some (String.◌++◌ (prefix_of schedule) (String.◌++◌ " " env.locale_time));
            source = some "scheduled";
            sender = none;
          })
          h.sessions)
        h

  unfoldable pub drop_schedule : String → Host W → Host W
  unfolding delete
  drop_schedule id h = record h {
    schedules = delete id h.schedules;
    world = e.forget_callback id h.world;
  }

  unfoldable pub after_timer : Schedule → Option String × Host W → Host W
  unfolding drop_schedule mark_failed
  after_timer schedule (none, h) = drop_schedule schedule.id h
  after_timer schedule (some message, h) =
      with_schedules (mark_failed env.schedules schedule.id message) h

  unfoldable pub after_run : Schedule → Option String × Host W → Host W
  unfolding mark_idle mark_failed
  after_run schedule (none, h) = with_schedules (mark_idle env.schedules schedule.id) h
  after_run schedule (some message, h) =
      with_schedules (mark_failed env.schedules schedule.id message) h

  unfoldable pub prompt_text : Schedule → Option String → Host W → Option String × Host W
  unfolding execute_scheduled_prompt
  prompt_text schedule none h = (none, h)
  prompt_text schedule (some text) h = execute_scheduled_prompt schedule text h

  abbrev pub override : Option String → Option String → Option String
  override none text = text
  override (some text) _ = some text

  unfoldable pub run_schedule :
      HandlerType → Schedule → Option String → Host W → Option String × Host W
  unfolding prompt_text
  run_schedule prompt schedule overriding h =
      prompt_text schedule (truthy (override overriding schedule.prompt)) h
  run_schedule callback schedule overriding h = e.execute_scheduled_callback schedule h
  run_schedule timer schedule overriding h = e.execute_scheduled_callback schedule h

  abbrev pub skips : Option HookResult → Bool
  skips none = false
  skips (some r) = get_or_else r.skip false

  abbrev pub prompt_of : Option HookResult → Option String
  prompt_of none = none
  prompt_of (some r) = r.prompt

  -- After both hooks: the prompt of the bundle wins, and either one skips.
  unfoldable pub after_hooks : Schedule → Option HookResult → Option HookResult × Host W → Host W
  unfolding after_run run_schedule mark_running
  after_hooks schedule static_result (bundle_result, h) =
      if skips static_result || skips bundle_result
      then h
      else after_run schedule (
          run_schedule schedule.handler_type schedule
            (override (prompt_of bundle_result) (prompt_of static_result))
            (with_schedules (mark_running env.schedules schedule.id) h))

  -- The flag says that the alarm goes on: what throws outside of a `try` ends it.
  unfoldable pub after_static_hook : Schedule → Hooked × Host W → Bool × Host W
  unfolding after_hooks
  after_static_hook schedule (hook_threw, h) = (false, h)
  after_static_hook schedule (answered result, h) =
      (true, after_hooks schedule result (e.bundle_alarm schedule h))

  unfoldable pub fire_cron : Schedule → Option String → Host W → Bool × Host W
  unfolding after_static_hook update
  fire_cron schedule none h = (false, h)
  fire_cron schedule (some at) h = after_static_hook schedule (
      e.on_schedule_fire schedule
        (with_schedules (λ rows. (update env.schedules schedule.id (next_fire at) rows).1) h))

  unfoldable pub fire_timer : Schedule → Host W → Host W
  unfolding after_timer mark_running
  fire_timer schedule h = after_timer schedule (
      e.execute_scheduled_callback schedule
        (with_schedules (mark_running env.schedules schedule.id) h))

  unfoldable pub fire_by_type : HandlerType → Schedule → Host W → Bool × Host W
  unfolding fire_timer fire_cron
  fire_by_type timer schedule h = (true, fire_timer schedule h)
  fire_by_type _ schedule h =
      fire_cron schedule (e.next_fire_time schedule.cron env.now schedule.timezone) h

  unfoldable pub fire : Schedule → Host W → Bool × Host W
  unfolding fire_by_type drop_schedule
  fire schedule h =
      if fires_by env.now (truthy schedule.expires_at)
      then (true, drop_schedule schedule.id h)
      else fire_by_type schedule.handler_type schedule h

  unfoldable pub fire_all : List Schedule → Host W → Bool × Host W
  unfolding fire
  fire_all [] h = (true, h)
  fire_all (s ∷ schedules) h =
      let (goes_on, h1) = fire s h in
      let rest = fire_all schedules h1 in if goes_on then rest else (false, h1)

  unfoldable pub refresh_alarm : Host W → Host W
  unfolding get_earliest_fire_time
  refresh_alarm h = record h {
    world = e.set_wake_time (get_earliest_fire_time h.schedules) h.world;
  }

  unfoldable pub then_refresh : Bool × Host W → Bool × Host W
  unfolding refresh_alarm
  then_refresh (true, h) = (true, refresh_alarm h)
  then_refresh (false, h) = (false, h)

  -- Whether it returns, and the host after it.
  unfoldable pub handle_alarm_fired : Host W → Bool × Host W
  unfolding fire_all then_refresh get_due_schedules
  handle_alarm_fired h = then_refresh (fire_all (get_due_schedules env.now h.schedules) h)
