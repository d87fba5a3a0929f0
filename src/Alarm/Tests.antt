-- ===== src/Alarm/Tests.antt =====
-- A run of the alarm of agent-runtime.ts, and a cleanup of its sessions, at concrete inputs.
use crabbykit.Prelude.{
  ℕ, ◌≤◌, String, ◌≡◌, refl, subst, false, true, Option, none, some, [], ◌∷◌, inl, length,
  string_eq, sort_by, insert_by,
}
use crabbykit.Sessions as Sessions
use crabbykit.Sessions.{Session}
use crabbykit.Schedules.{
  Schedule, timer, fires_by, update_where, mark_running, mark_failed, get_due_schedules,
}
use crabbykit.Alarm.{
  Host, Effects, Env, answered, after_timer, fire_timer, fire_by_type, fire, fire_all,
  refresh_alarm, then_refresh, handle_alarm_fired, scheduled_sessions, cleanup_schedule_sessions,
}
use crabbykit.Alarm.Fired.{LeavesSchedules, handle_alarm_fired-failed}
use crabbykit.Alarm.Retention.{cleanup_schedule_sessions-retention}

-- Every callback throws; the world counts nothing.
abbrev effects : Effects ℕ
effects = record {
  execute_scheduled_callback = λ s h. (some "down", h);
  forget_callback = λ id w. w;
  on_schedule_fire = λ s h. (answered none, h);
  bundle_alarm = λ s h. (none, h);
  handle_prompt = λ id text h. (none, h);
  next_fire_time = λ cron at timezone. some "2026-01-02T00:00:00.000Z";
  error_text = λ e. "error";
  set_wake_time = λ at w. w;
}

effects-LeavesSchedules : LeavesSchedules effects
effects-LeavesSchedules = record {
  on_callback = λ s h. refl;
  on_hook = λ s h. refl;
  on_bundle = λ s h. refl;
  on_prompt = λ id text h. refl;
}

abbrev env : Env
env = record {
  now = "2026-01-01T00:00:00.000Z";
  locale_time = "1/1/2026, 12:00:00 AM";
  schedules = record {
    nanoid = "x";
    iso_now = "2026-01-01T00:00:00.000Z";
    sql_now = "2026-01-01 00:00:00";
  };
  sessions = record {
    nanoid = "s";
    iso_now = "2026-01-01T00:00:00.000Z";
    sql_now = "2026-01-01 00:00:00";
    ms_now = 5;
  };
}

abbrev reminder : (status : String) → (last_fired_at last_error : Option String) → String → Schedule
reminder status last_fired_at last_error updated_at = record {
  id = "reminder";
  name = "reminder";
  cron = "0 0 1 1 *";
  enabled = true;
  handler_type = timer;
  prompt = none;
  session_prefix = some "reminder";
  owner_id = none;
  next_fire_at = some "2025-12-31T00:00:00.000Z";
  last_fired_at = last_fired_at;
  timezone = none;
  expires_at = none;
  status = status;
  last_error = last_error;
  retention = 1;
  created_at = "2025-12-30T00:00:00.000Z";
  updated_at = updated_at;
}

abbrev session : String → Session
session id = record {
  id = id;
  name = "reminder 1";
  source = "scheduled";
  sender = none;
  leaf_id = none;
  active_mode_id = none;
  created_at = "2025-12-30 00:00:00";
  updated_at = "2025-12-30 00:00:00";
}

abbrev idle : Schedule
idle = reminder "idle" none none "2025-12-30T00:00:00.000Z"

abbrev two_sessions : Sessions.Db
two_sessions = record { sessions = session "a" ∷ session "b" ∷ []; entries = [] }

abbrev host : Host ℕ
host = record { schedules = idle ∷ []; sessions = two_sessions; world = 0 }

abbrev failed_reminder : Schedule
failed_reminder =
    reminder "failed" (some "2026-01-01T00:00:00.000Z") (some "down") "2026-01-01 00:00:00"

handle_alarm_fired-failed_example : failed_reminder.status ≡ "failed"
unfolding handle_alarm_fired get_due_schedules sort_by insert_by fire_all fire fire_by_type
    fire_timer after_timer mark_running mark_failed update_where then_refresh refresh_alarm
handle_alarm_fired-failed_example =
    handle_alarm_fired-failed effects env effects-LeavesSchedules
      (λ cron at timezone same. subst (λ next. fires_by env.now next ≡ false) same refl) host refl
      failed_reminder (inl refl) refl

cleanup_schedule_sessions-retention_example :
    length (scheduled_sessions idle (cleanup_schedule_sessions idle two_sessions)) ≤ 1
cleanup_schedule_sessions-retention_example = cleanup_schedule_sessions-retention idle two_sessions
