-- ===== src/Schedules/Tests.antt =====
-- Calls of the schedule store of schedule-store.ts at concrete inputs.
use mathlib.Core.Path.{subst⁻¹}
use crabbykit.Prelude.{
  String, ◌≡◌, ◌↔◌, refl, true, Option, none, some, List, [], ◌∷◌, string_eq, In, inl, inr, truthy,
  text_le, IsSorted, sort_by, insert_by,
}
use crabbykit.Schedules.{
  Schedule, prompt, Updates, Env, next_le, get_due_schedules, get_earliest_fire_time,
  min_next_fire_at,
}
use crabbykit.Schedules.Due.{IsDue, In-get_due_schedules_iff, get_earliest_fire_time-IsDue_iff}

abbrev now : Env
now = record { nanoid = "n"; iso_now = "2026-01-02T00:00:00.000Z"; sql_now = "2026-01-02 00:00:00" }

abbrev firing : String → Option String → Schedule
firing id at = record {
  id = id;
  name = "report";
  cron = "0 9 * * *";
  enabled = true;
  handler_type = prompt;
  prompt = some "go";
  session_prefix = some "report";
  owner_id = none;
  next_fire_at = at;
  last_fired_at = none;
  timezone = none;
  expires_at = none;
  status = "idle";
  last_error = none;
  retention = 10;
  created_at = "2026-01-01T00:00:00.000Z";
  updated_at = "2026-01-01T00:00:00.000Z";
}

abbrev rows : List Schedule
rows =
    firing "a" (some "2026-01-03T09:00:00.000Z")
    ∷ firing "b" (some "2026-01-02T09:00:00.000Z")
    ∷ firing "c" none
    ∷ []

abbrev renamed : Updates
renamed = record {
  name = some "weekly";
  cron = none;
  enabled = none;
  prompt = none;
  session_prefix = none;
  timezone = none;
  next_fire_at = none;
  last_fired_at = none;
  status = none;
  last_error = none;
  retention = none;
}

In-get_due_schedules_iff_example :
    IsSorted next_le (get_due_schedules "2026-01-02T10:00:00.000Z" rows)
    × ((s : Schedule)
        → In s (get_due_schedules "2026-01-02T10:00:00.000Z" rows)
          ↔ (In s rows × IsDue "2026-01-02T10:00:00.000Z" s))
In-get_due_schedules_iff_example = In-get_due_schedules_iff "2026-01-02T10:00:00.000Z" rows

full : (s : Schedule) → In s rows → truthy s.next_fire_at ≡ s.next_fire_at
full s (inl same) = subst⁻¹ (λ (r : Schedule). truthy r.next_fire_at ≡ r.next_fire_at) same refl
full s (inr (inl same)) =
    subst⁻¹ (λ (r : Schedule). truthy r.next_fire_at ≡ r.next_fire_at) same refl
full s (inr (inr (inl same))) =
    subst⁻¹ (λ (r : Schedule). truthy r.next_fire_at ≡ r.next_fire_at) same refl
full s (inr (inr (inr m))) = absurd m

get_earliest_fire_time-IsDue_iff_example :
    ((s : Schedule) × In s (get_due_schedules "2026-01-02T10:00:00.000Z" rows)) ↔ (
      (m : String) × (get_earliest_fire_time rows ≡ some m)
      × (text_le m "2026-01-02T10:00:00.000Z" ≡ true))
get_earliest_fire_time-IsDue_iff_example =
    get_earliest_fire_time-IsDue_iff "2026-01-02T10:00:00.000Z" rows full

-- The schedule that has no fire time is never due, and the one of today is the earliest.
due_today :
    get_due_schedules "2026-01-02T10:00:00.000Z" rows
    ≡ firing "b" (some "2026-01-02T09:00:00.000Z") ∷ []
unfolding get_due_schedules sort_by insert_by
due_today = refl

earliest_today : get_earliest_fire_time rows ≡ some "2026-01-02T09:00:00.000Z"
unfolding get_earliest_fire_time min_next_fire_at
earliest_today = refl
