-- ===== src/Schedules/Due.antt =====
-- The due schedules of schedule-store.ts, and the earliest fire time that the alarm is set to.
use crabbykit.Prelude.{
  ◌==◌, string_eq, ◌⊎◌, String, ◌≡◌, ◌↔◌, refl, sym, ◌∙◌, ap, subst, true, Option, none, some, List,
  [], ◌∷◌, arith, inl, inr, Bool-cases, ◌&&◌, truthy, text_le, text_le_total, text_le_trans, In,
  In-filter, In-sort_by, IsSorted, sort_by-IsSorted, filter, get_or_else,
}
use crabbykit.Schedules.{
  Schedule, min_with, next_le, fires_by, get_due_schedules, min_next_fire_at,
  get_earliest_fire_time,
}

-- A schedule is enabled, and its fire time is at or before the given one.
abbrev pub IsDue : String → Schedule → Type 0
IsDue now s =
    (s.enabled ≡ true) × ((at : String) × (s.next_fire_at ≡ some at) × (text_le at now ≡ true))

fires_by_iff :
    (now : String) (o : Option String)
    → (fires_by now o ≡ true) ↔ ((at : String) × (o ≡ some at) × (text_le at now ≡ true))
fires_by_iff now none = (λ h. absurd (cc), λ (at, same, _). absurd (cc))
fires_by_iff now (some at) =
    (λ h. (at, refl, h), λ (at', same, h). subst (λ o. fires_by now o ≡ true) (sym same) h)

-- `getDueSchedules` answers exactly the stored schedules that are due, in the order of their fire
-- times.
pub In-get_due_schedules_iff :
    (now : String) (rows : List Schedule)
    → IsSorted next_le (get_due_schedules now rows)
      × ((s : Schedule) → In s (get_due_schedules now rows) ↔ (In s rows × IsDue now s))
unfolding get_due_schedules
In-get_due_schedules_iff now rows = (
  sort_by-IsSorted next_le
      (λ s t. text_le_total (get_or_else s.next_fire_at "") (get_or_else t.next_fire_at ""))
      (λ s t u.
        text_le_trans (get_or_else s.next_fire_at "") (get_or_else t.next_fire_at "")
          (get_or_else u.next_fire_at ""))
      (filter (λ s. s.enabled && fires_by now s.next_fire_at) rows),
  λ s. ground (
    arith,
    In-sort_by next_le s (filter (λ s. s.enabled && fires_by now s.next_fire_at) rows),
    In-filter (λ s. s.enabled && fires_by now s.next_fire_at) s rows,
    fires_by_iff now s.next_fire_at,
  ),
)

min_with_one :
    (o m : Option String) (x : String) → min_with o m ≡ some x → (o ≡ some x) ⊎ (m ≡ some x)
min_with_one none m x h = inr h
min_with_one (some at) none x h = inl h
min_with_one (some at) (some m) x h = elim (Bool-cases (text_le at m)) [
  | inl le ↦ inl (sym (rw le refl) ∙ h)
  | inr gt ↦ inr (sym (rw gt refl) ∙ h)
]

text_le_refl : (a : String) → text_le a a ≡ true
text_le_refl a = elim (Bool-cases (text_le a a)) [ inl le ↦ le | inr gt ↦ text_le_total a a gt ]

min_with_left :
    (at : String) (o : Option String)
    → (x : String) × (min_with (some at) o ≡ some x) × (text_le x at ≡ true)
min_with_left at none = (at, refl, text_le_refl at)
min_with_left at (some m) = elim (Bool-cases (text_le at m)) [
  | inl le ↦ (at, rw le refl, text_le_refl at)
  | inr gt ↦ (m, rw gt refl, text_le_total at m gt)
]

min_with_right :
    (o : Option String) (m : String)
    → (x : String) × (min_with o (some m) ≡ some x) × (text_le x m ≡ true)
min_with_right none m = (m, refl, text_le_refl m)
min_with_right (some at) m = elim (Bool-cases (text_le at m)) [
  | inl le ↦ (at, rw le refl, le)
  | inr gt ↦ (m, rw gt refl, text_le_refl m)
]

-- The earliest fire time is the fire time of an enabled schedule.
min_next_fire_at-attained :
    (rows : List Schedule) (m : String)
    → min_next_fire_at rows ≡ some m
    → (s : Schedule) × In s rows × (s.enabled ≡ true) × (s.next_fire_at ≡ some m)
unfolding min_next_fire_at
min_next_fire_at-attained [] m h = absurd (cc)
min_next_fire_at-attained (s ∷ rows) m h = elim (Bool-cases s.enabled) [
  | inl on ↦
      elim (min_with_one s.next_fire_at (min_next_fire_at rows) m
        (rw (on, min_next_fire_at) at h)) [
          | inl this ↦ (s, inl refl, on, this)
          | inr later ↦
              let (t, n, t_on, fires) = min_next_fire_at-attained rows m later in
              (t, inr n, t_on, fires)
        ]
  | inr off ↦
      let (t, n, t_on, fires) =
        min_next_fire_at-attained rows m (rw (off, min_next_fire_at) at h) in
      (t, inr n, t_on, fires)
]

-- No enabled schedule fires before it.
min_next_fire_at-least :
    (rows : List Schedule) (s : Schedule) (at : String)
    → In s rows
    → s.enabled ≡ true
    → s.next_fire_at ≡ some at
    → (m : String) × (min_next_fire_at rows ≡ some m) × (text_le m at ≡ true)
unfolding min_next_fire_at
min_next_fire_at-least [] s at m on fires = absurd m
min_next_fire_at-least (s ∷ rows) t at (inl same) on fires =
    let (x, one, le) = min_with_left at (min_next_fire_at rows) in
    let s_on : s.enabled ≡ true = subst (λ (r : Schedule). r.enabled ≡ true) same on in
    let s_fires : s.next_fire_at ≡ some at =
      subst (λ (r : Schedule). r.next_fire_at ≡ some at) same fires in
    (x, rw (s_on, s_fires) one, le)
min_next_fire_at-least (s ∷ rows) t at (inr in_rows) on fires =
    let (m, least, le) = min_next_fire_at-least rows t at in_rows on fires in
    elim (Bool-cases s.enabled) [
      | inl s_on ↦
          let (x, one, less) = min_with_right s.next_fire_at m in
          (x, rw (s_on, least) one, text_le_trans x m at less le)
      | inr off ↦ (m, rw off least, le)
    ]

truthy-some : (o : Option String) (m : String) → truthy o ≡ some m → o ≡ some m
truthy-some none m h = cc
truthy-some (some x) m h = elim (Bool-cases (x == "")) [
  | inl blank ↦ cc (rw blank at h)
  | inr kept ↦ rw kept at h
]

-- Where no fire time is the empty text, some stored schedule is due exactly when the earliest fire
-- time exists and has come.
pub get_earliest_fire_time-IsDue_iff :
    (now : String) (rows : List Schedule)
    → ((s : Schedule) → In s rows → truthy s.next_fire_at ≡ s.next_fire_at)
    → ((s : Schedule) × In s (get_due_schedules now rows))
      ↔ ((m : String) × (get_earliest_fire_time rows ≡ some m) × (text_le m now ≡ true))
unfolding get_earliest_fire_time
get_earliest_fire_time-IsDue_iff now rows full = (
  λ (s, due).
      let (n, (on, (at, fires, le))) = ((In-get_due_schedules_iff now rows).1 s).0 due in
      let (m, least, less) = min_next_fire_at-least rows s at n on fires in
      (m, earliest m least, text_le_trans m at now less le),
  λ (m, h, le).
      let least = truthy-some (min_next_fire_at rows) m h in
      let (s, n, on, fires) = min_next_fire_at-attained rows m least in
      (s, ((In-get_due_schedules_iff now rows).1 s).1 (n, (on, (m, fires, le)))),
)
  where
    earliest :
        (m : String) → min_next_fire_at rows ≡ some m → truthy (min_next_fire_at rows) ≡ some m
    earliest m least =
        let (s, n, on, fires) = min_next_fire_at-attained rows m least in
        ap truthy (least ∙ sym fires) ∙ full s n ∙ fires
