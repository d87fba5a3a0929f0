-- ===== src/Alarm/Retention.antt =====
-- `cleanupScheduleSessions` of agent-runtime.ts against the retention of a schedule.
use crabbykit.Prelude.{
  ℕ, zero, suc, ◌-◌, ◌≤◌, ◌≡◌, refl, sym, ◌∙◌, ap, subst, Bool, true, false, not, ◌&&◌, ◌||◌, List,
  [], ◌∷◌, inl, inr, In, In-any, any, filter, length, take, length-filter, Bool-cases, ltb→lt, ltb,
  string_eq, ◌==◌, ==_refl, sort_by, insert_by, arith,
}
use crabbykit.Sessions as Sessions
use crabbykit.Sessions.{Session}
use crabbykit.Sessions.Store as SessionStore
use crabbykit.Schedules.{Schedule}
use crabbykit.Alarm.{
  starts_with, prefix_of, delete_sessions, scheduled_sessions, cleanup_schedule_sessions,
}

module _ {A : Type 0} where
  abbrev count : (A → Bool) → List A → ℕ
  count p xs = length (filter p xs)

  count-filter : (p q : A → Bool) (xs : List A) → count p (filter q xs) ≡ count (λ x. q x && p x) xs
  count-filter p q [] = refl
  count-filter p q (x ∷ xs) = ground (arith, count-filter p q xs)

  count_same : (p q : A → Bool) (xs : List A) → ((x : A) → p x ≡ q x) → count p xs ≡ count q xs
  count_same p q [] h = refl
  count_same p q (x ∷ xs) h = ground (arith, h x, count_same p q xs h)

  count-insert_by :
      (le : A → A → Bool) (p : A → Bool) (x : A) (xs : List A)
      → count p (insert_by le x xs) ≡ count p (x ∷ xs)
  unfolding insert_by
  count-insert_by le p x [] = refl
  count-insert_by le p x (y ∷ ys) = ground (arith, count-insert_by le p x ys)

  count-sort_by :
      (le : A → A → Bool) (p : A → Bool) (xs : List A) → count p (sort_by le xs) ≡ count p xs
  unfolding sort_by
  count-sort_by le p [] = refl
  count-sort_by le p (x ∷ xs) =
      count-insert_by le p x (sort_by le xs) ∙ ground (arith, count-sort_by le p xs)

  -- A test that no element of a prefix passes counts at most the others.
  count-drop :
      (p : A → Bool) (n : ℕ) (xs : List A)
      → ((x : A) → In x (take n xs) → p x ≡ false)
      → count p xs ≤ length xs - n
  count-drop p zero xs h = omega (arith, length-filter p xs)
  count-drop p (suc n) [] h = omega arith
  count-drop p (suc n) (x ∷ xs) h =
      ground (arith, h x (inl refl), count-drop p n xs (λ y m. h y (inr m)))

abbrev is_gone : List Session → Session → Bool
is_gone sessions s = any (λ d. s.id == d.id) sessions

de_morgan : (a b c : Bool) → (not a && (b && not c)) ≡ (b && not (a || c))
de_morgan true true c = refl
de_morgan true false c = refl
de_morgan false b c = refl

count-delete_sessions :
    (q : Session → Bool) (sessions : List Session) (db : Sessions.Db)
    → count q (delete_sessions sessions db).sessions
      ≡ count (λ s. q s && not (is_gone sessions s)) db.sessions
unfolding delete_sessions SessionStore.delete
count-delete_sessions q [] db = count_same _ _ db.sessions (λ s. ground arith)
count-delete_sessions q (d ∷ sessions) db =
    count-delete_sessions q sessions (SessionStore.delete d.id db)
    ∙ count-filter (λ s. q s && not (is_gone sessions s)) (λ s. not (s.id == d.id)) db.sessions
    ∙ count_same _ _ db.sessions (λ s. de_morgan (s.id == d.id) (q s) (is_gone sessions s))

gone-taken :
    (sessions : List Session) (s : Session) → In s sessions → not (is_gone sessions s) ≡ false
gone-taken sessions s m =
    ap not (In-any (λ (d : Session). s.id == d.id) sessions s m (==_refl s.id))

abbrev is_scheduled : Schedule → Session → Bool
unfolding starts_with
is_scheduled schedule s = s.source == "scheduled" && starts_with (prefix_of schedule) s.name

scheduled-delete_sessions :
    (schedule : Schedule) (n : ℕ) (db : Sessions.Db)
    → length
        (scheduled_sessions schedule (delete_sessions (take n (scheduled_sessions schedule db)) db))
      ≤ length (scheduled_sessions schedule db) - n
unfolding scheduled_sessions SessionStore.list is_scheduled
scheduled-delete_sessions schedule n db =
    let q = is_scheduled schedule in
    let all_sessions = scheduled_sessions schedule db in
    let gone = take n all_sessions in
    let kept : Session → Bool = λ s. not (is_gone gone s) in
    subst (λ c. c ≤ length all_sessions - n)
      (sym (
        count-sort_by _ q (delete_sessions gone db).sessions
        ∙ count-delete_sessions q gone db
        ∙ sym (count-sort_by _ (λ s. q s && kept s) db.sessions)
        ∙ sym (count-filter kept q (SessionStore.list db))))
      (count-drop kept n all_sessions (gone-taken gone))

-- After the cleanup of a schedule, no more of its sessions are left than its retention.
pub cleanup_schedule_sessions-retention :
    (schedule : Schedule) (db : Sessions.Db)
    → length (scheduled_sessions schedule (cleanup_schedule_sessions schedule db))
      ≤ schedule.retention
unfolding cleanup_schedule_sessions
cleanup_schedule_sessions-retention schedule db =
    let total = length (scheduled_sessions schedule db) in
    let n = total - schedule.retention in
    elim (Bool-cases (ltb schedule.retention total)) [
      | inl over ↦ rw over (
          omega
            (arith, scheduled-delete_sessions schedule n db, ltb→lt schedule.retention total over))
      | inr within ↦ rw within (ground (arith, within))
    ]
