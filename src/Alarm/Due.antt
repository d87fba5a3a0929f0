-- ===== src/Alarm/Due.antt =====
-- The rows of schedule-store.ts that stay due where those of one id are served.
use crabbykit.Prelude.{
  String, ◌≡◌, ◌≢◌, refl, sym, ◌∙◌, ap, subst, Bool, true, false, ◌&&◌, none, some, Option-cases,
  List, [], ◌∷◌, ◌⊎◌, inl, inr, In, In-map, In-filter, head?, filter, Bool-cases, if◌then◌else◌,
  string_eq, ◌==◌, ==-eq, ==-ne,
}
use crabbykit.Schedules as Schedules
use crabbykit.Schedules.{
  HandlerType, prompt, callback, timer, Schedule, fires_by, next_le, get, set_columns, update_where,
  update, delete, mark_running, mark_idle, mark_failed, get_due_schedules,
}
use crabbykit.Alarm.{next_fire}

module _ (now : String) where
  abbrev pub IsDue : Schedule → Type 0
  IsDue r = (r.enabled && fires_by now r.next_fire_at) ≡ true

  -- A row that is due among the second rows is among the first and has another id.
  abbrev pub Clears : String → List Schedule → List Schedule → Type 0
  Clears id rows after = (r : Schedule) → In r after → IsDue r → In r rows × (r.id ≢ id)

  abbrev pub Serves : String → List Schedule → List Schedule → Type 0
  Serves id rows after =
      (r : Schedule) → In r after → IsDue r → (r.status ≡ "failed") ⊎ (In r rows × (r.id ≢ id))

  pub Clears-Serves :
      (id : String) (rows after : List Schedule) → Clears id rows after → Serves id rows after
  Clears-Serves id rows after k r m due = inr (k r m due)

  In-update_where :
      (id : String) (f : Schedule → Schedule) (rows : List Schedule) (r : Schedule)
      → In r (update_where id f rows)
      → (a : Schedule) × In a rows × (((a.id ≡ id) × (r ≡ f a)) ⊎ ((a.id ≢ id) × (r ≡ a)))
  unfolding update_where
  In-update_where id f rows r m =
      let (a, n, same) = In-map (λ s. if s.id == id then f s else s) r rows m in
      elim (Bool-cases (a.id == id)) [
        | inl own ↦ (a, n, inl (==-eq own, same ∙ ap (λ b. if b then f a else a) own))
        | inr other ↦ (a, n, inr (==-ne other, same ∙ ap (λ b. if b then f a else a) other))
      ]

  -- An update that leaves what makes a row due.
  pub update_where-Clears :
      (id : String) (f : Schedule → Schedule) (rows after : List Schedule)
      → ((a : Schedule) → IsDue (f a) → IsDue a)
      → Clears id rows after
      → Clears id rows (update_where id f after)
  update_where-Clears id f rows after same k r m due = elim (In-update_where id f after r m).2 [
    | inl (own, set) ↦
        let a = (In-update_where id f after r m).0 in
        absurd ((k a (In-update_where id f after r m).1 (same a (subst IsDue set due))).1 own)
    | inr (other, kept) ↦
        subst (λ x. In x rows × (x.id ≢ id)) (sym kept)
          (k _ (In-update_where id f after r m).1 (subst IsDue kept due))
  ]

  kept_row :
      (id : String) (f : Schedule → Schedule) (rows : List Schedule)
      → ((a : Schedule) → (f a).id ≡ a.id)
      → (r : Schedule) → In r (update_where id f rows)
      → r.id ≢ id
      → In r rows
  kept_row id f rows keeps r m other =
      let (a, n, from) = In-update_where id f rows r m in
      elim from [
        | inl (own, set) ↦ absurd (other (ap (λ (x : Schedule). x.id) set ∙ keeps a ∙ own))
        | inr (differs, kept) ↦ subst (λ x. In x rows) (sym kept) n
      ]

  not_deleted : (b : Bool) → (if b then false else true) ≡ true → b ≡ false
  not_deleted true h = absurd (cc h)
  not_deleted false h = refl

  pub delete-Clears :
      (id : String) (f : Schedule → Schedule) (rows : List Schedule)
      → ((a : Schedule) → (f a).id ≡ a.id)
      → Clears id rows (delete id (update_where id f rows))
  unfolding delete
  delete-Clears id f rows keeps r m due =
      let (n, stays) =
        (In-filter (λ s. if s.id == id then false else true) r (update_where id f rows)).0 m in
      let other = ==-ne (not_deleted (r.id == id) stays) in
      (kept_row id f rows keeps r n other, other)

  pub drop-Clears : (id : String) (rows : List Schedule) → Clears id rows (delete id rows)
  unfolding delete
  drop-Clears id rows r m due =
      let (n, stays) = (In-filter (λ s. if s.id == id then false else true) r rows).0 m in
      (n, ==-ne (not_deleted (r.id == id) stays))

  pub failed-Serves :
      (id : String) (f g : Schedule → Schedule) (rows : List Schedule)
      → ((a : Schedule) → (f a).id ≡ a.id)
      → ((a : Schedule) → (g a).status ≡ "failed")
      → Serves id rows (update_where id g (update_where id f rows))
  failed-Serves id f g rows keeps fails r m due =
      let (a, n, from) = In-update_where id g (update_where id f rows) r m in
      elim from [
        | inl (own, set) ↦ inl (ap (λ (x : Schedule). x.status) set ∙ fails a)
        | inr (other, kept) ↦ inr (
            subst (λ x. In x rows × (x.id ≢ id)) (sym kept)
              (kept_row id f rows keeps a n other, other))
      ]

  no_row :
      (id : String) (rows : List Schedule)
      → head? (filter (λ s. s.id == id) rows) ≡ none
      → (r : Schedule) → In r rows
      → (r.id == id) ≡ false
  no_row id [] h r m = absurd m
  no_row id (s ∷ rows) h r m = elim (Bool-cases (s.id == id)) [
    | inl own ↦ absurd (cc (rw own at h))
    | inr other ↦ elim m [
      | inl same ↦ ap (λ (x : Schedule). x.id == id) same ∙ other
      | inr later ↦ no_row id rows (rw other at h) r later
    ]
  ]

  never_due : (b c : Bool) → c ≡ false → (b && c) ≡ true → ⊥
  never_due true c h k = cc (sym k ∙ h)
  never_due false c h k = cc k

  pub next-Clears :
      (env : Schedules.Env) (id at : String) (rows : List Schedule)
      → fires_by now (some at) ≡ false
      → Clears id rows (update env id (next_fire at) rows).1
  unfolding update get set_columns
  next-Clears env id at rows later = elim (Option-cases (get rows id)) [
    | inl missing ↦ rw (missing, update) (λ r m due. (m, ==-ne (no_row id rows missing r m)))
    | inr (s, found) ↦
        rw (found, update)
          (λ r m due.
            let (a, n, from) = In-update_where id (set_columns env (next_fire at)) rows r m in
            elim from [
              | inl (own, set) ↦ absurd (never_due a.enabled _ later (subst IsDue set due))
              | inr (other, kept) ↦ subst (λ x. In x rows × (x.id ≢ id)) (sym kept) (n, other)
            ])
  ]
