-- ===== src/Bundles/Validators.antt =====
-- The validators of a promotion: the ids that they report.
use crabbykit.Prelude.{
  String, ◌≡◌, ◌↔◌, ◌⊎◌, refl, sym, ◌∙◌, ap, Bool, true, false, not, subst, Option, none, some,
  List, [], ◌∷◌, string_eq, In, inl, inr, arith, Bool-cases, get_or_else,
}
use text.Mathlib.TextEquality.{eq_iff}
use crabbykit.Bundles.{
  RouteSpec, same_route, has_id, collect, missing_ids, colliding_ids, has_route, collect_routes,
  colliding_routes,
}

has_id_iff : (ids : List String) (id : String) → (has_id ids id ≡ true) ↔ In id ids
has_id_iff [] id = ground arith
has_id_iff (k ∷ ids) id = ground (arith, has_id_iff ids id, eq_iff k id)

-- The loop reports exactly the wanted ids that it has not seen.
In-collect :
    (wanted : String → Bool) (seen ids : List String) (id : String)
    → In id (collect wanted seen ids) ↔ (In id ids × (wanted id ≡ true) × (has_id seen id ≡ false))
unfolding collect
In-collect wanted seen [] id = ground arith
In-collect wanted seen (k ∷ ids) id =
    ground (arith, In-collect wanted seen ids id, In-collect wanted (k ∷ seen) ids id, eq_iff k id)

pub nil_iff : {A : Type 0} → (xs : List A) → (xs ≡ []) ↔ ((x : A) → ¬ In x xs)
nil_iff [] = (λ h x m. m, λ h. refl)
nil_iff (x ∷ xs) = (λ h. absurd (cc), λ h. absurd (h x (inl refl)))

-- No id of the declaration is a scope of the host's own channels.
abbrev pub AreUnreserved : Option (List String) → Type 0
AreUnreserved declared =
    (id : String) → In id (get_or_else declared []) → ¬ ((id ≡ "spine") ⊎ (id ≡ "llm"))

-- Every id of the declaration is known.
abbrev pub AreKnown : Option (List String) → List String → Type 0
AreKnown declared known = (id : String) → In id (get_or_else declared []) → In id known

-- No id of the declaration is known.
abbrev pub AreFresh : Option (List String) → Option (List String) → Type 0
AreFresh declared known =
    (id : String) → In id (get_or_else declared []) → ¬ In id (get_or_else known [])

-- No route of the declaration has the method and the path of a known one.
abbrev pub AreFreshRoutes : Option (List RouteSpec) → Option (List RouteSpec) → Type 0
AreFreshRoutes declared known =
    (r s : RouteSpec)
    → In r (get_or_else declared [])
    → In s (get_or_else known [])
    → s.method ≡ r.method
    → ¬ (s.path ≡ r.path)

fresh_head :
    (r s : RouteSpec) → (same_route s r ≡ false) ↔ ((s.method ≡ r.method) → ¬ (s.path ≡ r.path))
fresh_head r s = ground (arith, eq_iff s.method r.method, eq_iff s.path r.path)

fresh_route_iff :
    (known : List RouteSpec) (r : RouteSpec)
    → (has_route known r ≡ false)
      ↔ ((s : RouteSpec) → In s known → (s.method ≡ r.method) → ¬ (s.path ≡ r.path))
fresh_route_iff [] r = (λ h s m. absurd m, λ h. refl)
fresh_route_iff (k ∷ known) r = elim (Bool-cases (same_route k r)) [
  | inl there ↦ (
    λ h. absurd (cc (rw there at h)),
    λ h. absurd (cc (sym there ∙ (fresh_head r k).1 (h k (inl refl)))),
  )
  | inr gone ↦ (
    λ h s m. elim m [
      | inl same ↦
          subst (λ k. (k.method ≡ r.method) → ¬ (k.path ≡ r.path)) (sym same)
            ((fresh_head r k).0 gone)
      | inr n ↦ (fresh_route_iff known r).0 (rw gone at h) s n
    ],
    λ h. rw gone ((fresh_route_iff known r).1 (λ s m. h s (inr m))),
  )
]

pub missing_ids-nil_iff :
    (declared : Option (List String)) (known : List String)
    → (missing_ids declared known ≡ []) ↔ AreKnown declared known
unfolding missing_ids
missing_ids-nil_iff none known = (λ h id m. absurd m, λ h. refl)
missing_ids-nil_iff (some ids) known = (
  λ h id m. elim (Bool-cases (has_id known id)) [
    | inl there ↦ (has_id_iff known id).0 there
    | inr gone ↦ absurd (
        (nil_iff (collect (λ k. not (has_id known k)) [] ids)).0 h id
          ((In-collect (λ k. not (has_id known k)) [] ids id).1 (m, ap not gone, refl)))
  ],
  λ h. (nil_iff (collect (λ k. not (has_id known k)) [] ids)).1 (λ id m.
      let (n, missing, _) = (In-collect (λ k. not (has_id known k)) [] ids id).0 m in
      cc (sym missing ∙ ap not ((has_id_iff known id).1 (h id n)))),
)

pub colliding_ids-nil_iff :
    (declared known : Option (List String))
    → (colliding_ids declared known ≡ []) ↔ AreFresh declared known
unfolding colliding_ids
colliding_ids-nil_iff none known = (λ h id m. absurd m, λ h. refl)
colliding_ids-nil_iff (some ids) none = (λ h id m n. n, λ h. refl)
colliding_ids-nil_iff (some ids) (some known) = (
  λ h id m n.
      (nil_iff (collect (has_id known) [] ids)).0 h id
        ((In-collect (has_id known) [] ids id).1 (m, (has_id_iff known id).1 n, refl)),
  λ h. (nil_iff (collect (has_id known) [] ids)).1 (λ id m.
      let (n, there, _) = (In-collect (has_id known) [] ids id).0 m in
      h id n ((has_id_iff known id).0 there)),
)

collect_routes-nil_iff :
    (known routes : List RouteSpec)
    → (collect_routes known [] routes ≡ [])
      ↔ ((r : RouteSpec) → In r routes → has_route known r ≡ false)
unfolding collect_routes
collect_routes-nil_iff known [] = (λ q r m. absurd m, λ q. refl)
collect_routes-nil_iff known (r ∷ routes) = elim (Bool-cases (has_route known r)) [
  | inl there ↦ (
    λ q. absurd (cc (rw (there, collect_routes) at q)),
    λ h. absurd (cc (sym there ∙ h r (inl refl))),
  )
  | inr gone ↦
      let ih = collect_routes-nil_iff known routes in
      (
        λ q s m. elim m [
          | inl same ↦ ap (has_route known) same ∙ gone
          | inr n ↦ ih.0 (rw (gone, collect_routes) at q) s n
        ],
        λ h. rw gone (ih.1 (λ s m. h s (inr m))),
      )
]

pub colliding_routes-nil_iff :
    (declared known : Option (List RouteSpec))
    → (colliding_routes declared known ≡ []) ↔ AreFreshRoutes declared known
unfolding colliding_routes
colliding_routes-nil_iff none known = (λ h r s m. absurd m, λ h. refl)
colliding_routes-nil_iff (some routes) none = (λ h r s m n. absurd n, λ h. refl)
colliding_routes-nil_iff (some routes) (some known) = (
  λ h r s m. (fresh_route_iff known r).0 ((collect_routes-nil_iff known routes).0 h r m) s,
  λ h. (collect_routes-nil_iff known routes).1 (λ r m. (fresh_route_iff known r).1 (λ s. h r s m)),
)
