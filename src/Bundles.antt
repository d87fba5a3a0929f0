-- ===== src/Bundles.antt =====
-- The promotion of a bundle version: the validators of packages/runtime/bundle-registry/src/validate.ts
-- and packages/runtime/bundle-host/src/validate-routes.ts and validate-config.ts. Ids are the texts
-- that their types say; the checks that a declared id is a text at all are not modelled.
pub mod Validators
pub mod Registry
pub mod Promotion
pub mod Interface
pub mod Dispatcher
pub mod D1
mod Tests
use crabbykit.Prelude.{
  ℕ, String, Bool, true, false, not, ◌&&◌, Option, none, some, List, [], ◌∷◌, ◌==◌, string_eq,
  if◌then◌else◌, any, map,
}

pub record RouteSpec : Type 0 where
  pub method : String
  pub path : String

abbrev pub has_id : List String → String → Bool
has_id ids id = any (λ k. k == id) ids

-- The loop of the validators: the ids that are wanted, each once, in their order.
unfoldable pub collect : (String → Bool) → List String → List String → List String
collect wanted seen [] = []
collect wanted seen (id ∷ ids) =
    let skips = collect wanted seen ids in
    let takes = collect wanted (id ∷ seen) ids in
    if wanted id then (if has_id seen id then skips else id ∷ takes) else skips

-- `validateCatalogAgainstKnownIds`: the missing ids; none is valid.
unfoldable pub missing_ids : Option (List String) → List String → List String
unfolding collect
missing_ids none known = []
missing_ids (some required) known = collect (λ id. not (has_id known id)) [] required

-- The declared ids that are known; an absent list opts out. The three validators of
-- validate-config.ts and that of the action ids are this one.
unfoldable pub colliding_ids : Option (List String) → Option (List String) → List String
unfolding collect
colliding_ids none known = []
colliding_ids (some declared) none = []
colliding_ids (some declared) (some known) = collect (λ id. has_id known id) [] declared

abbrev pub same_route : RouteSpec → RouteSpec → Bool
same_route r s = r.method == s.method && r.path == s.path

abbrev pub has_route : List RouteSpec → RouteSpec → Bool
has_route routes r = any (λ s. same_route s r) routes

-- `validateBundleRoutesAgainstKnownRoutes`. A route is its method and path; the source joins the two
-- by a colon, which no HTTP method has.
unfoldable pub collect_routes : List RouteSpec → List RouteSpec → List RouteSpec → List RouteSpec
collect_routes known seen [] = []
collect_routes known seen (r ∷ routes) =
    let skips = collect_routes known seen routes in
    let takes = collect_routes known (r ∷ seen) routes in
    if has_route known r then (if has_route seen r then skips else r ∷ takes) else skips

unfoldable pub colliding_routes : Option (List RouteSpec) → Option (List RouteSpec) → List RouteSpec
unfolding collect_routes
colliding_routes none known = []
colliding_routes (some declared) none = []
colliding_routes (some declared) (some known) = collect_routes known [] declared
