-- ===== src/Budget/Runs.antt =====
-- What the counters of budget-tracker.ts hold after calls of `check` and `cleanup`.
use crabbykit.Prelude.{
  ℕ, ◌+◌, ◌≤◌, ◌<◌, String, ◌≡◌, ◌↔◌, not, ◌&&◌, none, List, [], ◌∷◌, arith, ◌==◌, string_eq,
  if◌then◌else◌, get_or_else, is_some, lookup, insert, lookup-insert, lookup-erase,
}
use Prim.Native.Nat.{min}
use text.Mathlib.TextEquality.{eq_iff}
use crabbykit.Budget.{Config, Category, category_eq, Counters, get_limit, check, cleanup}

-- The calls that the counters hold for a nonce and a category.
unfoldable pub used : Counters → String → Category → ℕ
used counters nonce category =
    get_or_else (lookup category (get_or_else (lookup nonce counters) [])) 0

module _ (config : Config) (counters : Counters) (nonce : String) (category : Category) where
  -- A call passes exactly if its count is below the limit of its category.
  pub check_passes_iff :
      ((check config counters nonce category).1 ≡ none)
      ↔ (used counters nonce category < get_limit config category)
  unfolding check used
  check_passes_iff = ground arith

  -- A call that passes adds one to the count of its nonce and category, and no call changes
  -- another count.
  pub used-check :
      (nonce' : String) (category' : Category)
      → used (check config counters nonce category).0 nonce' category' ≡ (
          if (nonce == nonce')
            && (category == category')
            && not (is_some (check config counters nonce category).1)
          then used counters nonce category + 1
          else used counters nonce' category')
  unfolding check used
  used-check nonce' category' =
      let inner = get_or_else (lookup nonce counters) [] in
      let n = get_or_else (lookup category inner) 0 + 1 in
      ground (
        arith,
        lookup-insert nonce nonce' (insert category n inner) counters,
        lookup-insert nonce nonce' [] counters,
        lookup-insert nonce nonce' (insert category n inner) (insert nonce [] counters),
        lookup-insert category category' n inner,
        eq_iff nonce nonce',
        category_eq.same_iff category category',
      )

-- A cleanup clears the counts of its nonce and no others.
pub used-cleanup :
    (counters : Counters) (nonce nonce' : String) (category : Category)
    → used (cleanup counters nonce) nonce' category
      ≡ (if nonce == nonce' then 0 else used counters nonce' category)
unfolding used cleanup lookup
used-cleanup counters nonce nonce' category = ground (arith, lookup-erase nonce nonce' counters)

-- A turn's calls, of any nonces and categories.
unfoldable pub run_checks : Config → Counters → List (String × Category) → Counters
run_checks config counters [] = counters
run_checks config counters ((nonce, category) ∷ calls) =
    run_checks config (check config counters nonce category).0 calls

unfoldable pub attempts : String → Category → List (String × Category) → ℕ
attempts nonce category [] = 0
attempts nonce category ((n, c) ∷ calls) =
    (if (n == nonce) && (c == category) then 1 else 0) + attempts nonce category calls

-- Where a count is within its limit, a run of calls of any nonces and categories leaves it at its
-- value plus the calls of that nonce and category, or at the limit where that is less.
pub used-run_checks :
    (config : Config) (counters : Counters) (calls : List (String × Category)) (nonce : String)
    (category : Category)
    → used counters nonce category ≤ get_limit config category
    → used (run_checks config counters calls) nonce category
      ≡ min
          (used counters nonce category + attempts nonce category calls)
          (get_limit config category)
unfolding run_checks attempts
used-run_checks config counters [] nonce category h = omega arith
used-run_checks config counters ((n, c) ∷ calls) nonce category h = ground (
  arith,
  used-check config counters n c nonce category,
  check_passes_iff config counters n c,
  eq_iff n nonce,
  category_eq.same_iff c category,
  used-run_checks config (check config counters n c).0 calls nonce category,
)
