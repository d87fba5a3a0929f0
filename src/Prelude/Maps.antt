-- ===== src/Prelude/Maps.antt =====
-- `Map` as an association list: a key's first entry is its value, `set` replaces it in place or
-- appends it, and `delete` removes it.
use mathlib.Core.Path.{◌≡◌, refl}
use mathlib.Core.List.{List, [], ◌∷◌}
use mathlib.Core.Option.{Option, none, some}
use native.Mathlib.Omega.{arith}
use crabbykit.Prelude.Tests.{if◌then◌else◌}
use crabbykit.Prelude.Equality.{StrictEq, ◌==◌}

module _ {ℓ κ} {K : Type ℓ} {V : Type κ} ⦃s : StrictEq K⦄ where
  unfoldable pub lookup : K → List (K × V) → Option V
  lookup key [] = none
  lookup key ((k, v) ∷ entries) = let rest = lookup key entries in if k == key then some v else rest

  unfoldable pub insert : K → V → List (K × V) → List (K × V)
  insert key value [] = (key, value) ∷ []
  insert key value ((k, v) ∷ entries) =
      let rest = insert key value entries in
      if k == key then (key, value) ∷ entries else (k, v) ∷ rest

  unfoldable pub erase : K → List (K × V) → List (K × V)
  erase key [] = []
  erase key ((k, v) ∷ entries) =
      let rest = erase key entries in if k == key then rest else (k, v) ∷ rest

  pub lookup-erase :
      (key key' : K) (entries : List (K × V))
      → lookup key' (erase key entries) ≡ (if key == key' then none else lookup key' entries)
  unfolding lookup erase
  lookup-erase key key' [] = ground arith
  lookup-erase key key' ((k, v) ∷ entries) = ground (
    arith,
    lookup-erase key key' entries,
    s.same_iff k key,
    s.same_iff k key',
    s.same_iff key key',
  )

  pub lookup-insert :
      (key key' : K) (value : V) (entries : List (K × V))
      → (if key == key' then some value else lookup key' entries)
        ≡ lookup key' (insert key value entries)
  unfolding lookup insert
  lookup-insert key key' value [] = refl
  lookup-insert key key' value ((k, v) ∷ entries) = ground (
    arith,
    lookup-insert key key' value entries,
    s.same_iff k key,
    s.same_iff k key',
    s.same_iff key key',
  )
