-- ===== src/Prelude/CodeUnits.antt =====
-- Texts as lists of their code units, where the source indexes them or counts their length. A character
-- is taken to have one unit.
use Prim.Native.Char.{code}
use Prim.Native.Nat.{ℕ}
use Prim.Native.String.{String}
use mathlib.Core.Bool.{Bool, true, false, ◌&&◌}
use mathlib.Core.List.{List, [], ◌∷◌}
use crabbykit.Prelude.Tests.{nat_beq}

abbrev pub Units : Type 0
Units = List ℕ

unfoldable pub units : String → Units
units String.[] = []
units (String.◌∷◌ c s) = code c ∷ units s

abbrev pub same_units : Units → Units → Bool
same_units [] [] = true
same_units (u ∷ s) (v ∷ t) = nat_beq u v && same_units s t
same_units _ _ = false
