-- ===== src/Prelude/Maps.antt =====
-- Go's maps with string keys, as lists of pairs: the first pair of a key counts.
use Prim.Native.String.{String}
use mathlib.Core.Path.{◌≡◌, refl}
use mathlib.Core.Option.{Option, none, some}
use mathlib.Core.List.{List, [], ◌∷◌}
use native.Mathlib.Omega.{arith}
use text.Mathlib.Text.{◌==◌}
use text.Mathlib.TextEquality.{eq_iff}
use agentops_operator.Prelude.Tests.{if◌then◌else◌}

module _ {A : Type 0} where
  -- `m[key] = value`
  unfoldable pub set_value : String → A → List (String × A) → List (String × A)
  set_value key value [] = (key, value) ∷ []
  set_value key value ((k, v) ∷ rest) =
      let others = set_value key value rest in
      if k == key then (k, value) ∷ rest else (k, v) ∷ others

  -- `v, ok := m[key]`
  unfoldable pub lookup : String → List (String × A) → Option A
  lookup key [] = none
  lookup key ((k, v) ∷ rest) = if k == key then some v else lookup key rest

  pub lookup-set_value :
      (k key : String) (value : A) (m : List (String × A))
      → lookup k (set_value key value m) ≡ (if key == k then some value else lookup k m)
  unfolding lookup set_value
  lookup-set_value k key value [] = refl
  lookup-set_value k key value ((j, v) ∷ rest) =
      ground (arith, lookup-set_value k key value rest, eq_iff j key, eq_iff j k, eq_iff key k)
