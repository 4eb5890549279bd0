-- ===== src/Common/Maps.antt =====
-- A JavaScript `Map` with text keys, as the association list of its entries in insertion order.
use mathlib.Core.Path.{◌≡◌, refl}
use mathlib.Core.Bool.{Bool}
use mathlib.Core.Option.{Option, none, some}
use mathlib.Core.List.{List, [], ◌∷◌}
use native.Mathlib.Omega.{arith}
use kratos_harness.Common.Tests.{◌==◌, if◌then◌else◌, is_some}
use kratos_harness.Common.Texts.{Text, text_eq, text_iff}

module _ {V : Type 0} where
  -- `map.get(k)`
  unfoldable pub get : Text → List (Text × V) → Option V
  get k [] = none
  get k ((j, v) ∷ m) = if j == k then some v else get k m

  -- `map.has(k)`
  abbrev pub has : Text → List (Text × V) → Bool
  has k m = is_some (get k m)

  -- `map.set(k, v)`: a key that is there keeps its place.
  unfoldable pub put : Text → V → List (Text × V) → List (Text × V)
  put k v [] = (k, v) ∷ []
  put k v ((j, w) ∷ m) = if j == k then (k, v) ∷ m else (j, w) ∷ put k v m

  pub get-put :
      (k j : Text) (v : V) (m : List (Text × V))
      → get j (put k v m) ≡ (if k == j then some v else get j m)
  unfolding get put
  get-put k j v [] = refl
  get-put k j v ((i, w) ∷ m) =
      ground (arith, text_iff k j, text_iff i k, text_iff i j, get-put k j v m)
