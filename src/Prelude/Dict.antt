-- ===== src/Prelude/Dict.antt =====
-- A JavaScript object used as a dictionary: an association list without repeated keys.
use mathlib.Core.Path.{◌≡◌, refl}
use mathlib.Core.Option.{Option, none, some}
use mathlib.Core.Bool.{Bool, false, ◌||◌}
use mathlib.Core.List.{List, [], ◌∷◌}
use Prim.Native.String.{String}
use native.Mathlib.Omega.{arith}
use text.Mathlib.Text.{◌==◌}
use text.Mathlib.TextEquality.{eq_iff}
use socio_technical_alignmen.Prelude.Tests.{if◌then◌else◌}

module _ {ℓ} {V : Type ℓ} where
  -- `d[k]`.
  unfoldable pub lookup : String → List (String × V) → Option V
  lookup k [] = none
  lookup k ((j, v) ∷ m) = if j == k then some v else lookup k m

  -- `d[k] = v`.
  unfoldable pub insert : String → V → List (String × V) → List (String × V)
  insert k v [] = (k, v) ∷ []
  insert k v ((j, w) ∷ m) = if j == k then (k, v) ∷ m else (j, w) ∷ insert k v m

  -- A read after a write: the written value under the written key, the old entry elsewhere.
  pub lookup-insert :
      (written sought : String) (v : V) (d : List (String × V))
      → lookup sought (insert written v d) ≡ (if written == sought then some v else lookup sought d)
  unfolding lookup insert
  lookup-insert written sought v [] = refl
  lookup-insert written sought v ((key, old) ∷ d) =
      let later = lookup-insert written sought v d in
      ground (arith, later, eq_iff key written, eq_iff key sought, eq_iff written sought)

-- `xs.includes(x)`, and `has` of a `Set`.
unfoldable pub includes : String → List String → Bool
includes x [] = false
includes x (y ∷ ys) = y == x || includes x ys
