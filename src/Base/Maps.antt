-- ===== src/Base/Maps.antt =====
-- `HashMap<String, V>`, as a list of entries of which the first of a key counts.
use pure_grpc_rs.Base.Tests.{if◌then◌else◌}
use mathlib.Core.List.{List, [], ◌∷◌}
use mathlib.Core.Option.{Option, none, some}
use Prim.Native.String.{String}
use pure_grpc_rs.Base.Words.{Bytes, same}
use text.Mathlib.Text.{◌==◌}

module _ {ℓ} {V : Type ℓ} where
  unfoldable pub lookup : String → List (String × V) → Option V
  lookup k [] = none
  lookup k ((j, v) ∷ m) = if j == k then some v else lookup k m

  -- `HashMap::insert`
  abbrev pub store : String → V → List (String × V) → List (String × V)
  store k v m = (k, v) ∷ m

  -- The same, for keys that are texts as bytes.
  unfoldable pub get : Bytes → List (Bytes × V) → Option V
  get k [] = none
  get k ((j, v) ∷ m) = if same j k then some v else get k m
