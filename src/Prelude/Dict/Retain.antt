-- ===== src/Prelude/Dict/Retain.antt =====
-- `values_mut` and `retain` of a `HashMap`.
use Prim.Native.String.{String}
use mathlib.Core.Path.{◌≡◌, refl}
use mathlib.Core.Bool.{Bool}
use mathlib.Core.Option.{Option, none, some}
use mathlib.Core.Option
use mathlib.Core.List.{[], ◌∷◌, map}
use native.Mathlib.Omega.{arith}
use text.Mathlib.TextEquality.{eq_iff}
use ughi.Prelude.Tests.{if◌then◌else◌}
use ughi.Prelude.Dict.{Dict, IsMap, lookup, values}

module _ {ℓ} {V : Type ℓ} where
  unfoldable pub map_values : (V → V) → Dict V → Dict V
  map_values f [] = []
  map_values f ((j, w) ∷ d) = (j, f w) ∷ map_values f d

  unfoldable pub retain : (V → Bool) → Dict V → Dict V
  retain p [] = []
  retain p ((j, w) ∷ d) = let rest = retain p d in if p w then (j, w) ∷ rest else rest

  pub lookup-map_values :
      (k : String) (f : V → V) (d : Dict V) → lookup k (map_values f d) ≡ Option.map f (lookup k d)
  unfolding lookup map_values
  lookup-map_values k f [] = refl
  lookup-map_values k f ((j, w) ∷ d) = ground (arith, lookup-map_values k f d)

  pub values-map_values : (f : V → V) (d : Dict V) → values (map_values f d) ≡ map f (values d)
  unfolding map_values
  values-map_values f [] = refl
  values-map_values f ((j, w) ∷ d) = rw (values-map_values f d) refl

  pub IsMap-map_values : (f : V → V) (d : Dict V) → IsMap d → IsMap (map_values f d)
  unfolding map_values
  IsMap-map_values f [] m = m
  IsMap-map_values f ((j, w) ∷ d) m =
      ground (arith, IsMap-map_values f d m.1, lookup-map_values j f d)

  pub lookup-retain :
      (k : String) (p : V → Bool) (d : Dict V)
      → IsMap d
      → lookup k (retain p d)
        ≡ (elim (lookup k d) [ none ↦ none | some v ↦ if p v then some v else none ])
  unfolding lookup retain
  lookup-retain k p [] m = refl
  lookup-retain k p ((j, w) ∷ d) m = ground (arith, eq_iff j k, lookup-retain k p d m.1)

  pub IsMap-retain : (p : V → Bool) (d : Dict V) → IsMap d → IsMap (retain p d)
  unfolding retain
  IsMap-retain p [] m = m
  IsMap-retain p ((j, w) ∷ d) m = ground (arith, IsMap-retain p d m.1, lookup-retain j p d m.1)
