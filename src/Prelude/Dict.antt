-- ===== src/Prelude/Dict.antt =====
-- `HashMap<String, V>` as an association list. Iteration follows the list; the theorems hold for
-- every order of it.
use Prim.Native.Nat.{ℕ, suc, ◌+◌, ◌≤◌}
use Prim.Native.String.{String}
use mathlib.Core.Path.{◌≡◌, refl, subst}
use mathlib.Core.Logic.{inl, inr}
use mathlib.Core.Bool.{Bool, true, false}
use mathlib.Core.Option.{Option, none, some}
use mathlib.Core.Option
use mathlib.Core.List.{List, [], ◌∷◌}
use native.Mathlib.Omega.{arith}
use text.Mathlib.Text.{◌==◌ as str_eq}
use text.Mathlib.TextEquality.{eq_iff}
use ughi.Prelude.Tests.{if◌then◌else◌, Bool-cases}
use ughi.Prelude.Lists.{length, All}
pub mod Retain

abbrev pub Dict {ℓ} : Type ℓ → Type ℓ
Dict V = List (String × V)

module _ {ℓ} {V : Type ℓ} where
  -- `get`
  unfoldable pub lookup : String → Dict V → Option V
  lookup k [] = none
  lookup k ((j, v) ∷ d) = if str_eq j k then some v else lookup k d

  unfoldable pub contains_key : String → Dict V → Bool
  unfolding lookup
  contains_key k d = elim (lookup k d) [ none ↦ false | some v ↦ true ]

  unfoldable pub insert : String → V → Dict V → Dict V
  insert k v [] = (k, v) ∷ []
  insert k v ((j, w) ∷ d) =
      let rest = insert k v d in if str_eq j k then (j, v) ∷ d else (j, w) ∷ rest

  unfoldable pub remove : String → Dict V → Dict V
  remove k [] = []
  remove k ((j, w) ∷ d) = let rest = remove k d in if str_eq j k then rest else (j, w) ∷ rest

  -- a write through `get_mut`
  unfoldable pub adjust : String → (V → V) → Dict V → Dict V
  adjust k f [] = []
  adjust k f ((j, w) ∷ d) = if str_eq j k then (j, f w) ∷ d else (j, w) ∷ adjust k f d

  abbrev pub values : Dict V → List V
  values [] = []
  values ((j, w) ∷ d) = w ∷ values d

  -- No key stands twice.
  abbrev pub IsMap : Dict V → Type ℓ
  IsMap [] = Unit
  IsMap ((j, w) ∷ d) = (lookup j d ≡ none) × IsMap d

  -- The sum of a measure over the values.
  unfoldable pub total : (V → ℕ) → Dict V → ℕ
  total f [] = 0
  total f ((j, w) ∷ d) = f w + total f d

  pub contains_key-false : (k : String) (d : Dict V) → contains_key k d ≡ false → lookup k d ≡ none
  unfolding contains_key
  contains_key-false k d h = ground arith

  pub lookup-insert :
      (k j : String) (v : V) (d : Dict V)
      → lookup j (insert k v d) ≡ (if str_eq k j then some v else lookup j d)
  unfolding lookup insert
  lookup-insert k j v [] = refl
  lookup-insert k j v ((i, w) ∷ d) =
      ground (arith, eq_iff k j, eq_iff i k, eq_iff i j, lookup-insert k j v d)

  pub lookup-remove :
      (k j : String) (d : Dict V)
      → lookup j (remove k d) ≡ (if str_eq k j then none else lookup j d)
  unfolding lookup remove
  lookup-remove k j [] = ground arith
  lookup-remove k j ((i, w) ∷ d) =
      ground (arith, eq_iff k j, eq_iff i k, eq_iff i j, lookup-remove k j d)

  pub lookup-adjust :
      (k j : String) (f : V → V) (d : Dict V)
      → lookup j (adjust k f d) ≡ (if str_eq k j then Option.map f (lookup j d) else lookup j d)
  unfolding lookup adjust
  lookup-adjust k j f [] = ground arith
  lookup-adjust k j f ((i, w) ∷ d) =
      ground (arith, eq_iff k j, eq_iff i k, eq_iff i j, lookup-adjust k j f d)

-- Keys stay distinct, and how many entries there are.
module _ {ℓ} {V : Type ℓ} where
  pub IsMap-insert : (k : String) (v : V) (d : Dict V) → IsMap d → IsMap (insert k v d)
  unfolding lookup insert
  IsMap-insert k v [] h = ground arith
  IsMap-insert k v ((i, w) ∷ d) h =
      ground (arith, eq_iff i k, eq_iff k i, IsMap-insert k v d h.1, lookup-insert k i v d)

  pub IsMap-remove : (k : String) (d : Dict V) → IsMap d → IsMap (remove k d)
  unfolding lookup remove
  IsMap-remove k [] h = ground arith
  IsMap-remove k ((i, w) ∷ d) h =
      ground (arith, eq_iff i k, eq_iff k i, IsMap-remove k d h.1, lookup-remove k i d)

  pub IsMap-adjust : (k : String) (f : V → V) (d : Dict V) → IsMap d → IsMap (adjust k f d)
  unfolding lookup adjust
  IsMap-adjust k f [] h = ground arith
  IsMap-adjust k f ((i, w) ∷ d) h =
      ground (arith, eq_iff i k, eq_iff k i, IsMap-adjust k f d h.1, lookup-adjust k i f d)

  pub length-insert :
      (k : String) (v : V) (d : Dict V) → lookup k d ≡ none → length (insert k v d) ≡ suc (length d)
  unfolding lookup insert
  length-insert k v [] h = refl
  length-insert k v ((i, w) ∷ d) h = ground (arith, length-insert k v d)

  pub length-adjust : (k : String) (f : V → V) (d : Dict V) → length (adjust k f d) ≡ length d
  unfolding adjust
  length-adjust k f [] = refl
  length-adjust k f ((i, w) ∷ d) = ground (arith, length-adjust k f d)

  pub length-remove-le : (k : String) (d : Dict V) → length (remove k d) ≤ length d
  unfolding remove
  length-remove-le k [] = omega arith
  length-remove-le k ((i, w) ∷ d) = ground (arith, length-remove-le k d)

  pub remove_absent : (k : String) (d : Dict V) → lookup k d ≡ none → remove k d ≡ d
  unfolding lookup remove
  remove_absent k [] h = refl
  remove_absent k ((i, w) ∷ d) h = ground (arith, remove_absent k d)

  pub length-remove :
      (k : String) (v : V) (d : Dict V)
      → IsMap d
      → lookup k d ≡ some v
      → suc (length (remove k d)) ≡ length d
  unfolding lookup remove
  length-remove k v [] h e = ground arith
  length-remove k v ((i, w) ∷ d) h e =
      ground (arith, eq_iff i k, length-remove k v d h.1, remove_absent k d)

-- Sums over the values.
module _ {ℓ} {V : Type ℓ} (f : V → ℕ) where
  -- One value's measure is part of the sum.
  pub le-total : (k : String) (v : V) (d : Dict V) → lookup k d ≡ some v → f v ≤ total f d
  unfolding lookup total
  le-total k v [] e = ground arith
  le-total k v ((i, w) ∷ d) e = ground (arith, le-total k v d)

  pub total-insert :
      (k : String) (v : V) (d : Dict V)
      → lookup k d ≡ none
      → total f (insert k v d) ≡ total f d + f v
  unfolding lookup insert total
  total-insert k v [] h = omega arith
  total-insert k v ((i, w) ∷ d) h = ground (arith, total-insert k v d)

  pub total-remove :
      (k : String) (v : V) (d : Dict V)
      → IsMap d
      → lookup k d ≡ some v
      → total f (remove k d) + f v ≡ total f d
  unfolding lookup remove total
  total-remove k v [] h e = ground arith
  total-remove k v ((i, w) ∷ d) h e =
      ground (arith, eq_iff i k, total-remove k v d h.1, remove_absent k d)

  pub total-adjust :
      (k : String) (v : V) (g : V → V) (d : Dict V)
      → lookup k d ≡ some v
      → total f (adjust k g d) + f v ≡ total f d + f (g v)
  unfolding lookup adjust total
  total-adjust k v g [] e = ground arith
  total-adjust k v g ((i, w) ∷ d) e = ground (arith, total-adjust k v g d)

-- A predicate of every value.
module _ {ℓ κ} {V : Type ℓ} (P : V → Type κ) where
  pub All-insert :
      (k : String) (v : V) (d : Dict V) → P v → All P (values d) → All P (values (insert k v d))
  unfolding insert
  All-insert k v [] h a = (h, tt)
  All-insert k v ((i, w) ∷ d) h a = elim (Bool-cases (str_eq i k)) [
    | inl e ↦ rw e (h, a.1)
    | inr e ↦ rw e (a.0, All-insert k v d h a.1)
  ]

  pub All-remove : (k : String) (d : Dict V) → All P (values d) → All P (values (remove k d))
  unfolding remove
  All-remove k [] a = a
  All-remove k ((i, w) ∷ d) a = elim (Bool-cases (str_eq i k)) [
    | inl e ↦ rw e (All-remove k d a.1)
    | inr e ↦ rw e (a.0, All-remove k d a.1)
  ]

  pub All-adjust :
      (k : String) (f : V → V) (d : Dict V)
      → ((v : V) → P v → P (f v))
      → All P (values d)
      → All P (values (adjust k f d))
  unfolding adjust
  All-adjust k f [] g a = a
  All-adjust k f ((i, w) ∷ d) g a = elim (Bool-cases (str_eq i k)) [
    | inl e ↦ rw e (g w a.0, a.1)
    | inr e ↦ rw e (a.0, All-adjust k f d g a.1)
  ]

  pub All-lookup : (k : String) (v : V) (d : Dict V) → All P (values d) → lookup k d ≡ some v → P v
  unfolding lookup
  All-lookup k v [] a e = absurd (Option.none-ne-some v e)
  All-lookup k v ((i, w) ∷ d) a e = elim (Bool-cases (str_eq i k)) [
    | inl h ↦ subst P (Option.some-injective w v (rw h at e)) a.0
    | inr h ↦ All-lookup k v d a.1 (rw h at e)
  ]
