-- ===== src/Prelude/Ids.antt =====
-- Lists of records with numbers as ids, given out in turn: the next id, and a write to the first record
-- with an id.
use Prim.Native.Nat.{ℕ, ◌+◌, ◌<◌}
use mathlib.Core.Path.{◌≡◌, sym, subst}
use mathlib.Core.Logic.{◌≢◌, inl, inr}
use mathlib.Core.List.{List, [], ◌∷◌, ◌++◌}
use native.Mathlib.Omega.{arith}
use ughi.Prelude.Tests.{◌==◌, if◌then◌else◌, Bool-cases}
use ughi.Prelude.Lists.{All}

module _ {A : Type 0} (id : A → ℕ) where
  -- `iter_mut().find(|x| x.id == k)`, and a write.
  unfoldable pub write_id : ℕ → (A → A) → List A → List A
  write_id k f [] = []
  write_id k f (x ∷ xs) = let rest = write_id k f xs in if id x == k then f x ∷ xs else x ∷ rest

  -- All ids are below the next one, and no two are the same.
  abbrev pub Below : ℕ → List A → Type 0
  Below n xs = All (λ x. id x < n) xs

  abbrev pub Distinct : List A → Type 0
  Distinct [] = Unit
  Distinct (x ∷ xs) = All (λ y. id x ≢ id y) xs × Distinct xs

  pub Below-push :
      (n : ℕ) (xs : List A) (x : A) → id x ≡ n → Below n xs → Below (n + 1) (xs ++ (x ∷ []))
  Below-push n [] x e h = (omega (arith, e), tt)
  Below-push n (y ∷ xs) x e h = (omega (arith, h.0), Below-push n xs x e h.1)

  differs-push :
      (y x : A) (xs : List A) (n : ℕ)
      → id x ≡ n
      → id y < n
      → All (λ z. id y ≢ id z) xs
      → All (λ z. id y ≢ id z) (xs ++ (x ∷ []))
  differs-push y x [] n e l h = (λ s. omega (arith, s, e, l), tt)
  differs-push y x (z ∷ xs) n e l h = (h.0, differs-push y x xs n e l h.1)

  pub Distinct-push :
      (n : ℕ) (xs : List A) (x : A)
      → id x ≡ n
      → Below n xs
      → Distinct xs
      → Distinct (xs ++ (x ∷ []))
  Distinct-push n [] x e b d = (tt, tt)
  Distinct-push n (y ∷ xs) x e b d =
      (differs-push y x xs n e b.0 d.0, Distinct-push n xs x e b.1 d.1)

  -- A write that keeps the ids keeps what is said of the ids.
  pub All-write_id :
      (P : ℕ → Type 0) (k : ℕ) (f : A → A) (xs : List A)
      → ((x : A) → id (f x) ≡ id x)
      → All (λ x. P (id x)) xs
      → All (λ x. P (id x)) (write_id k f xs)
  unfolding write_id
  All-write_id P k f [] s h = h
  All-write_id P k f (x ∷ xs) s h = elim (Bool-cases (id x == k)) [
    | inl e ↦ rw e (subst P (sym (s x)) h.0, h.1)
    | inr e ↦ rw e (h.0, All-write_id P k f xs s h.1)
  ]

  pub Distinct-write_id :
      (k : ℕ) (f : A → A) (xs : List A)
      → ((x : A) → id (f x) ≡ id x)
      → Distinct xs
      → Distinct (write_id k f xs)
  unfolding write_id
  Distinct-write_id k f [] s d = d
  Distinct-write_id k f (x ∷ xs) s d = elim (Bool-cases (id x == k)) [
    | inl e ↦ rw e (subst (λ i. All (λ y. i ≢ id y) xs) (sym (s x)) d.0, d.1)
    | inr e ↦ rw e (All-write_id (λ i. id x ≢ i) k f xs s d.0, Distinct-write_id k f xs s d.1)
  ]
