-- ===== src/Prelude/Sorting.antt =====
-- `sort.Slice` with a `less` that the code gives, and the set that a `map[K]bool` is.
use mathlib.Core.Path.{◌≡◌, refl}
use mathlib.Core.Bool.{Bool, false, ◌||◌}
use mathlib.Core.List.{List, [], ◌∷◌, ◌++◌}
use native.Mathlib.Omega.{arith}
use datagit.Prelude.Tests.{Comparable, ◌==◌, if◌then◌else◌}

module _ {ℓ} {A : Type ℓ} (less : A → A → Bool) where
  unfoldable pub insert : A → List A → List A
  insert x [] = x ∷ []
  insert x (y ∷ ys) = let rest = insert x ys in if less x y then x ∷ y ∷ ys else y ∷ rest

  unfoldable pub insertion_sort : List A → List A
  unfolding insert
  insertion_sort [] = []
  insertion_sort (x ∷ xs) = insert x (insertion_sort xs)

module _ {ℓ} {A : Type ℓ} ⦃e : Comparable A⦄ where
  unfoldable pub contains : A → List A → Bool
  contains a [] = false
  contains a (x ∷ xs) = x == a || contains a xs

  -- The keys of `for _, x := range xs { seen[x] = true }`.
  unfoldable pub dedup : List A → List A
  unfolding contains
  dedup [] = []
  dedup (x ∷ xs) = let rest = dedup xs in if contains x rest then rest else x ∷ rest

  pub contains-append :
      (a : A) (xs ys : List A) → contains a (xs ++ ys) ≡ (contains a xs || contains a ys)
  unfolding contains
  contains-append a [] ys = refl
  contains-append a (x ∷ xs) ys = ground (arith, contains-append a xs ys)

  pub contains-dedup : (a : A) (xs : List A) → contains a (dedup xs) ≡ contains a xs
  unfolding contains dedup
  contains-dedup a [] = refl
  contains-dedup a (x ∷ xs) = ground (arith, contains-dedup a xs, e.same_iff x a)

  pub contains-insert :
      (less : A → A → Bool) (a x : A) (xs : List A)
      → contains a (insert less x xs) ≡ (x == a || contains a xs)
  unfolding contains insert
  contains-insert less a x [] = refl
  contains-insert less a x (y ∷ ys) = ground (arith, contains-insert less a x ys)

  pub contains-insertion_sort :
      (less : A → A → Bool) (a : A) (xs : List A)
      → contains a (insertion_sort less xs) ≡ contains a xs
  unfolding insertion_sort contains
  contains-insertion_sort less a [] = refl
  contains-insertion_sort less a (x ∷ xs) =
      ground (
        arith,
        contains-insert less a x (insertion_sort less xs),
        contains-insertion_sort less a xs,
      )
