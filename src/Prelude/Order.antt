-- ===== src/Prelude/Order.antt =====
-- What `sort.Slice` gives where `less` is a strict order: the same list for every order of its
-- elements.
use mathlib.Core.Path.{◌≡◌, refl, sym, ap, ◌∙◌, subst}
use mathlib.Core.Logic.{∥∥₁_elim, inl, inr}
use mathlib.Core.Bool.{Bool, true, false}
use mathlib.Core.List.{List, [], ◌∷◌, map, Perm, Permᴰ}
use mathlib.Core.List.Perm
use Prim.Native.Nat.{◌+◌}
use native.Mathlib.Omega.{arith}
use native.Mathlib.Nat.{ℕ_set}
use datagit.Prelude.Tests.{Bool-cases}
use datagit.Prelude.Lists.{length, Bytes, bytes_ltb}
use datagit.Prelude.Sorting.{insert, insertion_sort}

pub record IsStrict {ℓ} {A : Type ℓ} (less : A → A → Bool) : Type ℓ where
  pub irrefl : (x : A) → less x x ≡ false
  pub trans : (x y z : A) → less x y ≡ true → less y z ≡ true → less x z ≡ true
  pub tri : (x y : A) → less x y ≡ false → less y x ≡ false → x ≡ y

bytes_ltb_irrefl : (a : Bytes) → bytes_ltb a a ≡ false
unfolding bytes_ltb
bytes_ltb_irrefl [] = refl
bytes_ltb_irrefl (x ∷ a) = ground (arith, bytes_ltb_irrefl a)

bytes_ltb_trans :
    (a b c : Bytes) → bytes_ltb a b ≡ true → bytes_ltb b c ≡ true → bytes_ltb a c ≡ true
unfolding bytes_ltb
bytes_ltb_trans a b [] h k = k
bytes_ltb_trans [] b (z ∷ c) h k = refl
bytes_ltb_trans (x ∷ a) [] (z ∷ c) h k = ground arith
bytes_ltb_trans (x ∷ a) (y ∷ b) (z ∷ c) h k = ground (arith, bytes_ltb_trans a b c)

bytes_ltb_tri : (a b : Bytes) → bytes_ltb a b ≡ false → bytes_ltb b a ≡ false → a ≡ b
unfolding bytes_ltb
bytes_ltb_tri [] [] h k = refl
bytes_ltb_tri [] (y ∷ b) h k = ground arith
bytes_ltb_tri (x ∷ a) [] h k = ground arith
bytes_ltb_tri (x ∷ a) (y ∷ b) h k = ground (arith, bytes_ltb_tri a b)

pub bytes_ltb-IsStrict : IsStrict bytes_ltb
bytes_ltb-IsStrict = record {
  irrefl = bytes_ltb_irrefl;
  trans = bytes_ltb_trans;
  tri = bytes_ltb_tri;
}

module _ {ℓ} {A : Type ℓ} (less : A → A → Bool) where
  insert-perm : (x : A) (xs : List A) → Perm (insert less x xs) (x ∷ xs)
  unfolding insert
  insert-perm x [] = Perm.rfl
  insert-perm x (y ∷ ys) = elim (Bool-cases (less x y)) [
    | inl first ↦ rw first Perm.rfl
    | inr later ↦ rw later (Perm.trans (Perm.cons y (insert-perm x ys)) (Perm.swap x y ys))
  ]

  length-insert : (x : A) (xs : List A) → length (insert less x xs) ≡ length xs + 1
  unfolding insert
  length-insert x [] = omega arith
  length-insert x (y ∷ ys) = ground (arith, length-insert x ys)

  pub length-insertion_sort : (xs : List A) → length (insertion_sort less xs) ≡ length xs
  unfolding insertion_sort
  length-insertion_sort [] = refl
  length-insertion_sort (x ∷ xs) =
      omega (arith, length-insert x (insertion_sort less xs), length-insertion_sort xs)

  pub insertion_sort-perm : (xs : List A) → Perm (insertion_sort less xs) xs
  unfolding insertion_sort
  insertion_sort-perm [] = Perm.rfl
  insertion_sort-perm (x ∷ xs) =
      Perm.trans (insert-perm x (insertion_sort less xs)) (Perm.cons x (insertion_sort-perm xs))

  -- Equal sorted lists come from the same elements.
  pub perm_of_sort : {xs ys : List A} → insertion_sort less xs ≡ insertion_sort less ys → Perm xs ys
  perm_of_sort {xs} {ys} h =
      Perm.trans (Perm.symm (insertion_sort-perm xs))
        (subst (λ (l : List A). Perm l ys) (sym h) (insertion_sort-perm ys))

module _ {ℓ} {A : Type ℓ} (less : A → A → Bool) (strict : IsStrict less) where
  insert_comm :
      (x y : A) (zs : List A) → insert less x (insert less y zs) ≡ insert less y (insert less x zs)
  unfolding insert
  insert_comm x y [] = ground (arith, strict.trans x y x, strict.irrefl x, strict.tri x y)
  insert_comm x y (z ∷ zs) = ground (
    arith,
    insert_comm x y zs,
    strict.trans x y x,
    strict.irrefl x,
    strict.tri x y,
    strict.trans x y z,
    strict.trans y x z,
  )

  sort_of_Permᴰ : {xs ys : List A} → Permᴰ xs ys → insertion_sort less xs ≡ insertion_sort less ys
  unfolding insertion_sort
  sort_of_Permᴰ Permᴰ.nil = refl
  sort_of_Permᴰ (Permᴰ.cons e d) = rw (e, sort_of_Permᴰ d) refl
  sort_of_Permᴰ (Permᴰ.swap {a = a} {b = b} {l = l} e f) =
      rw (← e, ← f) (insert_comm a b (insertion_sort less l))
  sort_of_Permᴰ (Permᴰ.trans d c) = sort_of_Permᴰ d ∙ sort_of_Permᴰ c

  pub sort-perm :
      {xs ys : List A}
      → IsSet (List A)
      → Perm xs ys
      → insertion_sort less xs ≡ insertion_sort less ys
  sort-perm {xs} {ys} set p =
      ∥∥₁_elim p (set (insertion_sort less xs) (insertion_sort less ys)) (λ d. sort_of_Permᴰ d)

module _ {ℓ κ} {A : Type ℓ} {B : Type κ} (f : A → B) (less : B → B → Bool) where
  map-insert :
      (x : A) (xs : List A)
      → map f (insert (λ a b. less (f a) (f b)) x xs) ≡ insert less (f x) (map f xs)
  unfolding insert
  map-insert x [] = refl
  map-insert x (y ∷ ys) = ground (arith, map-insert x ys)

  -- Sorting by a key, and sorting the keys.
  pub map-insertion_sort :
      (xs : List A)
      → map f (insertion_sort (λ a b. less (f a) (f b)) xs) ≡ insertion_sort less (map f xs)
  unfolding insertion_sort
  map-insertion_sort [] = refl
  map-insertion_sort (x ∷ xs) =
      map-insert x (insertion_sort (λ a b. less (f a) (f b)) xs)
      ∙ ap (insert less (f x)) (map-insertion_sort xs)

pub bytes_set : IsSet Bytes
bytes_set = hlevel ℕ_set

pub list_bytes_set : IsSet (List Bytes)
list_bytes_set = hlevel ℕ_set
