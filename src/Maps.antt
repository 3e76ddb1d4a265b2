-- ===== src/Maps.antt =====
-- Go's `map[K]V` as an association list. What depends on the order in which a map is ranged over
-- is not determined by Go either; the lookup laws below say what a map holds.
pub mod Collect
use datagit.Prelude.{
  Comparable, ◌==◌, eq_self, eq_cases, Bool-cases, ap, ◌≡◌, ◌≢◌, refl, Bool, true, false, Option,
  none, some, List, [], ◌∷◌, arith, if◌then◌else◌, inl, inr,
}

abbrev pub Map {ℓ κ} : Type ℓ → Type κ → Type (ℓ ⊔ κ)
Map K V = List (K × V)

module _ {ℓ κ} {K : Type ℓ} {V : Type κ} ⦃e : Comparable K⦄ where
  -- `v, ok := m[k]`
  unfoldable pub lookup : K → Map K V → Option V
  lookup k [] = none
  lookup k ((j, v) ∷ m) = if j == k then some v else lookup k m

  -- `m[k] = v`
  unfoldable pub put : K → V → Map K V → Map K V
  put k v [] = (k, v) ∷ []
  put k v ((j, w) ∷ m) = if j == k then (k, v) ∷ m else (j, w) ∷ put k v m

  -- `delete(m, k)`
  unfoldable pub remove : K → Map K V → Map K V
  remove k [] = []
  remove k ((j, w) ∷ m) = let rest = remove k m in if j == k then rest else (j, w) ∷ rest

  -- No key is held twice, as in every map that Go builds.
  abbrev pub IsMap : Map K V → Type (κ)
  IsMap [] = Unit
  IsMap ((k, v) ∷ m) = (lookup k m ≡ none) × IsMap m

  pub lookup-nil : (k : K) → lookup k [] ≡ none
  unfolding lookup
  lookup-nil k = refl

  pub lookup-cons :
      (k j : K) (v : V) (m : Map K V)
      → lookup k ((j, v) ∷ m) ≡ (if j == k then some v else lookup k m)
  unfolding lookup
  lookup-cons k j v m = refl

  pub lookup-put :
      (j k : K) (v : V) (m : Map K V)
      → lookup j (put k v m) ≡ (if k == j then some v else lookup j m)
  unfolding lookup put
  lookup-put j k v [] = refl
  lookup-put j k v ((i, w) ∷ m) =
      ground (arith, e.same_iff i k, e.same_iff k j, e.same_iff i j, lookup-put j k v m)

  pub lookup-remove :
      (j k : K) (m : Map K V) → lookup j (remove k m) ≡ (if k == j then none else lookup j m)
  unfolding lookup remove
  lookup-remove j k [] = ground arith
  lookup-remove j k ((i, w) ∷ m) =
      ground (arith, e.same_iff i k, e.same_iff k j, e.same_iff i j, lookup-remove j k m)

  pub put-IsMap : (k : K) (v : V) (m : Map K V) → IsMap m → IsMap (put k v m)
  unfolding put lookup
  put-IsMap k v [] h = ground arith
  put-IsMap k v ((j, w) ∷ m) h =
      ground (arith, e.same_iff j k, e.same_iff k j, lookup-put j k v m, put-IsMap k v m h.1)

  -- The later of two assignments to a key stays.
  pub put-put : (k : K) (v w : V) (m : Map K V) → put k w (put k v m) ≡ put k w m
  unfolding put
  put-put k v w [] = ground (arith, e.same_iff k k)
  put-put k v w ((j, u) ∷ m) = elim (Bool-cases (j == k)) [
    | inl here ↦ rw here (ground (arith, e.same_iff k k))
    | inr there ↦ rw there (rw there (ap (λ (r : Map K V). (j, u) ∷ r) (put-put k v w m)))
  ]

  pub remove-IsMap : (k : K) (m : Map K V) → IsMap m → IsMap (remove k m)
  unfolding remove lookup
  remove-IsMap k [] h = ground arith
  remove-IsMap k ((j, w) ∷ m) h = ground (arith, lookup-remove j k m, remove-IsMap k m h.1)
