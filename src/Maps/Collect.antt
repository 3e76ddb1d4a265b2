-- ===== src/Maps/Collect.antt =====
-- Loops over maps: the entries that a test keeps, and the keys.
use datagit.Prelude.{
  contains, Comparable, ◌≡◌, refl, true, false, Option, none, some, List, [], ◌∷◌, arith,
  Option-cases, inl, inr,
}
use datagit.Maps.{Map, lookup, put, IsMap, lookup-put, put-IsMap}

abbrev pub bind {ℓ κ} : {A : Type ℓ} {B : Type κ} → Option A → (A → Option B) → Option B
bind none f = none
bind (some a) f = f a

-- A chain that gives a value: each of its steps does.
pub bind-eq-some {ℓ κ} :
    {A : Type ℓ} {B : Type κ} (o : Option A) (f : A → Option B) {b : B}
    → bind o f ≡ some b
    → (a : A) × (o ≡ some a) × (f a ≡ some b)
bind-eq-some none f h = cc
bind-eq-some (some a) f h = (a, refl, h)

module _ {ℓ κ μ} {K : Type ℓ} {V : Type κ} {W : Type μ} ⦃e : Comparable K⦄ where
  -- `for k, v := range m { if w, ok := f(k, v); ok { out[k] = w } }`, with `out` empty before it
  unfoldable pub collect : (K → V → Option W) → Map K V → Map K W
  collect f [] = []
  collect f ((k, v) ∷ m) =
      let rest = collect f m in elim (f k v) [ none ↦ rest | some w ↦ put k w rest ]

  pub lookup-collect :
      (f : K → V → Option W) (m : Map K V) (j : K)
      → IsMap m
      → lookup j (collect f m) ≡ bind (lookup j m) (f j)
  unfolding lookup collect
  lookup-collect f [] j h = refl
  lookup-collect f ((k, v) ∷ m) j h = elim (Option-cases (f k v)) [
    | inl skip ↦ ground (arith, e.same_iff k j, lookup-collect f m j h.1)
    | inr (w, kept) ↦
        ground (arith, e.same_iff k j, lookup-put j k w (collect f m), lookup-collect f m j h.1)
  ]

  pub collect-IsMap : (f : K → V → Option W) (m : Map K V) → IsMap (collect f m)
  unfolding collect
  collect-IsMap f [] = tt
  collect-IsMap f ((k, v) ∷ m) = elim (Option-cases (f k v)) [
    | inl skip ↦ rw (skip, collect) (collect-IsMap f m)
    | inr (w, kept) ↦ rw (kept, collect) (put-IsMap k w (collect f m) (collect-IsMap f m))
  ]

module _ {ℓ κ} {K : Type ℓ} {V : Type κ} ⦃e : Comparable K⦄ where
  unfoldable pub keys : Map K V → List K
  keys [] = []
  keys ((k, v) ∷ m) = k ∷ keys m

  -- Every key of the map satisfies the test.
  abbrev pub AllKeys {μ} : (K → Type μ) → Map K V → Type μ
  AllKeys P [] = Unit
  AllKeys P ((k, v) ∷ m) = P k × AllKeys P m

  pub lookup-none : (k : K) (m : Map K V) → contains k (keys m) ≡ false → lookup k m ≡ none
  unfolding keys lookup contains
  lookup-none k [] h = refl
  lookup-none k ((j, v) ∷ m) h = ground (arith, lookup-none k m)

  pub contains-keys :
      (k : K) (m : Map K V) (v : V) → lookup k m ≡ some v → contains k (keys m) ≡ true
  unfolding keys lookup contains
  contains-keys k [] v h = cc
  contains-keys k ((j, w) ∷ m) v h = ground (arith, contains-keys k m v)

  -- `for _, v := range m { out = append(out, v) }`
  unfoldable pub values : Map K V → List V
  values [] = []
  values ((k, v) ∷ m) = v ∷ values m
