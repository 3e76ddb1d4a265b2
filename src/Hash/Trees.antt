-- ===== src/Hash/Trees.antt =====
-- The binary trees that the loop of `MerkleRoot` of internal/hash/hash.go builds.
use datagit.Prelude.{
  ℕ, zero, suc, ◌≤◌, ◌≡◌, ◌≢◌, ◌∙◌, ◌⊎◌, refl, sym, ap, inl, inr, List, [], ◌∷◌, ◌++◌, map, Bytes,
  length, bytes_eq, bytes_beq_iff, eq_cases, arith, take, drop, take-append, drop-append,
}
use mathlib.Core.Path.{ap₂}
use mathlib.Core.List.{append-nil, append_assoc}
use datagit.Hash.{Digest, tag_leaf, tag_internal, next_level, merkle_loop}

-- Leaves with what follows their tag.
pub data Tree : Type 0 where
  leaf : Bytes → Tree
  node : Tree → Tree → Tree

unfoldable pub flatten : Tree → List Bytes
flatten (leaf p) = p ∷ []
flatten (node l r) = flatten l ++ flatten r

unfoldable pub flatten_all : List Tree → List Bytes
unfolding flatten
flatten_all [] = []
flatten_all (t ∷ ts) = flatten t ++ flatten_all ts

next_trees : List Tree → List Tree
next_trees [] = []
next_trees (t ∷ []) = t ∷ []
next_trees (l ∷ r ∷ ts) = node l r ∷ next_trees ts

flatten-next_trees : (ts : List Tree) → flatten_all (next_trees ts) ≡ flatten_all ts
unfolding flatten_all next_trees
flatten-next_trees [] = refl
flatten-next_trees (t ∷ []) = refl
flatten-next_trees (l ∷ r ∷ ts) = rw (flatten-next_trees ts, append_assoc) refl

length-next_trees : (ts : List Tree) → length (next_trees ts) ≤ length ts
unfolding next_trees
length-next_trees [] = omega arith
length-next_trees (t ∷ []) = omega arith
length-next_trees (l ∷ r ∷ ts) = omega (arith, length-next_trees ts)

-- Two different texts with one digest.
abbrev pub Collision : (Bytes → Digest) → Type 0
Collision sha256 = (x : Bytes) × (y : Bytes) × (x ≢ y) × (sha256 x ≡ sha256 y)

module _ (sha256 : Bytes → Digest) where
  unfoldable pub eval : Tree → Digest
  eval (leaf p) = sha256 (tag_leaf ∷ p)
  eval (node l r) = sha256 (tag_internal ∷ eval l ++ eval r)

  map-next_trees : (ts : List Tree) → next_level sha256 (map (eval) ts) ≡ map eval (next_trees ts)
  unfolding next_level next_trees eval
  map-next_trees [] = refl
  map-next_trees (t ∷ []) = refl
  map-next_trees (l ∷ r ∷ ts) = rw (map-next_trees ts) refl

  -- The loop ends with one digest, that of a tree over the leaves in their order.
  pub merkle_loop-eval :
      (n : ℕ) (t : Tree) (ts : List Tree)
      → length (t ∷ ts) ≤ n
      → (u : Tree) × (merkle_loop sha256 n (map eval (t ∷ ts)) ≡ eval u ∷ [])
        × (flatten u ≡ flatten_all (t ∷ ts))
  unfolding merkle_loop flatten_all next_trees
  merkle_loop-eval zero t ts h = absurd (omega arith)
  merkle_loop-eval (suc n) t [] h = (t, refl, sym (append-nil (flatten t)))
  merkle_loop-eval (suc n) l (r ∷ ts) h =
      let (u, e, f) =
        merkle_loop-eval n (node l r) (next_trees ts) (omega (arith, length-next_trees ts)) in
      (
        u,
        ap (merkle_loop sha256 n) (map-next_trees (l ∷ r ∷ ts)) ∙ e,
        f ∙ flatten-next_trees (l ∷ r ∷ ts),
      )

  -- One digest for two texts: they are the same, or they collide.
  pub text-binds : (x y : Bytes) → sha256 x ≡ sha256 y → (x ≡ y) ⊎ Collision sha256
  text-binds x y h = elim (eq_cases x y) [
    | inl same ↦ inl same
    | inr differ ↦ inr (x, y, (λ e. ground (arith, bytes_beq_iff x y)), h)
  ]

  length-eval : ((x : Bytes) → length (sha256 x) ≡ 32) → (t : Tree) → length (eval t) ≡ 32
  unfolding eval
  length-eval long (leaf p) = long (tag_leaf ∷ p)
  length-eval long (node l r) = long (tag_internal ∷ eval l ++ eval r)

  split_eq :
      ((x : Bytes) → length (sha256 x) ≡ 32)
      → (l r l' r' : Tree) → eval l ++ eval r ≡ eval l' ++ eval r'
      → (eval l ≡ eval l') × (eval r ≡ eval r')
  split_eq long l r l' r' h = (
    sym (take-append (eval l) (eval r) 32 (length-eval long l))
        ∙ ap (take 32) h
        ∙ take-append (eval l') (eval r') 32 (length-eval long l'),
    sym (drop-append (eval l) (eval r) 32 (length-eval long l))
        ∙ ap (drop 32) h
        ∙ drop-append (eval l') (eval r') 32 (length-eval long l'),
  )

  -- One digest for two trees: they are the same, or two texts collide.
  pub eval-binds :
      ((x : Bytes) → length (sha256 x) ≡ 32)
      → (t u : Tree) → eval t ≡ eval u
      → (t ≡ u) ⊎ Collision sha256
  unfolding eval
  eval-binds long (leaf p) (leaf q) h = elim (text-binds (tag_leaf ∷ p) (tag_leaf ∷ q) h) [
    | inl same ↦ inl (ap leaf (ap (drop 1) same))
    | inr collide ↦ inr collide
  ]
  eval-binds long (leaf p) (node l r) h =
      inr (tag_leaf ∷ p, tag_internal ∷ eval l ++ eval r, (λ e. ground arith), h)
  eval-binds long (node l r) (leaf q) h =
      inr (tag_internal ∷ eval l ++ eval r, tag_leaf ∷ q, (λ e. ground arith), h)
  eval-binds long (node l r) (node l' r') h =
      elim (text-binds (tag_internal ∷ eval l ++ eval r) (tag_internal ∷ eval l' ++ eval r') h) [
        | inr collide ↦ inr collide
        | inl same ↦
            let (left, right) = split_eq long l r l' r' (ap (drop 1) same) in
            elim (eval-binds long l l' left) [
              | inr collide ↦ inr collide
              | inl e ↦ elim (eval-binds long r r' right) [
                | inr collide ↦ inr collide
                | inl e' ↦ inl (ap₂ node e e')
              ]
            ]
      ]
