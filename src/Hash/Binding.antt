-- ===== src/Hash/Binding.antt =====
-- A `ChangeDigest` of internal/hash/hash.go against the changes that it stands for.
use mathlib.Core.List.{Perm}
use mathlib.Core.List.Perm
use datagit.Prelude.{
  ◌≡◌, ◌∙◌, ◌⊎◌, refl, sym, ap, inl, inr, Option, some, List, [], ◌∷◌, ◌++◌, map, Bytes, length,
  bytes_ltb, insertion_sort, perm_of_sort, map-insertion_sort, length-map, arith,
}
use datagit.Maps.Collect.{bind, bind-eq-some}
use datagit.Core.Mask.{ColId}
use datagit.Hash.{
  Digest, Change, tag_leaf, tag_empty, first, leaf_bytes, leaf_digest, leaf_digests, merkle_loop,
  merkle_root, change_digest,
}
use datagit.Hash.Trees.{
  Tree, leaf, flatten, flatten_all, Collision, eval, merkle_loop-eval, eval-binds,
}
use datagit.Hash.Leaf.{leaf_bytes-leaf_code, leaf_code}
use datagit.Hash.Merkle.{sorted_root, merkle_root-sorted_root}

flatten-leaves : (ps : List Bytes) → flatten_all (map leaf ps) ≡ ps
unfolding flatten_all
flatten-leaves [] = refl
flatten-leaves (p ∷ ps) = ap (λ (t : List Bytes). p ∷ t) (flatten-leaves ps)

-- What each change's leaf is made of.
abbrev pub leaves_of : List Change → List ColId → List (Option Bytes)
leaves_of cs cols = map (λ c. leaf_bytes c cols) cs

abbrev tagged : Bytes → Option Bytes
tagged p = some (tag_leaf ∷ p)

module _ (sha256 : Bytes → Digest) where
  abbrev hashed : Bytes → Digest
  hashed p = sha256 (tag_leaf ∷ p)

  leaf_digest-tagged :
      (c : Change) (cols : List ColId) (d : Digest)
      → leaf_digest sha256 c cols ≡ some d
      → (p : Bytes) × (leaf_bytes c cols ≡ tagged p) × (d ≡ hashed p)
  unfolding leaf_digest
  leaf_digest-tagged c cols d h =
      let (buf, e, f) = bind-eq-some (leaf_bytes c cols) (λ buf. some (sha256 buf)) h in
      let (_, g) = leaf_bytes-leaf_code c cols buf e in
      (leaf_code c cols, e ∙ ap some g, cc (f, ap sha256 g))

  leaf_digests-tagged :
      (cs : List Change) (cols : List ColId) (ds : List Digest)
      → leaf_digests sha256 cs cols ≡ some ds
      → (ps : List Bytes) × (leaves_of cs cols ≡ map tagged ps) × (ds ≡ map hashed ps)
  unfolding leaf_digests
  leaf_digests-tagged [] cols ds h = ([], refl, cc h)
  leaf_digests-tagged (c ∷ cs) cols ds h =
      let (d, e, more) =
        bind-eq-some (leaf_digest sha256 c cols)
          (λ d. bind (leaf_digests sha256 cs cols) (λ ds. some (d ∷ ds))) h in
      let (es, f, g) = bind-eq-some (leaf_digests sha256 cs cols) (λ ds. some (d ∷ ds)) more in
      let (p, a, b) = leaf_digest-tagged c cols d e in
      let (ps, a', b') = leaf_digests-tagged cs cols es f in (p ∷ ps, cc (a, a'), cc (g, b, b'))

  eval-leaves : (ps : List Bytes) → map (eval sha256) (map leaf ps) ≡ map hashed ps
  unfolding eval
  eval-leaves [] = refl
  eval-leaves (p ∷ ps) = ap (λ (t : List Digest). hashed p ∷ t) (eval-leaves ps)

  -- The root over a list of leaves in its order is that of a tree over them.
  sorted_root-eval :
      (p : Bytes) (ps : List Bytes)
      → (u : Tree) × (sorted_root sha256 (map hashed (p ∷ ps)) ≡ eval sha256 u)
        × (flatten u ≡ p ∷ ps)
  unfolding sorted_root eval first
  sorted_root-eval p ps =
      let (u, e, f) =
        merkle_loop-eval sha256 (length (hashed p ∷ map hashed ps)) (leaf p) (map leaf ps)
          (omega (arith, length-map hashed ps, length-map leaf ps)) in
      (
        u,
        ap first (
            ap
              (λ (t : List Digest).
                merkle_loop sha256 (length (hashed p ∷ map hashed ps)) (hashed p ∷ t))
              (sym (eval-leaves ps))
            ∙ e),
        f ∙ flatten-leaves (p ∷ ps),
      )

  not_empty : (u : Tree) → sha256 (tag_empty ∷ []) ≡ eval sha256 u → Collision sha256
  unfolding eval
  not_empty (leaf p) h = (tag_empty ∷ [], tag_leaf ∷ p, (λ e. ground arith), h)
  not_empty (Tree.node l r) h =
      (tag_empty ∷ [], 1 ∷ eval sha256 l ++ eval sha256 r, (λ e. ground arith), h)

  -- Sorted leaves with one root are the same leaves.
  sorted_root-binds :
      ((x : Bytes) → length (sha256 x) ≡ 32)
      → (ps qs : List Bytes)
      → sorted_root sha256 (map hashed ps) ≡ sorted_root sha256 (map hashed qs)
      → (ps ≡ qs) ⊎ Collision sha256
  unfolding sorted_root
  sorted_root-binds long [] [] h = inl refl
  sorted_root-binds long [] (q ∷ qs) h =
      let (u, e, f) = sorted_root-eval q qs in inr (not_empty u (h ∙ e))
  sorted_root-binds long (p ∷ ps) [] h =
      let (u, e, f) = sorted_root-eval p ps in inr (not_empty u (sym h ∙ e))
  sorted_root-binds long (p ∷ ps) (q ∷ qs) h =
      let (u, e, f) = sorted_root-eval p ps in
      let (v, e', f') = sorted_root-eval q qs in
      elim (eval-binds sha256 long u v (sym e ∙ h ∙ e')) [
        | inl same ↦ inl (sym f ∙ ap flatten same ∙ f')
        | inr collide ↦ inr collide
      ]

  by_digest : List Bytes → List Bytes
  by_digest = insertion_sort (λ a b. bytes_ltb (hashed a) (hashed b))

  sorted-hashed :
      (ps : List Bytes) → insertion_sort bytes_ltb (map hashed ps) ≡ map hashed (by_digest ps)
  unfolding by_digest
  sorted-hashed ps = sym (map-insertion_sort hashed bytes_ltb ps)

  -- Two change sets with one digest have the same leaves, in some order, or two texts are at hand
  -- that have one SHA-256.
  pub change_digest-binds :
      ((x : Bytes) → length (sha256 x) ≡ 32)
      → (cs ds : List Change) (cols cols' : List ColId) (d : Digest)
      → change_digest sha256 cs cols ≡ some d
      → change_digest sha256 ds cols' ≡ some d
      → Perm (leaves_of cs cols) (leaves_of ds cols') ⊎ Collision sha256
  unfolding change_digest by_digest
  change_digest-binds long cs ds cols cols' d h k =
      let (xs, e, f) =
        bind-eq-some (leaf_digests sha256 cs cols) (λ ls. some (merkle_root sha256 ls)) h in
      let (ys, e', f') =
        bind-eq-some (leaf_digests sha256 ds cols') (λ ls. some (merkle_root sha256 ls)) k in
      let (ps, a, b) = leaf_digests-tagged cs cols xs e in
      let (qs, a', b') = leaf_digests-tagged ds cols' ys e' in
      let root : sorted_root sha256 (map hashed (by_digest ps))
          ≡ sorted_root sha256 (map hashed (by_digest qs)) =
        cc (
          merkle_root-sorted_root sha256 xs,
          merkle_root-sorted_root sha256 ys,
          sorted-hashed ps,
          sorted-hashed qs,
        ) in
      elim (sorted_root-binds long (by_digest ps) (by_digest qs) root) [
        | inr collide ↦ inr collide
        | inl same ↦ inl (
            rw (a, a')
              (Perm.map tagged (perm_of_sort (λ a b. bytes_ltb (hashed a) (hashed b)) same)))
      ]
