-- ===== src/Hash/Merkle.antt =====
-- `MerkleRoot` and `ChangeDigest` of internal/hash/hash.go depend on the set of changes, and bind it.
use native.Mathlib.Nat.{ℕ_set}
use mathlib.Core.Logic.{∥∥₁_elim}
use mathlib.Core.List.{Perm, Permᴰ}
use mathlib.Core.List.Perm
use datagit.Prelude.{
  ℕ, suc, ◌≡◌, ◌∙◌, refl, sym, ap, Option, none, some, List, [], ◌∷◌, Bytes, length, bytes_ltb,
  insertion_sort, length-insertion_sort, bytes_ltb-IsStrict, sort-perm, list_bytes_set, arith,
}
use datagit.Maps.Collect.{bind}
use datagit.Core.Mask.{ColId}
use datagit.Hash.{
  Digest, Change, tag_empty, first, leaf_digest, leaf_digests, merkle_loop, merkle_root,
  change_digest,
}

digest_set : IsSet (Option Digest)
digest_set = hlevel ℕ_set

module _ (sha256 : Bytes → Digest) where
  -- The root over leaves that are sorted.
  unfoldable pub sorted_root : List Digest → Digest
  sorted_root [] = sha256 (tag_empty ∷ [])
  sorted_root (d ∷ ds) = first (merkle_loop sha256 (length (d ∷ ds)) (d ∷ ds))

  cons_root :
      (n : ℕ) (ds : List Digest)
      → length ds ≡ suc n
      → first (merkle_loop sha256 (suc n) ds) ≡ sorted_root ds
  unfolding sorted_root
  cons_root n [] h = absurd (omega arith)
  cons_root n (d ∷ ds) h = rw h refl

  pub merkle_root-sorted_root :
      (ds : List Digest) → merkle_root sha256 ds ≡ sorted_root (insertion_sort bytes_ltb ds)
  unfolding merkle_root sorted_root insertion_sort
  merkle_root-sorted_root [] = refl
  merkle_root-sorted_root (d ∷ ds) =
      cons_root (length ds) (insertion_sort bytes_ltb (d ∷ ds))
        (length-insertion_sort bytes_ltb (d ∷ ds))

  pub merkle_root-perm :
      {ds es : List Digest} → Perm ds es → merkle_root sha256 ds ≡ merkle_root sha256 es
  merkle_root-perm {ds} {es} p =
      merkle_root-sorted_root ds
      ∙ ap sorted_root (sort-perm bytes_ltb bytes_ltb-IsStrict list_bytes_set p)
      ∙ sym (merkle_root-sorted_root es)

  -- The leaves of a change set in two orders.
  abbrev SameLeaves : Option (List Digest) → Option (List Digest) → Type 0
  SameLeaves none none = Unit
  SameLeaves (some ds) (some es) = Perm ds es
  SameLeaves _ _ = ⊥

  SameLeaves-trans :
      (a b c : Option (List Digest)) → SameLeaves a b → SameLeaves b c → SameLeaves a c
  SameLeaves-trans none none none h k = tt
  SameLeaves-trans none none (some z) h k = k
  SameLeaves-trans none (some y) c h k = absurd h
  SameLeaves-trans (some x) none c h k = absurd h
  SameLeaves-trans (some x) (some y) none h k = k
  SameLeaves-trans (some x) (some y) (some z) h k = Perm.trans h k

  SameLeaves-refl : (a : Option (List Digest)) → SameLeaves a a
  SameLeaves-refl none = tt
  SameLeaves-refl (some x) = Perm.rfl

  cons_leaf : Option Digest → Option (List Digest) → Option (List Digest)
  cons_leaf o rest = bind o (λ d. bind rest (λ ds. some (d ∷ ds)))

  SameLeaves-cons :
      (o : Option Digest) (a b : Option (List Digest))
      → SameLeaves a b
      → SameLeaves (cons_leaf o a) (cons_leaf o b)
  unfolding cons_leaf
  SameLeaves-cons none a b h = tt
  SameLeaves-cons (some d) none none h = tt
  SameLeaves-cons (some d) none (some y) h = h
  SameLeaves-cons (some d) (some x) none h = h
  SameLeaves-cons (some d) (some x) (some y) h = Perm.cons d h

  SameLeaves-swap :
      (o p : Option Digest) (a : Option (List Digest))
      → SameLeaves (cons_leaf o (cons_leaf p a)) (cons_leaf p (cons_leaf o a))
  unfolding cons_leaf
  SameLeaves-swap none none a = tt
  SameLeaves-swap none (some d) a = tt
  SameLeaves-swap (some c) none a = tt
  SameLeaves-swap (some c) (some d) none = tt
  SameLeaves-swap (some c) (some d) (some ds) = Perm.swap d c ds

  leaf_digests-Permᴰ :
      (cols : List ColId) {cs ds : List Change}
      → Permᴰ cs ds
      → SameLeaves (leaf_digests sha256 cs cols) (leaf_digests sha256 ds cols)
  unfolding leaf_digests cons_leaf
  leaf_digests-Permᴰ cols Permᴰ.nil = Perm.rfl
  leaf_digests-Permᴰ cols (Permᴰ.cons {a = a} {l₁ = l} {l₂ = k} e d) = rw (← e) (
      SameLeaves-cons (leaf_digest sha256 a cols) (leaf_digests sha256 l cols)
        (leaf_digests sha256 k cols) (leaf_digests-Permᴰ cols d))
  leaf_digests-Permᴰ cols (Permᴰ.swap {a = a} {b = b} {l = l} e f) =
      rw (← e, ← f)
        (SameLeaves-swap (leaf_digest sha256 a cols) (leaf_digest sha256 b cols)
          (leaf_digests sha256 l cols))
  leaf_digests-Permᴰ cols (Permᴰ.trans {l₁ = a} {l₂ = b} {l₃ = c} d e) =
      SameLeaves-trans (leaf_digests sha256 a cols) (leaf_digests sha256 b cols)
        (leaf_digests sha256 c cols) (leaf_digests-Permᴰ cols d) (leaf_digests-Permᴰ cols e)

  root_of : Option (List Digest) → Option Digest
  root_of o = bind o (λ leaves. some (merkle_root sha256 leaves))

  root_of-SameLeaves : (a b : Option (List Digest)) → SameLeaves a b → root_of a ≡ root_of b
  unfolding root_of
  root_of-SameLeaves none none h = refl
  root_of-SameLeaves none (some y) h = absurd h
  root_of-SameLeaves (some x) none h = absurd h
  root_of-SameLeaves (some x) (some y) h = ap some (merkle_root-perm h)

  -- `ChangeDigest` does not depend on the order of the changes; it fails in one order if it fails in
  -- another.
  pub change_digest-perm :
      (cs ds : List Change) (cols : List ColId)
      → Perm cs ds
      → change_digest sha256 cs cols ≡ change_digest sha256 ds cols
  unfolding change_digest root_of
  change_digest-perm cs ds cols p =
      ∥∥₁_elim p (digest_set (change_digest sha256 cs cols) (change_digest sha256 ds cols)) (λ d.
        root_of-SameLeaves (leaf_digests sha256 cs cols) (leaf_digests sha256 ds cols)
          (leaf_digests-Permᴰ cols d))
