-- ===== src/Hash/Histories.antt =====
-- Chains of commits under `VerifyChain` of internal/hash/hash.go: the id at the head stands for all
-- that is behind it.
use mathlib.Core.List.{Perm}
use mathlib.Core.List.Perm
use datagit.Prelude.{
  ◌≡◌, ◌∙◌, ◌⊎◌, refl, sym, subst, inl, inr, none, List, [], ◌∷◌, Bytes, bytes_eq, bytes_ltb,
  insertion_sort, bytes_ltb-IsStrict, sort-perm, list_bytes_set,
}
use datagit.Maps.{lookup}
use datagit.Hash.{Digest, Commit, commit_id, is_purged, verify_chain}
use datagit.Hash.Trees.{Collision}
use datagit.Hash.Commits.{Fits, SameCommit, commit_id-binds, Holds, AllHold, verify_chain_iff}

-- The newest commit first, each with the next one as its parent and the last one with none.
abbrev pub IsLinear : List Commit → Type 0
IsLinear [] = Unit
IsLinear (c ∷ []) = c.input.parents ≡ []
IsLinear (c ∷ d ∷ cs) = (c.input.parents ≡ d.id ∷ []) × IsLinear (d ∷ cs)

abbrev pub AllFit : List Commit → Type 0
AllFit [] = Unit
AllFit (c ∷ cs) = Fits c.input × AllFit cs

-- The commits at each position have one id and agree in all but the order of their parents.
abbrev pub SameHistory : List Commit → List Commit → Type 0
SameHistory [] [] = Unit
SameHistory (c ∷ cs) (d ∷ ds) = (c.id ≡ d.id) × SameCommit c.input d.input × SameHistory cs ds
SameHistory _ _ = ⊥

sorted_one : (x : Digest) → insertion_sort bytes_ltb (x ∷ []) ≡ x ∷ []
unfolding insertion_sort
sorted_one x = refl

one_parent : (x y : Digest) → Perm (x ∷ []) (y ∷ []) → x ≡ y
one_parent x y p =
    let same : x ∷ [] ≡ y ∷ [] =
      sym (sorted_one x) ∙ sort-perm bytes_ltb bytes_ltb-IsStrict list_bytes_set p ∙ sorted_one y in
    cc

no_parent : {ps qs : List Digest} (y : Digest) → ps ≡ [] → qs ≡ y ∷ [] → Perm ps qs → ⊥
no_parent {qs = qs} y e f p = cc (f, Perm.nil-eq (subst (λ (l : List Digest). Perm l qs) e p))

module _ (sha256 : Bytes → Digest) where
  unmarked : (c : Commit) → Holds sha256 [] c → commit_id sha256 c.input ≡ c.id
  unfolding is_purged lookup
  unmarked c (inl marked) = cc
  unmarked c (inr same) = same

  heads_agree :
      (c d : Commit)
      → Fits c.input
      → Fits d.input
      → Holds sha256 [] c
      → Holds sha256 [] d
      → c.id ≡ d.id
      → SameCommit c.input d.input ⊎ Collision sha256
  heads_agree c d fc fd hc hd same =
      commit_id-binds sha256 c.input d.input fc fd (unmarked c hc ∙ same ∙ sym (unmarked d hd))

  same_history :
      (c d : Commit) (cs ds : List Commit)
      → IsLinear (c ∷ cs)
      → IsLinear (d ∷ ds)
      → AllFit (c ∷ cs)
      → AllFit (d ∷ ds)
      → AllHold sha256 [] (c ∷ cs)
      → AllHold sha256 [] (d ∷ ds)
      → c.id ≡ d.id
      → SameHistory (c ∷ cs) (d ∷ ds) ⊎ Collision sha256
  same_history c d [] [] lc ld fc fd hc hd same = elim (heads_agree c d fc.0 fd.0 hc.0 hd.0 same) [
    | inr collide ↦ inr collide
    | inl agree ↦ inl (same, agree, tt)
  ]
  same_history c d [] (d' ∷ ds) lc ld fc fd hc hd same =
      elim (heads_agree c d fc.0 fd.0 hc.0 hd.0 same) [
        | inr collide ↦ inr collide
        | inl agree ↦ absurd (no_parent d'.id lc ld.0 agree.same_parents)
      ]
  same_history c d (c' ∷ cs) [] lc ld fc fd hc hd same =
      elim (heads_agree c d fc.0 fd.0 hc.0 hd.0 same) [
        | inr collide ↦ inr collide
        | inl agree ↦ absurd (no_parent c'.id ld lc.0 (Perm.symm agree.same_parents))
      ]
  same_history c d (c' ∷ cs) (d' ∷ ds) lc ld fc fd hc hd same =
      elim (heads_agree c d fc.0 fd.0 hc.0 hd.0 same) [
        | inr collide ↦ inr collide
        | inl agree ↦
            let back = one_parent c'.id d'.id (rw (← ld.0, ← lc.0) agree.same_parents) in
            elim (same_history c' d' cs ds lc.1 ld.1 fc.1 fd.1 hc.1 hd.1 back) [
              | inr collide ↦ inr collide
              | inl rest ↦ inl (same, agree, rest)
            ]
      ]

  -- Two linear histories that VerifyChain passes, with nothing marked as purged and with parts that
  -- have their sizes, and that end in one id: they hold the same commits, or two texts are at hand
  -- that have one SHA-256.
  pub verify_chain-binds :
      (c d : Commit) (cs ds : List Commit)
      → IsLinear (c ∷ cs)
      → IsLinear (d ∷ ds)
      → AllFit (c ∷ cs)
      → AllFit (d ∷ ds)
      → verify_chain sha256 (c ∷ cs) [] ≡ none
      → verify_chain sha256 (d ∷ ds) [] ≡ none
      → c.id ≡ d.id
      → SameHistory (c ∷ cs) (d ∷ ds) ⊎ Collision sha256
  verify_chain-binds c d cs ds lc ld fc fd hc hd same =
      same_history c d cs ds lc ld fc fd ((verify_chain_iff sha256 (c ∷ cs) []).0 hc)
        ((verify_chain_iff sha256 (d ∷ ds) []).0 hd) same
