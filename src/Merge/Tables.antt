-- ===== src/Merge/Tables.antt =====
-- `mergeStates` of internal/engine/engine.go against `mergeTables` of internal/model/model.go.
use datagit.Prelude.{
  ℕ, ◌≡◌, ◌∙◌, refl, sym, Bool, true, false, not, ◌&&◌, Option, none, some, List, [], ◌∷◌, ◌++◌,
  if◌then◌else◌, arith, Bool-cases, inl, inr, bytes_eq, insertion_sort, insert, nat_eq, bytes_beq,
}
use datagit.Maps.{Map, lookup, put, lookup-put}
use datagit.Core.Mask.{ColId, ColMask}
use datagit.Core.Row.{Row}
use datagit.Core.Key.{Pk}
use datagit.Core.Change.{Table, Conflict, sort_conflicts}
use datagit.Merge.{
  Outcome, resolved, conflicted, same_opt, both_changed, merge_key, place, merge_loop, three_way,
  all_keys,
}
use datagit.Merge.Cells.{merge_cells, narrow_cells, mask_at, merge_tables, merge_states}
use datagit.Merge.Agree.{reported, reported-append, is_empty}
use datagit.Merge.Columns.{
  SameEntry, SameConflicts, SameMerge, SameOutcome, SameEntry-refl, SameOutcome-refl, Covers,
  narrow_cells-Same,
}

abbrev switch : Bool → Bool → Bool → Option Row → Option Row → Option Row → Outcome → Outcome
switch ba bt at b a t x =
    if not (not ba) && not (not bt)
    then resolved b
    else if not (not ba)
    then resolved t
    else if not (not bt)
    then resolved a
    else if at
    then resolved a
    else x

switch-Same :
    (ba bt at : Bool) (b a t : Option Row) (x y : Outcome)
    → SameOutcome x y
    → SameOutcome (switch ba bt at b a t x) (switch ba bt at b a t y)
switch-Same true true at b a t x y h = SameOutcome-refl (resolved b)
switch-Same true false at b a t x y h = SameOutcome-refl (resolved t)
switch-Same false true at b a t x y h = SameOutcome-refl (resolved a)
switch-Same false false true b a t x y h = SameOutcome-refl (resolved a)
switch-Same false false false b a t x y h = h

module _ (f g : Row → Row → Row → Outcome) (pk : Pk) where
  both_changed-Same :
      (b a t : Option Row)
      → ((b' a' t' : Row)
          → b ≡ some b'
          → a ≡ some a'
          → t ≡ some t'
          → SameOutcome (f b' a' t') (g b' a' t'))
      → SameOutcome (both_changed f pk b a t) (both_changed g pk b a t)
  unfolding both_changed
  both_changed-Same none a t h = SameOutcome-refl (both_changed f pk none a t)
  both_changed-Same (some b) (some a) (some t) h = h b a t refl refl refl
  both_changed-Same (some b) none t h = SameOutcome-refl (both_changed f pk (some b) none t)
  both_changed-Same (some b) (some a) none h =
      SameOutcome-refl (both_changed f pk (some b) (some a) none)

  merge_key-Same :
      (b a t : Option Row)
      → ((b' a' t' : Row)
          → b ≡ some b'
          → a ≡ some a'
          → t ≡ some t'
          → SameOutcome (f b' a' t') (g b' a' t'))
      → SameOutcome (merge_key f pk b a t) (merge_key g pk b a t)
  unfolding merge_key
  merge_key-Same b a t h =
      switch-Same (same_opt b a) (same_opt b t) (same_opt a t) b a t (both_changed f pk b a t)
        (both_changed g pk b a t) (both_changed-Same b a t h)

put-Same :
    (pk : Pk) (r s : Row) (t u : Table)
    → SameEntry (some r) (some s)
    → ((q : Pk) → SameEntry (lookup q t) (lookup q u))
    → (q : Pk) → SameEntry (lookup q (put pk r t)) (lookup q (put pk s u))
put-Same pk r s t u h k q = elim (Bool-cases (bytes_beq pk q)) [
  | inl same ↦ rw (lookup-put q pk r t, lookup-put q pk s u, same) h
  | inr other ↦ rw (lookup-put q pk r t, lookup-put q pk s u, other) (k q)
]

is_empty-append : (ks ls : List Conflict) → is_empty (ks ++ ls) ≡ (is_empty ks && is_empty ls)
is_empty-append [] ls = refl
is_empty-append (k ∷ ks) ls = refl

append-Same :
    (ks ks' ls ls' : List Conflict)
    → SameConflicts ks ks'
    → SameConflicts ls ls'
    → SameConflicts (ks ++ ls) (ks' ++ ls')
append-Same ks ks' ls ls' h k = (
  ground (arith, is_empty-append ks ls, is_empty-append ks' ls', h.0, k.0),
  λ q n c.
      ground
        (arith, reported-append q n c ks ls, reported-append q n c ks' ls', h.1 q n c, k.1 q n c),
)

place-Same :
    (pk : Pk) (x y : Outcome) (m n : Table × List Conflict)
    → SameOutcome x y
    → SameMerge m n
    → SameMerge (place pk x m) (place pk y n)
unfolding place
place-Same pk (resolved none) (resolved none) (t, ks) (u, ls) h k = k
place-Same pk (resolved (some r)) (resolved (some s)) (t, ks) (u, ls) h k =
    (put-Same pk r s t u h k.0, k.1)
place-Same pk (conflicted xs) (conflicted ys) (t, ks) (u, ls) h k =
    (k.0, append-Same ks ls xs ys k.1 h)
place-Same pk (resolved none) (resolved (some s)) m n h k = absurd (ground (arith, h))
place-Same pk (resolved (some r)) (resolved none) m n h k = absurd (ground (arith, h))
place-Same pk (resolved r) (conflicted ys) m n h k = absurd (ground (arith, h))
place-Same pk (conflicted xs) (resolved s) m n h k = absurd (ground (arith, h))

merge_loop-Same :
    (f g : Pk → Outcome) (pks : List Pk) (m n : Table × List Conflict)
    → ((pk : Pk) → SameOutcome (f pk) (g pk))
    → SameMerge m n
    → SameMerge (merge_loop f pks m) (merge_loop g pks n)
unfolding merge_loop
merge_loop-Same f g [] m n h k = k
merge_loop-Same f g (pk ∷ pks) m n h k =
    merge_loop-Same f g pks (place pk (f pk) m) (place pk (g pk) n) h
      (place-Same pk (f pk) (g pk) m n (h pk) k)

reported-insert :
    (less : Conflict → Conflict → Bool) (q : Pk) (n : ℕ) (c : ColId) (k : Conflict)
    (ks : List Conflict)
    → reported q n c (insert less k ks) ≡ reported q n c (k ∷ ks)
unfolding insert
reported-insert less q n c k [] = refl
reported-insert less q n c k (l ∷ ks) = ground (arith, reported-insert less q n c k ks)

reported-sort :
    (less : Conflict → Conflict → Bool) (q : Pk) (n : ℕ) (c : ColId) (ks : List Conflict)
    → reported q n c (insertion_sort less ks) ≡ reported q n c ks
unfolding insertion_sort
reported-sort less q n c [] = refl
reported-sort less q n c (k ∷ ks) =
    reported-insert less q n c k (insertion_sort less ks)
    ∙ ground (arith, reported-sort less q n c ks)

is_empty-insert :
    (less : Conflict → Conflict → Bool) (k : Conflict) (ks : List Conflict)
    → is_empty (insert less k ks) ≡ false
unfolding insert
is_empty-insert less k [] = refl
is_empty-insert less k (l ∷ ks) = ground arith

is_empty-sort :
    (less : Conflict → Conflict → Bool) (ks : List Conflict)
    → is_empty (insertion_sort less ks) ≡ is_empty ks
unfolding insertion_sort
is_empty-sort less [] = refl
is_empty-sort less (k ∷ ks) = is_empty-insert less k (insertion_sort less ks)

sort-Same :
    (ks ls : List Conflict)
    → SameConflicts ks ls
    → SameConflicts (sort_conflicts ks) (sort_conflicts ls)
unfolding sort_conflicts
sort-Same ks ls h = (
  is_empty-sort _ ks ∙ h.0 ∙ sym (is_empty-sort _ ls),
  λ q n c. reported-sort _ q n c ks ∙ h.1 q n c ∙ sym (reported-sort _ q n c ls),
)

three_way-Same :
    (f g : Pk → Row → Row → Row → Outcome) (base ours theirs : Table)
    → ((pk : Pk) (b a t : Row)
        → lookup pk base ≡ some b
        → lookup pk ours ≡ some a
        → lookup pk theirs ≡ some t
        → SameOutcome (f pk b a t) (g pk b a t))
    → SameMerge (three_way f base ours theirs) (three_way g base ours theirs)
unfolding three_way sort_conflicts
three_way-Same f g base ours theirs h =
    let loops =
      merge_loop-Same
        (λ pk. merge_key (f pk) pk (lookup pk base) (lookup pk ours) (lookup pk theirs))
        (λ pk. merge_key (g pk) pk (lookup pk base) (lookup pk ours) (lookup pk theirs))
        (all_keys base ours theirs) ([], []) ([], [])
        (λ pk.
          merge_key-Same (f pk) (g pk) pk (lookup pk base) (lookup pk ours) (lookup pk theirs)
            (h pk))
        ((λ q. SameEntry-refl (lookup q [])), (refl, λ q n c. refl)) in
    (loops.0, sort-Same _ _ loops.1)

-- For each key that base and side both hold, the key's mask has every column of the schema whose
-- value differs, and no column outside the schema.
abbrev pub CoverChanges : List ColId → Map Pk ColMask → Table → Table → Type 0
CoverChanges cols masks base side =
    (pk : Pk) (b a : Row)
    → lookup pk base ≡ some b
    → lookup pk side ≡ some a
    → Covers cols (mask_at masks pk) b a

-- Where the masks of both sides cover what changed, the engine's merge, which compares the masks'
-- columns only, agrees with the reference merge of every column: the same keys hold a row, with the
-- same cells, and the conflicts stand at the same keys and columns with the same kinds. In
-- particular one is clean when the other is.
pub merge_states-agree :
    (cols : List ColId) (base ours theirs : Table) (mask_o mask_t : Map Pk ColMask)
    → CoverChanges cols mask_o base ours
    → CoverChanges cols mask_t base theirs
    → SameMerge
        (merge_states cols base ours theirs mask_o mask_t)
        (merge_tables cols base ours theirs)
unfolding merge_states merge_tables
merge_states-agree cols base ours theirs mask_o mask_t ho ht =
    three_way-Same (λ pk. narrow_cells cols (mask_at mask_o pk) (mask_at mask_t pk) pk)
      (λ pk. merge_cells cols pk) base ours theirs
      (λ pk b a t hb ha hth.
        narrow_cells-Same cols (mask_at mask_o pk) (mask_at mask_t pk) pk b a t (ho pk b a hb ha)
          (ht pk b t hb hth))
