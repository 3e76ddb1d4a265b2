-- ===== src/Engine/Merging/Plan.antt =====
-- The versions that `applyMergeResult` of internal/engine/engine.go writes, one at most for each key.
use datagit.Prelude.{
  ℕ, ◌≡◌, ◌∙◌, refl, ap, sym, Bool, true, false, Option, none, some, List, [], ◌∷◌, ◌++◌, Bytes,
  bytes_beq, bytes_beq_iff, bytes_eq, bytes_ltb, if◌then◌else◌, arith, Bool-cases, inl, inr,
  Option-cases, contains, contains-append, contains-insertion_sort, contains-insert, insert,
  insertion_sort,
}
use datagit.Maps.{lookup, IsMap}
use datagit.Maps.Collect.{keys}
use datagit.Core.Key.{Pk}
use datagit.Core.Change.{Table, table_keys}
use datagit.Engine.State.{Version, max_seq}
use datagit.Engine.Commit.{is_live}
use datagit.Engine.Publish.{write_all, written, IsPlan}

-- A version for each key, if any: open, committed and in one place.
abbrev pub Plans : Bytes → ℕ → (Pk → Option Version) → Type 0
Plans branch at f =
    (pk : Pk) (v : Version)
    → f pk ≡ some v
    → (v.branch ≡ branch)
      × (v.session ≡ [])
      × (v.seq_from ≡ at)
      × (v.seq_to ≡ max_seq)
      × (v.pk ≡ pk)

unfoldable pub plan_of : (Pk → Option Version) → List Pk → List Version
plan_of f [] = []
plan_of f (pk ∷ pks) = let rest = plan_of f pks in elim (f pk) [ none ↦ rest | some v ↦ v ∷ rest ]

abbrev pub IsDistinct : List Pk → Type 0
IsDistinct [] = Unit
IsDistinct (pk ∷ pks) = (contains pk pks ≡ false) × IsDistinct pks

pub plan_of-append :
    (f : Pk → Option Version) (xs ys : List Pk)
    → plan_of f (xs ++ ys) ≡ plan_of f xs ++ plan_of f ys
unfolding plan_of
plan_of-append f [] ys = refl
plan_of-append f (pk ∷ xs) ys = elim (Option-cases (f pk)) [
  | inl skip ↦ rw (skip, plan_of) (plan_of-append f xs ys)
  | inr (v, new) ↦ rw (new, plan_of) (ap (λ (vs : List Version). v ∷ vs) (plan_of-append f xs ys))
]

pub write_all-append :
    (xs ys rows : List Version) → write_all (xs ++ ys) rows ≡ write_all ys (write_all xs rows)
unfolding write_all
write_all-append [] ys rows = refl
write_all-append (v ∷ xs) ys rows = write_all-append xs ys _

module _ (branch : Bytes) (at : ℕ) (f : Pk → Option Version) (plans : Plans branch at f) where
  pub written-plan_of :
      (pks : List Pk) (j : Pk) → written j (plan_of f pks) ≡ (if contains j pks then f j else none)
  unfolding written plan_of contains
  written-plan_of [] j = refl
  written-plan_of (pk ∷ pks) j = elim (Bool-cases (bytes_beq pk j)) [
    | inl here ↦
        let same : pk ≡ j = (bytes_beq_iff pk j).0 here in
        elim (Option-cases (f pk)) [
          | inl skip ↦
              let none_here : f j ≡ none = ap f (sym same) ∙ skip in
              rw (skip, plan_of) (written-plan_of pks j ∙ ground arith)
          | inr (v, new) ↦
              let some_here : f j ≡ some v = ap f (sym same) ∙ new in
              let name = (plans pk v new).4 in
              rw (new, plan_of) (ground (arith, bytes_beq_iff v.pk j))
        ]
    | inr there ↦ elim (Option-cases (f pk)) [
      | inl skip ↦ rw (skip, plan_of) (written-plan_of pks j ∙ ground arith)
      | inr (v, new) ↦
          let name = (plans pk v new).4 in
          rw (new, plan_of)
            (ground (arith, written-plan_of pks j, bytes_beq_iff v.pk j, bytes_beq_iff pk j))
    ]
  ]

  pub plan_of-IsPlan : (pks : List Pk) → IsDistinct pks → IsPlan branch at (plan_of f pks)
  unfolding plan_of
  plan_of-IsPlan [] d = tt
  plan_of-IsPlan (pk ∷ pks) d = elim (Option-cases (f pk)) [
    | inl skip ↦ rw (skip, plan_of) (plan_of-IsPlan pks d.1)
    | inr (v, new) ↦
        let fields = plans pk v new in
        rw (new, plan_of)
          (
            fields.0,
            fields.1,
            fields.2,
            fields.3,
            written-plan_of pks v.pk ∙ rw (fields.4, d.0) refl,
            plan_of-IsPlan pks d.1,
          )
  ]

insert-IsDistinct :
    (less : Pk → Pk → Bool) (pk : Pk) (pks : List Pk)
    → contains pk pks ≡ false
    → IsDistinct pks
    → IsDistinct (insert less pk pks)
unfolding insert contains
insert-IsDistinct less pk [] h d = (refl, tt)
insert-IsDistinct less pk (q ∷ pks) h d = elim (Bool-cases (less pk q)) [
  | inl before ↦ rw before (h, d)
  | inr after ↦ rw after (
    ground (arith, contains-insert less q pk pks, d.0, bytes_beq_iff q pk, bytes_beq_iff pk q),
    insert-IsDistinct less pk pks (ground arith) d.1,
  )
]

pub sort-IsDistinct :
    (less : Pk → Pk → Bool) (pks : List Pk) → IsDistinct pks → IsDistinct (insertion_sort less pks)
unfolding insertion_sort
sort-IsDistinct less [] d = tt
sort-IsDistinct less (pk ∷ pks) d =
    insert-IsDistinct less pk (insertion_sort less pks) (contains-insertion_sort less pk pks ∙ d.0)
      (sort-IsDistinct less pks d.1)

pub append-IsDistinct :
    (xs ys : List Pk)
    → IsDistinct xs
    → IsDistinct ys
    → ((j : Pk) → contains j xs ≡ true → contains j ys ≡ false)
    → IsDistinct (xs ++ ys)
unfolding contains
append-IsDistinct [] ys dx dy h = dy
append-IsDistinct (x ∷ xs) ys dx dy h = (
  ground (arith, contains-append x xs ys, h x, bytes_beq_iff x x),
  append-IsDistinct xs ys dx.1 dy (λ j k. h j (ground arith)),
)

contains-keys_live : (t : Table) (j : Pk) → contains j (keys t) ≡ is_live (lookup j t)
unfolding contains keys lookup
contains-keys_live [] j = refl
contains-keys_live ((pk, r) ∷ t) j = ground (arith, contains-keys_live t j)

pub contains-table_keys : (t : Table) (j : Pk) → contains j (table_keys t) ≡ is_live (lookup j t)
unfolding table_keys
contains-table_keys t j = contains-insertion_sort bytes_ltb j (keys t) ∙ contains-keys_live t j

keys-IsDistinct : (t : Table) → IsMap t → IsDistinct (keys t)
unfolding keys
keys-IsDistinct [] h = tt
keys-IsDistinct ((pk, r) ∷ t) h = (contains-keys_live t pk ∙ ap is_live h.0, keys-IsDistinct t h.1)

pub table_keys-IsDistinct : (t : Table) → IsMap t → IsDistinct (table_keys t)
unfolding table_keys
table_keys-IsDistinct t h = sort-IsDistinct bytes_ltb (keys t) (keys-IsDistinct t h)
