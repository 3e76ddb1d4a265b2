-- ===== src/Merge/Columns.antt =====
-- The cells of one row in the merges of internal/engine/engine.go and internal/model/model.go: where
-- the masks have every column that changed, the two agree.
use datagit.Prelude.{
  ℕ, ◌≡◌, ◌⊎◌, ◌∙◌, refl, ap, sym, true, false, Option, none, some, List, [], ◌∷◌, if◌then◌else◌,
  contains, nat_eq, arith, Bool-cases, inl, inr, Option-cases, or_else, bytes_eq,
}
use datagit.Maps.{Map, lookup, lookup-nil}
use datagit.Core.Mask.{ColId, ColMask, has, union_cols}
use datagit.Core.Mask.Laws.{contains-union_cols}
use datagit.Core.Value.{Value, null}
use datagit.Core.Value as Value
use datagit.Core.Value.Laws as ValueLaws
use datagit.Core.Row.{Row, get, for_all, mask_of}
use datagit.Core.Row.Laws.{contains-for_all, has-mask_of}
use datagit.Core.Key.{Pk}
use datagit.Core.Change.{Table, Conflict}
use datagit.Merge.{Outcome, resolved, conflicted}
use datagit.Merge.Cells.{
  merge_cell, Cells, loop_cells, decide, merge_cells, untouched, narrow_cells,
}
use datagit.Merge.Agree.{
  reported, is_empty, cell_at, is_clean, cleanness, lookup-loop_cells, is_empty-loop_cells,
  reported-loop_cells, lookup-untouched, for_all_member,
}

-- Identical or `Equal`: a NaN is identical to itself only.
abbrev pub SameCell : Value → Value → Type 0
SameCell v w = (v ≡ w) ⊎ (Value.equal v w ≡ true)

-- Both present, with the same cell in each column, or both absent.
abbrev pub SameEntry : Option Row → Option Row → Type 0
SameEntry none none = Unit
SameEntry (some r) (some s) = (c : ColId) → SameCell (get r c) (get s c)
SameEntry _ _ = true ≡ false

-- Conflicts at the same keys, of the same kinds and at the same columns.
abbrev pub SameConflicts : List Conflict → List Conflict → Type 0
SameConflicts ks ls =
    (is_empty ks ≡ is_empty ls)
    × ((q : Pk) (n : ℕ) (c : ColId) → reported q n c ks ≡ reported q n c ls)

abbrev pub SameMerge : Table × List Conflict → Table × List Conflict → Type 0
SameMerge (t, ks) (u, ls) = ((q : Pk) → SameEntry (lookup q t) (lookup q u)) × SameConflicts ks ls

abbrev pub SameOutcome : Outcome → Outcome → Type 0
SameOutcome (resolved r) (resolved s) = SameEntry r s
SameOutcome (conflicted ks) (conflicted ls) = SameConflicts ks ls
SameOutcome _ _ = true ≡ false

pub SameEntry-refl : (r : Option Row) → SameEntry r r
SameEntry-refl none = tt
SameEntry-refl (some r) = λ c. inl refl

pub SameOutcome-refl : (o : Outcome) → SameOutcome o o
SameOutcome-refl (resolved r) = SameEntry-refl r
SameOutcome-refl (conflicted ks) = (refl, λ q n c. refl)

-- The mask has the column where the two rows' values differ, and only columns of the schema.
abbrev pub Covers : List ColId → ColMask → Row → Row → Type 0
Covers cols m b a =
    ((c : ColId)
      → contains c cols ≡ true
      → Value.equal (get a c) (get b c) ≡ false
      → has m c ≡ true)
    × ((c : ColId) → has m c ≡ true → contains c cols ≡ true)

abbrev value_or_null : Option Value → Value
value_or_null none = null
value_or_null (some v) = v

module _ (cols : List ColId) (mo mt : ColMask) (pk : Pk) (b a t : Row)
    (covers_o : Covers cols mo b a) (covers_t : Covers cols mt b t) where
  candidate_within : (c : ColId) → contains c (union_cols mo mt) ≡ true → contains c cols ≡ true
  candidate_within c h = elim (Bool-cases (has mo c)) [
    | inl o ↦ covers_o.1 c o
    | inr o ↦ covers_t.1 c (ground (arith, contains-union_cols mo mt c))
  ]

  -- A column of the schema outside the masks has the base's value on both sides.
  outside :
      (c : ColId)
      → contains c cols ≡ true
      → contains c (union_cols mo mt) ≡ false
      → (Value.equal (get a c) (get b c) ≡ true) × (Value.equal (get t c) (get b c) ≡ true)
  outside c h k = ground (arith, contains-union_cols mo mt c, covers_o.0 c h, covers_t.0 c h)

  outside-cell_at :
      (c : ColId)
      → contains c cols ≡ true
      → contains c (union_cols mo mt) ≡ false
      → cell_at pk b a t c ≡ some (get t c)
  unfolding merge_cell
  outside-cell_at c h k = rw ((outside c h k).0) refl

  clean_outside :
      (c : ColId)
      → contains c cols ≡ true
      → contains c (union_cols mo mt) ≡ false
      → is_clean pk b a t c ≡ true
  clean_outside c h k = ap cleanness (outside-cell_at c h k)

  clean_same : for_all (is_clean pk b a t) cols ≡ for_all (is_clean pk b a t) (union_cols mo mt)
  clean_same =
      let fewer : for_all (is_clean pk b a t) cols ≡ true
          → for_all (is_clean pk b a t) (union_cols mo mt) ≡ true =
        λ h.
          for_all_member (is_clean pk b a t) (union_cols mo mt)
            (λ c k. contains-for_all (is_clean pk b a t) cols h c (candidate_within c k)) in
      let more : for_all (is_clean pk b a t) (union_cols mo mt) ≡ true
          → for_all (is_clean pk b a t) cols ≡ true =
        λ h. for_all_member (is_clean pk b a t) cols (λ c k.
          elim (Bool-cases (contains c (union_cols mo mt))) [
            | inl candidate ↦ contains-for_all (is_clean pk b a t) (union_cols mo mt) h c candidate
            | inr other ↦ clean_outside c k other
          ]) in
      ground (arith, fewer, more)

  abbrev all_cells : Cells
  all_cells = loop_cells pk b a t cols ([], [])

  abbrev narrow : Cells
  narrow = loop_cells pk b a t (union_cols mo mt) (untouched (union_cols mo mt) b cols [], [])

  lookup-narrow :
      (c : ColId)
      → lookup c narrow.0 ≡ (
          if contains c (union_cols mo mt)
          then or_else (cell_at pk b a t c) (lookup c (untouched (union_cols mo mt) b cols []))
          else if contains c cols
          then some (get b c)
          else none)
  lookup-narrow c =
      lookup-loop_cells pk b a t (union_cols mo mt) (untouched (union_cols mo mt) b cols []) [] c
      ∙ ground (arith, lookup-untouched (union_cols mo mt) b cols [] c, lookup-nil {V = Value} c)

  lookup-all_cells :
      (c : ColId)
      → lookup c all_cells.0 ≡ (if contains c cols then or_else (cell_at pk b a t c) none else none)
  lookup-all_cells c =
      lookup-loop_cells pk b a t cols [] [] c ∙ ground (arith, lookup-nil {V = Value} c)

  cell_same :
      for_all (is_clean pk b a t) cols ≡ true
      → (c : ColId)
      → SameCell (value_or_null (lookup c narrow.0)) (value_or_null (lookup c all_cells.0))
  cell_same clean c = elim (Bool-cases (contains c cols)) [
    | inl column ↦ elim (Bool-cases (contains c (union_cols mo mt))) [
      | inl candidate ↦
          let sure : is_clean pk b a t c ≡ true =
            contains-for_all (is_clean pk b a t) cols clean c column in
          elim (Option-cases (cell_at pk b a t c)) [
            | inl clash ↦ absurd (ground (arith, ap cleanness clash))
            | inr (v, found) ↦
                let mine : lookup c narrow.0 ≡ some v = ground (arith, lookup-narrow c) in
                let full : lookup c all_cells.0 ≡ some v = ground (arith, lookup-all_cells c) in
                inl (ap value_or_null (mine ∙ sym full))
          ]
      | inr other ↦
          rw (lookup-narrow c, lookup-all_cells c, column, other, outside-cell_at c column other)
            (inr (ValueLaws.equal_symm (get b c) (get t c) ∙ (outside c column other).1))
    ]
    | inr absent ↦
        let other : contains c (union_cols mo mt) ≡ false = ground (arith, candidate_within c) in
        rw (lookup-narrow c, lookup-all_cells c, absent, other) (inl refl)
  ]

  reported_same :
      (q : Pk) (n : ℕ) (c : ColId) → reported q n c narrow.1 ≡ reported q n c all_cells.1
  reported_same q n c =
      reported-loop_cells pk b a t (union_cols mo mt) (untouched (union_cols mo mt) b cols []) [] q
        n c
      ∙ elim (Bool-cases (contains c cols)) [
        | inl column ↦ elim (Bool-cases (contains c (union_cols mo mt))) [
          | inl candidate ↦ ground (arith, reported-loop_cells pk b a t cols [] [] q n c)
          | inr other ↦
              ground
                (arith, reported-loop_cells pk b a t cols [] [] q n c, clean_outside c column other)
        ]
        | inr absent ↦
            ground (arith, reported-loop_cells pk b a t cols [] [] q n c, candidate_within c)
      ]

get-some : (m : Map ColId Value) (c : ColId) → get (some m) c ≡ value_or_null (lookup c m)
unfolding get
get-some m c = elim (Option-cases (lookup c m)) [
  | inl e ↦ rw (e, get) refl
  | inr (v, e) ↦ rw (e, get) refl
]

decide-Same :
    (xs ys : Cells)
    → is_empty xs.1 ≡ is_empty ys.1
    → (is_empty ys.1 ≡ true → (c : ColId) → SameCell (get (some xs.0) c) (get (some ys.0) c))
    → ((q : Pk) (n : ℕ) (c : ColId) → reported q n c xs.1 ≡ reported q n c ys.1)
    → SameOutcome (decide xs) (decide ys)
unfolding decide
decide-Same (m, []) (n, []) e h r = h refl
decide-Same (m, (k ∷ ks)) (n, (l ∷ ls)) e h r = (refl, r)
decide-Same (m, []) (n, (l ∷ ls)) e h r = absurd (ground (arith, e))
decide-Same (m, (k ∷ ks)) (n, []) e h r = absurd (ground (arith, e))

-- Merging the masks' columns agrees with merging every column.
pub narrow_cells-Same :
    (cols : List ColId) (mo mt : ColMask) (pk : Pk) (b a t : Row)
    → Covers cols mo b a
    → Covers cols mt b t
    → SameOutcome (narrow_cells cols mo mt pk b a t) (merge_cells cols pk b a t)
unfolding narrow_cells merge_cells
narrow_cells-Same cols mo mt pk b a t co ct =
    decide-Same (narrow cols mo mt pk b a t co ct) (all_cells cols mo mt pk b a t co ct)
      (is_empty-loop_cells pk b a t (union_cols mo mt) (untouched (union_cols mo mt) b cols []) []
        ∙ sym (clean_same cols mo mt pk b a t co ct)
        ∙ sym (is_empty-loop_cells pk b a t cols [] []))
      (λ empty c.
        let clean : for_all (is_clean pk b a t) cols ≡ true =
          sym (is_empty-loop_cells pk b a t cols [] []) ∙ empty in
        rw
          (
            get-some (narrow cols mo mt pk b a t co ct).0 c,
            get-some (all_cells cols mo mt pk b a t co ct).0 c,
          )
          (cell_same cols mo mt pk b a t co ct clean c))
      (reported_same cols mo mt pk b a t co ct)

-- The mask that `MaskOf` records covers what it was computed from.
pub mask_of-Covers : (cols : List ColId) (b a : Row) → Covers cols (mask_of b a cols) b a
mask_of-Covers cols b a = (
  (λ c h differ. ground (arith, has-mask_of b a cols c, ValueLaws.equal_symm (get a c) (get b c))),
  (λ c h. ground (arith, has-mask_of b a cols c)),
)
