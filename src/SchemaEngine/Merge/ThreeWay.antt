-- ===== src/SchemaEngine/Merge/ThreeWay.antt =====
-- `Merge` of internal/schemaeng/schema.go against the three-way rule on each column.
use datagit.Prelude.{
  ◌≡◌, ◌∙◌, refl, inl, inr, Bool, true, false, not, ◌&&◌, ◌||◌, Option, none, some, List, [], ◌∷◌,
  ◌++◌, nat_beq, nat_beq_iff, nat_eq, or_else, Bool-cases, if◌then◌else◌, arith,
}
use datagit.Maps.{lookup, lookup-put}
use datagit.Core.Mask.{ColId}
use datagit.SchemaEngine.{Column, find_column, column, same_column, agrees}
use datagit.SchemaEngine.Merge.{
  SchemaConflict, MergeOutcome, Verdict, keep, clash, gone, nothing, in_both, in_one, altered_apart,
  dropped_altered, merge_column, record_verdict,
}

-- The three-way rule: what both sides hold, else the side that differs from the base, else a conflict,
-- which is `none`.
abbrev pub three_way : Option Column → Option Column → Option Column → Option (Option Column)
three_way b a t =
    if agrees a t
    then some a
    else if agrees a b
    then some t
    else if agrees t b
    then some a
    else none

abbrev pub outcome : Verdict → Option (Option Column)
outcome (keep c) = some (some c)
outcome (clash x) = none
outcome gone = some none
outcome nothing = some none

pub merge_column-three_way :
    (id : ColId) (b a t : Option Column) → outcome (merge_column id b a t) ≡ three_way b a t
unfolding merge_column
merge_column-three_way id none (some a) (some t) = ground arith
merge_column-three_way id (some b) (some a) (some t) = ground arith
merge_column-three_way id none (some a) none = refl
merge_column-three_way id (some b) (some a) none = ground arith
merge_column-three_way id none none (some t) = refl
merge_column-three_way id (some b) none (some t) = ground arith
merge_column-three_way id (some b) none none = refl
merge_column-three_way id none none none = refl

-- A column that was found stands under the id.
abbrev pub IsNamed : ColId → Option Column → Type 0
IsNamed id none = Unit
IsNamed id (some c) = c.id ≡ id

pub find_column-IsNamed : (id : ColId) (cs : List Column) → IsNamed id (find_column id cs)
unfolding find_column
find_column-IsNamed id [] = tt
find_column-IsNamed id (c ∷ cs) = elim (Bool-cases (nat_beq c.id id)) [
  | inl here ↦ rw here ((nat_beq_iff c.id id).0 here)
  | inr later ↦ rw later (find_column-IsNamed id cs)
]

abbrev pub IsAbout : ColId → Verdict → Type 0
IsAbout id (keep c) = c.id ≡ id
IsAbout id (clash x) = x.col ≡ id
IsAbout id gone = Unit
IsAbout id nothing = Unit

if-IsAbout :
    (id : ColId) (test : Bool) (v w : Verdict)
    → IsAbout id v
    → IsAbout id w
    → IsAbout id (if test then v else w)
if-IsAbout id true v w hv hw = hv
if-IsAbout id false v w hv hw = hw

in_both-IsAbout :
    (id : ColId) (b : Option Column) (a t : Column)
    → a.id ≡ id
    → t.id ≡ id
    → IsAbout id (in_both id b a t)
unfolding in_both
in_both-IsAbout id none a t ha ht =
    if-IsAbout id (same_column a t) (keep a) (clash (altered_apart id false a t)) ha refl
in_both-IsAbout id (some b) a t ha ht =
    let apart = clash (altered_apart id true a t) in
    let third = if same_column t b then keep a else apart in
    let second = if same_column a b then keep t else third in
    if-IsAbout id (same_column a t) (keep a) second ha (
      if-IsAbout id (same_column a b) (keep t) third ht
        (if-IsAbout id (same_column t b) (keep a) apart ha refl))

in_one-IsAbout :
    (id : ColId) (b : Option Column) (a : Column) → a.id ≡ id → IsAbout id (in_one id b a)
unfolding in_one
in_one-IsAbout id none a ha = ha
in_one-IsAbout id (some b) a ha =
    if-IsAbout id (not (same_column a b)) (clash (dropped_altered id a)) gone refl tt

pub merge_column-IsAbout :
    (id : ColId) (b a t : Option Column)
    → IsNamed id a
    → IsNamed id t
    → IsAbout id (merge_column id b a t)
unfolding merge_column
merge_column-IsAbout id b (some a) (some t) ha ht = in_both-IsAbout id b a t ha ht
merge_column-IsAbout id b (some a) none ha ht = in_one-IsAbout id b a ha
merge_column-IsAbout id b none (some t) ha ht = in_one-IsAbout id b t ht
merge_column-IsAbout id (some b) none none ha ht = tt
merge_column-IsAbout id none none none ha ht = tt

-- What a loop that has gone through `ids` holds of column `j`: what it held before, or else what the
-- verdict on it says if it is among them.
abbrev pub kept : Verdict → Option Column
kept (keep c) = some c
kept _ = none

abbrev pub clashes : Verdict → Bool
clashes (clash x) = true
clashes _ = false

abbrev pub goes : Verdict → Bool
goes gone = true
goes _ = false

-- The column that a decision leaves, whether there is a conflict, and whether the decision is that no
-- column is left.
abbrev pub merged : Option (Option Column) → Option Column
merged none = none
merged (some o) = o

abbrev pub is_conflict : Option (Option Column) → Bool
is_conflict none = true
is_conflict (some o) = false

abbrev pub is_removal : Option (Option Column) → Bool
is_removal (some none) = true
is_removal _ = false

abbrev pub is_some : Option Column → Bool
is_some none = false
is_some (some c) = true

pub kept-outcome : (v : Verdict) → kept v ≡ merged (outcome v)
kept-outcome (keep c) = refl
kept-outcome (clash x) = refl
kept-outcome gone = refl
kept-outcome nothing = refl

pub clashes-outcome : (v : Verdict) → clashes v ≡ is_conflict (outcome v)
clashes-outcome (keep c) = refl
clashes-outcome (clash x) = refl
clashes-outcome gone = refl
clashes-outcome nothing = refl

pub goes-outcome :
    (id : ColId) (b a t : Option Column)
    → goes (merge_column id b a t) ≡ (is_removal (outcome (merge_column id b a t)) && is_some b)
unfolding merge_column
goes-outcome id none (some a) (some t) = elim (Bool-cases (same_column a t)) [
  | inl same ↦ rw same refl
  | inr differ ↦ rw differ refl
]
goes-outcome id (some b) (some a) (some t) = elim (Bool-cases (same_column a t)) [
  | inl same ↦ rw same refl
  | inr differ ↦ elim (Bool-cases (same_column a b)) [
    | inl same ↦ rw differ (rw same refl)
    | inr other ↦ elim (Bool-cases (same_column t b)) [
      | inl same ↦ rw differ (rw other (rw same refl))
      | inr third ↦ rw differ (rw other (rw third refl))
    ]
  ]
]
goes-outcome id none (some a) none = refl
goes-outcome id (some b) (some a) none = elim (Bool-cases (same_column a b)) [
  | inl same ↦ rw same refl
  | inr differ ↦ rw differ refl
]
goes-outcome id none none (some t) = refl
goes-outcome id (some b) none (some t) = elim (Bool-cases (same_column t b)) [
  | inl same ↦ rw same refl
  | inr differ ↦ rw differ refl
]
goes-outcome id (some b) none none = refl
goes-outcome id none none none = refl

unfoldable pub has_conflict : ColId → List SchemaConflict → Bool
has_conflict j [] = false
has_conflict j (x ∷ xs) = nat_beq x.col j || has_conflict j xs

find_column-append :
    (j : ColId) (cs ds : List Column)
    → find_column j (cs ++ ds) ≡ or_else (find_column j cs) (find_column j ds)
unfolding find_column
find_column-append j [] ds = refl
find_column-append j (c ∷ cs) ds = ground (arith, find_column-append j cs ds)

has_conflict-append :
    (j : ColId) (xs ys : List SchemaConflict)
    → has_conflict j (xs ++ ys) ≡ (has_conflict j xs || has_conflict j ys)
unfolding has_conflict
has_conflict-append j [] ys = refl
has_conflict-append j (x ∷ xs) ys = ground (arith, has_conflict-append j xs ys)

module _ (j : ColId) (id : ColId) where
  pub column-record_verdict :
      (v : Verdict) (out : MergeOutcome)
      → IsAbout id v
      → column (record_verdict id v out).result j
        ≡ or_else (column out.result j) (if nat_beq id j then kept v else none)
  unfolding column record_verdict find_column
  column-record_verdict (keep c) out h =
      find_column-append j out.result.columns (c ∷ []) ∙ rw h refl
  column-record_verdict (clash x) out h = ground arith
  column-record_verdict gone out h = ground arith
  column-record_verdict nothing out h = ground arith

  pub conflict-record_verdict :
      (v : Verdict) (out : MergeOutcome)
      → IsAbout id v
      → has_conflict j (record_verdict id v out).conflicts
        ≡ (has_conflict j out.conflicts || (nat_beq id j && clashes v))
  unfolding record_verdict has_conflict
  conflict-record_verdict (keep c) out h = ground arith
  conflict-record_verdict (clash x) out h =
      has_conflict-append j out.conflicts (x ∷ []) ∙ rw h (ground arith)
  conflict-record_verdict gone out h = ground arith
  conflict-record_verdict nothing out h = ground arith

  pub dropped-record_verdict :
      (v : Verdict) (out : MergeOutcome)
      → lookup j (record_verdict id v out).result.dropped
        ≡ (if nat_beq id j && goes v then some 0 else lookup j out.result.dropped)
  unfolding record_verdict
  dropped-record_verdict (keep c) out = ground arith
  dropped-record_verdict (clash x) out = ground arith
  dropped-record_verdict gone out = ground (arith, lookup-put j id 0 out.result.dropped)
  dropped-record_verdict nothing out = ground arith
