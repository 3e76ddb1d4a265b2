-- ===== src/Core/Row/Laws.antt =====
-- `Equal` and `MaskOf` by the columns' values.
use datagit.Prelude.{
  ◌≡◌, ◌↔◌, ◌∙◌, refl, Bool, true, false, not, ◌&&◌, ◌||◌, none, some, List, [], ◌∷◌, ltb, contains,
  if◌then◌else◌, nat_eq, nat_beq_iff, arith, contains-insertion_sort, Bool-cases, inl, inr, nat_beq,
}
use datagit.Maps.Collect.{keys, lookup-none}
use datagit.Core.Mask.{ColId, ColMask, has}
use datagit.Core.Mask as Mask
use datagit.Core.Mask.Laws.{has-set}
use datagit.Core.Value.{Value, null}
use datagit.Core.Value as Value
use datagit.Core.Value.Laws.{equal_symm}
use datagit.Core.Row.{Row, cols, get, is_nil, for_all, equal, mask_loop, mask_of}

pub contains-for_all :
    (p : ColId → Bool) (cs : List ColId)
    → for_all p cs ≡ true
    → (c : ColId) → contains c cs ≡ true
    → p c ≡ true
unfolding for_all contains
contains-for_all p [] h c k = cc
contains-for_all p (d ∷ cs) h c k = elim (Bool-cases (nat_beq d c)) [
  | inl same ↦ rw (← ((nat_beq_iff d c).0 same)) (ground arith)
  | inr other ↦ contains-for_all p cs (ground arith) c (ground arith)
]

for_all_intro :
    (p : ColId → Bool) (cs : List ColId) → ((c : ColId) → p c ≡ true) → for_all p cs ≡ true
unfolding for_all
for_all_intro p [] h = refl
for_all_intro p (c ∷ cs) h = ground (arith, h c, for_all_intro p cs h)

null_null : Value.equal null null ≡ true
unfolding Value.equal
null_null = refl

-- A column that the row does not hold reads NULL.
get_absent : (r : Row) (c : ColId) → contains c (cols r) ≡ false → get r c ≡ null
unfolding get cols contains
get_absent none c h = refl
get_absent (some m) c h =
    rw (lookup-none c m (rw (contains-insertion_sort ltb c (keys m)) at h), get)

is_nil-equal : (r o : Row) → equal r o ≡ true → is_nil r ≡ is_nil o
unfolding equal
is_nil-equal none none h = refl
is_nil-equal none (some b) h = cc
is_nil-equal (some a) none h = cc
is_nil-equal (some a) (some b) h = refl

equal_loops :
    (r o : Row)
    → equal r o ≡ true
    → (for_all (λ c. Value.equal (get r c) (get o c)) (cols r) ≡ true)
      × (for_all (λ c. contains c (cols r) || Value.equal (get o c) (get r c)) (cols o) ≡ true)
unfolding equal
equal_loops r o h = ground arith

equal_columns :
    (r o : Row) → equal r o ≡ true → (c : ColId) → Value.equal (get r c) (get o c) ≡ true
equal_columns r o h c = elim (Bool-cases (contains c (cols r))) [
  | inl held ↦
      contains-for_all (λ c. Value.equal (get r c) (get o c)) (cols r) (equal_loops r o h).0 c held
  | inr absent ↦ elim (Bool-cases (contains c (cols o))) [
    | inl held ↦ ground (
      arith,
      equal_symm (get r c) (get o c),
      contains-for_all (λ c. contains c (cols r) || Value.equal (get o c) (get r c)) (cols o)
          (equal_loops r o h).1 c held,
    )
    | inr missing ↦ rw (get_absent r c absent, get_absent o c missing) null_null
  ]
]

equal_intro :
    (r o : Row)
    → is_nil r ≡ is_nil o
    → ((c : ColId) → Value.equal (get r c) (get o c) ≡ true)
    → equal r o ≡ true
unfolding equal
equal_intro r o n h =
    let first : for_all (λ c. Value.equal (get r c) (get o c)) (cols r) ≡ true =
      for_all_intro _ (cols r) h in
    let second : for_all (λ c. contains c (cols r) || Value.equal (get o c) (get r c)) (cols o)
        ≡ true =
      for_all_intro _ (cols o) (λ c. ground (arith, equal_symm (get r c) (get o c), h c)) in
    ground arith

-- Two rows are `Equal` exactly when both or none is nil and each column has `Equal` values, where an
-- absent column has NULL.
pub equal_iff :
    (r o : Row)
    → (equal r o ≡ true)
      ↔ ((is_nil r ≡ is_nil o) × ((c : ColId) → Value.equal (get r c) (get o c) ≡ true))
equal_iff r o = ((λ h. (is_nil-equal r o h, equal_columns r o h)), (λ h. equal_intro r o h.0 h.1))

has-mask_loop :
    (before after : Row) (m : ColMask) (cs : List ColId) (c : ColId)
    → has (mask_loop before after m cs) c
      ≡ (has m c || (contains c cs && not (Value.equal (get before c) (get after c))))
unfolding mask_loop contains
has-mask_loop before after m [] c = ground arith
has-mask_loop before after m (d ∷ cs) c =
    has-mask_loop before after
      (if Value.equal (get before d) (get after d) then m else Mask.set m d) cs c
    ∙ elim (Bool-cases (nat_beq d c)) [
      | inl same ↦ rw ((nat_beq_iff d c).0 same) (ground (arith, has-set m c c))
      | inr other ↦ ground (arith, has-set m d c)
    ]

-- `MaskOf` has exactly the listed columns whose values differ.
pub has-mask_of :
    (before after : Row) (cs : List ColId) (c : ColId)
    → has (mask_of before after cs) c
      ≡ (contains c cs && not (Value.equal (get before c) (get after c)))
unfolding mask_of has
has-mask_of before after cs c = has-mask_loop before after [] cs c
