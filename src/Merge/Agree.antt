-- ===== src/Merge/Agree.antt =====
-- Merging only the columns of the masks agrees with merging every column, where the masks have every
-- column that changed.
use datagit.Prelude.{
  ℕ, ◌≡◌, ◌∙◌, refl, ap, sym, Bool, true, false, not, ◌&&◌, ◌||◌, Option, none, some, List, [], ◌∷◌,
  ◌++◌, if◌then◌else◌, contains, nat_eq, nat_beq, nat_beq_iff, arith, Bool-cases, inl, inr,
  Option-cases, or_else, eq_self, bytes_beq,
}
use datagit.Maps.{Map, lookup, put, lookup-put}
use datagit.Core.Mask.{ColId}
use datagit.Core.Value.{Value}
use datagit.Core.Row.{Row, get, for_all}
use datagit.Core.Key.{Pk}
use datagit.Core.Change.{Conflict, kind_number, cell}
use datagit.Merge.Cells.{merge_cell, cell_conflict, Cells, step_cell, loop_cells, untouched}

pub for_all_member :
    (p : ColId → Bool) (cs : List ColId)
    → ((c : ColId) → contains c cs ≡ true → p c ≡ true)
    → for_all p cs ≡ true
unfolding for_all contains
for_all_member p [] h = refl
for_all_member p (d ∷ cs) h =
    let here : p d ≡ true = h d (rw (eq_self d)) in
    let rest : for_all p cs ≡ true = for_all_member p cs (λ c k. h c (ground arith)) in ground arith

-- A conflict of the key, the kind's number and the column is in the list.
abbrev pub reported : Pk → ℕ → ColId → List Conflict → Bool
reported q n c [] = false
reported q n c (k ∷ clashes) =
    (bytes_beq k.pk q && nat_beq (kind_number k.kind) n && nat_beq k.col c)
    || reported q n c clashes

pub reported-append :
    (q : Pk) (n : ℕ) (c : ColId) (xs ys : List Conflict)
    → reported q n c (xs ++ ys) ≡ (reported q n c xs || reported q n c ys)
reported-append q n c [] ys = refl
reported-append q n c (x ∷ xs) ys = ground (arith, reported-append q n c xs ys)

abbrev pub is_empty {ℓ} : {A : Type ℓ} → List A → Bool
is_empty [] = true
is_empty (x ∷ xs) = false

abbrev pub cleanness : Option Value → Bool
cleanness none = false
cleanness (some v) = true

module _ (pk : Pk) (b a t : Row) where
  abbrev pub cell_at : ColId → Option Value
  cell_at c = merge_cell (get b c) (get a c) (get t c)

  abbrev pub is_clean : ColId → Bool
  is_clean c = cleanness (cell_at c)

  step_clash :
      (d : ColId) (merged : Map ColId Value) (clashes : List Conflict)
      → cell_at d ≡ none
      → step_cell pk b a t d (merged, clashes)
        ≡ (merged, clashes ++ cell_conflict pk d (get b d) (get a d) (get t d) ∷ [])
  unfolding step_cell
  step_clash d merged clashes h = rw (h, step_cell)

  step_clean :
      (d : ColId) (merged : Map ColId Value) (clashes : List Conflict) (v : Value)
      → cell_at d ≡ some v
      → step_cell pk b a t d (merged, clashes) ≡ (put d v merged, clashes)
  unfolding step_cell
  step_clean d merged clashes v h = rw (h, step_cell)

  pub lookup-loop_cells :
      (cs : List ColId) (merged : Map ColId Value) (clashes : List Conflict) (c : ColId)
      → lookup c (loop_cells pk b a t cs (merged, clashes)).0
        ≡ (if contains c cs then or_else (cell_at c) (lookup c merged) else lookup c merged)
  unfolding loop_cells contains
  lookup-loop_cells [] merged clashes c = refl
  lookup-loop_cells (d ∷ cs) merged clashes c = elim (Option-cases (cell_at d)) [
    | inl clash ↦
        let k = cell_conflict pk d (get b d) (get a d) (get t d) in
        ap (λ (acc : Cells). lookup c (loop_cells pk b a t cs acc).0)
          (step_clash d merged clashes clash)
        ∙ lookup-loop_cells cs merged (clashes ++ k ∷ []) c
        ∙ ground (arith, nat_beq_iff d c)
    | inr (v, clean) ↦
        ap (λ (acc : Cells). lookup c (loop_cells pk b a t cs acc).0)
          (step_clean d merged clashes v clean)
        ∙ lookup-loop_cells cs (put d v merged) clashes c
        ∙ ground (arith, nat_beq_iff d c, lookup-put c d v merged)
  ]

  is_empty-append_one :
      (clashes : List Conflict) (k : Conflict) → is_empty (clashes ++ k ∷ []) ≡ false
  is_empty-append_one [] k = refl
  is_empty-append_one (x ∷ clashes) k = refl

  pub is_empty-loop_cells :
      (cs : List ColId) (merged : Map ColId Value) (clashes : List Conflict)
      → is_empty (loop_cells pk b a t cs (merged, clashes)).1
        ≡ (is_empty clashes && for_all is_clean cs)
  unfolding loop_cells for_all
  is_empty-loop_cells [] merged clashes = ground arith
  is_empty-loop_cells (d ∷ cs) merged clashes = elim (Option-cases (cell_at d)) [
    | inl clash ↦
        let k = cell_conflict pk d (get b d) (get a d) (get t d) in
        ap (λ (acc : Cells). is_empty (loop_cells pk b a t cs acc).1)
          (step_clash d merged clashes clash)
        ∙ is_empty-loop_cells cs merged (clashes ++ k ∷ [])
        ∙ ground (arith, is_empty-append_one clashes k)
    | inr (v, clean) ↦
        ap (λ (acc : Cells). is_empty (loop_cells pk b a t cs acc).1)
          (step_clean d merged clashes v clean)
        ∙ is_empty-loop_cells cs (put d v merged) clashes
        ∙ ground arith
  ]

  -- The conflicts of the columns.
  pub reported-loop_cells :
      (cs : List ColId) (merged : Map ColId Value) (clashes : List Conflict) (q : Pk) (n : ℕ)
      (c : ColId)
      → reported q n c (loop_cells pk b a t cs (merged, clashes)).1 ≡ (
          reported q n c clashes
          || (bytes_beq pk q
              && nat_beq (kind_number cell) n
              && (contains c cs && not (is_clean c))))
  unfolding loop_cells contains
  reported-loop_cells [] merged clashes q n c = ground arith
  reported-loop_cells (d ∷ cs) merged clashes q n c = elim (Option-cases (cell_at d)) [
    | inl clash ↦
        let k = cell_conflict pk d (get b d) (get a d) (get t d) in
        ap (λ (acc : Cells). reported q n c (loop_cells pk b a t cs acc).1)
          (step_clash d merged clashes clash)
        ∙ reported-loop_cells cs merged (clashes ++ k ∷ []) q n c
        ∙ elim (Bool-cases (nat_beq d c)) [
          | inl same ↦
              let hit : is_clean c ≡ false =
                ap is_clean (sym ((nat_beq_iff d c).0 same)) ∙ ap cleanness clash in
              ground (arith, reported-append q n c clashes (k ∷ []))
          | inr other ↦ ground (arith, reported-append q n c clashes (k ∷ []))
        ]
    | inr (v, clean) ↦
        ap (λ (acc : Cells). reported q n c (loop_cells pk b a t cs acc).1)
          (step_clean d merged clashes v clean)
        ∙ reported-loop_cells cs (put d v merged) clashes q n c
        ∙ elim (Bool-cases (nat_beq d c)) [
          | inl same ↦
              let hit : is_clean c ≡ true =
                ap is_clean (sym ((nat_beq_iff d c).0 same)) ∙ ap cleanness clean in
              ground arith
          | inr other ↦ ground arith
        ]
  ]

pub lookup-untouched :
    (candidates : List ColId) (b : Row) (cs : List ColId) (merged : Map ColId Value) (c : ColId)
    → lookup c (untouched candidates b cs merged)
      ≡ (if contains c cs && not (contains c candidates) then some (get b c) else lookup c merged)
unfolding untouched contains
lookup-untouched candidates b [] merged c = refl
lookup-untouched candidates b (d ∷ cs) merged c =
    lookup-untouched candidates b cs
      (if contains d candidates then merged else put d (get b d) merged) c
    ∙ ground (arith, nat_beq_iff d c, lookup-put c d (get b d) merged)
