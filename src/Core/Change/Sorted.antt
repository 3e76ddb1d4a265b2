-- ===== src/Core/Change/Sorted.antt =====
-- `Sorted` of internal/core/change.go has the changes of its map, one for each key.
use datagit.Prelude.{
  ◌≡◌, ◌∙◌, refl, Bool, Option, none, some, List, [], ◌∷◌, bytes_beq, bytes_beq_iff, bytes_ltb,
  bytes_eq, insertion_sort, insert, if◌then◌else◌, arith,
}
use datagit.Maps.{lookup, IsMap}
use datagit.Maps.Collect.{values}
use datagit.Core.Key.{Pk}
use datagit.Core.Change.{Change, ChangeSet, sorted}

-- The change of a key in a list.
unfoldable pub find_change : Pk → List Change → Option Change
find_change j [] = none
find_change j (ch ∷ chs) =
    let rest = find_change j chs in if bytes_beq ch.pk j then some ch else rest

-- No key has two changes.
abbrev pub IsDistinct : List Change → Type 0
IsDistinct [] = Unit
IsDistinct (ch ∷ chs) = (find_change ch.pk chs ≡ none) × IsDistinct chs

-- Every change stands under its own key, and no key twice: what the builders of a change set give.
abbrev pub Named : ChangeSet → Type 0
Named [] = Unit
Named ((k, ch) ∷ cs) = (ch.pk ≡ k) × Named cs

abbrev pub IsKeyed : ChangeSet → Type 0
IsKeyed cs = Named cs × IsMap cs

module _ (less : Change → Change → Bool) where
  find-cons :
      (j : Pk) (x : Change) (a b : List Change)
      → find_change j a ≡ find_change j b
      → find_change j (x ∷ a) ≡ find_change j (x ∷ b)
  unfolding find_change
  find-cons j x a b h = rw h

  find-insert :
      (j : Pk) (x : Change) (chs : List Change)
      → find_change x.pk chs ≡ none
      → find_change j (insert less x chs) ≡ find_change j (x ∷ chs)
  unfolding find_change insert
  find-insert j x [] h = refl
  find-insert j x (y ∷ chs) h = ground (
    arith,
    find-insert j x chs,
    bytes_beq_iff x.pk j,
    bytes_beq_iff y.pk j,
    bytes_beq_iff y.pk x.pk,
  )

  insert-IsDistinct :
      (x : Change) (chs : List Change)
      → find_change x.pk chs ≡ none
      → IsDistinct chs
      → IsDistinct (insert less x chs)
  unfolding find_change insert
  insert-IsDistinct x [] h d = ground arith
  insert-IsDistinct x (y ∷ chs) h d = ground (
    arith,
    insert-IsDistinct x chs,
    find-insert y.pk x chs,
    bytes_beq_iff x.pk y.pk,
    bytes_beq_iff y.pk x.pk,
  )

  find-insertion_sort :
      (j : Pk) (chs : List Change)
      → IsDistinct chs
      → (find_change j (insertion_sort less chs) ≡ find_change j chs)
        × IsDistinct (insertion_sort less chs)
  unfolding insertion_sort
  find-insertion_sort j [] d = (refl, tt)
  find-insertion_sort j (x ∷ chs) d =
      let own = find-insertion_sort x.pk chs d.1 in
      let ih = find-insertion_sort j chs d.1 in
      let absent : find_change x.pk (insertion_sort less chs) ≡ none = own.0 ∙ d.0 in
      (
        find-insert j x (insertion_sort less chs) absent ∙ find-cons j x _ _ ih.0,
        insert-IsDistinct x (insertion_sort less chs) absent own.1,
      )

find-values : (j : Pk) (cs : ChangeSet) → Named cs → find_change j (values cs) ≡ lookup j cs
unfolding find_change values lookup
find-values j [] h = refl
find-values j ((k, ch) ∷ cs) h = ground (arith, find-values j cs h.1)

values-IsDistinct : (cs : ChangeSet) → Named cs → IsMap cs → IsDistinct (values cs)
unfolding values
values-IsDistinct [] h m = tt
values-IsDistinct ((k, ch) ∷ cs) h m =
    (find-values ch.pk cs h.1 ∙ rw h.0 m.0, values-IsDistinct cs h.1 m.1)

pub sorted-IsDistinct : (cs : ChangeSet) → IsKeyed cs → IsDistinct (sorted cs)
unfolding sorted
sorted-IsDistinct cs h =
    (find-insertion_sort (λ a b. bytes_ltb a.pk b.pk) [] (values cs)
      (values-IsDistinct cs h.0 h.1)).1

-- Sorting loses no change and invents none.
pub find-sorted : (j : Pk) (cs : ChangeSet) → IsKeyed cs → find_change j (sorted cs) ≡ lookup j cs
unfolding sorted
find-sorted j cs h =
    (find-insertion_sort (λ a b. bytes_ltb a.pk b.pk) j (values cs)
      (values-IsDistinct cs h.0 h.1)).0
    ∙ find-values j cs h.0
