-- ===== src/Core/Row.antt =====
-- `Row` of internal/core/value.go: a map from column ids to values, or nil. `Clone` leaves no trace
-- here, since values are not mutated.
pub mod Laws
pub mod Bounds
use datagit.Prelude.{
  ℕ, Bool, true, false, not, ◌&&◌, ◌||◌, Option, none, some, List, [], ◌∷◌, ltb, contains,
  insertion_sort, if◌then◌else◌, nat_eq,
}
use datagit.Maps.{Map, lookup}
use datagit.Maps.Collect.{keys}
use datagit.Core.Mask.{ColId, ColMask}
use datagit.Core.Mask as Mask
use datagit.Core.Value.{Value, null}
use datagit.Core.Value as Value

abbrev pub Row : Type 0
Row = Option (Map ColId Value)

-- `Cols`: ranging over a nil map does nothing.
unfoldable pub cols : Row → List ColId
cols none = []
cols (some m) = insertion_sort ltb (keys m)

-- `Get`: NULL for an absent column.
unfoldable pub get : Row → ColId → Value
get none c = null
get (some m) c = elim (lookup c m) [ none ↦ null | some v ↦ v ]

abbrev pub is_nil : Row → Bool
is_nil none = true
is_nil (some m) = false

-- A loop that returns false at the first element without the property.
unfoldable pub for_all : (ColId → Bool) → List ColId → Bool
for_all p [] = true
for_all p (c ∷ cs) = p c && for_all p cs

-- `Equal`: the columns of `r`, then those of `o` that were not seen.
unfoldable pub equal : Row → Row → Bool
unfolding for_all
equal r o =
    if (if is_nil r then not (is_nil o) else is_nil o)
    then false
    else for_all (λ c. Value.equal (get r c) (get o c)) (cols r)
      && for_all (λ c. contains c (cols r) || Value.equal (get o c) (get r c)) (cols o)

-- `MaskOf` of internal/core/mask.go.
mask_loop : Row → Row → ColMask → List ColId → ColMask
mask_loop before after m [] = m
mask_loop before after m (c ∷ cs) =
    mask_loop before after (if Value.equal (get before c) (get after c) then m else Mask.set m c) cs

unfoldable pub mask_of : Row → Row → List ColId → ColMask
unfolding mask_loop
mask_of before after cs = mask_loop before after [] cs
