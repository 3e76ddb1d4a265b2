-- ===== src/Engine/Ancestry/Bases.antt =====
-- `MergeBase` of internal/engine/engine.go gives the lowest common ancestors.
use datagit.Prelude.{
  ℕ, ◌≡◌, ◌↔◌, ◌∙◌, refl, sym, Bool, true, false, not, ◌&&◌, List, [], ◌∷◌, Bytes, bytes_eq,
  bytes_beq, bytes_beq_iff, bytes_ltb, arith, Bool-cases, inl, inr, contains,
  contains-insertion_sort,
}
use datagit.Maps.{Map, lookup}
use datagit.Maps.Collect.{keys}
use datagit.Engine.State.{CommitMeta}
use datagit.Engine.Ancestry.{
  is_seen, parents_of, is_reached, is_dominated, filter, lowest, common_ancestors, merge_base,
}
use datagit.Engine.Ancestry.Search.{Reaches}
use datagit.Engine.Ancestry.Reached.{reach-Reaches}

pub contains-filter :
    (p : Bytes → Bool) (xs : List Bytes) (x : Bytes)
    → contains x (filter p xs) ≡ (contains x xs && p x)
unfolding filter contains
contains-filter p [] x = refl
contains-filter p (y ∷ xs) x = elim (Bool-cases (bytes_beq y x)) [
  | inl same ↦
      rw (← ((bytes_beq_iff y x).0 same))
        (ground (arith, contains-filter p xs y, bytes_beq_iff y y))
  | inr other ↦ ground (arith, contains-filter p xs x)
]

contains-seen : (dist : Map Bytes ℕ) (x : Bytes) → contains x (keys dist) ≡ is_seen dist x
unfolding is_seen contains keys lookup
contains-seen [] x = refl
contains-seen ((k, d) ∷ dist) x = ground (arith, contains-seen dist x)

-- `c` is an ancestor of both, or one of them, and reaches below no other common ancestor.
abbrev pub IsBase : (Bytes → List Bytes) → Bytes → Bytes → Bytes → Type 0
IsBase parents a b c =
    Reaches parents a c
    × Reaches parents b c
    × ((o : Bytes) → Reaches parents a o → Reaches parents b o → Reaches parents o c → o ≡ c)

-- Where nothing else of the list reaches `c`.
undominated_iff :
    (reached : Bytes → Bytes → Bool) (c : Bytes) (xs : List Bytes)
    → (is_dominated reached c xs ≡ false)
      ↔ ((o : Bytes) → contains o xs ≡ true → reached o c ≡ true → o ≡ c)
unfolding is_dominated contains
undominated_iff reached c [] = ((λ h o k r. cc), (λ h. refl))
undominated_iff reached c (x ∷ xs) = (
  (λ h o k r. elim (Bool-cases (bytes_beq x o)) [
    | inl same ↦
        let e : x ≡ o = (bytes_beq_iff x o).0 same in
        let mine : reached x c ≡ true = rw e r in
        let at : x ≡ c = ground (arith, bytes_beq_iff x c) in sym e ∙ at
    | inr other ↦ (undominated_iff reached c xs).0 (ground arith) o (ground arith) r
  ]),
  (λ h.
      let rest : is_dominated reached c xs ≡ false =
        (undominated_iff reached c xs).1 (λ o k r. h o (ground arith) r) in
      let first : reached x c ≡ true → x ≡ c = λ r. h x (ground (arith, bytes_beq_iff x x)) r in
      ground (arith, first, bytes_beq_iff x c)),
)

-- The loops of `MergeBase`, for a search that decides ancestry.
module _ (parents : Bytes → List Bytes) (reached : Bytes → Bytes → Bool)
    (decides : (a c : Bytes) → (reached a c ≡ true) ↔ Reaches parents a c) (common : List Bytes)
    (a b : Bytes) (is_common : (c : Bytes) → contains c common ≡ (reached a c && reached b c)) where
  contains-lowest :
      (c : Bytes)
      → contains c (lowest reached common)
        ≡ ((reached a c && reached b c) && not (is_dominated reached c common))
  unfolding lowest
  contains-lowest c =
      contains-insertion_sort bytes_ltb c _
      ∙ contains-filter (λ x. not (is_dominated reached x common)) common c
      ∙ ground (arith, is_common c)

  pub lowest-IsBase :
      (c : Bytes) → (contains c (lowest reached common) ≡ true) ↔ IsBase parents a b c
  lowest-IsBase c = (
    (λ h.
        let both : (reached a c ≡ true) × (reached b c ≡ true) =
          ground (arith, contains-lowest c) in
        let alone : is_dominated reached c common ≡ false = ground (arith, contains-lowest c) in
        (
          (decides a c).0 both.0,
          (decides b c).0 both.1,
          λ o ra rb below.
              let ha = (decides a o).1 ra in
              let hb = (decides b o).1 rb in
              (undominated_iff reached c common).0 alone o (ground (arith, is_common o))
                ((decides o c).1 below),
        )),
    (λ h.
        let ha = (decides a c).1 h.0 in
        let hb = (decides b c).1 h.1 in
        let alone : is_dominated reached c common ≡ false =
          (undominated_iff reached c common).1 (λ o k below.
            let both : (reached a o ≡ true) × (reached b o ≡ true) = ground (arith, is_common o) in
            h.2 o ((decides a o).0 both.0) ((decides b o).0 both.1) ((decides o c).0 below)) in
        ground (arith, contains-lowest c)),
  )

is_reached_iff :
    (commits : Map Bytes CommitMeta) (a c : Bytes)
    → (is_reached commits a c ≡ true) ↔ Reaches (parents_of commits) a c
unfolding is_reached
is_reached_iff commits a c =
    let (dist, done, found) = reach-Reaches commits a in rw (done, is_reached) (found c)

common_iff :
    (commits : Map Bytes CommitMeta) (a b c : Bytes)
    → contains c (common_ancestors commits a b) ≡ (is_reached commits a c && is_reached commits b c)
unfolding common_ancestors is_reached
common_iff commits a b c =
    let (dist, done, found) = reach-Reaches commits a in
    rw (done, common_ancestors, is_reached)
      (contains-filter (λ id. is_reached commits b id) (keys dist) c
        ∙ ground (arith, contains-seen dist c))

-- `MergeBase` lists exactly the common ancestors, the commits themselves included, that are ancestors of
-- no other common ancestor.
pub merge_base-IsBase :
    (commits : Map Bytes CommitMeta) (a b c : Bytes)
    → (contains c (merge_base commits a b) ≡ true) ↔ IsBase (parents_of commits) a b c
unfolding merge_base
merge_base-IsBase commits a b c =
    lowest-IsBase (parents_of commits) (is_reached commits) (is_reached_iff commits)
      (common_ancestors commits a b) a b (common_iff commits a b) c
