-- ===== src/Engine/Probes.antt =====
-- The probes of internal/engine/engine.go: `OpenVersionsPerKey`, `IntervalsSane`, `StagedOnBranch`
-- and `ZeroHashOnBranch`.
pub mod Sane
use datagit.Prelude.{
  ℕ, suc, Bool, true, false, not, ◌&&◌, Option, none, some, List, [], ◌∷◌, ◌++◌, Bytes, bytes_beq,
  bytes_beq_iff, bytes_eq, nat_beq, ltb, if◌then◌else◌, Comparable, insertion_sort, ◌≡◌, ◌↔◌, arith,
}
use datagit.Maps.{Map, lookup, put}
use datagit.Core.Key.{Pk}
use datagit.Engine.State.{Version, Engine, max_seq}

-- The number of rows with a property.
unfoldable pub count : (Version → Bool) → List Version → ℕ
count test [] = 0
count test (v ∷ rows) = let rest = count test rows in if test v then suc rest else rest

-- `OpenVersionsPerKey`, at a branch and a key.
unfoldable pub open_versions : Engine → Bytes → Pk → ℕ
unfolding count
open_versions e branch pk =
    count
      (λ v.
        (bytes_beq v.session [] && nat_beq v.seq_to max_seq)
        && (bytes_beq v.branch branch && bytes_beq v.pk pk))
      e.rows

-- `StagedOnBranch`
unfoldable pub staged_on_branch : Engine → Bytes → ℕ
unfolding count
staged_on_branch e branch =
    count (λ v. bytes_beq v.branch branch && not (bytes_beq v.session [])) e.rows

-- `ZeroHashOnBranch`
unfoldable pub zero_hash_on_branch : Engine → Bytes → ℕ
unfolding count
zero_hash_on_branch e branch =
    count (λ v. (bytes_beq v.branch branch && bytes_beq v.commit []) && bytes_beq v.session [])
      e.rows

-- The struct `key` of `IntervalsSane`.
pub record Place : Type 0 where
  pub branch : Bytes
  pub pk : Pk

abbrev pub place : Bytes → Pk → Place
place b j = record { branch = b; pk = j }

abbrev same_place : Place → Place → Bool
same_place p q = bytes_beq p.branch q.branch && bytes_beq p.pk q.pk

pub same_place_iff : (p q : Place) → (same_place p q ≡ true) ↔ (p ≡ q)
same_place_iff p q = ground (arith, bytes_beq_iff p.branch q.branch, bytes_beq_iff p.pk q.pk)

instance abbrev pub place_eq : Comparable Place
place_eq = record { same = same_place; same_iff = same_place_iff }

-- `byKey[k]`: the nil slice for a missing key.
unfoldable pub versions_of : Place → Map Place (List Version) → List Version
versions_of k by_key = elim (lookup k by_key) [ none ↦ [] | some vs ↦ vs ]

-- The loop that fills `byKey`.
unfoldable pub group : List Version → Map Place (List Version) → Map Place (List Version)
unfolding versions_of
group [] by_key = by_key
group (v ∷ rows) by_key =
    let k = place v.branch v.pk in
    group rows (
      if not (bytes_beq v.session [])
      then by_key
      else put k (versions_of k by_key ++ v ∷ []) by_key)

abbrev pub begins_before : Version → Version → Bool
begins_before v w = ltb v.seq_from w.seq_from

-- The neighbours of a sorted list that overlap.
unfoldable pub overlap_after : Version → List Version → Option (Version × Version)
overlap_after v [] = none
overlap_after v (w ∷ ws) =
    let rest = overlap_after w ws in if ltb w.seq_from v.seq_to then some (v, w) else rest

unfoldable pub overlap : List Version → Option (Version × Version)
unfolding overlap_after
overlap [] = none
overlap (v ∷ vs) = overlap_after v vs

-- The loop over `byKey`.
unfoldable pub first_overlap : Map Place (List Version) → Option (Place × (Version × Version))
unfolding overlap
first_overlap [] = none
first_overlap ((k, vs) ∷ by_key) =
    let rest = first_overlap by_key in
    elim (overlap (insertion_sort begins_before vs)) [ none ↦ rest | some pair ↦ some (k, pair) ]

-- `IntervalsSane`: what its error names, or none.
unfoldable pub intervals_sane : Engine → Option (Place × (Version × Version))
unfolding group first_overlap
intervals_sane e = first_overlap (group e.rows [])
