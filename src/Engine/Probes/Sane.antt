-- ===== src/Engine/Probes/Sane.antt =====
-- The probes of internal/engine/engine.go on an engine that satisfies the invariant.
use mathlib.Core.List.{append-nil, append_assoc}
use datagit.Prelude.{
  ℕ, ◌+◌, ◌<◌, ◌≡◌, ◌∙◌, refl, sym, true, false, ◌&&◌, none, List, [], ◌∷◌, ◌++◌, Bytes, bytes_beq,
  bytes_eq, nat_beq, if◌then◌else◌, arith, insertion_sort, insert, Bool-cases, inl, inr,
}
use datagit.Maps.{Map, lookup, put, lookup-put, lookup-cons, IsMap, put-IsMap}
use datagit.Core.Key.{Pk}
use datagit.Engine.State.{Version, Engine, max_seq}
use datagit.Engine.History.{history}
use datagit.Engine.History.Timeline.{IsTimeline}
use datagit.Engine.Publish.Invariant.{IsSane, seq_of}
use datagit.Engine.Probes.{
  count, open_versions, Place, place, same_place, place_eq, versions_of, group, begins_before,
  overlap_after, overlap, first_overlap, intervals_sane,
}

versions_of-put :
    (k p : Place) (vs : List Version) (by_key : Map Place (List Version))
    → versions_of k (put p vs by_key) ≡ (if same_place p k then vs else versions_of k by_key)
unfolding versions_of
versions_of-put k p vs by_key =
    rw (lookup-put k p vs by_key, versions_of)
      (elim (Bool-cases (same_place p k)) [ inl here ↦ rw here | inr there ↦ rw there ])

versions_of-add :
    (k : Place) (v : Version) (by_key : Map Place (List Version)) (later : List Version)
    → versions_of k
          (put (place v.branch v.pk) (versions_of (place v.branch v.pk) by_key ++ v ∷ []) by_key)
        ++ later
      ≡ versions_of k by_key ++ (if same_place (place v.branch v.pk) k then v ∷ later else later)
versions_of-add k v by_key later = elim (Bool-cases (same_place (place v.branch v.pk) k)) [
  | inl here ↦
      let same : place v.branch v.pk ≡ k = (place_eq.same_iff (place v.branch v.pk) k).0 here in
      rw (versions_of-put k (place v.branch v.pk) _ by_key, here)
        (rw same (append_assoc (versions_of k by_key) (v ∷ []) later))
  | inr there ↦ rw (versions_of-put k (place v.branch v.pk) _ by_key, there)
]

history_committed :
    (b : Bytes) (j : Pk) (v : Version) (rows : List Version)
    → bytes_beq v.session [] ≡ true
    → history b j (v ∷ rows) ≡ (
        if same_place (place v.branch v.pk) (place b j)
        then v ∷ history b j rows
        else history b j rows)
unfolding history
history_committed b j v rows h = ground arith

history_staged :
    (b : Bytes) (j : Pk) (v : Version) (rows : List Version)
    → bytes_beq v.session [] ≡ false
    → history b j (v ∷ rows) ≡ history b j rows
unfolding history
history_staged b j v rows h = ground arith

-- `byKey` has the history of each key.
versions_of-group :
    (rows : List Version) (by_key : Map Place (List Version)) (k : Place)
    → versions_of k (group rows by_key) ≡ versions_of k by_key ++ history k.branch k.pk rows
unfolding group
versions_of-group [] by_key k = unfold history in sym (append-nil (versions_of k by_key))
versions_of-group (v ∷ rows) by_key k = elim (Bool-cases (bytes_beq v.session [])) [
  | inl committed ↦
      rw (committed, group)
        (versions_of-group rows
            (put (place v.branch v.pk) (versions_of (place v.branch v.pk) by_key ++ v ∷ []) by_key)
            k
          ∙ versions_of-add k v by_key (history k.branch k.pk rows)
          ∙ sym (rw (history_committed k.branch k.pk v rows committed)))
  | inr staged ↦
      rw (staged, group)
        (rw (history_staged k.branch k.pk v rows staged) (versions_of-group rows by_key k))
]

group-IsMap :
    (rows : List Version) (by_key : Map Place (List Version))
    → IsMap by_key
    → IsMap (group rows by_key)
unfolding group
group-IsMap [] by_key h = h
group-IsMap (v ∷ rows) by_key h = elim (Bool-cases (bytes_beq v.session [])) [
  | inl committed ↦
      rw (committed, group)
        (group-IsMap rows
          (put (place v.branch v.pk) (versions_of (place v.branch v.pk) by_key ++ v ∷ []) by_key)
          (put-IsMap (place v.branch v.pk) (versions_of (place v.branch v.pk) by_key ++ v ∷ [])
            by_key h))
  | inr staged ↦ rw (staged, group) (group-IsMap rows by_key h)
]

-- A timeline is sorted as it stands.
insertion_sort-timeline :
    (lo head : ℕ) (vs : List Version) → IsTimeline lo head vs → insertion_sort begins_before vs ≡ vs
unfolding insertion_sort insert
insertion_sort-timeline lo head [] h = refl
insertion_sort-timeline lo head (v ∷ []) h = refl
insertion_sort-timeline lo head (v ∷ (w ∷ ws)) h =
    rw (insertion_sort-timeline (v.seq_from + 1) head (w ∷ ws) h.3) (ground (arith, h.3.0))

overlap_after-timeline :
    (lo head : ℕ) (v : Version) (vs : List Version)
    → IsTimeline lo head (v ∷ vs)
    → overlap_after v vs ≡ none
unfolding overlap_after
overlap_after-timeline lo head v [] h = refl
overlap_after-timeline lo head v (w ∷ ws) h =
    ground (arith, overlap_after-timeline (v.seq_from + 1) head w ws h.3, h.2)

overlap-timeline :
    (lo head : ℕ) (vs : List Version)
    → IsTimeline lo head vs
    → overlap (insertion_sort begins_before vs) ≡ none
unfolding overlap
overlap-timeline lo head [] h = unfold insertion_sort in refl
overlap-timeline lo head (v ∷ vs) h =
    rw (insertion_sort-timeline lo head (v ∷ vs) h) (overlap_after-timeline lo head v vs h)

versions_of-cons :
    (k p : Place) (vs : List Version) (by_key : Map Place (List Version))
    → versions_of k ((p, vs) ∷ by_key) ≡ (if same_place p k then vs else versions_of k by_key)
unfolding versions_of
versions_of-cons k p vs by_key =
    rw (lookup-cons k p vs by_key, versions_of)
      (elim (Bool-cases (same_place p k)) [ inl here ↦ rw here | inr there ↦ rw there ])

versions_of-none :
    (k : Place) (by_key : Map Place (List Version))
    → lookup k by_key ≡ none
    → versions_of k by_key ≡ []
unfolding versions_of
versions_of-none k by_key h = rw (h, versions_of)

overlap_empty : overlap (insertion_sort begins_before []) ≡ none
unfolding overlap insertion_sort
overlap_empty = refl

first_overlap-none :
    (by_key : Map Place (List Version))
    → IsMap by_key
    → ((k : Place) → overlap (insertion_sort begins_before (versions_of k by_key)) ≡ none)
    → first_overlap by_key ≡ none
unfolding first_overlap
first_overlap-none [] m h = refl
first_overlap-none ((k, vs) ∷ by_key) m h =
    let here : overlap (insertion_sort begins_before vs) ≡ none =
      rw (versions_of-cons k k vs by_key, (place_eq.same_iff k k).1 refl) at (h k) in
    rw (here, first_overlap)
      (first_overlap-none by_key m.1 (λ j. elim (Bool-cases (same_place k j)) [
        | inl here ↦
            let same : k ≡ j = (place_eq.same_iff k j).0 here in
            rw (← same) (rw (versions_of-none k by_key m.0) overlap_empty)
        | inr there ↦ rw (versions_of-cons j k vs by_key, there) at (h j)
      ]))

-- One for a key that has versions.
abbrev pub once : List Version → ℕ
once [] = 0
once (v ∷ vs) = 1

count-timeline :
    (lo head : ℕ) (vs : List Version)
    → IsTimeline lo head vs
    → head < max_seq
    → count (λ v. nat_beq v.seq_to max_seq) vs ≡ once vs
unfolding count
count-timeline lo head [] h fits = refl
count-timeline lo head (v ∷ []) h fits = ground arith
count-timeline lo head (v ∷ (w ∷ ws)) h fits =
    ground (arith, h.2, h.3.1, count-timeline (v.seq_from + 1) head (w ∷ ws) h.3 fits)

open_versions-history :
    (b : Bytes) (j : Pk) (rows : List Version)
    → count
        (λ v.
          (bytes_beq v.session [] && nat_beq v.seq_to max_seq)
          && (bytes_beq v.branch b && bytes_beq v.pk j))
        rows
      ≡ count (λ v. nat_beq v.seq_to max_seq) (history b j rows)
unfolding count history
open_versions-history b j [] = refl
open_versions-history b j (v ∷ rows) = ground (arith, open_versions-history b j rows)

module _ (e : Engine) (b : Bytes) (j : Pk) (sane : IsSane e)
    (fits : seq_of e.branches b < max_seq) where
  -- In an engine that satisfies the invariant `IntervalsSane` finds no overlap, and for a branch below
  -- the last seq `OpenVersionsPerKey` counts exactly one open version of each key that has a
  -- committed one on the branch, and none of the others.
  pub probes-IsSane : (intervals_sane e ≡ none) × (open_versions e b j ≡ once (history b j e.rows))
  unfolding intervals_sane open_versions
  probes-IsSane = (
    first_overlap-none (group e.rows []) (group-IsMap e.rows [] tt) (λ k.
        unfold versions_of lookup in
        rw (versions_of-group e.rows [] k) (
          overlap-timeline 1 (seq_of e.branches k.branch) (history k.branch k.pk e.rows)
            (sane.timelines k.branch k.pk))),
    open_versions-history b j e.rows
        ∙ count-timeline 1 (seq_of e.branches b) (history b j e.rows) (sane.timelines b j) fits,
  )
