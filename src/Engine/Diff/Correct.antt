-- ===== src/Engine/Diff/Correct.antt =====
-- `Diff` of internal/engine/engine.go against the two states that it compares, and against the
-- `Diff` of internal/model/model.go.
use datagit.Prelude.{
  ℕ, ◌≤◌, ◌<◌, ◌≡◌, ◌∙◌, refl, sym, Bool, true, false, not, ◌&&◌, Option, none, some, List, [], ◌∷◌,
  Bytes, bytes_beq_iff, bytes_eq, nat_eq, or_else, contains, arith, Option-cases, Bool-cases, inl,
  inr,
}
use datagit.Maps.{Map, lookup, put, IsMap, lookup-put}
use datagit.Maps.Collect.{bind, collect, lookup-collect}
use datagit.Core.Mask.{ColId, has}
use datagit.Core.Value as Value
use datagit.Core.Row.{Row, get, mask_of}
use datagit.Core.Row as Row
use datagit.Core.Row.Laws.{has-mask_of, equal_iff}
use datagit.Core.Change.{Change, insert, is_delete, Table}
use datagit.Core.Key.{Pk}
use datagit.Merge.{same_opt}
use datagit.Engine.State.{Engine, max_seq}
use datagit.Engine.Commit.Effect.{applied}
use datagit.Engine.Publish.Invariant.{IsSane}
use datagit.Engine.Masks.{wrote_in}
use datagit.Engine.Diff.{touched, change_between, diff}
use datagit.Engine.Diff.Quiet.{table_at, table_at-quiet, touched-IsQuiet, touched-IsMap}
use datagit.Engine.Merging.Landed.{resolve_chain-IsMap}
use datagit.Model.Reads.{diff_from, diff_to, diff_tables}

-- A row that equals itself: one without a NaN.
abbrev pub IsWhole : Option Row → Type 0
IsWhole row = same_opt row row ≡ true

-- No change between a row and itself, where it equals itself.
change_between_self :
    (cols : List ColId) (j : Pk) (o : Option Row) → IsWhole o → change_between cols j o o ≡ none
unfolding change_between same_opt
change_between_self cols j none h = refl
change_between_self cols j (some row) h = ground arith

module _ (e : Engine) (branch : Bytes) (from_seq to_seq : ℕ) (j : Pk) (sane : IsSane e)
    (le : from_seq ≤ to_seq) (fits : to_seq < max_seq)
    (whole : IsWhole (lookup j (table_at e branch from_seq))) where
  abbrev old : Option Row
  old = lookup j (table_at e branch from_seq)

  abbrev new : Option Row
  new = lookup j (table_at e branch to_seq)

  -- `Diff` looks only at the keys that the branch wrote in the range, and still has the change of
  -- every key.
  lookup-diff : lookup j (diff e branch from_seq to_seq) ≡ change_between e.schema.cols j old new
  unfolding diff
  lookup-diff =
      let seen : Map Pk Bool = touched (wrote_in branch from_seq to_seq) e.rows [] in
      lookup-collect
        (λ pk b.
          change_between e.schema.cols pk (lookup pk (table_at e branch from_seq))
            (lookup pk (table_at e branch to_seq)))
        seen j (touched-IsMap branch from_seq to_seq (wrote_in branch from_seq to_seq) e.rows [] tt)
      ∙ elim (Option-cases (lookup j seen)) [
        | inl unseen ↦
            let quiet = touched-IsQuiet branch from_seq to_seq e.rows [] j unseen in
            rw unseen (
              rw (← (table_at-quiet e branch from_seq to_seq j sane quiet.0 le fits))
                (sym (change_between_self e.schema.cols j old whole)))
        | inr (b, found) ↦ rw found
      ]

-- What the model's second loop adds for a key of the second table.
abbrev added : List ColId → Option Row → Pk → Row → Option Change
added cols none pk tr =
    some (record { pk = pk; op = insert; row = tr; changed = mask_of none tr cols })
added cols (some fr) pk tr = none

lookup-diff_to :
    (cols : List ColId) (from to : Table) (out : Map Pk Change) (j : Pk)
    → IsMap to
    → lookup j (diff_to cols from to out)
      ≡ or_else (bind (lookup j to) (added cols (lookup j from) j)) (lookup j out)
unfolding diff_to lookup
lookup-diff_to cols from [] out j h = refl
lookup-diff_to cols from ((pk, tr) ∷ to) out j h = elim (Option-cases (lookup pk from)) [
  | inl new ↦
      rw (new, diff_to)
        (ground (
          arith,
          bytes_beq_iff pk j,
          lookup-put j pk
              (record { pk = pk; op = insert; row = tr; changed = mask_of none tr cols }) out,
          lookup-diff_to cols from to
              (put pk (record { pk = pk; op = insert; row = tr; changed = mask_of none tr cols })
                out)
              j h.1,
        ))
  | inr (fr, old) ↦
      rw (old, diff_to) (ground (arith, bytes_beq_iff pk j, lookup-diff_to cols from to out j h.1))
]

diff_key :
    (cols : List ColId) (to : Table) (j : Pk) (from_row to_row : Option Row)
    → lookup j to ≡ to_row
    → or_else (bind to_row (added cols from_row j)) (bind from_row (diff_from cols to j))
      ≡ change_between cols j from_row to_row
unfolding diff_from change_between
diff_key cols to j none none h = refl
diff_key cols to j none (some t) h = refl
diff_key cols to j (some f) none h = rw (h, diff_from)
diff_key cols to j (some f) (some t) h = rw (h, diff_from)

-- The model's `Diff` of two tables has the change of every key.
lookup-diff_tables :
    (cols : List ColId) (from to : Table) (j : Pk)
    → IsMap from
    → IsMap to
    → lookup j (diff_tables cols from to) ≡ change_between cols j (lookup j from) (lookup j to)
unfolding diff_tables
lookup-diff_tables cols from to j hf ht =
    lookup-diff_to cols from to (collect (diff_from cols to) from) j ht
    ∙ rw (lookup-collect (diff_from cols to) from j hf)
        (diff_key cols to j (lookup j from) (lookup j to) refl)

module _ (e : Engine) (branch : Bytes) (from_seq to_seq : ℕ) (j : Pk) (sane : IsSane e)
    (le : from_seq ≤ to_seq) (fits : to_seq < max_seq)
    (whole : IsWhole (lookup j (table_at e branch from_seq))) where
  -- `Diff` of the engine looks only at the keys that the branch wrote between the two seqs, `Diff`
  -- of the model at all keys of the two states: in an engine that satisfies the invariant, for two
  -- seqs in order and below the last, and a key whose older row holds no NaN, they have the same
  -- change.
  pub diff_agrees :
      lookup j (diff e branch from_seq to_seq)
      ≡ lookup j (diff_tables e.schema.cols (table_at e branch from_seq) (table_at e branch to_seq))
  diff_agrees =
      lookup-diff e branch from_seq to_seq j sane le fits whole
      ∙ sym (
          lookup-diff_tables e.schema.cols (table_at e branch from_seq) (table_at e branch to_seq) j
            (resolve_chain-IsMap e.rows _ []) (resolve_chain-IsMap e.rows _ []))

-- The columns that an insertion or an update is for.
abbrev pub differs : List ColId → Option Row → Option Row → ColId → Bool
differs cols _ none c = false
differs cols none (some after) c = contains c cols && not (Value.equal (get none c) (get after c))
differs cols (some before) (some after) c =
    contains c cols && not (Value.equal (get before c) (get after c))

abbrev pub changed_in : Option Change → ColId → Bool
changed_in none c = false
changed_in (some ch) c = has ch.changed c

abbrev is_some : {A : Type 0} → Option A → Bool
is_some none = false
is_some (some a) = true

-- What a change set has of a key, against the older and the newer row.
abbrev pub IsExact : List ColId → Option Row → Option Row → Option Change → Type 0
IsExact cols old new d =
    (same_opt (applied d old) new ≡ true)
    × (is_some d ≡ not (same_opt old new))
    × ((c : ColId) → changed_in d c ≡ differs cols old new c)

change_between-IsExact :
    (cols : List ColId) (j : Pk) (old new : Option Row)
    → IsWhole old
    → IsWhole new
    → IsExact cols old new (change_between cols j old new)
unfolding change_between same_opt is_delete
change_between-IsExact cols j none none h k = (refl, refl, λ c. refl)
change_between-IsExact cols j (some b) none h k = (refl, refl, λ c. unfold has in ground arith)
change_between-IsExact cols j none (some a) h k = (k, refl, λ c. has-mask_of none a cols c)
change_between-IsExact cols j (some b) (some a) h k = elim (Bool-cases (Row.equal b a)) [
  | inl same ↦
      rw (same, change_between) (same, refl, λ c. ground (arith, ((equal_iff b a).0 same).1 c))
  | inr apart ↦ rw (apart, change_between) (k, refl, λ c. has-mask_of b a cols c)
]

module _ (e : Engine) (branch : Bytes) (from_seq to_seq : ℕ) (j : Pk) (sane : IsSane e)
    (le : from_seq ≤ to_seq) (fits : to_seq < max_seq)
    (whole_old : IsWhole (lookup j (table_at e branch from_seq)))
    (whole_new : IsWhole (lookup j (table_at e branch to_seq))) where
  -- In an engine that satisfies the invariant, for a key whose older and newer rows hold no NaN,
  -- `Diff` between two seqs of a branch, in order and below the last seq, has exactly what makes
  -- the older state the newer: applied to the older row it gives a row equal to the newer one, it
  -- names the key only where the two are not equal, and `Changed` has exactly the columns of the
  -- schema in which they differ, none for a deletion.
  pub diff-IsExact :
      IsExact e.schema.cols
        (lookup j (table_at e branch from_seq))
        (lookup j (table_at e branch to_seq))
        (lookup j (diff e branch from_seq to_seq))
  diff-IsExact =
      rw (lookup-diff e branch from_seq to_seq j sane le fits whole_old)
        (change_between-IsExact e.schema.cols j _ _ whole_old whole_new)
