-- ===== src/Model/Ancestry/Walk.antt =====
-- The depth-first search of internal/model/model.go finds exactly the ancestors.
use datagit.Prelude.{
  ℕ, zero, suc, ◌<◌, ◌≤◌, ◌≡◌, refl, true, false, List, [], ◌∷◌, Bytes, bytes_eq, bytes_beq,
  bytes_beq_iff, if◌then◌else◌, arith, Bool-cases, inl, inr, contains, length,
}
use datagit.Maps.{Map}
use datagit.Maps.Collect.{keys, lookup-none}
use datagit.Engine.Ancestry.Search.{Reaches, up}
use datagit.Model.State.{Commit}
use datagit.Model.Ancestry.{parents_of, walk_each, walk}

-- How many of the ids are not in the list.
pub missing : List Bytes → List Bytes → ℕ
missing seen [] = 0
missing seen (x ∷ xs) = let rest = missing seen xs in if contains x seen then rest else suc rest

missing-cons :
    (seen : List Bytes) (p : Bytes) (xs : List Bytes) → missing (p ∷ seen) xs ≤ missing seen xs
unfolding missing contains
missing-cons seen p [] = omega arith
missing-cons seen p (x ∷ xs) = ground (arith, missing-cons seen p xs)

missing-cons_new :
    (seen : List Bytes) (p : Bytes) (xs : List Bytes)
    → contains p seen ≡ false
    → contains p xs ≡ true
    → missing (p ∷ seen) xs < missing seen xs
unfolding missing contains
missing-cons_new seen p [] h k = cc
missing-cons_new seen p (x ∷ xs) h k = elim (Bool-cases (bytes_beq x p)) [
  | inl same ↦
      let e : x ≡ p = (bytes_beq_iff x p).0 same in
      rw e (ground (arith, missing-cons seen p xs, bytes_beq_iff p p, h))
  | inr other ↦ ground (arith, missing-cons_new seen p xs h, bytes_beq_iff p x, bytes_beq_iff x p)
]

missing_mono :
    (seen more : List Bytes) (xs : List Bytes)
    → ((x : Bytes) → contains x seen ≡ true → contains x more ≡ true)
    → missing more xs ≤ missing seen xs
unfolding missing
missing_mono seen more [] h = omega arith
missing_mono seen more (x ∷ xs) h = ground (arith, missing_mono seen more xs h, h x)

pub missing-length : (seen : List Bytes) (xs : List Bytes) → missing seen xs ≤ length xs
unfolding missing
missing-length seen [] = omega arith
missing-length seen (x ∷ xs) = ground (arith, missing-length seen xs)

-- What a walk over some ids adds to the seen ones.
pub record IsWalked (parents : Bytes → List Bytes) (ids seen out : List Bytes) : Type 0 where
  pub kept : (x : Bytes) → contains x seen ≡ true → contains x out ≡ true
  pub taken : (x : Bytes) → contains x ids ≡ true → contains x out ≡ true
  pub reached :
      (start : Bytes)
      → ((x : Bytes) → contains x seen ≡ true → Reaches parents start x)
      → ((x : Bytes) → contains x ids ≡ true → Reaches parents start x)
      → (x : Bytes) → contains x out ≡ true
      → Reaches parents start x
  pub closed :
      (b p : Bytes)
      → contains b out ≡ true
      → contains b seen ≡ false
      → contains p (parents b) ≡ true
      → contains p out ≡ true

module _ (parents : Bytes → List Bytes) (f : Bytes → List Bytes → List Bytes) (all : List Bytes)
    (n : ℕ)
    (walked : (p : Bytes) (seen : List Bytes)
      → missing seen all < n
      → IsWalked parents (p ∷ []) seen (f p seen)) where
  each-IsWalked :
      (ps seen : List Bytes) → missing seen all < n → IsWalked parents ps seen (walk_each f ps seen)
  unfolding walk_each contains
  each-IsWalked [] seen h = record {
    kept = λ x k. k;
    taken = λ x k. cc;
    reached = λ start rs ri x k. rs x k;
    closed = λ b p k ns parent. cc;
  }
  each-IsWalked (p ∷ ps) seen h =
      let first = walked p seen h in
      let rest =
        each-IsWalked ps (f p seen) (omega (arith, missing_mono seen (f p seen) all first.kept)) in
      record {
        kept = λ x k. rest.kept x (first.kept x k);
        taken = λ x k. elim (Bool-cases (bytes_beq p x)) [
          | inl same ↦ rest.kept x (first.taken x (ground arith))
          | inr other ↦ rest.taken x (ground arith)
        ];
        reached = λ start rs ri x k.
            rest.reached start (λ y l. first.reached start rs (λ z m. ri z (ground arith)) y l)
              (λ y l. ri y (ground arith)) x k;
        closed = λ b q k ns parent. elim (Bool-cases (contains b (f p seen))) [
          | inl early ↦ rest.kept q (first.closed b q early ns parent)
          | inr late ↦ rest.closed b q k late parent
        ];
      }

nil-IsWalked : (parents : Bytes → List Bytes) (seen : List Bytes) → IsWalked parents [] seen seen
unfolding contains
nil-IsWalked parents seen = record {
  kept = λ x k. k;
  taken = λ x k. cc;
  reached = λ start rs ri x k. rs x k;
  closed = λ b p k ns parent. cc;
}

old-IsWalked :
    (parents : Bytes → List Bytes) (id : Bytes) (seen : List Bytes)
    → contains id seen ≡ true
    → IsWalked parents (id ∷ []) seen seen
unfolding contains
old-IsWalked parents id seen old = record {
  kept = λ x k. k;
  taken = λ x k. let same : id ≡ x = ground (arith, bytes_beq_iff id x) in rw (← same) old;
  reached = λ start rs ri x k. rs x k;
  closed = λ b p k ns parent. cc;
}

-- Adding an id after the walk over its parents.
new-IsWalked :
    (parents : Bytes → List Bytes) (id : Bytes) (seen out : List Bytes)
    → IsWalked parents (parents id) (id ∷ seen) out
    → IsWalked parents (id ∷ []) seen out
unfolding contains
new-IsWalked parents id seen out inner = record {
  kept = λ x k. inner.kept x (ground arith);
  taken = λ x k. inner.kept x (ground arith);
  reached = λ start rs ri x k.
      inner.reached start
        (λ y l. elim (Bool-cases (bytes_beq id y)) [
          | inl same ↦ ri y (ground arith)
          | inr other ↦ rs y (ground arith)
        ])
        (λ y l. up (ri id (ground (arith, bytes_beq_iff id id))) l) x k;
  closed = λ b p k ns parent. elim (Bool-cases (bytes_beq id b)) [
    | inl same ↦ let e : id ≡ b = (bytes_beq_iff id b).0 same in inner.taken p (rw e parent)
    | inr other ↦ inner.closed b p k (ground arith) parent
  ];
}

no_parents :
    (commits : Map Bytes Commit) (id : Bytes)
    → contains id (keys commits) ≡ false
    → parents_of commits id ≡ []
unfolding parents_of
no_parents commits id h = rw (lookup-none id commits h, parents_of) refl

pub walk-IsWalked :
    (commits : Map Bytes Commit) (fuel : ℕ) (id : Bytes) (seen : List Bytes)
    → missing seen (keys commits) < fuel
    → IsWalked (parents_of commits) (id ∷ []) seen (walk fuel commits id seen)
unfolding walk
walk-IsWalked commits zero id seen h = absurd (omega arith)
walk-IsWalked commits (suc fuel) id seen h = elim (Bool-cases (contains id seen)) [
  | inl old ↦ rw (old, walk) (old-IsWalked (parents_of commits) id seen old)
  | inr new ↦
      rw (new, walk)
        (new-IsWalked (parents_of commits) id seen
          (walk_each (walk fuel commits) (parents_of commits id) (id ∷ seen))
          (elim (Bool-cases (contains id (keys commits))) [
            | inl known ↦
                each-IsWalked (parents_of commits) (walk fuel commits) (keys commits) fuel
                  (λ p s k. walk-IsWalked commits fuel p s k) (parents_of commits id) (id ∷ seen)
                  (omega (arith, missing-cons_new seen id (keys commits) new known))
            | inr leaf ↦
                rw (no_parents commits id leaf)
                  (unfold walk_each in nil-IsWalked (parents_of commits) (id ∷ seen))
          ]))
]
