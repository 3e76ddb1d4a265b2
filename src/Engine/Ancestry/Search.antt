-- ===== src/Engine/Ancestry/Search.antt =====
-- The breadth-first search of `MergeBase` in internal/engine/engine.go ends within its rounds and finds
-- exactly the ancestors.
use datagit.Prelude.{
  ℕ, suc, ◌+◌, ◌<◌, ◌≤◌, ◌≡◌, ◌∙◌, refl, ap, true, false, not, ◌&&◌, ◌||◌, List, [], ◌∷◌, ◌++◌,
  Bytes, bytes_eq, bytes_beq, bytes_beq_iff, if◌then◌else◌, arith, Bool-cases, inl, inr, contains,
  contains-append, length, length-append,
}
use datagit.Maps.{Map, put, lookup-put}
use datagit.Engine.Ancestry.{is_seen, visit}

-- `b` is `a` or an ancestor of it.
pub data Reaches (parents : Bytes → List Bytes) (a : Bytes) : Bytes → Type 0 where
  here : Reaches parents a a
  up : {b p : Bytes} → Reaches parents a b → contains p (parents b) ≡ true → Reaches parents a p

pub is_seen-put :
    (dist : Map Bytes ℕ) (p : Bytes) (d : ℕ) (x : Bytes)
    → is_seen (put p d dist) x ≡ (bytes_beq p x || is_seen dist x)
unfolding is_seen
is_seen-put dist p d x = ground (arith, lookup-put x p d dist)

-- How many of the ids are not seen.
pub unseen : Map Bytes ℕ → List Bytes → ℕ
unseen dist [] = 0
unseen dist (x ∷ xs) = let rest = unseen dist xs in if is_seen dist x then rest else suc rest

pub unseen-length : (dist : Map Bytes ℕ) (xs : List Bytes) → unseen dist xs ≤ length xs
unfolding unseen
unseen-length dist [] = omega arith
unseen-length dist (x ∷ xs) = ground (arith, unseen-length dist xs)

unseen-put :
    (dist : Map Bytes ℕ) (p : Bytes) (d : ℕ) (xs : List Bytes)
    → unseen (put p d dist) xs ≤ unseen dist xs
unfolding unseen
unseen-put dist p d [] = omega arith
unseen-put dist p d (x ∷ xs) = ground (arith, unseen-put dist p d xs, is_seen-put dist p d x)

-- Seeing a new one of the ids leaves fewer.
unseen-put_new :
    (dist : Map Bytes ℕ) (p : Bytes) (d : ℕ) (xs : List Bytes)
    → is_seen dist p ≡ false
    → contains p xs ≡ true
    → unseen (put p d dist) xs < unseen dist xs
unfolding unseen contains
unseen-put_new dist p d [] h k = cc
unseen-put_new dist p d (x ∷ xs) h k = elim (Bool-cases (bytes_beq x p)) [
  | inl same ↦
      let e : x ≡ p = (bytes_beq_iff x p).0 same in
      rw e (ground (arith, unseen-put dist p d xs, is_seen-put dist p d p, bytes_beq_iff p p, h))
  | inr other ↦ ground (
    arith,
    unseen-put_new dist p d xs h,
    is_seen-put dist p d x,
    bytes_beq_iff x p,
    bytes_beq_iff p x,
  )
]

abbrev pub State : Type 0
State = Map Bytes ℕ × List Bytes

module _ (d : ℕ) (p : Bytes) (ps : List Bytes) (dist : Map Bytes ℕ) (queue : List Bytes) where
  visit_seen : is_seen dist p ≡ true → visit d (p ∷ ps) (dist, queue) ≡ visit d ps (dist, queue)
  unfolding visit
  visit_seen h = rw h refl

  visit_new :
      is_seen dist p ≡ false
      → visit d (p ∷ ps) (dist, queue) ≡ visit d ps (put p d dist, queue ++ p ∷ [])
  unfolding visit
  visit_new h = rw h refl

pub is_seen-visit :
    (d : ℕ) (ps : List Bytes) (dist : Map Bytes ℕ) (queue : List Bytes) (x : Bytes)
    → is_seen (visit d ps (dist, queue)).0 x ≡ (is_seen dist x || contains x ps)
unfolding visit contains
is_seen-visit d [] dist queue x = ground arith
is_seen-visit d (p ∷ ps) dist queue x = elim (Bool-cases (is_seen dist p)) [
  | inl old ↦
      ap (λ (acc : State). is_seen acc.0 x) (visit_seen d p ps dist queue old)
      ∙ is_seen-visit d ps dist queue x
      ∙ elim (Bool-cases (bytes_beq p x)) [
        | inl same ↦ rw (← ((bytes_beq_iff p x).0 same)) (ground arith)
        | inr other ↦ ground arith
      ]
  | inr new ↦
      ap (λ (acc : State). is_seen acc.0 x) (visit_new d p ps dist queue new)
      ∙ is_seen-visit d ps (put p d dist) (queue ++ p ∷ []) x
      ∙ ground (arith, is_seen-put dist p d x)
]

pub contains-visit :
    (d : ℕ) (ps : List Bytes) (dist : Map Bytes ℕ) (queue : List Bytes) (x : Bytes)
    → contains x (visit d ps (dist, queue)).1
      ≡ (contains x queue || (contains x ps && not (is_seen dist x)))
unfolding visit contains
contains-visit d [] dist queue x = ground arith
contains-visit d (p ∷ ps) dist queue x = elim (Bool-cases (is_seen dist p)) [
  | inl old ↦
      ap (λ (acc : State). contains x acc.1) (visit_seen d p ps dist queue old)
      ∙ contains-visit d ps dist queue x
      ∙ elim (Bool-cases (bytes_beq p x)) [
        | inl same ↦ rw (← ((bytes_beq_iff p x).0 same)) (ground arith)
        | inr other ↦ ground arith
      ]
  | inr new ↦
      ap (λ (acc : State). contains x acc.1) (visit_new d p ps dist queue new)
      ∙ contains-visit d ps (put p d dist) (queue ++ p ∷ []) x
      ∙ elim (Bool-cases (bytes_beq p x)) [
        | inl same ↦ rw (← ((bytes_beq_iff p x).0 same)) (
            ground
              (arith, is_seen-put dist p d p, contains-append p queue (p ∷ []), bytes_beq_iff p p))
        | inr other ↦ ground (arith, is_seen-put dist p d x, contains-append x queue (p ∷ []))
      ]
]

-- The ids to take and the ids to see do not grow.
pub visit_bound :
    (all : List Bytes) (d : ℕ) (ps : List Bytes) (dist : Map Bytes ℕ) (queue : List Bytes)
    → ((p : Bytes) → contains p ps ≡ true → contains p all ≡ true)
    → length (visit d ps (dist, queue)).1 + unseen (visit d ps (dist, queue)).0 all
      ≤ length queue + unseen dist all
unfolding visit contains
visit_bound all d [] dist queue h = omega arith
visit_bound all d (p ∷ ps) dist queue h =
    let known : contains p all ≡ true = h p (ground (arith, bytes_beq_iff p p)) in
    let rest : (q : Bytes) → contains q ps ≡ true → contains q all ≡ true =
      λ q k. h q (ground arith) in
    elim (Bool-cases (is_seen dist p)) [
      | inl old ↦ rw (visit_seen d p ps dist queue old) (visit_bound all d ps dist queue rest)
      | inr new ↦ rw (visit_new d p ps dist queue new) (
          omega (
            arith,
            visit_bound all d ps (put p d dist) (queue ++ p ∷ []) rest,
            unseen-put_new dist p d all new known,
            length-append queue (p ∷ []),
          ))
    ]
