-- ===== src/Engine/Ancestry/Reached.antt =====
-- The breadth-first search of `MergeBase` in internal/engine/engine.go ends within its rounds and finds
-- exactly the ancestors.
use datagit.Prelude.{
  ℕ, zero, suc, ◌+◌, ◌≤◌, ◌≡◌, ◌↔◌, ◌∙◌, refl, sym, true, false, some, List, [], ◌∷◌, Bytes,
  bytes_eq, bytes_beq, bytes_beq_iff, if◌then◌else◌, arith, Bool-cases, inl, inr, eq_self, contains,
  contains-append, length,
}
use datagit.Maps.{Map, lookup, put}
use datagit.Engine.State.{CommitMeta}
use datagit.Engine.Ancestry.{is_seen, visit, dist_at, parents_of, reach_loop, all_parents, reach}
use datagit.Engine.Ancestry.Search.{
  Reaches, here, up, is_seen-put, unseen, is_seen-visit, contains-visit, visit_bound, unseen-length,
}

parents_of-cons :
    (k : Bytes) (cm : CommitMeta) (commits : Map Bytes CommitMeta) (id : Bytes)
    → parents_of ((k, cm) ∷ commits) id
      ≡ (if bytes_beq k id then cm.parents else parents_of commits id)
unfolding parents_of lookup
parents_of-cons k cm commits id = elim (Bool-cases (bytes_beq k id)) [
  | inl same ↦ rw (same, parents_of) refl
  | inr other ↦ rw (other, parents_of) refl
]

-- The parents of a commit are among the parents of all.
parents_of-all :
    (commits : Map Bytes CommitMeta) (id p : Bytes)
    → contains p (parents_of commits id) ≡ true
    → contains p (all_parents commits) ≡ true
unfolding all_parents
parents_of-all [] id p h = (unfold parents_of lookup contains in absurd (ground (arith, h)))
parents_of-all ((k, cm) ∷ commits) id p h = ground (
  arith,
  contains-append p cm.parents (all_parents commits),
  parents_of-cons k cm commits id,
  parents_of-all commits id p,
)

-- What the search has found when it stops: the ancestors of the start, closed under parents.
pub record IsFound (commits : Map Bytes CommitMeta) (start : Bytes) (from dist : Map Bytes ℕ)
    : Type 0 where
  pub reached : (x : Bytes) → is_seen dist x ≡ true → Reaches (parents_of commits) start x
  pub kept : (x : Bytes) → is_seen from x ≡ true → is_seen dist x ≡ true
  pub closed :
      (b p : Bytes)
      → is_seen dist b ≡ true
      → contains p (parents_of commits b) ≡ true
      → is_seen dist p ≡ true

-- Seen ids are reached, ids to take are seen, and a seen id is to take or its parents are seen.
record IsSearching (commits : Map Bytes CommitMeta) (start : Bytes) (queue : List Bytes)
    (dist : Map Bytes ℕ) : Type 0 where
  reached : (x : Bytes) → is_seen dist x ≡ true → Reaches (parents_of commits) start x
  queued : (x : Bytes) → contains x queue ≡ true → is_seen dist x ≡ true
  pending :
      (b p : Bytes)
      → is_seen dist b ≡ true
      → contains b queue ≡ false
      → contains p (parents_of commits b) ≡ true
      → is_seen dist p ≡ true

module _ (commits : Map Bytes CommitMeta) (start : Bytes) where
  -- One round keeps the invariant.
  round-IsSearching :
      (cur : Bytes) (queue : List Bytes) (dist : Map Bytes ℕ) (d : ℕ)
      → IsSearching commits start (cur ∷ queue) dist
      → IsSearching commits start
          (visit d (parents_of commits cur) (dist, queue)).1
          (visit d (parents_of commits cur) (dist, queue)).0
  unfolding contains
  round-IsSearching cur queue dist d inv =
      let ps = parents_of commits cur in
      let cur_seen : is_seen dist cur ≡ true =
        inv.queued cur (ground (arith, bytes_beq_iff cur cur)) in
      record {
        reached = λ x h. elim (Bool-cases (is_seen dist x)) [
          | inl old ↦ inv.reached x old
          | inr new ↦
              up (inv.reached cur cur_seen) (ground (arith, is_seen-visit d ps dist queue x))
        ];
        queued = λ x h. ground (
          arith,
          is_seen-visit d ps dist queue x,
          contains-visit d ps dist queue x,
          inv.queued x,
        );
        pending = λ b p seen waiting parent. elim (Bool-cases (bytes_beq cur b)) [
          | inl same ↦
              let e : cur ≡ b = (bytes_beq_iff cur b).0 same in
              let mine : contains p ps ≡ true = rw (← e) at parent in
              ground (arith, is_seen-visit d ps dist queue p)
          | inr other ↦ ground (
            arith,
            is_seen-visit d ps dist queue p,
            is_seen-visit d ps dist queue b,
            contains-visit d ps dist queue b,
            inv.pending b p,
          )
        ];
      }

  loop-IsFound :
      (fuel : ℕ) (queue : List Bytes) (dist : Map Bytes ℕ)
      → IsSearching commits start queue dist
      → length queue + unseen dist (all_parents commits) ≤ fuel
      → (out : Map Bytes ℕ) × (reach_loop fuel commits queue dist ≡ some out)
        × IsFound commits start dist out
  unfolding reach_loop contains
  loop-IsFound fuel [] dist inv enough = (
    dist,
    refl,
    record {
      reached = inv.reached;
      kept = λ x h. h;
      closed = λ b p seen parent. inv.pending b p seen refl parent;
    },
  )
  loop-IsFound zero (cur ∷ queue) dist inv enough = absurd (omega arith)
  loop-IsFound (suc fuel) (cur ∷ queue) dist inv enough =
      let ps = parents_of commits cur in
      let d = dist_at dist cur + 1 in
      let bound =
        visit_bound (all_parents commits) d ps dist queue (λ p h. parents_of-all commits cur p h) in
      let (out, done, found) =
        loop-IsFound fuel (visit d ps (dist, queue)).1 (visit d ps (dist, queue)).0
          (round-IsSearching cur queue dist d inv) (omega (arith, bound)) in
      (
        out,
        done,
        record {
          reached = found.reached;
          kept = λ x h. found.kept x (ground (arith, is_seen-visit d ps dist queue x));
          closed = found.closed;
        },
      )

is_seen-start : (start x : Bytes) → is_seen (put start 0 []) x ≡ bytes_beq start x
is_seen-start start x = is_seen-put [] start 0 x ∙ (unfold is_seen lookup in ground arith)

start-IsSearching :
    (commits : Map Bytes CommitMeta) (start : Bytes)
    → IsSearching commits start (start ∷ []) (put start 0 [])
unfolding contains
start-IsSearching commits start = record {
  reached = λ x h.
      let e : start ≡ x = (bytes_beq_iff start x).0 (sym (is_seen-start start x) ∙ h) in
      rw (← e) here;
  queued = λ x h. ground (arith, is_seen-start start x);
  pending = λ b p seen waiting parent. absurd (ground (arith, is_seen-start start b));
}

closed_up :
    (commits : Map Bytes CommitMeta) (start : Bytes) (from dist : Map Bytes ℕ) (x : Bytes)
    → IsFound commits start from dist
    → is_seen dist start ≡ true
    → Reaches (parents_of commits) start x
    → is_seen dist x ≡ true
closed_up commits start from dist x found seen here = seen
closed_up commits start from dist x found seen (up {b} below parent) =
    found.closed b x (closed_up commits start from dist b found seen below) parent

-- The search from a commit ends, and finds the commit and its ancestors and nothing else.
pub reach-Reaches :
    (commits : Map Bytes CommitMeta) (start : Bytes)
    → (dist : Map Bytes ℕ) × (reach commits start ≡ some dist)
      × ((x : Bytes) → (is_seen dist x ≡ true) ↔ Reaches (parents_of commits) start x)
unfolding reach
reach-Reaches commits start =
    let (dist, done, found) =
      loop-IsFound commits start (suc (length (all_parents commits))) (start ∷ []) (put start 0 [])
        (start-IsSearching commits start)
        (omega (arith, unseen-length (put start 0 []) (all_parents commits))) in
    let seen : is_seen dist start ≡ true =
      found.kept start (is_seen-start start start ∙ eq_self start) in
    (
      dist,
      done,
      λ x. (
        (λ h. found.reached x h),
        (λ h. closed_up commits start (put start 0 []) dist x found seen h),
      ),
    )
