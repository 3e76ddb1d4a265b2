-- ===== src/Model/Ancestry/Agree.antt =====
-- `MergeBase` of internal/model/model.go, and that of internal/engine/engine.go beside it.
use datagit.Prelude.{
  suc, ◌≡◌, ◌↔◌, ◌∙◌, refl, ap, sym, true, List, [], ◌∷◌, Bytes, bytes_eq, bytes_beq_iff, arith,
  contains, length,
}
use datagit.Maps.{Map}
use datagit.Maps.Collect.{keys}
use datagit.Engine.State.{CommitMeta}
use datagit.Engine.Ancestry as EngineAncestry
use datagit.Engine.Ancestry.{filter}
use datagit.Engine.Ancestry.Search.{Reaches, here, up}
use datagit.Engine.Ancestry.Bases.{IsBase, lowest-IsBase, contains-filter, merge_base-IsBase}
use datagit.Model.State.{Commit}
use datagit.Model.Ancestry.{parents_of, ancestors, is_ancestor, merge_base}
use datagit.Model.Ancestry.Walk.{IsWalked, missing-length, walk-IsWalked}

length-keys : (commits : Map Bytes Commit) → length (keys commits) ≡ length commits
unfolding keys
length-keys [] = refl
length-keys (c ∷ commits) = ap suc (length-keys commits)

ancestors-IsWalked :
    (commits : Map Bytes Commit) (a : Bytes)
    → IsWalked (parents_of commits) (a ∷ []) [] (ancestors commits a)
unfolding ancestors
ancestors-IsWalked commits a =
    walk-IsWalked commits (suc (suc (length commits))) a []
      (omega (arith, missing-length [] (keys commits), length-keys commits))

walked_up :
    (commits : Map Bytes Commit) (a x : Bytes)
    → Reaches (parents_of commits) a x
    → contains x (ancestors commits a) ≡ true
unfolding contains
walked_up commits a x here =
    (ancestors-IsWalked commits a).taken a (ground (arith, bytes_beq_iff a a))
walked_up commits a x (up {b} below parent) =
    (ancestors-IsWalked commits a).closed b x (walked_up commits a b below) refl parent

-- The walk finds the commit and its ancestors and nothing else.
pub is_ancestor_iff :
    (commits : Map Bytes Commit) (a c : Bytes)
    → (is_ancestor commits a c ≡ true) ↔ Reaches (parents_of commits) a c
unfolding is_ancestor contains
is_ancestor_iff commits a c = (
  (λ h.
      (ancestors-IsWalked commits a).reached a (λ x k. cc)
        (λ x k. let e : a ≡ x = ground (arith, bytes_beq_iff a x) in rw (← e) here) c h),
  (λ h. walked_up commits a c h),
)

depth_first-IsBase :
    (commits : Map Bytes Commit) (a b c : Bytes)
    → (contains c (merge_base commits a b) ≡ true) ↔ IsBase (parents_of commits) a b c
unfolding merge_base
depth_first-IsBase commits a b c =
    lowest-IsBase (parents_of commits) (is_ancestor commits) (is_ancestor_iff commits)
      (filter (λ id. is_ancestor commits b id) (ancestors commits a)) a b
      (λ x.
        contains-filter (λ id. is_ancestor commits b id) (ancestors commits a) x
        ∙ (unfold is_ancestor in refl))
      c

Reaches-mono :
    (ps qs : Bytes → List Bytes) (a x : Bytes)
    → ((id : Bytes) → ps id ≡ qs id)
    → Reaches ps a x
    → Reaches qs a x
Reaches-mono ps qs a x h here = here
Reaches-mono ps qs a x h (up {b} below parent) =
    up (Reaches-mono ps qs a b h below) (rw (← (h b)) parent)

IsBase-mono :
    (ps qs : Bytes → List Bytes) (a b c : Bytes)
    → ((id : Bytes) → ps id ≡ qs id)
    → IsBase ps a b c
    → IsBase qs a b c
IsBase-mono ps qs a b c h base = (
  Reaches-mono ps qs a c h base.0,
  Reaches-mono ps qs b c h base.1,
  λ o ra rb below.
      base.2 o (Reaches-mono qs ps a o (λ id. sym (h id)) ra)
        (Reaches-mono qs ps b o (λ id. sym (h id)) rb)
        (Reaches-mono qs ps o c (λ id. sym (h id)) below),
)

-- The breadth-first `MergeBase` of the engine and the depth-first one of the model list the same commits,
-- where each commit has the same parents in both.
pub merge_bases_agree :
    (es : Map Bytes CommitMeta) (ms : Map Bytes Commit) (a b c : Bytes)
    → ((id : Bytes) → EngineAncestry.parents_of es id ≡ parents_of ms id)
    → contains c (EngineAncestry.merge_base es a b) ≡ contains c (merge_base ms a b)
merge_bases_agree es ms a b c same =
    let there : contains c (EngineAncestry.merge_base es a b) ≡ true
        → contains c (merge_base ms a b) ≡ true =
      λ h. (depth_first-IsBase ms a b c).1 (
        IsBase-mono (EngineAncestry.parents_of es) (parents_of ms) a b c same
          ((merge_base-IsBase es a b c).0 h)) in
    let back : contains c (merge_base ms a b) ≡ true
        → contains c (EngineAncestry.merge_base es a b) ≡ true =
      λ h. (merge_base-IsBase es a b c).1 (
        IsBase-mono (parents_of ms) (EngineAncestry.parents_of es) a b c (λ id. sym (same id))
          ((depth_first-IsBase ms a b c).0 h)) in
    ground (arith, there, back)
