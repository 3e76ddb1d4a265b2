-- ===== src/Engine/Passes/Root.antt =====
-- What `StagedOnBranch` and `ZeroHashOnBranch` of internal/engine/engine.go find.
use datagit.Prelude.{
  ℕ, ◌≡◌, refl, true, false, Bool, not, ◌&&◌, List, [], ◌∷◌, Bytes, bytes_beq, bytes_beq_iff,
  if◌then◌else◌, arith,
}
use datagit.Core.Mask.{ColId}
use datagit.Core.Change.{Schema}
use datagit.Engine.State.{Version, new, root_branch, commit_name}
use datagit.Engine.Passes.{IsRowInvariant, AllRows}
use datagit.Engine.Passes.Calls.{Call, perform_all, perform_all-AllRows}
use datagit.Engine.Probes.{count, staged_on_branch, zero_hash_on_branch}

-- A committed version has a commit, and a staged one is not on the root branch.
abbrev is_proper : Version → Bool
is_proper v =
    if bytes_beq v.session []
    then not (bytes_beq v.commit [])
    else not (bytes_beq v.branch root_branch)

abbrev IsProper : Version → Type 0
IsProper v = is_proper v ≡ true

commit_name_named : (k : ℕ) → bytes_beq (commit_name k) [] ≡ false
unfolding commit_name bytes_beq
commit_name_named k = refl

IsProper-IsRowInvariant : (cols : List ColId) → IsRowInvariant cols IsProper
IsProper-IsRowInvariant cols = record {
  fresh = λ branch k v made.
      rw (made.session_is, made.commit_is)
        (ground (arith, commit_name_named k, bytes_beq_iff [] []));
  staged = λ branch sid v named off made. rw (made.session_is, made.branch_is) (ground arith);
  closes = λ v at h. h;
  widens = λ v w h k. h;
  stamps = λ v k at h. ground (arith, commit_name_named k, bytes_beq_iff [] []);
}

none_staged :
    (rows : List Version)
    → AllRows IsProper rows
    → count (λ v. bytes_beq v.branch root_branch && not (bytes_beq v.session [])) rows ≡ 0
unfolding count
none_staged [] h = refl
none_staged (v ∷ rows) h = ground (arith, h.0, none_staged rows h.1)

none_without_commit :
    (branch : Bytes) (rows : List Version)
    → AllRows IsProper rows
    → count
        (λ v. (bytes_beq v.branch branch && bytes_beq v.commit []) && bytes_beq v.session [])
        rows
      ≡ 0
unfolding count
none_without_commit branch [] h = refl
none_without_commit branch (v ∷ rows) h = ground (arith, h.0, none_without_commit branch rows h.1)

-- After any calls of the operations on a new engine, whichever of them fail, `StagedOnBranch` finds
-- nothing on the root branch and `ZeroHashOnBranch` nothing on any branch.
pub perform_all-probes :
    (schema : Schema) (calls : List Call) (branch : Bytes)
    → (staged_on_branch (perform_all calls (new schema)) root_branch ≡ 0)
      × (zero_hash_on_branch (perform_all calls (new schema)) branch ≡ 0)
unfolding staged_on_branch zero_hash_on_branch
perform_all-probes schema calls branch =
    let proper = perform_all-AllRows IsProper schema calls (IsProper-IsRowInvariant schema.cols) in
    (
      none_staged (perform_all calls (new schema)).rows proper,
      none_without_commit branch (perform_all calls (new schema)).rows proper,
    )
