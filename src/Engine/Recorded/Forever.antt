-- ===== src/Engine/Recorded/Forever.antt =====
-- The commits of internal/engine/engine.go through any calls of its operations.
use datagit.Prelude.{
  ℕ, ◌+◌, ◌<◌, ◌≤◌, ◌^◌, refl, length, ◌≡◌, none, some, List, [], ◌∷◌, Bytes, bytes_beq_iff,
  bytes_eq, arith, inl, inr,
}
use datagit.Maps.{lookup, lookup-put}
use datagit.Core.Change.{Schema}
use datagit.Engine.State.{CommitMeta, Engine, commit_name, new}
use datagit.Engine.Commit.Branching.{new-IsSane}
use datagit.Engine.Publish.Invariant.{commit_name-injective}
use datagit.Engine.Passes.Calls.{Call, perform, perform_all}
use datagit.Engine.Recorded.{IsStep, perform-IsStep}

-- No commit has an id that is yet to be given.
IsFresh : Engine → Type 0
IsFresh e = (k : ℕ) → e.next_id < k → lookup (commit_name k) e.commits ≡ none

-- A step gives its commit an id that no commit has, and the later ids stay free.
IsStep-IsFresh : (e e' : Engine) → IsStep e e' → IsFresh e → IsFresh e'
unfolding IsFresh
IsStep-IsFresh e e' (inl (same, still)) h k lt = rw same (h k (omega arith))
IsStep-IsFresh e e' (inr (cm, grown, next)) h k lt = rw grown (
    ground (
      arith,
      lookup-put (commit_name k) (commit_name (e.next_id + 1)) cm e.commits,
      bytes_beq_iff (commit_name (e.next_id + 1)) (commit_name k),
      commit_name-injective (e.next_id + 1) k,
      h k,
    ))

IsStep-keeps :
    (e e' : Engine) (id : Bytes) (cm : CommitMeta)
    → IsStep e e'
    → IsFresh e
    → lookup id e.commits ≡ some cm
    → lookup id e'.commits ≡ some cm
unfolding IsFresh
IsStep-keeps e e' id cm (inl (same, still)) h found = rw same found
IsStep-keeps e e' id cm (inr (new_cm, grown, next)) h found = rw grown (
    ground (
      arith,
      lookup-put id (commit_name (e.next_id + 1)) new_cm e.commits,
      bytes_beq_iff (commit_name (e.next_id + 1)) id,
      h (e.next_id + 1) (omega arith),
    ))

perform_all-IsFresh : (calls : List Call) (e : Engine) → IsFresh e → IsFresh (perform_all calls e)
unfolding perform_all
perform_all-IsFresh [] e h = h
perform_all-IsFresh (call ∷ calls) e h =
    perform_all-IsFresh calls (perform call e)
      (IsStep-IsFresh e (perform call e) (perform-IsStep call e) h)

perform_all-keeps :
    (calls : List Call) (e : Engine) (id : Bytes) (cm : CommitMeta)
    → IsFresh e
    → lookup id e.commits ≡ some cm
    → lookup id (perform_all calls e).commits ≡ some cm
unfolding perform_all
perform_all-keeps [] e id cm h found = found
perform_all-keeps (call ∷ calls) e id cm h found =
    perform_all-keeps calls (perform call e) id cm
      (IsStep-IsFresh e (perform call e) (perform-IsStep call e) h)
      (IsStep-keeps e (perform call e) id cm (perform-IsStep call e) h found)

-- A call gives at most one id.
IsStep-next_id : (e e' : Engine) → IsStep e e' → e'.next_id ≤ e.next_id + 1
IsStep-next_id e e' (inl (same, still)) = omega arith
IsStep-next_id e e' (inr (cm, grown, next)) = omega arith

perform_all-next_id :
    (calls : List Call) (e : Engine) → (perform_all calls e).next_id ≤ e.next_id + length calls
unfolding perform_all
perform_all-next_id [] e = omega arith
perform_all-next_id (call ∷ calls) e = omega (
  arith,
  perform_all-next_id calls (perform call e),
  IsStep-next_id e (perform call e) (perform-IsStep call e),
)

first_id : (schema : Schema) → (new schema).next_id ≡ 1
unfolding new
first_id schema = refl

-- In a run of fewer than 2^63 - 1 calls on a new engine, a commit that the first calls recorded stays
-- as it is, its parents, branch, seq and chain, whatever the later calls are, and the counter of the
-- ids stays below 2^63.
pub commit_forever :
    (schema : Schema) (calls later : List Call) (id : Bytes) (cm : CommitMeta)
    → length calls + length later + 1 < 2 ^ 63
    → lookup id (perform_all calls (new schema)).commits ≡ some cm
    → (lookup id (perform_all later (perform_all calls (new schema))).commits ≡ some cm)
      × ((perform_all later (perform_all calls (new schema))).next_id < 2 ^ 63)
commit_forever schema calls later id cm few found = (
  perform_all-keeps later (perform_all calls (new schema)) id cm
      (perform_all-IsFresh calls (new schema) (unfold IsFresh in (new-IsSane schema).fresh)) found,
  omega (
    arith,
    perform_all-next_id later (perform_all calls (new schema)),
    perform_all-next_id calls (new schema),
    first_id schema,
  ),
)
