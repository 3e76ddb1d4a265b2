-- ===== src/Lib.antt =====
-- Verification of datagit's version model: the core data of internal/core, the interval engine of
-- internal/engine, the snapshot model of internal/model that it is compared with, the hash chain of
-- internal/hash over its commits, the rewriting of SQL in internal/db, and the schema engine of
-- internal/schemaeng.
--
-- The parts and the files that model them:
--
--   - Core/Value, Core/Encoding: `Value`, `Equal` and the canonical encoding of internal/core/value.go,
--     with `decodeValue` of internal/store/values.go. An int64 is its two's complement pattern below
--     2 ^ 64, a float64 its IEEE-754 pattern, a string the list of its bytes. `decodeValue` compares the
--     length of what is left as a uint32; Core/Encoding/Exact has a reader that does not, and the bound
--     under which the two agree.
--   - Core/Row, Core/Key: `Row`, `MakePK` and `Row.Encode` of internal/core/value.go, `MaskOf` of
--     internal/core/mask.go and `decodePK` of internal/store/values.go. A nil row is `none`.
--   - Core/Mask: `ColMask` of internal/core/mask.go, a list of 64-bit words.
--   - Core/Change: change sets, conflicts and tables of internal/core/change.go.
--   - Engine/State, Engine/Resolve, Engine/Commit: the versions, branches and chains of
--     internal/engine/engine.go, `winners`, `resolveChain`, `Resolve`, `StateAtCommit`,
--     `ResolveFiltered`, `PlanUpdateWhere`, `Commit` and `CreateBranch`.
--   - Engine/Ancestry, Engine/Masks, Engine/Merging: `MergeBase`, `maskSince`, `applyMergeResult`, `Merge`
--     and `UpdateFromParent`.
--   - Engine/Sessions, Engine/Diff, Engine/Probes: the session operations, `Diff`, and the probes
--     `OpenVersionsPerKey`, `IntervalsSane`, `StagedOnBranch` and `ZeroHashOnBranch`. Engine/Sessions has
--     child modules on the reads outside a session and on closed sessions, Engine/Diff on the keys that
--     `Diff` does not look at and on what it gives.
--   - Hash: every digest of internal/hash/hash.go and `VerifyChain`, over SHA-256 as a parameter, with what
--     is hashed as a list of bytes; Hash/Trees has the trees that `MerkleRoot` builds.
--   - Rebind: `Rebind`, `Reorder` and `QuoteToBacktick` of internal/db/rebind.go, one round of each loop a
--     function of its own.
--   - SchemaEngine and its child modules: internal/schemaeng/schema.go, one module for each of the type
--     classes, `Diff`, `Merge` and `Plan`, and the statements of internal/adapter/postgres/ddl.go and
--     internal/adapter/mysql/ddl.go that a plan is made of.
--   - Merge, Merge/Cells: the case table of `mergeStates` and `mergeTables`, which the engine and the
--     model write out alike, with the merge of two changed rows as a parameter.
--   - Model: every operation of internal/model/model.go.
--
-- How they interact: a commit closes the open versions of the keys it changes and appends new ones; a
-- branch inherits a chain of segments from its parent at the fork; a read takes of each key the version
-- of the first segment that has one. Merges compare the state at the merge base with the two heads. The
-- engine and the model are driven by the same calls, and Model/Refinement relates their states.
--
-- The engine is a record that each operation takes and returns, with a `Result` for its error. A Go map is
-- an association list, of which only lookups are stated, since Go does not fix the order of ranging
-- either. `Clone` has no trace here, since values are not mutated. An id that the code dereferences
-- without a test gives the error `nil_pointer` where a state changes, and so does an assignment to a nil
-- map; the state of such a panic is the one from before the call. Priorities in `winners` stand one
-- higher than in the code, where the session's is -1.
--
-- Engine/History/Shown describes a read by the history of a key on each branch of the chain.
-- Engine/History, Engine/Publish and Engine/Commit's child modules hold the invariant of the engine: the
-- versions of a key on a branch form a timeline of adjoining intervals that ends with an open one. Sequence
-- numbers stay below `MaxSeq`, which the theorems on `Commit` take as a hypothesis, and which a run of
-- fewer than 2 ^ 63 - 2 calls keeps. The counters of commit and session ids are an int in the code and
-- natural numbers here, which agree below 2 ^ 63; a call raises each by at most one. Change sets hold each
-- change under its own key.
--
-- Engine/Passes follows a property of single versions through every operation, for any sequence of calls:
-- its interface asks that operations give the property to the versions they make and keep it for those
-- they change in place, and its child modules fill it. Engine/Recorded follows the map of commits in the
-- same way.
--
-- Bounds: the breadth-first search of `MergeBase` has as many rounds as there are parents in the commit
-- map, plus one, since each round beyond the first takes an id that a commit names as its parent and
-- that was not seen before; the depth-first search of the model has a depth of two more than the number
-- of commits, since each level but the last two is a new commit.
--
-- The loops of internal/db/rebind.go read the text from left to right, a count of bytes to pass over
-- standing for the index that they move; `Atoi` gives the largest int64 where a number is larger. The
-- loop of `MerkleRoot` has as many rounds as there are leaves, since each round takes at least one digest
-- away. SQL types are ASCII text, for `ToLower` and `TrimSpace`. SHA-256 is a parameter of which at most the length of its digests is used; where a theorem could
-- fail on a collision, it gives the two texts that collide.
--
-- Not modelled: the store's SQL, the server, the adapters and the command line, which are I/O; the printing
-- of values and digests.
pub mod Core
pub mod Engine
pub mod Examples
pub mod Hash
pub mod Maps
pub mod Merge
pub mod Model
pub mod Prelude
pub mod Rebind
pub mod SchemaEngine
