-- ===== src/Engine/State.antt =====
-- The data of internal/engine/engine.go, `New`, and the chains. Sequence numbers are int64 values
-- that are not negative.
use datagit.Prelude.{
  ℕ, ◌-◌, ◌^◌, Bool, none, some, List, [], ◌∷◌, ◌++◌, Bytes, codes, decimal, bytes_eq,
}
use datagit.Maps.{Map, lookup, put}
use datagit.Core.Mask.{ColMask}
use datagit.Core.Row.{Row}
use datagit.Core.Key.{Pk}
use datagit.Core.Change.{Op, Schema}

-- `MaxSeq`, math.MaxInt64
abbrev pub max_seq : ℕ
max_seq = 2 ^ 63 - 1

pub record Version : Type 0 where
  pub branch : Bytes
  pub pk : Pk
  pub seq_from : ℕ
  pub seq_to : ℕ
  pub op : Op
  pub commit : Bytes
  pub session : Bytes
  pub changed : ColMask
  pub row : Row

pub record Segment : Type 0 where
  pub branch : Bytes
  pub seq : ℕ

pub record Branch : Type 0 where
  pub name : Bytes
  pub head_seq : ℕ
  pub head_commit : Bytes
  pub parent : Bytes
  pub fork_seq : ℕ
  pub fork_commit : Bytes
  pub chain : List Segment

pub record CommitMeta : Type 0 where
  pub id : Bytes
  pub parents : List Bytes
  pub branch : Bytes
  pub seq : ℕ
  pub chain : List Segment

pub record Session : Type 0 where
  pub id : Bytes
  pub branch : Bytes
  pub base : Bytes
  pub base_seq : ℕ
  pub is_open : Bool

-- The counters are an int in the code, and agree with these while they are below 2 ^ 63.
pub record Engine : Type 0 where
  pub schema : Schema
  pub rows : List Version
  pub branches : Map Bytes Branch
  pub commits : Map Bytes CommitMeta
  pub sessions : Map Bytes Session
  pub next_id : ℕ
  pub next_sess : ℕ

abbrev pub root_branch : Bytes
root_branch = codes "main"

abbrev pub segment : Bytes → ℕ → Segment
segment b s = record { branch = b; seq = s }

-- The id that `newCommitID` returns where `nextID` has become `n`.
unfoldable pub commit_name : ℕ → Bytes
commit_name n = codes "c" ++ decimal n

-- `New`: the counter becomes 1 before the root's id is printed.
unfoldable pub new : Schema → Engine
new schema =
    let root = commit_name 1 in
    record {
      schema = schema;
      rows = [];
      branches =
          put root_branch
            (record {
              name = root_branch;
              head_seq = 0;
              head_commit = root;
              parent = [];
              fork_seq = 0;
              fork_commit = [];
              chain = [];
            })
            [];
      commits =
          put root
            (record {
              id = root;
              parents = [];
              branch = root_branch;
              seq = 0;
              chain = segment root_branch 0 ∷ [];
            })
            [];
      sessions = [];
      next_id = 1;
      next_sess = 0;
    }

-- `Head`, `ForkCommit`, `HeadSeq`
unfoldable pub head : Engine → Bytes → Bytes
head e branch = elim (lookup branch e.branches) [ none ↦ [] | some b ↦ b.head_commit ]

unfoldable pub fork_commit : Engine → Bytes → Bytes
fork_commit e branch = elim (lookup branch e.branches) [ none ↦ [] | some b ↦ b.fork_commit ]

unfoldable pub head_seq : Engine → Bytes → ℕ
head_seq e branch = elim (lookup branch e.branches) [ none ↦ 0 | some b ↦ b.head_seq ]

-- `chainFor`
unfoldable pub chain_for : Map Bytes Branch → Bytes → ℕ → List Segment
chain_for branches branch at_seq = elim (lookup branch branches) [
  | none ↦ segment branch at_seq ∷ []
  | some b ↦ segment branch at_seq ∷ b.chain
]

-- `inheritedChainFrom`, given the parent that it reads from the map.
unfoldable pub inherited_chain_from : Bytes → Branch → List Segment
inherited_chain_from parent p = segment parent p.head_seq ∷ p.chain
