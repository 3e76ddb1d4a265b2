-- ===== src/Model/State.antt =====
-- The data of internal/model/model.go, `New` and the reads of one branch or commit.
use datagit.Prelude.{ℕ, Bool, none, some, List, [], Bytes, bytes_eq}
use datagit.Maps.{Map, lookup, put}
use datagit.Core.Change.{Schema, Table}
use datagit.Engine.State.{root_branch, commit_name}

pub record Commit : Type 0 where
  pub id : Bytes
  pub parents : List Bytes
  pub branch : Bytes
  pub seq : ℕ
  pub state : Table

pub record Branch : Type 0 where
  pub name : Bytes
  pub head : Bytes
  pub parent : Bytes
  pub fork_commit : Bytes

pub record Session : Type 0 where
  pub id : Bytes
  pub branch : Bytes
  pub base : Bytes
  pub overlay : Table
  pub is_open : Bool

-- The counters are an int in the code, and agree with these while they are below 2 ^ 63.
pub record Repo : Type 0 where
  pub schema : Schema
  pub commits : Map Bytes Commit
  pub branches : Map Bytes Branch
  pub sessions : Map Bytes Session
  pub next_id : ℕ
  pub next_sess : ℕ

-- `New`
unfoldable pub new : Schema → Repo
new schema =
    let root = commit_name 1 in
    record {
      schema = schema;
      commits =
          put root (record { id = root; parents = []; branch = root_branch; seq = 0; state = [] })
            [];
      branches =
          put root_branch
            (record { name = root_branch; head = root; parent = []; fork_commit = [] }) [];
      sessions = [];
      next_id = 1;
      next_sess = 0;
    }

-- `Head` and `ForkCommit`
unfoldable pub head : Repo → Bytes → Bytes
head r branch = elim (lookup branch r.branches) [ none ↦ [] | some b ↦ b.head ]

unfoldable pub fork_commit : Repo → Bytes → Bytes
fork_commit r branch = elim (lookup branch r.branches) [ none ↦ [] | some b ↦ b.fork_commit ]

-- `ResolveAt`
unfoldable pub resolve_at : Repo → Bytes → Table
resolve_at r id = elim (lookup id r.commits) [ none ↦ [] | some c ↦ c.state ]

-- `Resolve`: the head of a branch is a commit of the map.
unfoldable pub resolve : Repo → Bytes → Table
unfolding resolve_at
resolve r branch = elim (lookup branch r.branches) [ none ↦ [] | some b ↦ resolve_at r b.head ]
