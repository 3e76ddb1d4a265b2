-- ===== src/Engine/Resolve.antt =====
-- Resolution in internal/engine/engine.go: `winners`, `resolveChain` and the reads that use them.
pub mod Winner
pub mod Filtered
use datagit.Prelude.{
  ℕ, zero, suc, ◌+◌, Bool, true, false, not, ◌&&◌, ◌||◌, Option, none, some, List, [], ◌∷◌, Bytes,
  bytes_beq, bytes_eq, leb, ltb, if◌then◌else◌,
}
use datagit.Maps.{Map, lookup, put}
use datagit.Maps.Collect.{collect}
use datagit.Core.Row.{Row}
use datagit.Core.Row as Row
use datagit.Core.Key.{Pk}
use datagit.Core.Change.{Op, update, is_delete, Change, ChangeSet, Table}
use datagit.Engine.State.{Version, Segment, Engine, chain_for}

-- The maps `best` and `bestPrio` of `winners`. A priority stands here one higher than in the code,
-- where the session's is -1.
pub record Best : Type 0 where
  pub versions : Map Pk Version
  pub prios : Map Pk ℕ

outranked : Option ℕ → ℕ → Bool
outranked none prio = false
outranked (some p) prio = leb p prio

-- `consider`
unfoldable pub consider : ℕ → Version → Best → Best
unfolding outranked
consider prio v best =
    if outranked (lookup v.pk best.prios) prio
    then best
    else record { versions = put v.pk v best.versions; prios = put v.pk prio best.prios }

-- A pass over the rows at one priority: `consider` for the versions that pass the test.
scan : (Version → Bool) → ℕ → List Version → Best → Best
unfolding consider
scan test prio [] best = best
scan test prio (v ∷ rows) best = scan test prio rows (if test v then consider prio v best else best)

-- A committed version of the segment's branch whose interval holds the segment's seq.
unfoldable pub in_segment : Segment → Version → Bool
in_segment seg v =
    bytes_beq v.session []
    && bytes_beq v.branch seg.branch
    && (leb v.seq_from seg.seq && ltb seg.seq v.seq_to)

scan_chain : ℕ → List Segment → List Version → Best → Best
unfolding scan in_segment
scan_chain prio [] rows best = best
scan_chain prio (seg ∷ chain) rows best =
    scan_chain (prio + 1) chain rows (scan (in_segment seg) prio rows best)

abbrev pub no_best : Best
no_best = record { versions = []; prios = [] }

-- `winners`
unfoldable pub winners : List Version → List Segment → Bytes → Map Pk Version
unfolding scan scan_chain
winners rows chain sid =
    (scan_chain 1 chain rows (
      if bytes_beq sid []
      then no_best
      else scan (λ v. bytes_beq v.session sid) 0 rows no_best)).versions

-- A tombstone has no row to show.
unfoldable pub live : Pk → Version → Option Row
live pk v = if is_delete v.op then none else some v.row

-- `resolveChain`
unfoldable pub resolve_chain : List Version → List Segment → Bytes → Table
unfolding winners live
resolve_chain rows chain sid = collect live (winners rows chain sid)

-- `Resolve`: reading the nil table is reading the empty one.
unfoldable pub resolve : Engine → Bytes → Table
unfolding resolve_chain chain_for
resolve e branch = elim (lookup branch e.branches) [
  | none ↦ []
  | some b ↦ resolve_chain e.rows (chain_for e.branches branch b.head_seq) []
]

-- `StateAtCommit`
unfoldable pub state_at_commit : Engine → Bytes → Table
unfolding resolve_chain
state_at_commit e id = elim (lookup id e.commits) [
  | none ↦ []
  | some cm ↦ resolve_chain e.rows cm.chain []
]

-- Pass 1 of `ResolveFiltered`.
candidates_in : (Row → Bool) → Segment → List Version → Map Pk Bool → Map Pk Bool
unfolding in_segment
candidates_in pred seg [] seen = seen
candidates_in pred seg (v ∷ rows) seen =
    candidates_in pred seg rows (
      if in_segment seg v && (not (is_delete v.op) && pred v.row) then put v.pk true seen else seen)

candidates : (Row → Bool) → List Segment → List Version → Map Pk Bool → Map Pk Bool
unfolding candidates_in
candidates pred [] rows seen = seen
candidates pred (seg ∷ chain) rows seen =
    candidates pred chain rows (candidates_in pred seg rows seen)

-- `candidates[pk]`: the zero value of a missing key is false.
is_candidate : Map Pk Bool → Pk → Bool
is_candidate seen pk = elim (lookup pk seen) [ none ↦ false | some b ↦ b ]

-- Pass 2 of `ResolveFiltered`.
keep : (Row → Bool) → Map Pk Bool → Pk → Version → Option Row
unfolding is_candidate
keep pred seen pk v =
    if not (is_candidate seen pk) || is_delete v.op
    then none
    else if pred v.row
    then some v.row
    else none

-- `ResolveFiltered`
unfoldable pub resolve_filtered : Engine → Bytes → (Row → Bool) → Table
unfolding candidates keep winners chain_for
resolve_filtered e branch pred = elim (lookup branch e.branches) [
  | none ↦ []
  | some b ↦
      let chain = chain_for e.branches branch b.head_seq in
      collect (keep pred (candidates pred chain e.rows [])) (winners e.rows chain [])
]

-- The loop body of `PlanUpdateWhere`.
plan : (Row → Row) → Pk → Row → Option Change
plan assign pk row =
    let next = assign row in
    if Row.equal next row
    then none
    else some (record { pk = pk; op = update; row = next; changed = [] })

-- `PlanUpdateWhere`
unfoldable pub plan_update_where : Engine → Bytes → (Row → Bool) → (Row → Row) → ChangeSet
unfolding resolve_filtered plan
plan_update_where e branch pred assign = collect (plan assign) (resolve_filtered e branch pred)
