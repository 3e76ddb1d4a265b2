-- ===== src/Examples/Stagings.antt =====
-- The theorems on sessions at a concrete engine: one open session on a branch.
use datagit.Prelude.{
  ◌≡◌, refl, false, [], Bytes, bytes_eq, bytes_beq, codes, ok, decimal, insertion_sort,
}
use datagit.Maps.{lookup, put}
use datagit.Maps.Collect.{values}
use datagit.Core.Change.{sorted, is_delete}
use datagit.Engine.State as EngineState
use datagit.Engine.State.{Engine, root_branch, commit_name}
use datagit.Engine.Commit.{create_branch}
use datagit.Engine.Sessions.{open_session, session_write, commit_session}
use datagit.Engine.Sessions.Isolation.{SameReads, session_write-SameReads}
use datagit.Examples.{dev, first_changes, start}
use datagit.Engine.Sessions.Closing.{IsOver, commit_session-IsOver}

abbrev session : Bytes
session = codes "s1"

named : bytes_beq session [] ≡ false
unfolding bytes_beq
named = refl

abbrev opened : Engine
opened = (open_session (create_branch start dev root_branch).0 dev).0

session_write-SameReads_example : SameReads opened (session_write opened session first_changes).0
session_write-SameReads_example = session_write-SameReads opened session first_changes named

abbrev written : Engine
written = (session_write opened session first_changes).0

landed : (commit_session written session).1 ≡ ok (commit_name 2)
unfolding commit_session lookup session_write open_session create_branch EngineState.new put
    bytes_beq decimal commit_name sorted insertion_sort values is_delete
landed = refl

commit_session-IsOver_example : IsOver (commit_session written session).0 session
commit_session-IsOver_example = commit_session-IsOver written session (commit_name 2) landed
