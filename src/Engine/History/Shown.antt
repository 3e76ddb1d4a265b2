-- ===== src/Engine/History/Shown.antt =====
-- What `resolveChain` of internal/engine/engine.go shows, by the history of a key on each branch of the
-- chain.
use datagit.Prelude.{
  bytes_eq, ◌≡◌, ◌∙◌, refl, Option, none, some, List, [], ◌∷◌, Bytes, or_else, if◌then◌else◌,
}
use datagit.Maps.{lookup}
use datagit.Maps.Collect.{bind}
use datagit.Core.Row.{Row}
use datagit.Core.Key.{Pk}
use datagit.Core.Change.{Op, insert, update, delete, is_delete}
use datagit.Engine.State.{Version, Segment}
use datagit.Engine.Resolve.{live, resolve_chain}
use datagit.Engine.Resolve.Winner.{winner, session_winner, lookup-resolve_chain}
use datagit.Engine.History.{history, shown_at, first-in_segment}

-- The first branch of the chain that has a version at its seq decides.
abbrev pub chain_shows : List Version → List Segment → Pk → Option Version
chain_shows rows [] j = none
chain_shows rows (seg ∷ chain) j =
    or_else (shown_at seg.seq (history seg.branch j rows)) (chain_shows rows chain j)

-- What a version shows: the row of an insert or an update, and nothing after a delete.
abbrev pub row_shown : Op → Row → Option Row
row_shown insert row = some row
row_shown update row = some row
row_shown delete row = none

row_shown-is_delete :
    (op : Op) (row : Row) → (if is_delete op then none else some row) ≡ row_shown op row
unfolding is_delete
row_shown-is_delete insert row = refl
row_shown-is_delete update row = refl
row_shown-is_delete delete row = refl

live-row_shown : (j : Pk) (v : Version) → live j v ≡ row_shown v.op v.row
unfolding live
live-row_shown j v = row_shown-is_delete v.op v.row

winner-chain_shows :
    (rows : List Version) (chain : List Segment) (j : Pk)
    → winner rows chain j ≡ chain_shows rows chain j
unfolding winner
winner-chain_shows rows [] j = refl
winner-chain_shows rows (seg ∷ chain) j =
    rw (first-in_segment seg j rows, winner-chain_shows rows chain j) refl

bind_same :
    (o : Option Version) (f g : Version → Option Row)
    → ((v : Version) → f v ≡ g v)
    → bind o f ≡ bind o g
bind_same none f g h = refl
bind_same (some v) f g h = h v

-- `resolveChain` shows of each key the row that the first version staged by the session gives, or else
-- the one that the first branch of the chain gives whose history has a version with
-- `seqFrom <= seq < seqTo`: the row of an insert or an update, and nothing after a delete.
pub resolve_chain_shows :
    (rows : List Version) (chain : List Segment) (sid : Bytes) (j : Pk)
    → lookup j (resolve_chain rows chain sid)
      ≡ bind
          (or_else (session_winner sid rows j) (chain_shows rows chain j))
          (λ v. row_shown v.op v.row)
resolve_chain_shows rows chain sid j =
    lookup-resolve_chain rows chain sid j
    ∙ rw (winner-chain_shows rows chain j)
        (bind_same _ (live j) (λ v. row_shown v.op v.row) (live-row_shown j))
