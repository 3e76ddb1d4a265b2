-- ===== src/Engine/Passes/Widths.antt =====
-- The masks that the versions of internal/engine/engine.go hold.
use datagit.Prelude.{ℕ, ◌≤◌, sym, subst, List, Bytes, length}
use datagit.Core.Mask.{ColId}
use datagit.Core.Mask.Bounds.{IsMask, AllWithin, union-IsMask, length-union}
use datagit.Core.Row.Bounds.{mask_of-bounds}
use datagit.Core.Change.{Schema}
use datagit.Engine.State.{Version, new}
use datagit.Engine.Passes.{IsNew, IsRowInvariant, AllRows}
use datagit.Engine.Passes.Calls.{Call, perform_all, perform_all-AllRows}

-- The mask has at most `n` words, and each fits 64 bits.
abbrev pub IsNarrow : ℕ → Version → Type 0
IsNarrow n v = IsMask v.changed × (length v.changed ≤ n)

IsNew-IsNarrow :
    (n : ℕ) (cols : List ColId) (branch commit session : Bytes) (v : Version)
    → AllWithin n cols
    → IsNew cols branch commit session v
    → IsNarrow n v
IsNew-IsNarrow n cols branch commit session v within made =
    let (before, after, mask) = made.mask_is in
    subst (λ m. IsMask m × (length m ≤ n)) (sym mask) (mask_of-bounds before after cols n within)

IsNarrow-IsRowInvariant :
    (n : ℕ) (cols : List ColId) → AllWithin n cols → IsRowInvariant cols (IsNarrow n)
IsNarrow-IsRowInvariant n cols within = record {
  fresh = λ branch k v made. IsNew-IsNarrow n cols branch _ _ v within made;
  staged = λ branch sid v named off made. IsNew-IsNarrow n cols branch _ _ v within made;
  closes = λ v at h. h;
  widens = λ v w h k.
      (union-IsMask v.changed w.changed h.0 k.0, length-union v.changed w.changed n h.1 k.1);
  stamps = λ v k at h. h;
}

-- After any calls of the operations on a new engine, whichever of them fail, each version, staged or
-- committed, holds a mask of at most `n` words, each below 2 ^ 64, where the columns of the schema
-- lie below 64 * n.
pub perform_all-IsNarrow :
    (n : ℕ) (schema : Schema) (calls : List Call)
    → AllWithin n schema.cols
    → AllRows (IsNarrow n) (perform_all calls (new schema)).rows
perform_all-IsNarrow n schema calls within =
    perform_all-AllRows (IsNarrow n) schema calls (IsNarrow-IsRowInvariant n schema.cols within)
