-- ===== src/Hash.antt =====
-- internal/hash/hash.go: leaf, Merkle, schema and commit digests, and the chain check. SHA-256 of
-- crypto/sha256 is the parameter `sha256`; a digest is the list of its bytes.
pub mod Trees
pub mod Schemas
pub mod Histories
pub mod Commits
pub mod Binding
pub mod Merkle
pub mod Leaf
use datagit.Prelude.{
  ℕ, zero, suc, ◌+◌, Bool, true, false, ◌&&◌, Option, none, some, List, [], ◌∷◌, ◌++◌, Bytes, codes,
  length, nat_beq, ltb, bytes_beq, bytes_ltb, bytes_eq, insertion_sort, if◌then◌else◌,
}
use datagit.Maps.{Map, lookup}
use datagit.Maps.Collect.{bind}
use datagit.Core.Mask.{ColId, ColMask}
use datagit.Core.Row.{Row}
use datagit.Core.Key.{Pk, row_encode}
use datagit.Core.Change.{Op, insert, update, delete, is_delete}
use datagit.Core.Encoding.{append_uint32, append_uint64, append_len_prefixed}

abbrev pub Digest : Type 0
Digest = Bytes

-- `IsZero`
unfoldable pub is_zero : Digest → Bool
is_zero [] = true
is_zero (b ∷ d) = nat_beq b 0 && is_zero d

abbrev pub tag_leaf : ℕ
tag_leaf = 0

abbrev pub tag_internal : ℕ
tag_internal = 1

abbrev pub tag_empty : ℕ
tag_empty = 2

abbrev pub tag_commit : ℕ
tag_commit = 3

abbrev pub tag_schema : ℕ
tag_schema = 4

pub record Change : Type 0 where
  pub table_id : ℕ
  pub pk : Pk
  pub op : Op
  pub changed : ColMask
  pub row : Row

-- `byte(c.Op)`
unfoldable pub op_byte : Op → ℕ
op_byte insert = 1
op_byte update = 2
op_byte delete = 3

-- A word before what is left of the words after it.
strip_word : ℕ → ColMask → ColMask
strip_word w [] = if nat_beq w 0 then [] else w ∷ []
strip_word w (v ∷ m) = w ∷ v ∷ m

-- `maskBytes`'s `n`: the words up to the last one that is not zero.
unfoldable pub strip : ColMask → ColMask
unfolding strip_word
strip [] = []
strip (w ∷ m) = strip_word w (strip m)

append_words : Bytes → List ℕ → Bytes
append_words out [] = out
append_words out (w ∷ ws) = append_words (append_uint64 out w) ws

-- `maskBytes`
unfoldable pub mask_bytes : ColMask → Bytes
unfolding strip append_words append_uint64
mask_bytes m = append_words [] (strip m)

-- What `LeafDigest` hashes before the row.
leaf_head : Change → Bytes
unfolding append_uint64 append_len_prefixed op_byte mask_bytes
leaf_head c =
    let keyed = append_len_prefixed (append_uint64 (tag_leaf ∷ []) c.table_id) c.pk in
    append_len_prefixed (keyed ++ op_byte c.op ∷ []) (mask_bytes c.changed)

-- What `LeafDigest` hashes; `none` is its error.
unfoldable pub leaf_bytes : Change → List ColId → Option Bytes
unfolding leaf_head is_delete
leaf_bytes c cols =
    if is_delete c.op then some (leaf_head c) else row_encode c.row (leaf_head c) cols

pub record SchemaColumn : Type 0 where
  pub id : ColId
  pub name : Bytes
  pub type : Bytes
  pub nullable : Bool
  pub pk : Bool

-- The flags of a column.
unfoldable pub flags : SchemaColumn → ℕ
flags c = (if c.nullable then 1 else 0) + (if c.pk then 2 else 0)

append_columns : Bytes → List SchemaColumn → Bytes
append_columns buf [] = buf
append_columns buf (c ∷ cs) =
    let named = append_len_prefixed (append_uint32 buf c.id) c.name in
    append_columns (append_len_prefixed named c.type ++ flags c ∷ []) cs

-- What `SchemaDigest` hashes.
unfoldable pub schema_bytes : ℕ → List SchemaColumn → Bytes
unfolding append_uint64 append_uint32 append_len_prefixed append_columns flags
schema_bytes table_id cols =
    let sorted = insertion_sort (λ a b. ltb a.id b.id) cols in
    append_columns (append_uint32 (append_uint64 (tag_schema ∷ []) table_id) (length sorted)) sorted

-- The instant `author_at` is its microseconds, the two's complement pattern of an int64.
pub record CommitInput : Type 0 where
  pub repo_id : Bytes
  pub parents : List Digest
  pub change_digest : Digest
  pub schema_digest : Digest
  pub author : Bytes
  pub author_at : ℕ
  pub message : Bytes
  pub external_ref : Bytes

abbrev pub canonical_version : Bytes
canonical_version = codes "datagit.commit.v1"

append_digests : Bytes → List Digest → Bytes
append_digests buf [] = buf
append_digests buf (d ∷ ds) = append_digests (buf ++ d) ds

-- What `CommitID` hashes.
unfoldable pub commit_bytes : CommitInput → Bytes
unfolding append_uint64 append_uint32 append_len_prefixed append_digests
commit_bytes c =
    let parents = insertion_sort bytes_ltb c.parents in
    let start = append_len_prefixed (tag_commit ∷ []) canonical_version ++ c.repo_id in
    let history = append_digests (append_uint32 start (length parents)) parents in
    let content = (history ++ c.change_digest) ++ c.schema_digest in
    let signed = append_uint64 (append_len_prefixed content c.author) c.author_at in
    append_len_prefixed (append_len_prefixed signed c.message) c.external_ref

pub record Commit : Type 0 where
  pub id : Digest
  pub input : CommitInput

-- `for i, c := range commits`: the index, the stored id and the recomputed one of the first commit
-- that fails.
pub record Mismatch : Type 0 where
  pub index : ℕ
  pub stored : Digest
  pub got : Digest

-- `purged[id]`
unfoldable pub is_purged : Map Digest Bool → Digest → Bool
is_purged purged id = elim (lookup id purged) [ none ↦ false | some b ↦ b ]

-- `level[0]`
unfoldable pub first : List Digest → Digest
first [] = []
first (d ∷ level) = d

module _ (sha256 : Bytes → Digest) where
  -- `LeafDigest`
  unfoldable pub leaf_digest : Change → List ColId → Option Digest
  leaf_digest c cols = bind (leaf_bytes c cols) (λ buf. some (sha256 buf))

  -- One round of the loop of `MerkleRoot`.
  unfoldable pub next_level : List Digest → List Digest
  next_level [] = []
  next_level (d ∷ []) = d ∷ []
  next_level (l ∷ r ∷ level) = sha256 (tag_internal ∷ l ++ r) ∷ next_level level

  -- `for len(level) > 1`, with as many rounds as there are digests.
  unfoldable pub merkle_loop : ℕ → List Digest → List Digest
  unfolding next_level
  merkle_loop zero level = level
  merkle_loop (suc n) [] = []
  merkle_loop (suc n) (d ∷ []) = d ∷ []
  merkle_loop (suc n) (l ∷ r ∷ level) = merkle_loop n (next_level (l ∷ r ∷ level))

  -- `MerkleRoot`
  unfoldable pub merkle_root : List Digest → Digest
  unfolding merkle_loop first
  merkle_root [] = sha256 (tag_empty ∷ [])
  merkle_root (d ∷ leaves) =
      first (merkle_loop (length (d ∷ leaves)) (insertion_sort bytes_ltb (d ∷ leaves)))

  -- The loop of `ChangeDigest`.
  unfoldable pub leaf_digests : List Change → List ColId → Option (List Digest)
  unfolding leaf_digest
  leaf_digests [] cols = some []
  leaf_digests (c ∷ changes) cols =
      bind (leaf_digest c cols) (λ d. bind (leaf_digests changes cols) (λ ds. some (d ∷ ds)))

  -- `ChangeDigest`
  unfoldable pub change_digest : List Change → List ColId → Option Digest
  unfolding leaf_digests merkle_root
  change_digest changes cols =
      bind (leaf_digests changes cols) (λ leaves. some (merkle_root leaves))

  -- `SchemaDigest`
  unfoldable pub schema_digest : ℕ → List SchemaColumn → Digest
  unfolding schema_bytes
  schema_digest table_id cols = sha256 (schema_bytes table_id cols)

  -- `CommitID`
  unfoldable pub commit_id : CommitInput → Digest
  unfolding commit_bytes
  commit_id c = sha256 (commit_bytes c)

  unfoldable pub verify_from : ℕ → List Commit → Map Digest Bool → Option Mismatch
  unfolding is_purged commit_id
  verify_from i [] purged = none
  verify_from i (c ∷ commits) purged =
      let rest = verify_from (i + 1) commits purged in
      if is_purged purged c.id
      then rest
      else if bytes_beq (commit_id c.input) c.id
      then rest
      else some (record { index = i; stored = c.id; got = commit_id c.input })

  -- `VerifyChain`
  unfoldable pub verify_chain : List Commit → Map Digest Bool → Option Mismatch
  unfolding verify_from
  verify_chain = verify_from 0
