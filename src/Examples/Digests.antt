-- ===== src/Examples/Digests.antt =====
-- The theorems on the hash chain at concrete changes and commits, with a stand-in for SHA-256 that
-- keeps the first 32 bytes.
use mathlib.Core.List.{Perm}
use mathlib.Core.List.Perm
use datagit.Prelude.{
  ℕ, zero, suc, ◌≡◌, ◌⊎◌, refl, ap, inr, true, false, none, some, List, [], ◌∷◌, Bytes, bytes_eq,
  codes, length, arith, replicate, insertion_sort, bytes_ltb,
}
use datagit.Maps.{lookup}
use datagit.Core.Mask.{ColId}
use datagit.Core.Row.{get}
use datagit.Core.Key.{row_encode}
use datagit.Core.Encoding.{encode}
use datagit.Core.Encoding.BigEndian.{big_endian}
use datagit.Core.Value.{int, text}
use datagit.Core.Change.{insert, delete}
use datagit.Hash.{
  Digest, Change, SchemaColumn, CommitInput, Commit, mask_bytes, commit_bytes, leaf_bytes,
  change_digest, schema_digest, commit_id, verify_chain,
}
use datagit.Hash.Trees.{Collision}
use datagit.Hash.Leaf as Leaf
use datagit.Hash.Leaf.{SameChange, leaf_bytes_eq, leaf_bytes-widen}
use datagit.Hash.Merkle.{change_digest-perm}
use datagit.Hash.Binding.{leaves_of, change_digest-binds}
use datagit.Hash.Schemas.{schema_digest-binds}
use datagit.Hash.Commits as Commits
use datagit.Hash.Commits.{SameCommit, commit_id-binds, commit_id-perm, AllHold, verify_chain_iff}
use datagit.Hash.Histories.{SameHistory, verify_chain-binds}
use datagit.Examples.{key}

padded : ℕ → Bytes → Digest
padded zero b = []
padded (suc n) [] = 0 ∷ padded n []
padded (suc n) (x ∷ b) = x ∷ padded n b

length-padded : (n : ℕ) (b : Bytes) → length (padded n b) ≡ n
unfolding padded
length-padded zero b = refl
length-padded (suc n) [] = ap suc (length-padded n [])
length-padded (suc n) (x ∷ b) = ap suc (length-padded n b)

abbrev toy : Bytes → Digest
toy = padded 32

abbrev columns : List ColId
columns = 1 ∷ 2 ∷ []

abbrev added : Change
added = record {
  table_id = 5;
  pk = key;
  op = insert;
  changed = 6 ∷ [];
  row = some ((1, int 7) ∷ (2, text (codes "x")) ∷ []);
}

abbrev dropped : Change
dropped = record { table_id = 5; pk = codes "k8"; op = delete; changed = []; row = none }

-- The same change under a mask that a later schema has widened.
abbrev added_wide : Change
added_wide = record added { changed = 6 ∷ 0 ∷ [] }

abbrev leaf_of_added : Bytes
unfolding leaf_bytes
leaf_of_added = elim (leaf_bytes added columns) [ none ↦ [] | some b ↦ b ]

added_leaf : leaf_bytes added columns ≡ some leaf_of_added
unfolding leaf_of_added row_encode encode get lookup
added_leaf = refl

added_wide_leaf : leaf_bytes added_wide columns ≡ some leaf_of_added
unfolding leaf_of_added row_encode encode get lookup
added_wide_leaf = refl

added-Fits : Leaf.Fits added columns
unfolding mask_bytes get lookup big_endian
added-Fits = record {
  table = omega arith;
  key = omega arith;
  mask = omega arith;
  words = omega arith;
  cells = omega arith;
}

added_wide-Fits : Leaf.Fits added_wide columns
unfolding mask_bytes get lookup big_endian
added_wide-Fits = record {
  table = omega arith;
  key = omega arith;
  mask = omega arith;
  words = omega arith;
  cells = omega arith;
}

leaf_bytes_eq_example : SameChange added added_wide columns
leaf_bytes_eq_example =
    leaf_bytes_eq added added_wide columns leaf_of_added added-Fits added_wide-Fits added_leaf
      added_wide_leaf

leaf_bytes-widen_example :
    leaf_bytes (record added { changed = 6 ∷ replicate 2 0 }) columns ≡ leaf_bytes added columns
leaf_bytes-widen_example = leaf_bytes-widen added 2 columns

swapped : Perm (added ∷ dropped ∷ []) (dropped ∷ added ∷ [])
swapped = Perm.swap dropped added []

change_digest-perm_example :
    change_digest toy (added ∷ dropped ∷ []) columns
    ≡ change_digest toy (dropped ∷ added ∷ []) columns
change_digest-perm_example =
    change_digest-perm toy (added ∷ dropped ∷ []) (dropped ∷ added ∷ []) columns swapped

abbrev digest_of_two : Digest
unfolding change_digest
digest_of_two = elim (change_digest toy (added ∷ dropped ∷ []) columns) [ none ↦ [] | some d ↦ d ]

two_digest : change_digest toy (added ∷ dropped ∷ []) columns ≡ some digest_of_two
unfolding digest_of_two row_encode encode get lookup change_digest leaf_bytes big_endian padded
    insertion_sort bytes_ltb
two_digest = refl

two_digest_wide : change_digest toy (dropped ∷ added_wide ∷ []) columns ≡ some digest_of_two
unfolding digest_of_two row_encode encode get lookup change_digest leaf_bytes big_endian padded
    insertion_sort bytes_ltb
two_digest_wide = refl

change_digest-binds_example :
    Perm (leaves_of (added ∷ dropped ∷ []) columns) (leaves_of (dropped ∷ added_wide ∷ []) columns)
    ⊎ Collision toy
change_digest-binds_example =
    change_digest-binds toy (length-padded 32) (added ∷ dropped ∷ []) (dropped ∷ added_wide ∷ [])
      columns columns digest_of_two two_digest two_digest_wide

abbrev id_column : SchemaColumn
id_column = record { id = 1; name = codes "id"; type = codes "bigint"; nullable = false; pk = true }

abbrev name_column : SchemaColumn
name_column = record {
  id = 2;
  name = codes "name";
  type = codes "text";
  nullable = true;
  pk = false;
}

two_schemas :
    schema_digest toy 5 (id_column ∷ name_column ∷ [])
    ≡ schema_digest toy 5 (name_column ∷ id_column ∷ [])
unfolding schema_digest insertion_sort
two_schemas = refl

schema_digest-binds_example :
    (◌≡◌ {A = ℕ} 5 5 × Perm (id_column ∷ name_column ∷ []) (name_column ∷ id_column ∷ []))
    ⊎ Collision toy
schema_digest-binds_example =
    schema_digest-binds toy 5 5 (id_column ∷ name_column ∷ []) (name_column ∷ id_column ∷ [])
      (omega arith) (omega arith) (omega arith) (omega arith) (omega arith) (omega arith)
      two_schemas

abbrev root_input : CommitInput
root_input = record {
  repo_id = replicate 16 7;
  parents = [];
  change_digest = replicate 32 1;
  schema_digest = replicate 32 2;
  author = codes "ada";
  author_at = 1700000000000000;
  message = codes "start";
  external_ref = [];
}

abbrev root_commit : Commit
root_commit = record { id = commit_id toy root_input; input = root_input }

abbrev tip_input : CommitInput
tip_input = record root_input { parents = root_commit.id ∷ []; message = codes "more" }

abbrev tip_commit : Commit
tip_commit = record { id = commit_id toy tip_input; input = tip_input }

root-Fits : Commits.Fits root_input
root-Fits = record {
  repo = refl;
  parents = tt;
  count = omega arith;
  change = refl;
  schema = refl;
  author = omega arith;
  at = omega arith;
  message = omega arith;
  external = omega arith;
}

length-toy_id : (c : CommitInput) → length (commit_id toy c) ≡ 32
unfolding commit_id
length-toy_id c = length-padded 32 (commit_bytes c)

tip-Fits : Commits.Fits tip_input
tip-Fits = record {
  repo = refl;
  parents = (length-toy_id root_input, tt);
  count = omega arith;
  change = refl;
  schema = refl;
  author = omega arith;
  at = omega arith;
  message = omega arith;
  external = omega arith;
}

commit_id-binds_example : SameCommit tip_input tip_input ⊎ Collision toy
commit_id-binds_example = commit_id-binds toy tip_input tip_input tip-Fits tip-Fits refl

abbrev merge_input : CommitInput
merge_input = record root_input { parents = codes "a" ∷ codes "b" ∷ [] }

commit_id-perm_example :
    commit_id toy (record merge_input { parents = codes "b" ∷ codes "a" ∷ [] })
    ≡ commit_id toy merge_input
commit_id-perm_example =
    commit_id-perm toy merge_input (codes "b" ∷ codes "a" ∷ [])
      (Perm.swap (codes "b") (codes "a") [])

abbrev chain : List Commit
chain = tip_commit ∷ root_commit ∷ []

chain_holds : verify_chain toy chain [] ≡ none
chain_holds = (verify_chain_iff toy chain []).1 (inr refl, (inr refl, tt))

verify_chain-binds_example : SameHistory chain chain ⊎ Collision toy
verify_chain-binds_example =
    verify_chain-binds toy tip_commit tip_commit (root_commit ∷ []) (root_commit ∷ []) (refl, refl)
      (refl, refl) (tip-Fits, (root-Fits, tt)) (tip-Fits, (root-Fits, tt)) chain_holds chain_holds
      refl
