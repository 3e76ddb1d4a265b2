-- ===== src/Hash/Commits.antt =====
-- `CommitID` and `VerifyChain` of internal/hash/hash.go: an id binds what is committed.
use mathlib.Core.List.{append_assoc, append-nil, Perm}
use datagit.Prelude.{
  ℕ, ◌+◌, ◌^◌, ◌<◌, ◌≡◌, ◌∙◌, ◌⊎◌, ◌↔◌, refl, sym, ap, inl, inr, Bool, true, false, none, List, [],
  ◌∷◌, ◌++◌, Bytes, length, bytes_ltb, bytes_eq, bytes_beq, bytes_beq_iff, insertion_sort, insert,
  length-insertion_sort, bytes_ltb-IsStrict, sort-perm, perm_of_sort, list_bytes_set, arith, drop,
  Bool-cases,
}
use datagit.Maps.{Map}
use datagit.Core.Encoding.{append_uint32, append_uint64, append_len_prefixed}
use datagit.Core.Encoding.BigEndian.{big_endian}
use datagit.Core.Encoding.Framing.{append_eq, big_endian_eq, framed, framed_eq}
use datagit.Hash.{
  Digest, CommitInput, Commit, tag_commit, canonical_version, append_digests, commit_bytes,
  commit_id, is_purged, verify_from, verify_chain,
}
use datagit.Hash.Trees.{Collision, text-binds}

joined : List Digest → Bytes → Bytes
joined [] rest = rest
joined (d ∷ ds) rest = d ++ joined ds rest

append_digests-joined :
    (buf : Bytes) (ds : List Digest) (rest : Bytes)
    → append_digests buf ds ++ rest ≡ buf ++ joined ds rest
unfolding append_digests joined
append_digests-joined buf [] rest = refl
append_digests-joined buf (d ∷ ds) rest =
    append_digests-joined (buf ++ d) ds rest ∙ append_assoc buf d (joined ds rest)

joined-append : (ds : List Digest) (r s : Bytes) → joined ds r ++ s ≡ joined ds (r ++ s)
unfolding joined
joined-append [] r s = refl
joined-append (d ∷ ds) r s =
    append_assoc d (joined ds r) s ∙ ap (λ (t : Bytes). d ++ t) (joined-append ds r s)

-- Digests of 32 bytes.
abbrev pub AllDigests : List Digest → Type 0
AllDigests [] = Unit
AllDigests (d ∷ ds) = (length d ≡ 32) × AllDigests ds

joined_eq :
    (ds es : List Digest) (r s : Bytes)
    → AllDigests ds
    → AllDigests es
    → length ds ≡ length es
    → joined ds r ≡ joined es s
    → (ds ≡ es) × (r ≡ s)
unfolding joined
joined_eq [] [] r s hd he same h = (refl, h)
joined_eq [] (e ∷ es) r s hd he same h = absurd (omega arith)
joined_eq (d ∷ ds) [] r s hd he same h = absurd (omega arith)
joined_eq (d ∷ ds) (e ∷ es) r s hd he same h =
    let (first, rest) = append_eq d e (joined ds r) (joined es s) (hd.0 ∙ sym he.0) h in
    let (more, last) = joined_eq ds es r s hd.1 he.1 (omega arith) rest in (cc, last)

insert-AllDigests :
    (d : Digest) (ds : List Digest)
    → length d ≡ 32
    → AllDigests ds
    → AllDigests (insert bytes_ltb d ds)
unfolding insert
insert-AllDigests d [] h k = (h, tt)
insert-AllDigests d (e ∷ es) h k = elim (Bool-cases (bytes_ltb d e)) [
  | inl before ↦ rw before (h, k)
  | inr after ↦ rw after (k.0, insert-AllDigests d es h k.1)
]

sort-AllDigests : (ds : List Digest) → AllDigests ds → AllDigests (insertion_sort bytes_ltb ds)
unfolding insertion_sort
sort-AllDigests [] h = tt
sort-AllDigests (d ∷ ds) h =
    insert-AllDigests d (insertion_sort bytes_ltb ds) h.0 (sort-AllDigests ds h.1)

-- The parts of a commit have their sizes: an id of 16 bytes, digests of 32, an int64, and texts whose
-- length fits a uint32.
pub record Fits (c : CommitInput) : Type 0 where
  pub repo : length c.repo_id ≡ 16
  pub parents : AllDigests c.parents
  pub count : length c.parents < 2 ^ 32
  pub change : length c.change_digest ≡ 32
  pub schema : length c.schema_digest ≡ 32
  pub author : length c.author < 2 ^ 32
  pub at : c.author_at < 2 ^ 64
  pub message : length c.message < 2 ^ 32
  pub external : length c.external_ref < 2 ^ 32

-- The commits agree in all but the order of their parents.
pub record SameCommit (c d : CommitInput) : Type 0 where
  pub same_repo : c.repo_id ≡ d.repo_id
  pub same_parents : Perm c.parents d.parents
  pub same_change : c.change_digest ≡ d.change_digest
  pub same_schema : c.schema_digest ≡ d.schema_digest
  pub same_author : c.author ≡ d.author
  pub same_at : c.author_at ≡ d.author_at
  pub same_message : c.message ≡ d.message
  pub same_external : c.external_ref ≡ d.external_ref

-- What follows the parents.
tail_code : CommitInput → Bytes
tail_code c =
    c.change_digest
    ++ (c.schema_digest
        ++ framed c.author
            (big_endian 8 c.author_at ++ framed c.message (framed c.external_ref [])))

head_code : CommitInput → Bytes
head_code c =
    let parents = insertion_sort bytes_ltb c.parents in
    c.repo_id ++ (big_endian 4 (length parents) ++ joined parents (tail_code c))

commit_bytes-head_code :
    (c : CommitInput) → commit_bytes c ≡ tag_commit ∷ framed canonical_version (head_code c)
unfolding commit_bytes head_code tail_code append_uint64 append_uint32 append_len_prefixed framed
commit_bytes-head_code c = simp (append_assoc, append_digests-joined, joined-append, append-nil)

tail_code_eq :
    (c d : CommitInput)
    → Fits c
    → Fits d
    → tail_code c ≡ tail_code d
    → (c.change_digest ≡ d.change_digest)
      × (c.schema_digest ≡ d.schema_digest)
      × (c.author ≡ d.author)
      × (c.author_at ≡ d.author_at)
      × (c.message ≡ d.message)
      × (c.external_ref ≡ d.external_ref)
unfolding tail_code
tail_code_eq c d fc fd h =
    let after = λ (x : CommitInput). framed x.message (framed x.external_ref []) in
    let signed = λ (x : CommitInput). framed x.author (big_endian 8 x.author_at ++ after x) in
    let (change, r1) =
      append_eq c.change_digest d.change_digest (c.schema_digest ++ signed c)
        (d.schema_digest ++ signed d) (fc.change ∙ sym fd.change) h in
    let (schema, r2) =
      append_eq c.schema_digest d.schema_digest (signed c) (signed d) (fc.schema ∙ sym fd.schema)
        r1 in
    let (author, r3) =
      framed_eq c.author d.author (big_endian 8 c.author_at ++ after c)
        (big_endian 8 d.author_at ++ after d) fc.author fd.author r2 in
    let (at, r4) = big_endian_eq 8 c.author_at d.author_at (after c) (after d) fc.at fd.at r3 in
    let (message, r5) =
      framed_eq c.message d.message (framed c.external_ref []) (framed d.external_ref []) fc.message
        fd.message r4 in
    let (external, _) = framed_eq c.external_ref d.external_ref [] [] fc.external fd.external r5 in
    (change, schema, author, at, message, external)

head_code_eq : (c d : CommitInput) → Fits c → Fits d → head_code c ≡ head_code d → SameCommit c d
unfolding head_code
head_code_eq c d fc fd h =
    let ps = insertion_sort bytes_ltb c.parents in
    let qs = insertion_sort bytes_ltb d.parents in
    let (repo, r1) =
      append_eq c.repo_id d.repo_id (big_endian 4 (length ps) ++ joined ps (tail_code c))
        (big_endian 4 (length qs) ++ joined qs (tail_code d)) (fc.repo ∙ sym fd.repo) h in
    let (count, r2) =
      big_endian_eq 4 (length ps) (length qs) (joined ps (tail_code c)) (joined qs (tail_code d))
        (omega (arith, fc.count, length-insertion_sort bytes_ltb c.parents))
        (omega (arith, fd.count, length-insertion_sort bytes_ltb d.parents)) r1 in
    let (parents, r3) =
      joined_eq ps qs (tail_code c) (tail_code d) (sort-AllDigests c.parents fc.parents)
        (sort-AllDigests d.parents fd.parents) count r2 in
    let (change, schema, author, at, message, external) = tail_code_eq c d fc fd r3 in
    record {
      same_repo = repo;
      same_parents = perm_of_sort bytes_ltb parents;
      same_change = change;
      same_schema = schema;
      same_author = author;
      same_at = at;
      same_message = message;
      same_external = external;
    }

module _ (sha256 : Bytes → Digest) where
  -- Two commits with one id, whose parts have their sizes, agree in all but the order of their
  -- parents, or two texts are at hand that have one SHA-256.
  pub commit_id-binds :
      (c d : CommitInput)
      → Fits c
      → Fits d
      → commit_id sha256 c ≡ commit_id sha256 d
      → SameCommit c d ⊎ Collision sha256
  unfolding commit_id
  commit_id-binds c d fc fd h = elim (text-binds sha256 (commit_bytes c) (commit_bytes d) h) [
    | inr collide ↦ inr collide
    | inl same ↦
        let framed_same : framed canonical_version (head_code c)
            ≡ framed canonical_version (head_code d) =
          ap (drop 1) (sym (commit_bytes-head_code c) ∙ same ∙ commit_bytes-head_code d) in
        let (_, rest) =
          framed_eq canonical_version canonical_version (head_code c) (head_code d) (omega arith)
            (omega arith) framed_same in
        inl (head_code_eq c d fc fd rest)
  ]

  -- A commit's id does not depend on the order of its parents.
  pub commit_id-perm :
      (c : CommitInput) (parents : List Digest)
      → Perm c.parents parents
      → commit_id sha256 (record c { parents = parents }) ≡ commit_id sha256 c
  unfolding commit_id commit_bytes
  commit_id-perm c parents p = rw (sort-perm bytes_ltb bytes_ltb-IsStrict list_bytes_set p) refl

  -- A commit's stored id is that of its content, or it is marked as purged.
  abbrev pub Holds : Map Digest Bool → Commit → Type 0
  Holds purged c = (is_purged purged c.id ≡ true) ⊎ (commit_id sha256 c.input ≡ c.id)

  abbrev pub AllHold : Map Digest Bool → List Commit → Type 0
  AllHold purged [] = Unit
  AllHold purged (c ∷ cs) = Holds purged c × AllHold purged cs

  Holds-cases :
      (purged : Map Digest Bool) (c : Commit)
      → Holds purged c
        ⊎ ((is_purged purged c.id ≡ false) × (bytes_beq (commit_id sha256 c.input) c.id ≡ false))
  Holds-cases purged c = elim (Bool-cases (is_purged purged c.id)) [
    | inl marked ↦ inl (inl marked)
    | inr plain ↦ elim (Bool-cases (bytes_beq (commit_id sha256 c.input) c.id)) [
      | inl same ↦ inl (inr ((bytes_beq_iff (commit_id sha256 c.input) c.id).0 same))
      | inr differ ↦ inr (plain, differ)
    ]
  ]

  verify_from-Holds :
      (i : ℕ) (c : Commit) (cs : List Commit) (purged : Map Digest Bool)
      → Holds purged c
      → verify_from sha256 i (c ∷ cs) purged ≡ verify_from sha256 (i + 1) cs purged
  unfolding verify_from
  verify_from-Holds i c cs purged (inl marked) = rw marked refl
  verify_from-Holds i c cs purged (inr same) =
      ground (arith, bytes_beq_iff (commit_id sha256 c.input) c.id)

  verify_from_iff :
      (i : ℕ) (cs : List Commit) (purged : Map Digest Bool)
      → (verify_from sha256 i cs purged ≡ none) ↔ AllHold purged cs
  unfolding verify_from
  verify_from_iff i [] purged = ((λ h. tt), (λ h. refl))
  verify_from_iff i (c ∷ cs) purged = elim (Holds-cases purged c) [
    | inl fine ↦ (
      (λ h. (
        fine,
        (verify_from_iff (i + 1) cs purged).0 (sym (verify_from-Holds i c cs purged fine) ∙ h),
      )),
      (λ all. verify_from-Holds i c cs purged fine ∙ (verify_from_iff (i + 1) cs purged).1 all.1),
    )
    | inr (plain, differ) ↦ (
      (λ h. cc (plain, differ, h)),
      (λ all. elim all.0 [
        | inl marked ↦ cc (plain, marked)
        | inr same ↦ ground (arith, bytes_beq_iff (commit_id sha256 c.input) c.id)
      ]),
    )
  ]

  -- `VerifyChain` reports nothing exactly when every commit's stored id is that of its content, but
  -- for those marked as purged.
  pub verify_chain_iff :
      (cs : List Commit) (purged : Map Digest Bool)
      → (verify_chain sha256 cs purged ≡ none) ↔ AllHold purged cs
  unfolding verify_chain
  verify_chain_iff = verify_from_iff 0
