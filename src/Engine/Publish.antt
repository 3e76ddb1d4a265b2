-- ===== src/Engine/Publish.antt =====
-- What a commit of internal/engine/engine.go changes: it writes one version for each key of a plan,
-- and every earlier chain shows what it showed.
pub mod Invariant
pub mod Step
use datagit.Prelude.{
  ℕ, ◌+◌, ◌<◌, ◌≤◌, ◌≡◌, ◌∙◌, refl, Bool, true, false, not, ◌&&◌, Option, none, some, List, [], ◌∷◌,
  ◌++◌, Bytes, bytes_beq, bytes_beq_iff, if◌then◌else◌, arith, Bool-cases, inl, inr, Option-cases,
}
use datagit.Core.Key.{Pk}
use datagit.Engine.State.{Version, max_seq}
use datagit.Engine.Commit.{write_version}
use datagit.Engine.History.{history, close_first, history-write_version}

unfoldable pub write_all : List Version → List Version → List Version
write_all [] rows = rows
write_all (v ∷ vs) rows = write_all vs (write_version v rows)

-- The version that the plan has for a key.
unfoldable pub written : Pk → List Version → Option Version
written j [] = none
written j (v ∷ vs) = let rest = written j vs in if bytes_beq v.pk j then some v else rest

-- Open versions of one branch from one seq on, with one at most for each key.
abbrev pub IsPlan : Bytes → ℕ → List Version → Type 0
IsPlan branch at [] = Unit
IsPlan branch at (v ∷ vs) =
    (v.branch ≡ branch)
    × (v.session ≡ [])
    × (v.seq_from ≡ at)
    × (v.seq_to ≡ max_seq)
    × (written v.pk vs ≡ none)
    × IsPlan branch at vs

pub written_interval :
    (branch : Bytes) (at : ℕ) (vs : List Version) (j : Pk) (v : Version)
    → IsPlan branch at vs
    → written j vs ≡ some v
    → (v.seq_from ≡ at) × (v.seq_to ≡ max_seq)
unfolding written
written_interval branch at [] j v h e = cc
written_interval branch at (w ∷ vs) j v h e = elim (Bool-cases (bytes_beq w.pk j)) [
  | inl here ↦ let same : w ≡ v = ground arith in ground arith
  | inr there ↦ written_interval branch at vs j v h.5 (ground arith)
]

-- The history of a key after the plan.
abbrev pub extended : ℕ → Option Version → List Version → List Version
extended at none hs = hs
extended at (some v) hs = close_first at hs ++ v ∷ []

pub history-write_all :
    (branch : Bytes) (at : ℕ) (vs rows : List Version) (j : Pk)
    → IsPlan branch at vs
    → history branch j (write_all vs rows) ≡ extended at (written j vs) (history branch j rows)
unfolding write_all written
history-write_all branch at [] rows j h = refl
history-write_all branch at (v ∷ vs) rows j h =
    history-write_all branch at vs (write_version v rows) j h.5
    ∙ elim (Bool-cases (bytes_beq v.pk j)) [
      | inl here ↦
          let same : v.pk ≡ j = (bytes_beq_iff v.pk j).0 here in
          ground (arith, history-write_version v rows branch j h.1, bytes_beq_iff v.branch branch)
      | inr there ↦ ground (arith, history-write_version v rows branch j h.1)
    ]

pub history-write_all_ne :
    (branch : Bytes) (at : ℕ) (vs rows : List Version) (b : Bytes) (j : Pk)
    → IsPlan branch at vs
    → bytes_beq branch b ≡ false
    → history b j (write_all vs rows) ≡ history b j rows
unfolding write_all
history-write_all_ne branch at [] rows b j h ne = refl
history-write_all_ne branch at (v ∷ vs) rows b j h ne =
    history-write_all_ne branch at vs (write_version v rows) b j h.5 ne
    ∙ ground (arith, history-write_version v rows b j h.1)
