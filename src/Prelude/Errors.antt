-- ===== src/Prelude/Errors.antt =====
-- Go's `(value, error)` pairs. An error is the message that the code formats, without its
-- arguments.

pub data Error : Type 0 where
  truncated unknown_kind malformed_key wrong_parts : Error
  no_branch branch_exists no_parent merge_bases no_session on_root branch_moved nil_pointer : Error

pub data Result {ℓ} (A : Type ℓ) : Type ℓ where
  ok : A → Result A
  err : Error → Result A

infixl 5 ◌>>=◌
abbrev pub ◌>>=◌ {ℓ κ} : {A : Type ℓ} {B : Type κ} → Result A → (A → Result B) → Result B
ok a >>= f = f a
err c >>= f = err c
