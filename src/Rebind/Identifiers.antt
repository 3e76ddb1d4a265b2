-- ===== src/Rebind/Identifiers.antt =====
-- `QuoteToBacktick` of internal/db/rebind.go against the pieces that a statement is made of.
use datagit.Prelude.{
  ℕ, ◌≡◌, ◌≢◌, refl, ap, inl, inr, true, false, List, [], ◌∷◌, ◌++◌, Bytes, nat_beq, nat_beq_iff,
  nat_eq, contains, contains-append, eq_ne, if◌then◌else◌, arith, Bool-cases,
}
use datagit.Rebind.{quote, double_quote, backtick, starts_with, quote_loop, quote_to_backtick}
use datagit.Rebind.Statements.{escape}

-- A byte of SQL text, a string literal and an identifier, by what they say.
pub data Token : Type 0 where
  plain : ℕ → Token
  literal : Bytes → Token
  identifier : Bytes → Token

-- A mark within what it encloses is doubled.
unfoldable pub double : ℕ → Bytes → Bytes
double m [] = []
double m (c ∷ s) = let rest = double m s in if nat_beq c m then c ∷ m ∷ rest else c ∷ rest

-- The statement with one mark or the other around identifiers.
unfoldable pub marked : ℕ → List Token → Bytes
unfolding escape double
marked m [] = []
marked m (plain c ∷ ts) = c ∷ marked m ts
marked m (literal s ∷ ts) = quote ∷ escape s ++ quote ∷ marked m ts
marked m (identifier s ∷ ts) = m ∷ double m s ++ m ∷ marked m ts

-- How tokens can be read back: a byte of text is no mark, and no literal or identifier is followed by
-- the mark that ends it.
abbrev pub IsQuoted : List Token → Type 0
IsQuoted [] = Unit
IsQuoted (plain c ∷ ts) = (c ≢ quote) × (c ≢ double_quote) × IsQuoted ts
IsQuoted (literal s ∷ ts) = (starts_with quote (marked double_quote ts) ≡ false) × IsQuoted ts
IsQuoted (identifier s ∷ ts) =
    (starts_with double_quote (marked double_quote ts) ≡ false) × IsQuoted ts

-- A name with each of its double quotes become a backtick.
unfoldable pub renamed_text : Bytes → Bytes
renamed_text [] = []
renamed_text (c ∷ s) = (if nat_beq c double_quote then backtick else c) ∷ renamed_text s

unfoldable pub renamed : List Token → List Token
unfolding renamed_text
renamed [] = []
renamed (plain c ∷ ts) = plain c ∷ renamed ts
renamed (literal s ∷ ts) = literal s ∷ renamed ts
renamed (identifier s ∷ ts) = identifier (renamed_text s) ∷ renamed ts

loop-escape :
    (s rest : Bytes)
    → starts_with quote rest ≡ false
    → quote_loop true false 0 (escape s ++ quote ∷ rest)
      ≡ escape s ++ quote ∷ quote_loop false false 0 rest
unfolding quote_loop escape
loop-escape [] rest h = rw h refl
loop-escape (c ∷ s) rest h = ground (arith, loop-escape s rest h, nat_beq_iff c quote)

loop-double :
    (s rest : Bytes)
    → starts_with double_quote rest ≡ false
    → quote_loop false true 0 (double double_quote s ++ double_quote ∷ rest)
      ≡ double backtick (renamed_text s) ++ backtick ∷ quote_loop false false 0 rest
unfolding quote_loop double renamed_text
loop-double [] rest h = rw h refl
loop-double (c ∷ s) rest h =
    ground (arith, loop-double s rest h, nat_beq_iff c double_quote, nat_beq_iff c backtick)

loop-tokens :
    (ts : List Token)
    → IsQuoted ts
    → quote_loop false false 0 (marked double_quote ts) ≡ marked backtick (renamed ts)
unfolding quote_loop marked renamed
loop-tokens [] h = refl
loop-tokens (plain c ∷ ts) h =
    rw (eq_ne c quote h.0, eq_ne c double_quote h.1)
      (ap (λ (t : Bytes). c ∷ t) (loop-tokens ts h.2))
loop-tokens (literal s ∷ ts) h =
    rw (loop-escape s (marked double_quote ts) h.0, loop-tokens ts h.1) refl
loop-tokens (identifier s ∷ ts) h =
    rw (loop-double s (marked double_quote ts) h.0, loop-tokens ts h.1) refl

-- Where the statement has no double quote, no token is an identifier.
same_marks :
    (ts : List Token)
    → contains double_quote (marked double_quote ts) ≡ false
    → marked double_quote ts ≡ marked backtick (renamed ts)
unfolding marked contains renamed
same_marks [] h = refl
same_marks (plain c ∷ ts) h = ground (arith, same_marks ts)
same_marks (literal s ∷ ts) h =
    ground (
      arith,
      same_marks ts,
      contains-append double_quote (escape s) (quote ∷ marked double_quote ts),
    )
same_marks (identifier s ∷ ts) h = ground arith

-- QuoteToBacktick turns every statement that is made of tokens which can be read back into the same
-- statement with backticks around its identifiers, in whose names each double quote has become a
-- backtick; text and literals stay as they are.
pub quote_to_backtick-marked :
    (ts : List Token)
    → IsQuoted ts
    → quote_to_backtick (marked double_quote ts) ≡ marked backtick (renamed ts)
unfolding quote_to_backtick
quote_to_backtick-marked ts h = elim (Bool-cases (contains double_quote (marked double_quote ts))) [
  | inl has ↦ rw has (loop-tokens ts h)
  | inr hasnt ↦ rw hasnt (same_marks ts hasnt)
]
