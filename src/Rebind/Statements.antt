-- ===== src/Rebind/Statements.antt =====
-- `Rebind` of internal/db/rebind.go against the pieces that a statement is made of.
use mathlib.Core.List.{append_assoc}
use datagit.Prelude.{
  ℕ, ◌^◌, ◌<◌, ◌≡◌, ◌≢◌, ◌∙◌, refl, ap, inl, inr, true, false, Option, List, [], ◌∷◌, ◌++◌, map,
  Bytes, nat_beq, nat_beq_iff, nat_eq, subst, length, decimal, read-decimal, AllDigits,
  decimal-AllDigits, decimal-cons, eq_ne, if◌then◌else◌, arith, Bool-cases,
}
use datagit.Rebind.{
  quote, dollar, question, starts_with, starts_digit, digits, atoi, rebind_loop, rebind, argument,
  reorder,
}

-- A byte of SQL text, a string literal by what it says, and a placeholder.
pub data Piece : Type 0 where
  plain : ℕ → Piece
  literal : Bytes → Piece
  placeholder : ℕ → Piece

-- A quote within a literal is doubled.
unfoldable pub escape : Bytes → Bytes
escape [] = []
escape (c ∷ s) = let rest = escape s in if nat_beq c quote then c ∷ quote ∷ rest else c ∷ rest

-- The statement as PostgreSQL and as MySQL take it.
unfoldable pub postgres : List Piece → Bytes
unfolding escape
postgres [] = []
postgres (plain c ∷ ps) = c ∷ postgres ps
postgres (literal s ∷ ps) = quote ∷ escape s ++ quote ∷ postgres ps
postgres (placeholder n ∷ ps) = dollar ∷ decimal n ++ postgres ps

unfoldable pub mysql : List Piece → Bytes
unfolding escape
mysql [] = []
mysql (plain c ∷ ps) = c ∷ mysql ps
mysql (literal s ∷ ps) = quote ∷ escape s ++ quote ∷ mysql ps
mysql (placeholder n ∷ ps) = question ∷ mysql ps

unfoldable pub numbers : List Piece → List ℕ
numbers [] = []
numbers (plain c ∷ ps) = numbers ps
numbers (literal s ∷ ps) = numbers ps
numbers (placeholder n ∷ ps) = n ∷ numbers ps

-- How pieces can be read back: a byte of text is no quote, and a dollar only before what is no digit;
-- no literal is followed by a quote, no placeholder by a digit; a number is an int64.
abbrev pub IsStatement : List Piece → Type 0
IsStatement [] = Unit
IsStatement (plain c ∷ ps) =
    (c ≢ quote) × (c ≡ dollar → starts_digit (postgres ps) ≡ false) × IsStatement ps
IsStatement (literal s ∷ ps) = (starts_with quote (postgres ps) ≡ false) × IsStatement ps
IsStatement (placeholder n ∷ ps) =
    (n < 2 ^ 63) × (starts_digit (postgres ps) ≡ false) × IsStatement ps

-- What the loop gives from the end of some bytes on, with bytes and numbers before it.
after : Bytes → List ℕ → Bytes × List ℕ → Bytes × List ℕ
after out order r = (out ++ r.0, order ++ r.1)

loop-escape :
    (s rest : Bytes)
    → starts_with quote rest ≡ false
    → rebind_loop true 0 (escape s ++ quote ∷ rest)
      ≡ after (escape s ++ quote ∷ []) [] (rebind_loop false 0 rest)
unfolding rebind_loop escape after
loop-escape [] rest h = rw h refl
loop-escape (c ∷ s) rest h = ground (arith, loop-escape s rest h, nat_beq_iff c quote)

loop-skip :
    (ds rest : Bytes) → rebind_loop false (length ds) (ds ++ rest) ≡ rebind_loop false 0 rest
unfolding rebind_loop
loop-skip [] rest = refl
loop-skip (d ∷ ds) rest = loop-skip ds rest

digits-append :
    (ds rest : Bytes) → AllDigits ds → starts_digit rest ≡ false → digits (ds ++ rest) ≡ ds
unfolding digits starts_digit
digits-append [] [] h k = refl
digits-append [] (c ∷ rest) h k = rw k refl
digits-append (d ∷ ds) rest h k = ground (arith, digits-append ds rest h.2 k)

atoi-decimal : (n : ℕ) → n < 2 ^ 63 → atoi (decimal n) ≡ n
unfolding atoi
atoi-decimal n h = ground (arith, read-decimal n)

starts_digit-decimal : (n : ℕ) (rest : Bytes) → starts_digit (decimal n ++ rest) ≡ true
unfolding starts_digit
starts_digit-decimal n rest =
    let (d, ds, e) = decimal-cons n in
    let all : AllDigits (d ∷ ds) = subst AllDigits e (decimal-AllDigits n) in rw e (ground arith)

loop-plain :
    (c : ℕ) (rest : Bytes)
    → c ≢ quote
    → (c ≡ dollar → starts_digit rest ≡ false)
    → rebind_loop false 0 (c ∷ rest) ≡ after (c ∷ []) [] (rebind_loop false 0 rest)
unfolding rebind_loop after
loop-plain c rest h k = elim (Bool-cases (nat_beq c dollar)) [
  | inl is ↦ let e = (nat_beq_iff c dollar).0 is in rw (k e, e) refl
  | inr isnt ↦ rw (isnt, eq_ne c quote h) refl
]

loop-placeholder :
    (n : ℕ) (rest : Bytes)
    → n < 2 ^ 63
    → starts_digit rest ≡ false
    → rebind_loop false 0 (dollar ∷ decimal n ++ rest)
      ≡ after (question ∷ []) (n ∷ []) (rebind_loop false 0 rest)
unfolding rebind_loop after
loop-placeholder n rest h k =
    rw
      (
        starts_digit-decimal n rest,
        digits-append (decimal n) rest (decimal-AllDigits n) k,
        atoi-decimal n h,
        loop-skip (decimal n) rest,
      )
      refl

rebind_loop-pieces :
    (ps : List Piece) → IsStatement ps → rebind_loop false 0 (postgres ps) ≡ (mysql ps, numbers ps)
unfolding postgres mysql numbers after rebind_loop
rebind_loop-pieces [] h = refl
rebind_loop-pieces (plain c ∷ ps) h =
    loop-plain c (postgres ps) h.0 h.1 ∙ ap (after (c ∷ []) []) (rebind_loop-pieces ps h.2)
rebind_loop-pieces (literal s ∷ ps) h = rw (loop-escape s (postgres ps) h.0) (
    rw (rebind_loop-pieces ps h.1) (
      ap (λ (t : Bytes). (quote ∷ t, numbers ps))
        (append_assoc (escape s) (quote ∷ []) (mysql ps))))
rebind_loop-pieces (placeholder n ∷ ps) h =
    loop-placeholder n (postgres ps) h.0 h.1
    ∙ ap (after (question ∷ []) (n ∷ [])) (rebind_loop-pieces ps h.2)

-- Rebind gives, of every statement that is made of pieces which can be read back, the same
-- statement with a question mark for each placeholder, and the placeholders' numbers in their
-- order; the text and the literals stay as they are.
pub rebind-postgres :
    (ps : List Piece) → IsStatement ps → rebind (postgres ps) ≡ (mysql ps, numbers ps)
unfolding rebind
rebind-postgres = rebind_loop-pieces

module _ {ℓ} {A : Type ℓ} where
  -- What a placeholder stands for, in the PostgreSQL statement and its arguments.
  abbrev pub meant : List A → List Piece → List (Option A)
  meant args [] = []
  meant args (placeholder n ∷ ps) = argument args n ∷ meant args ps
  meant args (p ∷ ps) = meant args ps

  map-numbers : (args : List A) (ps : List Piece) → map (argument args) (numbers ps) ≡ meant args ps
  unfolding numbers
  map-numbers args [] = refl
  map-numbers args (plain c ∷ ps) = map-numbers args ps
  map-numbers args (literal s ∷ ps) = map-numbers args ps
  map-numbers args (placeholder n ∷ ps) =
      ap (λ (t : List (Option A)). argument args n ∷ t) (map-numbers args ps)

  reorder-numbers :
      (args : List A) (order : List ℕ) → order ≢ [] → reorder args order ≡ map (argument args) order
  unfolding reorder
  reorder-numbers args [] h = absurd (h refl)
  reorder-numbers args (n ∷ order) h = refl

  -- The arguments that Reorder gives by the order of Rebind: for each placeholder, where there are
  -- any, the argument that its number names, or nil where it names none.
  pub reorder-rebind :
      (args : List A) (ps : List Piece)
      → IsStatement ps
      → numbers ps ≢ []
      → reorder args (rebind (postgres ps)).1 ≡ meant args ps
  reorder-rebind args ps h some_number =
      rw (rebind-postgres ps h)
        (reorder-numbers args (numbers ps) some_number ∙ map-numbers args ps)
