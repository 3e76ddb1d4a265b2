-- ===== src/Rebind.antt =====
-- internal/db/rebind.go: placeholders and identifier quotes, rewritten outside of string literals.
pub mod Statements
pub mod Identifiers
use datagit.Prelude.{
  ℕ, zero, suc, ◌+◌, ◌-◌, ◌*◌, ◌≤◌, ◌<◌, ◌^◌, ◌≡◌, refl, codes, read, map, Bool, true, false, not,
  ◌&&◌, ◌||◌, Option, none, some, List, [], ◌∷◌, ◌++◌, Bytes, nat_beq, leb, ltb, length, get_elem?,
  contains, nat_eq, if◌then◌else◌,
}

abbrev pub quote : ℕ
quote = b'\''

abbrev pub double_quote : ℕ
double_quote = b'"'

abbrev pub backtick : ℕ
backtick = b'`'

abbrev pub dollar : ℕ
dollar = b'$'

abbrev pub question : ℕ
question = b'?'

abbrev pub is_digit : ℕ → Bool
is_digit c = leb b'0' c && leb c b'9'

-- `i+1 < len(sql) && sql[i+1] == c`
unfoldable pub starts_with : ℕ → Bytes → Bool
starts_with c [] = false
starts_with c (d ∷ sql) = nat_beq d c

unfoldable pub starts_digit : Bytes → Bool
starts_digit [] = false
starts_digit (d ∷ sql) = is_digit d

-- `sql[i+1 : j]`: the digits that follow.
unfoldable pub digits : Bytes → Bytes
digits [] = []
digits (d ∷ sql) = let rest = digits sql in if is_digit d then d ∷ rest else []

-- `strconv.Atoi` on digits: out of range it gives the largest int64.
unfoldable pub atoi : Bytes → ℕ
unfolding read
atoi ds = if ltb (read 0 ds) (2 ^ 63) then read 0 ds else 2 ^ 63 - 1

-- What one round of the loop of `Rebind` does: the bytes that it writes, the numbers that it appends
-- to the order, how far it moves beyond one byte, and whether it stands in a literal afterwards.
pub record Round : Type 0 where
  pub in_string : Bool
  pub skip : ℕ
  pub out : Bytes
  pub order : List ℕ

unfoldable pub rebind_round : Bool → ℕ → Bytes → Round
unfolding starts_with starts_digit digits atoi
rebind_round true c sql =
    if nat_beq c quote
    then if starts_with quote sql
      then record { in_string = true; skip = 1; out = c ∷ quote ∷ []; order = [] }
      else record { in_string = false; skip = 0; out = c ∷ []; order = [] }
    else record { in_string = true; skip = 0; out = c ∷ []; order = [] }
rebind_round false c sql =
    if nat_beq c quote
    then record { in_string = true; skip = 0; out = c ∷ []; order = [] }
    else if nat_beq c dollar && starts_digit sql
    then record {
      in_string = false;
      skip = length (digits sql);
      out = question ∷ [];
      order = atoi (digits sql) ∷ [];
    }
    else record { in_string = false; skip = 0; out = c ∷ []; order = [] }

-- The loop from one byte on, `skip` of them passed over.
unfoldable pub rebind_loop : Bool → ℕ → Bytes → Bytes × List ℕ
unfolding rebind_round
rebind_loop in_string skip [] = ([], [])
rebind_loop in_string (suc k) (c ∷ sql) = rebind_loop in_string k sql
rebind_loop in_string zero (c ∷ sql) =
    let r = rebind_round in_string c sql in
    let rest = rebind_loop r.in_string r.skip sql in (r.out ++ rest.0, r.order ++ rest.1)

-- `Rebind`
unfoldable pub rebind : Bytes → Bytes × List ℕ
unfolding rebind_loop
rebind = rebind_loop false 0

module _ {ℓ} {A : Type ℓ} where
  -- The argument of a number, counted from one; `none` is nil.
  unfoldable pub argument : List A → ℕ → Option A
  argument args n = if leb 1 n && leb n (length args) then get_elem? args (n - 1) else none

  -- `Reorder`
  unfoldable pub reorder : List A → List ℕ → List (Option A)
  unfolding argument
  reorder args [] = map some args
  reorder args (n ∷ order) = map (argument args) (n ∷ order)

-- One round of the loop of `QuoteToBacktick`.
pub record Quoting : Type 0 where
  pub in_string : Bool
  pub in_ident : Bool
  pub skip : ℕ
  pub out : Bytes

unfoldable pub quote_round : Bool → Bool → ℕ → Bytes → Quoting
unfolding starts_with
quote_round true in_ident c sql =
    if nat_beq c quote
    then if starts_with quote sql
      then record { in_string = true; in_ident = in_ident; skip = 1; out = c ∷ quote ∷ [] }
      else record { in_string = false; in_ident = in_ident; skip = 0; out = c ∷ [] }
    else record { in_string = true; in_ident = in_ident; skip = 0; out = c ∷ [] }
quote_round false true c sql =
    if nat_beq c double_quote
    then if starts_with double_quote sql
      then record { in_string = false; in_ident = true; skip = 1; out = backtick ∷ backtick ∷ [] }
      else record { in_string = false; in_ident = false; skip = 0; out = backtick ∷ [] }
    else if nat_beq c backtick
    then record { in_string = false; in_ident = true; skip = 0; out = backtick ∷ backtick ∷ [] }
    else record { in_string = false; in_ident = true; skip = 0; out = c ∷ [] }
quote_round false false c sql =
    if nat_beq c quote
    then record { in_string = true; in_ident = false; skip = 0; out = c ∷ [] }
    else if nat_beq c double_quote
    then record { in_string = false; in_ident = true; skip = 0; out = backtick ∷ [] }
    else record { in_string = false; in_ident = false; skip = 0; out = c ∷ [] }

unfoldable pub quote_loop : Bool → Bool → ℕ → Bytes → Bytes
unfolding quote_round
quote_loop in_string in_ident skip [] = []
quote_loop in_string in_ident (suc k) (c ∷ sql) = quote_loop in_string in_ident k sql
quote_loop in_string in_ident zero (c ∷ sql) =
    let r = quote_round in_string in_ident c sql in
    r.out ++ quote_loop r.in_string r.in_ident r.skip sql

-- `QuoteToBacktick`
unfoldable pub quote_to_backtick : Bytes → Bytes
unfolding quote_loop
quote_to_backtick sql =
    if not (contains double_quote sql) then sql else quote_loop false false 0 sql
