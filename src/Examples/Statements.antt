-- ===== src/Examples/Statements.antt =====
-- The theorems on the rewriting of SQL at concrete statements.
use datagit.Prelude.{
  ◌≡◌, ◌≢◌, refl, none, some, [], ◌∷◌, arith, codes, decimal, nat_eq, contains, List,
}
use datagit.Rebind.{double_quote, rebind, reorder, quote_to_backtick, starts_with, starts_digit}
use datagit.Rebind.Statements.{
  Piece, plain, literal, placeholder, postgres, mysql, numbers, IsStatement, rebind-postgres,
}
use datagit.Rebind.Identifiers as Identifiers
use datagit.Rebind.Identifiers.{
  Token, identifier, marked, renamed, IsQuoted, quote_to_backtick-marked,
}

-- x=$2,'a''$1',$10
abbrev pieces : List Piece
pieces =
    plain b'x'
    ∷ plain b'='
    ∷ placeholder 2
    ∷ plain b','
    ∷ literal (codes "a'$1")
    ∷ plain b','
    ∷ placeholder 10
    ∷ []

pieces_text : postgres pieces ≡ codes "x=$2,'a''$1',$10"
unfolding postgres decimal
pieces_text = refl

pieces-IsStatement : IsStatement pieces
unfolding postgres starts_digit starts_with
pieces-IsStatement = ground arith

has_numbers : numbers pieces ≢ []
unfolding numbers
has_numbers h = ground arith

rebind-postgres_example : rebind (postgres pieces) ≡ (mysql pieces, numbers pieces)
rebind-postgres_example = rebind-postgres pieces pieces-IsStatement

out_of_range : reorder (codes "ab") (2 ∷ 3 ∷ 0 ∷ []) ≡ some b'b' ∷ none ∷ none ∷ []
unfolding reorder
out_of_range = refl

-- "a""b"='"'
abbrev tokens : List Token
tokens = identifier (codes "a\"b") ∷ Identifiers.plain b'=' ∷ Identifiers.literal (codes "\"") ∷ []

tokens_text : marked double_quote tokens ≡ codes "\"a\"\"b\"='\"'"
unfolding marked
tokens_text = refl

tokens-IsQuoted : IsQuoted tokens
unfolding marked starts_with
tokens-IsQuoted = ground arith

name_changes : quote_to_backtick (codes "\"a\"\"b\"='\"'") ≡ codes "`a``b`='\"'"
unfolding quote_to_backtick contains
name_changes = refl
