-- ===== src/Core/Value.antt =====
-- internal/core/value.go: `Value`, its constructors and `Equal`. A constructor stands for each
-- `Kind` with the field that the kind uses. An int64 is its two's complement pattern, a number
-- below 2 ^ 64, and a float64 its IEEE-754 pattern.
pub mod Laws
use datagit.Prelude.{
  ℕ, ◌-◌, ◌/◌, ◌%◌, ◌^◌, Bool, true, false, not, ◌&&◌, ◌||◌, Bytes, bytes_beq, nat_beq,
  if◌then◌else◌,
}

pub data Value : Type 0 where
  null : Value
  bool : Bool → Value
  int : ℕ → Value
  float : ℕ → Value
  numeric : Bytes → Value
  text : Bytes → Value
  bytes : Bytes → Value
  time : ℕ → Value

-- The numbers of `Kind`, which are frozen.
unfoldable pub kind : Value → ℕ
kind null = 0
kind (bool _) = 1
kind (int _) = 2
kind (float _) = 3
kind (numeric _) = 4
kind (text _) = 5
kind (bytes _) = 6
kind (time _) = 7

unfoldable pub is_null : Value → Bool
unfolding kind
is_null v = nat_beq (kind v) 0

-- `math.IsNaN` on a pattern: the exponent is all ones and the fraction is not 0.
unfoldable pub is_nan : ℕ → Bool
is_nan f = nat_beq (f / 2 ^ 52 % 2 ^ 11) 2047 && not (nat_beq (f % 2 ^ 52) 0)

-- `f == 0` on a pattern: +0 and -0.
unfoldable pub is_zero : ℕ → Bool
is_zero f = nat_beq (f % 2 ^ 63) 0

-- Go's `==` on float64.
unfoldable pub float_beq : ℕ → ℕ → Bool
float_beq a b = not (is_nan a) && not (is_nan b) && (nat_beq a b || (is_zero a && is_zero b))

-- `if f == 0 { f = 0 }`
unfoldable pub collapse_zero : ℕ → ℕ
unfolding is_zero
collapse_zero f = if is_zero f then 0 else f

-- `Float`
unfoldable pub new_float : ℕ → Value
unfolding collapse_zero
new_float f = float (collapse_zero f)

-- `Equal`
unfoldable pub equal : Value → Value → Bool
equal null null = true
equal (bool a) (bool b) = if a then b else not b
equal (int a) (int b) = nat_beq a b
equal (float a) (float b) = float_beq a b
equal (numeric a) (numeric b) = bytes_beq a b
equal (text a) (text b) = bytes_beq a b
equal (bytes a) (bytes b) = bytes_beq a b
equal (time a) (time b) = nat_beq a b
equal _ _ = false
