-- ===== src/Core/Value/Laws.antt =====
-- `Equal` of internal/core/value.go as an equivalence, and what it is on NaN.
use datagit.Prelude.{ℕ, ◌≡◌, ◌↔◌, true, false, arith, bytes_beq_iff}
use datagit.Core.Value.{
  Value, null, float, numeric, text, bytes, is_nan, is_zero, float_beq, equal, new_float,
}

-- No NaN and no -0: what `Float` gives of a number, and what every other constructor gives.
abbrev pub IsCanonical : Value → Type 0
IsCanonical (float f) = (is_nan f ≡ false) × (is_zero f ≡ true → f ≡ 0)
IsCanonical _ = Unit

pub new_float-IsCanonical : (f : ℕ) → is_nan f ≡ false → IsCanonical (new_float f)
unfolding new_float is_nan is_zero
new_float-IsCanonical f h = ground arith

-- On canonical values `Equal` is equality.
pub equal_iff : (v w : Value) → IsCanonical v → IsCanonical w → (equal v w ≡ true) ↔ (v ≡ w)
unfolding equal float_beq
equal_iff (numeric a) (numeric b) hv hw = ground (arith, bytes_beq_iff a b)
equal_iff (text a) (text b) hv hw = ground (arith, bytes_beq_iff a b)
equal_iff (bytes a) (bytes b) hv hw = ground (arith, bytes_beq_iff a b)
equal_iff null w hv hw = ground arith
equal_iff v w hv hw = ground arith

pub equal_symm : (v w : Value) → equal v w ≡ equal w v
unfolding equal float_beq
equal_symm (numeric a) (numeric b) = ground (arith, bytes_beq_iff a b, bytes_beq_iff b a)
equal_symm (text a) (text b) = ground (arith, bytes_beq_iff a b, bytes_beq_iff b a)
equal_symm (bytes a) (bytes b) = ground (arith, bytes_beq_iff a b, bytes_beq_iff b a)
equal_symm v w = ground arith

pub equal_trans : (u v w : Value) → equal u v ≡ true → equal v w ≡ true → equal u w ≡ true
unfolding equal float_beq
equal_trans (numeric a) (numeric b) (numeric c) h k =
    ground (arith, bytes_beq_iff a b, bytes_beq_iff b c, bytes_beq_iff a c)
equal_trans (text a) (text b) (text c) h k =
    ground (arith, bytes_beq_iff a b, bytes_beq_iff b c, bytes_beq_iff a c)
equal_trans (bytes a) (bytes b) (bytes c) h k =
    ground (arith, bytes_beq_iff a b, bytes_beq_iff b c, bytes_beq_iff a c)
equal_trans u v w h k = ground arith
