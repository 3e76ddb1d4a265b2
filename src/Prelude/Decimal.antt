-- ===== src/Prelude/Decimal.antt =====
-- `%d` of a number that is not negative.
use Prim.Native.Nat.{ℕ, zero, suc, ◌+◌, ◌-◌, ◌*◌, ◌/◌, ◌%◌, ◌<◌, ◌≤◌}
use mathlib.Core.Path.{◌≡◌, refl, ap, sym, ◌∙◌}
use mathlib.Core.List.{[], ◌∷◌, ◌++◌}
use native.Mathlib.Omega.{arith}
use datagit.Prelude.Tests.{ltb, Bool-cases, if◌then◌else◌}
use datagit.Prelude.Lists.{Bytes}
use mathlib.Core.Logic.{inl, inr}

-- The number of digits is at most the number, plus one.
digits_of : ℕ → ℕ → Bytes
digits_of zero n = []
digits_of (suc fuel) n =
    let more = digits_of fuel (n / 10) ++ (48 + n % 10) ∷ [] in
    if ltb n 10 then (48 + n) ∷ [] else more

unfoldable pub decimal : ℕ → Bytes
unfolding digits_of
decimal n = digits_of (suc n) n

unfoldable pub read : ℕ → Bytes → ℕ
read acc [] = acc
read acc (d ∷ ds) = read (acc * 10 + (d - 48)) ds

read-append : (acc : ℕ) (ds : Bytes) (d : ℕ) → read acc (ds ++ d ∷ []) ≡ read acc ds * 10 + (d - 48)
unfolding read
read-append acc [] d = refl
read-append acc (e ∷ ds) d = read-append (acc * 10 + (e - 48)) ds d

read-digits_of : (fuel n : ℕ) → n < fuel → read 0 (digits_of fuel n) ≡ n
unfolding digits_of read
read-digits_of zero n h = absurd (omega arith)
read-digits_of (suc fuel) n h = elim (Bool-cases (ltb n 10)) [
  | inl small ↦ rw small (ground arith)
  | inr large ↦ rw large (
      read-append 0 (digits_of fuel (n / 10)) (48 + n % 10)
      ∙ ground (arith, read-digits_of fuel (n / 10)))
]

-- The digits of a number give it back.
pub read-decimal : (n : ℕ) → read 0 (decimal n) ≡ n
unfolding decimal
read-decimal n = read-digits_of (suc n) n (omega arith)

-- Every byte is a digit.
abbrev pub AllDigits : Bytes → Type 0
AllDigits [] = Unit
AllDigits (d ∷ ds) = (48 ≤ d) × (d ≤ 57) × AllDigits ds

AllDigits-append : (ds : Bytes) (d : ℕ) → AllDigits ds → 48 ≤ d → d ≤ 57 → AllDigits (ds ++ d ∷ [])
AllDigits-append [] d h lo hi = (lo, hi, tt)
AllDigits-append (e ∷ ds) d h lo hi = (h.0, h.1, AllDigits-append ds d h.2 lo hi)

append_cons : (ds : Bytes) (d : ℕ) → (e : ℕ) × (es : Bytes) × (ds ++ d ∷ [] ≡ e ∷ es)
append_cons [] d = (d, [], refl)
append_cons (e ∷ ds) d = (e, ds ++ d ∷ [], refl)

digits_of-AllDigits : (fuel n : ℕ) → AllDigits (digits_of fuel n)
unfolding digits_of
digits_of-AllDigits zero n = tt
digits_of-AllDigits (suc fuel) n = elim (Bool-cases (ltb n 10)) [
  | inl small ↦ rw small (omega arith, ground arith, tt)
  | inr large ↦ rw large (
      AllDigits-append (digits_of fuel (n / 10)) (48 + n % 10) (digits_of-AllDigits fuel (n / 10))
        (omega arith) (omega arith))
]

pub decimal-AllDigits : (n : ℕ) → AllDigits (decimal n)
unfolding decimal
decimal-AllDigits n = digits_of-AllDigits (suc n) n

-- A number has at least one digit.
pub decimal-cons : (n : ℕ) → (d : ℕ) × (ds : Bytes) × (decimal n ≡ d ∷ ds)
unfolding decimal digits_of
decimal-cons n = elim (Bool-cases (ltb n 10)) [
  | inl small ↦ rw small (48 + n, [], refl)
  | inr large ↦ rw large (append_cons (digits_of n (n / 10)) (48 + n % 10))
]

-- Two numbers that print alike are equal.
pub decimal-injective : (n m : ℕ) → decimal n ≡ decimal m → n ≡ m
unfolding decimal
decimal-injective n m e =
    sym (read-digits_of (suc n) n (omega arith))
    ∙ ap (read 0) e
    ∙ read-digits_of (suc m) m (omega arith)
