-- ===== src/Prelude/Words.antt =====
-- Bits of machine words: `w & (1 << b) != 0` after `|` and after `1 << c`.
use Prim.Native.Nat.{
  ℕ, zero, suc, ◌+◌, ◌*◌, ◌/◌, ◌%◌, ◌^◌, ◌≤◌, ◌<◌, min, max, bit_and, bit_or, digits,
  bit_and-bitwise, bit_or-bitwise,
}
use mathlib.Core.Path.{◌≡◌, refl, ap}
use mathlib.Core.Logic.{◌≢◌}
use mathlib.Core.Bool.{Bool, false, not, ◌||◌}
use native.Mathlib.Nat.{two-pow-succ, one-le-pow}
use native.Mathlib.Omega.{arith}
use datagit.Prelude.Tests.{nat_beq}

-- The library defines the operations by digits, with the first operand as fuel.
module _ (rest : ℕ → ℕ) (join : ℕ → ℕ → ℕ) where
  any_fuel : (a b n m : ℕ) → a < suc n → a < suc m → digits rest join n a b ≡ digits rest join m a b
  any_fuel zero b zero zero hn hm = refl
  any_fuel zero b zero (suc m) hn hm = refl
  any_fuel zero b (suc n) zero hn hm = refl
  any_fuel zero b (suc n) (suc m) hn hm = refl
  any_fuel (suc a) b zero m hn hm = absurd (omega arith)
  any_fuel (suc a) b (suc n) zero hn hm = absurd (omega arith)
  any_fuel (suc a) b (suc n) (suc m) hn hm =
      ap (λ (t : ℕ). t * 2 + join (suc a % 2) (b % 2))
        (any_fuel (suc a / 2) (b / 2) n m (omega arith) (omega arith))

bit_or-halves : (a b : ℕ) → bit_or a b ≡ bit_or (a / 2) (b / 2) * 2 + max (a % 2) (b % 2)
bit_or-halves zero b = omega (arith, bit_or-bitwise 0 b, bit_or-bitwise 0 (b / 2))
bit_or-halves (suc a) b = omega (
  arith,
  bit_or-bitwise (suc a) b,
  bit_or-bitwise (suc a / 2) (b / 2),
  any_fuel (λ y. y) max (suc a / 2) (b / 2) a (suc a / 2) (omega arith) (omega arith),
)

bit_and-halves : (a b : ℕ) → bit_and a b ≡ bit_and (a / 2) (b / 2) * 2 + min (a % 2) (b % 2)
bit_and-halves zero b = omega (arith, bit_and-bitwise 0 b, bit_and-bitwise 0 (b / 2))
bit_and-halves (suc a) b = omega (
  arith,
  bit_and-bitwise (suc a) b,
  bit_and-bitwise (suc a / 2) (b / 2),
  any_fuel (λ y. 0) min (suc a / 2) (b / 2) a (suc a / 2) (omega arith) (omega arith),
)

-- The digit of weight 2 ^ b.
digit : ℕ → ℕ → ℕ
digit zero w = w % 2
digit (suc b) w = digit b (w / 2)

digit-le-one : (b w : ℕ) → digit b w ≤ 1
unfolding digit
digit-le-one zero w = omega arith
digit-le-one (suc b) w = digit-le-one b (w / 2)

digit-zero : (b : ℕ) → digit b 0 ≡ 0
unfolding digit
digit-zero zero = refl
digit-zero (suc b) = digit-zero b

digit-bit_or : (b x y : ℕ) → digit b (bit_or x y) ≡ max (digit b x) (digit b y)
unfolding digit
digit-bit_or zero x y = omega (arith, bit_or-halves x y)
digit-bit_or (suc b) x y =
    let e : bit_or x y / 2 ≡ bit_or (x / 2) (y / 2) = omega (arith, bit_or-halves x y) in
    rw e (digit-bit_or b (x / 2) (y / 2))

digit-pow_self : (b : ℕ) → digit b (2 ^ b) ≡ 1
unfolding digit
digit-pow_self zero = refl
digit-pow_self (suc b) =
    let e : 2 ^ suc b / 2 ≡ 2 ^ b = omega (arith, two-pow-succ b) in rw e (digit-pow_self b)

digit-pow_ne : (b c : ℕ) → b ≢ c → digit b (2 ^ c) ≡ 0
unfolding digit
digit-pow_ne zero zero h = absurd (h refl)
digit-pow_ne zero (suc c) h = omega (arith, two-pow-succ c)
digit-pow_ne (suc b) zero h = digit-zero b
digit-pow_ne (suc b) (suc c) h =
    let e : 2 ^ suc c / 2 ≡ 2 ^ c = omega (arith, two-pow-succ c) in
    rw e (digit-pow_ne b c (λ q. h (ap suc q)))

bit_and-zero : (n w : ℕ) → w ≤ n → bit_and w 0 ≡ 0
bit_and-zero n zero h = refl
bit_and-zero zero (suc w) h = absurd (omega arith)
bit_and-zero (suc n) (suc w) h =
    omega (arith, bit_and-halves (suc w) 0, bit_and-zero n (suc w / 2) (omega arith))

bit_and-pow : (b w : ℕ) → bit_and w (2 ^ b) ≡ digit b w * 2 ^ b
unfolding digit
bit_and-pow zero w = omega (arith, bit_and-halves w 1, bit_and-zero (w / 2) (w / 2) (omega arith))
bit_and-pow (suc b) w =
    let e : 2 ^ suc b / 2 ≡ 2 ^ b = omega (arith, two-pow-succ b) in
    let ih : bit_and (w / 2) (2 ^ suc b / 2) ≡ digit b (w / 2) * 2 ^ b =
      rw e (bit_and-pow b (w / 2)) in
    omega (
      arith,
      bit_and-halves w (2 ^ suc b),
      ih,
      two-pow-succ b,
      ap (λ (t : ℕ). digit b (w / 2) * t) (two-pow-succ b),
    )

-- `w & (1 << b) != 0`
unfoldable pub test_bit : ℕ → ℕ → Bool
test_bit w b = not (nat_beq (bit_and w (2 ^ b)) 0)

test_bit_lem : (w b : ℕ) → test_bit w b ≡ nat_beq (digit b w) 1
unfolding test_bit
test_bit_lem w b = ground (arith, bit_and-pow b w, digit-le-one b w, one-le-pow b 2 (omega arith))

pub test_bit-zero : (b : ℕ) → test_bit 0 b ≡ false
test_bit-zero b = ground (arith, test_bit_lem 0 b, digit-zero b)

pub test_bit-bit_or : (x y b : ℕ) → test_bit (bit_or x y) b ≡ (test_bit x b || test_bit y b)
test_bit-bit_or x y b = ground (
  arith,
  test_bit_lem (bit_or x y) b,
  test_bit_lem x b,
  test_bit_lem y b,
  digit-bit_or b x y,
  digit-le-one b x,
  digit-le-one b y,
)

pub test_bit-pow : (b c : ℕ) → test_bit (2 ^ c) b ≡ nat_beq c b
test_bit-pow b c = ground (arith, test_bit_lem (2 ^ c) b, digit-pow_self b, digit-pow_ne b c)

pub bit_or-lt : (k x y : ℕ) → x < 2 ^ k → y < 2 ^ k → bit_or x y < 2 ^ k
bit_or-lt zero x y h k =
    let no_x : x ≡ 0 = omega arith in
    let no_y : y ≡ 0 = omega arith in rw (no_x, no_y) (omega arith)
bit_or-lt (suc k) x y hx hy = omega (
  arith,
  bit_or-halves x y,
  two-pow-succ k,
  bit_or-lt k (x / 2) (y / 2) (omega (arith, two-pow-succ k)) (omega (arith, two-pow-succ k)),
)
