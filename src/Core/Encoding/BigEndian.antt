-- ===== src/Core/Encoding/BigEndian.antt =====
-- `binary.BigEndian.PutUint32`, `PutUint64` and their inverses, at every width.
use native.Mathlib.Nat.{
  pow-suc, one-le-pow, div-add-mod', mod-lt, mod-eq_of_lt, mul-add-mod_self_left,
}
use datagit.Prelude.{
  ℕ, zero, suc, ◌+◌, ◌*◌, ◌/◌, ◌%◌, ◌^◌, ◌<◌, ◌≡◌, refl, ap, ◌∙◌, [], ◌∷◌, Bytes, length, arith,
}

-- The low `width` bytes of a number, the high byte first.
unfoldable pub big_endian : ℕ → ℕ → Bytes
big_endian zero n = []
big_endian (suc w) n = (n / 256 ^ w % 256) ∷ big_endian w n

pub read_bytes : ℕ → Bytes → ℕ
read_bytes acc [] = acc
read_bytes acc (b ∷ bs) = read_bytes (acc * 256 + b) bs

unfoldable pub read_big_endian : Bytes → ℕ
unfolding read_bytes
read_big_endian = read_bytes 0

pub length-big_endian : (w n : ℕ) → length (big_endian w n) ≡ w
unfolding big_endian
length-big_endian zero n = refl
length-big_endian (suc w) n = ap suc (length-big_endian w n)

mod_step : (n p : ℕ) → 0 < p → n % (p * 256) ≡ n / p % 256 * p + n % p
mod_step n p h =
    let r : ℕ = n / p % 256 * p + n % p in
    let digits : n / p ≡ n / p / 256 * 256 + n / p % 256 = omega arith in
    let parts : n ≡ p * 256 * (n / p / 256) + r =
      omega (arith, div-add-mod' n p, ap (λ (t : ℕ). t * p) digits) in
    let small : r < p * 256 = grind (arith, mod-lt n h) in
    ap (λ (t : ℕ). t % (p * 256)) parts
    ∙ mul-add-mod_self_left (p * 256) (n / p / 256) r
    ∙ mod-eq_of_lt small

read_bytes-big_endian :
    (w n acc : ℕ) → read_bytes acc (big_endian w n) ≡ acc * 256 ^ w + n % 256 ^ w
unfolding read_bytes big_endian
read_bytes-big_endian zero n acc = omega arith
read_bytes-big_endian (suc w) n acc =
    read_bytes-big_endian w n (acc * 256 + n / 256 ^ w % 256)
    ∙ omega (
      arith,
      mod_step n (256 ^ w) (one-le-pow w 256 (omega arith)),
      pow-suc 256 w,
      ap (λ (t : ℕ). acc * t) (pow-suc 256 w),
      ap (λ (t : ℕ). n % t) (pow-suc 256 w),
    )

-- Reading gives back every number that fits the width.
pub read-big_endian : (w n : ℕ) → n < 256 ^ w → read_big_endian (big_endian w n) ≡ n
unfolding read_big_endian
read-big_endian w n h = grind (arith, read_bytes-big_endian w n 0)
