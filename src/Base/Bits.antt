-- ===== src/Base/Bits.antt =====
-- Bit operations as arithmetic: on a byte by a table, on any number by the law for its last digit.
use Prim.Native.Nat.{
  ℕ, zero, suc, ◌+◌, ◌*◌, ◌/◌, ◌%◌, ◌≤◌, ◌<◌, max, bit_and, bit_or, digits, bit_or-bitwise,
}
use mathlib.Core.Path.{◌≡◌, refl, ap}
use mathlib.Core.Bool.{Bool, true, false}
use native.Mathlib.Omega.{arith}
use rolly.Base.Tests.{◌==◌, ==_iff, if◌then◌else◌}

-- Does `p` hold of every number below `n`?
unfoldable pub every_below : (ℕ → Bool) → ℕ → Bool
every_below p zero = true
every_below p (suc n) = if p n then every_below p n else false

pub every_below→at : (p : ℕ → Bool) (n i : ℕ) → every_below p n ≡ true → i < n → p i ≡ true
unfolding every_below
every_below→at p zero i h lt = absurd (omega arith)
every_below→at p (suc n) i h lt = ground (arith, every_below→at p n i)

set_top_table : every_below (λ b. bit_or b 0x80 == b % 128 + 128) 256 ≡ true
unfolding every_below
set_top_table = refl

-- `b | 0x80` on a byte.
pub set_top : (b : ℕ) → b < 256 → bit_or b 0x80 ≡ b % 128 + 128
set_top b h = (==_iff _ _).0 (every_below→at _ 256 b set_top_table h)

low_nibble_table : every_below (λ b. bit_and b 0x0f == b % 16) 256 ≡ true
unfolding every_below
low_nibble_table = refl

-- `b & 0x0f` on a byte.
pub low_nibble : (b : ℕ) → b < 256 → bit_and b 0x0f ≡ b % 16
low_nibble b h = (==_iff _ _).0 (every_below→at _ 256 b low_nibble_table h)

abbrev or_digits : ℕ → ℕ → ℕ → ℕ
or_digits n a b = digits (λ b. b) max n a b

or_digits_fuel : (n m a b : ℕ) → a ≤ n → a ≤ m → or_digits n a b ≡ or_digits m a b
or_digits_fuel zero zero a b p q = refl
or_digits_fuel zero (suc m) zero b p q = refl
or_digits_fuel zero (suc m) (suc a) b p q = absurd (omega arith)
or_digits_fuel (suc n) zero zero b p q = refl
or_digits_fuel (suc n) zero (suc a) b p q = absurd (omega arith)
or_digits_fuel (suc n) (suc m) zero b p q = refl
or_digits_fuel (suc n) (suc m) (suc a) b p q =
    omega (arith, or_digits_fuel n m (suc a / 2) (b / 2) (omega arith) (omega arith))

pub zero-bit_or : (b : ℕ) → bit_or 0 b ≡ b
zero-bit_or b = bit_or-bitwise 0 b

-- The law for the lowest digit.
bit_or_step : (a b : ℕ) → bit_or a b ≡ bit_or (a / 2) (b / 2) * 2 + max (a % 2) (b % 2)
bit_or_step zero b = omega (arith, zero-bit_or b, zero-bit_or (b / 2))
bit_or_step (suc a) b = omega (
  arith,
  bit_or-bitwise (suc a) b,
  bit_or-bitwise (suc a / 2) (b / 2),
  or_digits_fuel a (suc a / 2) (suc a / 2) (b / 2) (omega arith) (omega arith),
)

bit_or-zero_below : (n a : ℕ) → a ≤ n → bit_or a 0 ≡ a
bit_or-zero_below n zero h = zero-bit_or 0
bit_or-zero_below zero (suc a) h = absurd (omega arith)
bit_or-zero_below (suc n) (suc a) h =
    omega (arith, bit_or_step (suc a) 0, bit_or-zero_below n (suc a / 2) (omega arith))

-- `a << 3 | w`, for `w` of three bits.
pub bit_or_shl3 : (a w : ℕ) → w < 8 → bit_or (a * 8) w ≡ a * 8 + w
bit_or_shl3 a w h = omega (
  arith,
  bit_or_step (a * 8) w,
  bit_or_step (a * 8 / 2) (w / 2),
  bit_or_step (a * 8 / 2 / 2) (w / 2 / 2),
  ap (λ (t : ℕ). bit_or t (w / 2 / 2 / 2)) (eighth a),
  ap (λ (t : ℕ). bit_or a t) (let e : w / 2 / 2 / 2 ≡ 0 = omega arith in e),
  bit_or-zero_below a a (omega arith),
)
  where
    eighth : (b : ℕ) → b * 8 / 2 / 2 / 2 ≡ b
    eighth b = omega arith

-- `h << 4 | l`, for `l` of four bits.
pub bit_or_shl4 : (a w : ℕ) → w < 16 → bit_or (a * 16) w ≡ a * 16 + w
bit_or_shl4 a w h = omega (
  arith,
  bit_or_step (a * 16) w,
  ap (λ (t : ℕ). bit_or t (w / 2)) (half a),
  bit_or_shl3 a (w / 2) (omega arith),
)
  where
    half : (b : ℕ) → b * 16 / 2 ≡ b * 8
    half b = omega arith
