-- ===== src/Base/F64.antt =====
-- An `f64` as its IEEE 754 bit pattern, and the comparisons, which are false on a NaN. Rounded
-- arithmetic is not defined here: what needs it takes it as a parameter.
use Prim.Native.Nat.{ℕ, ◌+◌, ◌-◌, ◌%◌, ◌^◌}
use mathlib.Core.Path.{◌≡◌, refl}
use mathlib.Core.Bool.{Bool, true, false, not, ◌&&◌}
use native.Mathlib.Omega.{arith}
use rolly.Base.Tests.{ltb, leb, ◌==◌, if◌then◌else◌}

abbrev pub infinity : ℕ
infinity = 0x7ff0_0000_0000_0000

abbrev pub neg_infinity : ℕ
neg_infinity = 0xfff0_0000_0000_0000

abbrev pub zero_f64 : ℕ
zero_f64 = 0

abbrev pub one_f64 : ℕ
one_f64 = 0x3ff0_0000_0000_0000

abbrev pub is_nan : ℕ → Bool
is_nan bits = ltb infinity (bits % 2 ^ 63)

-- The place of a number that is no NaN: the two zeros have the same.
abbrev pub rank : ℕ → ℕ
rank bits = if ltb bits (2 ^ 63) then 2 ^ 63 + bits else 2 ^ 63 - bits % 2 ^ 63

unfoldable pub lt_f64 : ℕ → ℕ → Bool
lt_f64 a b = not (is_nan a) && not (is_nan b) && ltb (rank a) (rank b)

unfoldable pub le_f64 : ℕ → ℕ → Bool
le_f64 a b = not (is_nan a) && not (is_nan b) && leb (rank a) (rank b)

-- `a == b`
unfoldable pub eq_f64 : ℕ → ℕ → Bool
eq_f64 a b = not (is_nan a) && not (is_nan b) && (rank a == rank b)

le_trans_if :
    (a b c : Bool) (r s t : ℕ)
    → not a && not b && leb r s ≡ true
    → not b && not c && leb s t ≡ true
    → not a && not c && leb r t ≡ true
le_trans_if a b c r s t h k = ground arith

pub le_f64_trans : (a b c : ℕ) → le_f64 a b ≡ true → le_f64 b c ≡ true → le_f64 a c ≡ true
unfolding le_f64
le_f64_trans a b c = le_trans_if (is_nan a) (is_nan b) (is_nan c) (rank a) (rank b) (rank c)

lt_le_trans_if :
    (a b c : Bool) (r s t : ℕ)
    → not a && not b && ltb r s ≡ true
    → not b && not c && leb s t ≡ true
    → not a && not c && ltb r t ≡ true
lt_le_trans_if a b c r s t h k = ground arith

pub lt_f64-le_f64_trans : (a b c : ℕ) → lt_f64 a b ≡ true → le_f64 b c ≡ true → lt_f64 a c ≡ true
unfolding lt_f64 le_f64
lt_f64-le_f64_trans a b c =
    lt_le_trans_if (is_nan a) (is_nan b) (is_nan c) (rank a) (rank b) (rank c)

le_not_lt_if :
    (a b : Bool) (r s : ℕ) → not a && not b && leb r s ≡ true → not b && not a && ltb s r ≡ false
le_not_lt_if a b r s h = ground arith

pub le_f64-not-lt_f64 : (a b : ℕ) → le_f64 a b ≡ true → lt_f64 b a ≡ false
unfolding lt_f64 le_f64
le_f64-not-lt_f64 a b = le_not_lt_if (is_nan a) (is_nan b) (rank a) (rank b)

pub zero-lt-one : lt_f64 zero_f64 one_f64 ≡ true
unfolding lt_f64
zero-lt-one = refl
