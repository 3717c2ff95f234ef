-- ===== src/Base/Int.antt =====
-- Signed 64-bit integers by their value, and Rust's casts between `i64` and `u64`.
use Prim.Native.Nat.{ℕ, ◌-◌, ◌%◌, ◌^◌, ◌<◌}
use mathlib.Core.Path.{◌≡◌}
use native.Mathlib.Omega.{arith}
use rolly.Base.Tests.{ltb, if◌then◌else◌}

-- `negsuc n` is -(n + 1).
pub data ℤ : Type 0 where
  pos : ℕ → ℤ
  negsuc : ℕ → ℤ

-- The values of `i64`.
abbrev pub IsI64 : ℤ → Type 0
IsI64 (pos n) = n < 2 ^ 63
IsI64 (negsuc n) = n < 2 ^ 63

-- `i as u64` keeps the bit pattern.
unfoldable pub as_u64 : ℤ → ℕ
as_u64 (pos n) = n % 2 ^ 64
as_u64 (negsuc n) = 2 ^ 64 - 1 - n % 2 ^ 64

-- `v as i64` keeps the bit pattern.
unfoldable pub as_i64 : ℕ → ℤ
as_i64 v = if ltb v (2 ^ 63) then pos v else negsuc (2 ^ 64 - 1 - v)

pub as_u64-lt : (i : ℤ) → as_u64 i < 2 ^ 64
unfolding as_u64
as_u64-lt i = ground arith

pub as_i64-as_u64 : (i : ℤ) → IsI64 i → as_i64 (as_u64 i) ≡ i
unfolding as_i64 as_u64
as_i64-as_u64 (pos n) h = ground arith
as_i64-as_u64 (negsuc n) h = ground arith

pub as_u64-as_i64 : (v : ℕ) → v < 2 ^ 64 → as_u64 (as_i64 v) ≡ v
unfolding as_i64 as_u64
as_u64-as_i64 v h = ground arith
