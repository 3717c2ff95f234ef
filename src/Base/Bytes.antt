-- ===== src/Base/Bytes.antt =====
-- The standard library's `to_le_bytes` and `from_le_bytes` of 64-bit words.
use Prim.Native.Nat.{ℕ, zero, suc, ◌+◌, ◌*◌, ◌/◌, ◌%◌, ◌^◌, ◌<◌}
use mathlib.Core.Path.{◌≡◌, refl}
use mathlib.Core.List.{List, [], ◌∷◌}
use mathlib.Core.Bool.{Bool, true, false, ◌&&◌}
use mathlib.Core.Logic.{◌↔◌}
use native.Mathlib.Omega.{arith}
use rolly.Base.Tests.{◌==◌}
use rolly.Base.Lists.{length, All}

abbrev pub IsByte : ℕ → Type 0
IsByte b = b < 256

abbrev pub IsU64 : ℕ → Type 0
IsU64 v = v < 2 ^ 64

unfoldable pub le_bytes : ℕ → ℕ → List ℕ
le_bytes zero val = []
le_bytes (suc n) val = val % 256 ∷ le_bytes n (val / 256)

unfoldable pub to_le_bytes : ℕ → List ℕ
unfolding le_bytes
to_le_bytes val = le_bytes 8 val

unfoldable pub from_le_bytes : List ℕ → ℕ
from_le_bytes [] = 0
from_le_bytes (b ∷ bs) = b + 256 * from_le_bytes bs

pub length-to_le_bytes : (v : ℕ) → length (to_le_bytes v) ≡ 8
unfolding to_le_bytes
length-to_le_bytes v = refl

pub to_le_bytes-IsByte : (v : ℕ) → All IsByte (to_le_bytes v)
unfolding to_le_bytes
to_le_bytes-IsByte v = omega arith

pub from_le_bytes-to_le_bytes : (v : ℕ) → IsU64 v → from_le_bytes (to_le_bytes v) ≡ v
unfolding from_le_bytes to_le_bytes
from_le_bytes-to_le_bytes v h = omega arith

-- What `n` bytes stand for is below `256 ^ n`; here for the eight of a word.
pub from_le_bytes-lt :
    (a b c d e f g h : ℕ)
    → All IsByte (a ∷ b ∷ c ∷ d ∷ e ∷ f ∷ g ∷ h ∷ [])
    → IsU64 (from_le_bytes (a ∷ b ∷ c ∷ d ∷ e ∷ f ∷ g ∷ h ∷ []))
unfolding from_le_bytes
from_le_bytes-lt a b c d e f g h k = omega arith

-- `a == b` on byte strings.
unfoldable pub beq_bytes : List ℕ → List ℕ → Bool
beq_bytes [] [] = true
beq_bytes [] (_ ∷ _) = false
beq_bytes (_ ∷ _) [] = false
beq_bytes (a ∷ r) (b ∷ bs) = (a == b) && beq_bytes r bs

pub beq_bytes_iff : (a b : List ℕ) → (beq_bytes a b ≡ true) ↔ (a ≡ b)
unfolding beq_bytes
beq_bytes_iff [] [] = ground arith
beq_bytes_iff [] (b ∷ bs) = ground arith
beq_bytes_iff (a ∷ r) [] = ground arith
beq_bytes_iff (a ∷ r) (b ∷ bs) = ground (arith, beq_bytes_iff r bs)

pub beq_bytes_refl : (a : List ℕ) → beq_bytes a a ≡ true
beq_bytes_refl a = (beq_bytes_iff a a).1 refl
