-- ===== src/Baseline/Svg/Pieces.antt =====
-- What a `writeln!` of tools/render_baseline.rs is made of: text as it stands, and printed arguments.
use Prim.Native.String.{String}
use Prim.Native.Nat.{ℕ}
use rolly.Base.{List}
use rolly.UseMetrics.Decimal.{decimal}

pub data Piece : Type 0 where
  lit : String → Piece
  arg : List ℕ → Piece

-- An integer.
abbrev pub num : ℕ → Piece
num n = arg (decimal n)
