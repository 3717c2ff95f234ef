-- ===== src/TraceId/Hex.antt =====
-- The form of what src/trace_id.rs prints.
use rolly.Base.{ℕ, ◌*◌, ◌≡◌, arith, List, [], ◌∷◌, length}
use rolly.TraceId.{hex_encode}

-- Two characters for each byte.
pub length-hex_encode : (bs : List ℕ) → length (hex_encode bs) ≡ 2 * length bs
unfolding hex_encode
length-hex_encode [] = omega arith
length-hex_encode (b ∷ bs) = omega (arith, length-hex_encode bs)
