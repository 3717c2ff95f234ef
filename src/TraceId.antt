-- ===== src/TraceId.antt =====
-- src/trace_id.rs: IDs and their hexadecimal form. BLAKE3, the random UUID and the random bytes come
-- from other crates and are parameters.
pub mod Hex
use rolly.Base.{
  ℕ, ◌/◌, Bool, true, false, Option, none, some, List, [], ◌∷◌, bit_and, if◌then◌else◌, take,
  get_or,
}
use rolly.Base.Bytes.{beq_bytes}
use rolly.Base.Text.{codes}

-- `blake3::hash`, 32 bytes.
unfoldable pub generate_trace_id : (List ℕ → List ℕ) → List ℕ → Option (List ℕ) → List ℕ
generate_trace_id blake3 random_uuid none = random_uuid
generate_trace_id blake3 random_uuid (some []) = random_uuid
generate_trace_id blake3 random_uuid (some (c ∷ cs)) =
    if beq_bytes (c ∷ cs) (codes "-") then random_uuid else take 16 (blake3 (c ∷ cs))

abbrev pub hex : List ℕ
hex = codes "0123456789abcdef"

-- `HEX[i] as char`; the index is below 16.
abbrev pub hex_char : ℕ → ℕ
hex_char i = get_or hex i 0

unfoldable pub hex_encode : List ℕ → List ℕ
hex_encode [] = []
hex_encode (b ∷ bs) = hex_char (b / 16) ∷ (hex_char (bit_and b 0x0f) ∷ hex_encode bs)
