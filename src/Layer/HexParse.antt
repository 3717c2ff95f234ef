-- ===== src/Layer/HexParse.antt =====
-- `hex_to_bytes_16` of src/otlp_layer.rs against `hex_encode` of src/trace_id.rs.
use rolly.Base.{
  ℕ, ◌≡◌, refl, sym, ap, ◌*◌, ◌/◌, ◌%◌, ◌<◌, arith, Bool, true, false, Option, none, some, List, [],
  ◌∷◌, bit_and, bit_or, ◌==◌, ==_iff, length, All,
}
use rolly.Base.Bits.{every_below, every_below→at, low_nibble, bit_or_shl4}
use rolly.Base.Bytes.{IsByte}
use rolly.TraceId.{hex_char, hex_encode}
use rolly.TraceId.Hex.{length-hex_encode}
use rolly.Layer.{hex_nibble, hex_chunks, hex_to_bytes_16}

is_just : Option ℕ → ℕ → Bool
is_just none n = false
is_just (some m) n = m == n

is_just→≡ : (o : Option ℕ) (n : ℕ) → is_just o n ≡ true → o ≡ some n
unfolding is_just
is_just→≡ none n h = ground arith
is_just→≡ (some m) n h = ap some ((==_iff m n).0 h)

nibble_table : every_below (λ n. is_just (hex_nibble (hex_char n)) n) 16 ≡ true
unfolding every_below is_just hex_nibble
nibble_table = refl

-- Each of the sixteen digits that are printed reads as itself.
hex_nibble-hex_char : (n : ℕ) → n < 16 → hex_nibble (hex_char n) ≡ some n
hex_nibble-hex_char n h = is_just→≡ _ n (every_below→at _ 16 n nibble_table h)

-- The byte that two digits make.
byte_of_nibbles : (b : ℕ) → b < 256 → bit_or (b / 16 * 16 % 256) (bit_and b 0x0f) ≡ b
byte_of_nibbles b h = omega (
  arith,
  ap (bit_or (b / 16 * 16 % 256)) (low_nibble b h),
  ap (λ (t : ℕ). bit_or t (b % 16)) (let e : b / 16 * 16 % 256 ≡ b / 16 * 16 = omega arith in e),
  bit_or_shl4 (b / 16) (b % 16) (omega arith),
)

pub hex_chunks-hex_encode : (bs : List ℕ) → All IsByte bs → hex_chunks (hex_encode bs) ≡ some bs
unfolding hex_chunks hex_encode
hex_chunks-hex_encode [] h = refl
hex_chunks-hex_encode (b ∷ bs) (hb, hbs) = rw (
  hex_nibble-hex_char (b / 16) (omega arith),
  low_nibble b hb,
  hex_nibble-hex_char (b % 16) (omega arith),
  hex_chunks-hex_encode bs hbs,
  sym (low_nibble b hb),
  byte_of_nibbles b hb,
)

-- A trace ID of 16 bytes that is printed as hexadecimal digits is parsed back as the same bytes.
hex_to_bytes_16-hex_encode :
    (t : List ℕ) → length t ≡ 16 → All IsByte t → hex_to_bytes_16 (hex_encode t) ≡ some t
unfolding hex_to_bytes_16
hex_to_bytes_16-hex_encode t h k = rw (
  (==_iff (length (hex_encode t)) 32).1 (omega (arith, length-hex_encode t, h)),
  hex_chunks-hex_encode t k,
)
