-- ===== src/Wire/RoundTrip.antt =====
-- The decoder reads back what is written, field by field.
use rolly.Base.{
  ℕ, zero, suc, ◌+◌, ◌*◌, ◌/◌, ◌%◌, ◌^◌, ◌≤◌, ◌<◌, ◌≡◌, refl, ap, some, List, [], ◌∷◌, ◌++◌,
  append_assoc, arith, length, length-append, take-append, drop-append, All,
}
use rolly.Base.Bytes.{to_le_bytes, IsU64, IsByte}
use rolly.Wire.{
  Field, varint, fixed64, delimited, leb128, varint_bytes, print_field, print, decode_varint,
  decode_le, decode_payload, decode_field, decode_loop, decode, IsField, IsMessage,
}

pub decode_varint-leb128 :
    (k v : ℕ) (rest : List ℕ)
    → v < 128 ^ suc k
    → decode_varint (leb128 k v ++ rest) ≡ some (v, rest)
unfolding leb128 decode_varint
decode_varint-leb128 zero v rest h = ground arith
decode_varint-leb128 (suc k) v rest h =
    ground (arith, decode_varint-leb128 k (v / 128) rest (omega arith))

decode_varint-varint_bytes :
    (v : ℕ) (rest : List ℕ) → v < 2 ^ 70 → decode_varint (varint_bytes v ++ rest) ≡ some (v, rest)
decode_varint-varint_bytes v rest h = decode_varint-leb128 9 v rest (omega arith)

pub length-leb128 : (k v : ℕ) → (1 ≤ length (leb128 k v)) × (length (leb128 k v) ≤ k + 1)
unfolding leb128
length-leb128 zero v = omega arith
length-leb128 (suc k) v = ground (arith, length-leb128 k (v / 128))

pub leb128-IsByte : (k v : ℕ) → v < 128 ^ suc k → All IsByte (leb128 k v)
unfolding leb128
leb128-IsByte zero v h = omega arith
leb128-IsByte (suc k) v h = ground (arith, leb128-IsByte k (v / 128) (omega arith))

decode_le-to_le_bytes :
    (v : ℕ) (rest : List ℕ) → IsU64 v → decode_le 8 (to_le_bytes v ++ rest) ≡ some (v, rest)
unfolding decode_le to_le_bytes
decode_le-to_le_bytes v rest h = ap (λ t. some (t, rest)) (omega arith)

decode_field-tag :
    (n w : ℕ) (rest : List ℕ)
    → n < 2 ^ 32
    → w < 8
    → decode_field (varint_bytes (n * 8 + w) ++ rest) ≡ decode_payload w n rest
unfolding decode_field
decode_field-tag n w rest hn hw =
    rw (decode_varint-varint_bytes (n * 8 + w) rest (omega arith), wire, number)
  where
    wire : (n * 8 + w) % 8 ≡ w
    wire = omega arith

    number : (n * 8 + w) / 8 ≡ n
    number = omega arith

decode_payload-delimited :
    (n : ℕ) (bs rest : List ℕ)
    → IsU64 (length bs)
    → decode_payload 2 n (varint_bytes (length bs) ++ (bs ++ rest)) ≡ some (delimited n bs, rest)
unfolding decode_payload
decode_payload-delimited n bs rest h =
    rw
      (
        decode_varint-varint_bytes (length bs) (bs ++ rest) (omega arith),
        take-append bs rest,
        drop-append bs rest,
        length-append bs rest,
      )
      (ground arith)

decode_field-print_field :
    (f : Field) (rest : List ℕ) → IsField f → decode_field (print_field f ++ rest) ≡ some (f, rest)
unfolding print_field
decode_field-print_field (varint n v) rest h =
    rw (append_assoc, decode_field-tag n 0 _ h.0 (omega arith))
      (unfold decode_payload in rw (decode_varint-varint_bytes v rest (omega arith)))
decode_field-print_field (fixed64 n v) rest h =
    rw (append_assoc, decode_field-tag n 1 _ h.0 (omega arith))
      (unfold decode_payload in rw (decode_le-to_le_bytes v rest h.1))
decode_field-print_field (delimited n bs) rest h =
    rw (append_assoc, decode_field-tag n 2 _ h.0 (omega arith), append_assoc)
      (decode_payload-delimited n bs rest h.1)

pub length-print_field : (f : Field) → 1 ≤ length (print_field f)
unfolding print_field
length-print_field (varint n v) = rw length-append (omega (arith, length-leb128 9 (n * 8 + 0)))
length-print_field (fixed64 n v) = rw length-append (omega (arith, length-leb128 9 (n * 8 + 1)))
length-print_field (delimited n bs) = rw length-append (omega (arith, length-leb128 9 (n * 8 + 2)))

-- One round of the decoder.
decode_loop-field :
    (fuel : ℕ) (f : Field) (rest : List ℕ) (fs : List Field)
    → IsField f
    → decode_loop fuel rest ≡ some fs
    → decode_loop (suc fuel) (print_field f ++ rest) ≡ some (f ∷ fs)
decode_loop-field fuel f rest fs h e =
    round (print_field f ++ rest) (rw length-append (omega (arith, length-print_field f)))
      (decode_field-print_field f rest h)
  where
    round :
        (bs : List ℕ)
        → 1 ≤ length bs
        → decode_field bs ≡ some (f, rest)
        → decode_loop (suc fuel) bs ≡ some (f ∷ fs)
    round [] short d = absurd (omega arith)
    round (b ∷ bs) long d = unfold decode_loop in rw (d, e)

decode_loop-print :
    (fuel : ℕ) (fs : List Field)
    → IsMessage fs
    → length (print fs) ≤ fuel
    → decode_loop fuel (print fs) ≡ some fs
unfolding print
decode_loop-print zero [] h enough = unfold decode_loop in refl
decode_loop-print (suc fuel) [] h enough = unfold decode_loop in refl
decode_loop-print zero (f ∷ fs) h enough =
    absurd (omega (arith, length-append (print_field f) (print fs), length-print_field f))
decode_loop-print (suc fuel) (f ∷ fs) h enough = decode_loop-field fuel f (print fs) fs h.0 (
    decode_loop-print fuel fs h.1
      (omega (arith, length-append (print_field f) (print fs), length-print_field f)))

-- The decoder returns the fields that were written, in their order, and nothing else.
pub decode-print : (fs : List Field) → IsMessage fs → decode (print fs) ≡ some fs
unfolding decode
decode-print fs h = decode_loop-print (length (print fs)) fs h (omega arith)

pub print-append : (fs gs : List Field) → print (fs ++ gs) ≡ print fs ++ print gs
unfolding print
print-append [] gs = refl
print-append (f ∷ fs) gs = rw (print-append fs gs, append_assoc)
