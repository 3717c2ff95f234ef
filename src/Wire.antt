-- ===== src/Wire.antt =====
-- The protobuf wire format, as its documentation states it: the fields of a message, how they are
-- written, and a decoder. Nothing here is about the crate's code, which is held against it.
pub mod RoundTrip
pub mod Append
use rolly.Base.{
  ◌>>=◌, ℕ, zero, suc, ◌+◌, ◌-◌, ◌*◌, ◌/◌, ◌%◌, ◌^◌, ◌<◌, Option, none, some, List, [], ◌∷◌, ◌++◌,
  ltb, leb, if◌then◌else◌, length, take, drop, All,
}
use rolly.Base.Bytes.{to_le_bytes, IsU64}

-- A field of a message: its number and its payload.
pub data Field : Type 0 where
  varint : ℕ → ℕ → Field
  fixed64 : ℕ → ℕ → Field
  delimited : ℕ → List ℕ → Field

-- Groups of seven bits, lowest first, the top bit set on all but the last; `k` more may follow.
unfoldable pub leb128 : ℕ → ℕ → List ℕ
leb128 zero v = v ∷ []
leb128 (suc k) v =
    let more = (v % 128 + 128) ∷ leb128 k (v / 128) in if ltb v 128 then v ∷ [] else more

-- Ten bytes hold any 64-bit number.
abbrev pub varint_bytes : ℕ → List ℕ
varint_bytes v = leb128 9 v

abbrev pub tag_bytes : ℕ → ℕ → List ℕ
tag_bytes number wire = varint_bytes (number * 8 + wire)

unfoldable pub print_field : Field → List ℕ
print_field (varint n v) = tag_bytes n 0 ++ varint_bytes v
print_field (fixed64 n v) = tag_bytes n 1 ++ to_le_bytes v
print_field (delimited n bs) = tag_bytes n 2 ++ (varint_bytes (length bs) ++ bs)

unfoldable pub print : List Field → List ℕ
print [] = []
print (f ∷ fs) = print_field f ++ print fs

unfoldable pub decode_varint : List ℕ → Option (ℕ × List ℕ)
decode_varint [] = none
decode_varint (b ∷ bs) =
    let more = decode_varint bs >>= λ r. some (b - 128 + 128 * r.0, r.1) in
    if ltb b 128 then some (b, bs) else more

unfoldable pub decode_le : ℕ → List ℕ → Option (ℕ × List ℕ)
decode_le zero bs = some (0, bs)
decode_le (suc n) [] = none
decode_le (suc n) (b ∷ bs) = decode_le n bs >>= λ r. some (b + 256 * r.0, r.1)

-- By wire type: 0 is a varint, 1 eight bytes, 2 a length and as many bytes. Groups (3, 4) and
-- 32-bit values (5) do not occur in OTLP requests of this crate and are refused.
unfoldable pub decode_payload : ℕ → ℕ → List ℕ → Option (Field × List ℕ)
decode_payload zero n bs = decode_varint bs >>= λ r. some (varint n r.0, r.1)
decode_payload (suc zero) n bs = decode_le 8 bs >>= λ r. some (fixed64 n r.0, r.1)
decode_payload (suc (suc zero)) n bs = decode_varint bs >>= λ r.
    if leb r.0 (length r.1) then some (delimited n (take r.0 r.1), drop r.0 r.1) else none
decode_payload (suc (suc (suc w))) n bs = none

unfoldable pub decode_field : List ℕ → Option (Field × List ℕ)
decode_field bs = decode_varint bs >>= λ r. decode_payload (r.0 % 8) (r.0 / 8) r.1

-- Every field takes a byte at least, so the length of the input is fuel enough.
unfoldable pub decode_loop : ℕ → List ℕ → Option (List Field)
decode_loop fuel [] = some []
decode_loop zero (b ∷ bs) = none
decode_loop (suc fuel) (b ∷ bs) =
    decode_field (b ∷ bs) >>= λ r. decode_loop fuel r.1 >>= λ fs. some (r.0 ∷ fs)

unfoldable pub decode : List ℕ → Option (List Field)
unfolding decode_loop decode_field decode_payload decode_le decode_varint
decode bs = decode_loop (length bs) bs

-- A field that the format can hold: a 32-bit number, a 64-bit value or length.
abbrev pub IsField : Field → Type 0
IsField (varint n v) = (n < 2 ^ 32) × IsU64 v
IsField (fixed64 n v) = (n < 2 ^ 32) × IsU64 v
IsField (delimited n bs) = (n < 2 ^ 32) × IsU64 (length bs)

abbrev pub IsMessage : List Field → Type 0
IsMessage fs = All IsField fs
