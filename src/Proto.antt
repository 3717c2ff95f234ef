-- ===== src/Proto.antt =====
-- src/proto.rs: the protobuf encoders. A procedure over `buf: &mut Vec<u8>` takes its other
-- arguments first and maps the bytes of `buf` to the new ones; `none` is a panic. A byte string and
-- a `&str` are lists of bytes, and an `f64` is its bit pattern, so `to_bits` is the identity.
pub mod Varint
pub mod InPlace
pub mod Writes
mod Examples
use mathlib.Core.Logic.{dite}
use mathlib.Core.WellFounded.{Acc}
use rolly.Base.Bytes.{to_le_bytes}
use rolly.Base.{
  ◌>>=◌, ℕ, zero, suc, ◌+◌, ◌-◌, ◌*◌, ◌/◌, ◌%◌, ◌^◌, ◌≤◌, ◌<◌, bit_or, Bool, Option, none, some,
  List, [], ◌∷◌, ◌++◌, arith, dec_le, lt_wf, ltb, ◌==◌, if◌then◌else◌, length, take, drop,
  replicate,
}

-- What a call does to the buffer.
abbrev pub Encoder : Type 0
Encoder = List ℕ → Option (List ℕ)

infixl 5 ◌>>◌
-- One call after the other.
pub ◌>>◌ : Encoder → Encoder → Encoder
◌>>◌ f g buf = f buf >>= g

pub skip : Encoder
skip buf = some buf

-- `buf.extend_from_slice(data)`
pub extend_from_slice : List ℕ → Encoder
extend_from_slice slice buf = some (buf ++ slice)

abbrev pub wire_type_varint : ℕ
wire_type_varint = 0

abbrev pub wire_type_fixed64 : ℕ
wire_type_fixed64 = 1

abbrev pub wire_type_length_delimited : ℕ
wire_type_length_delimited = 2

shift_shrinks : (v : ℕ) → 128 ≤ v → v / 128 < v
shift_shrinks v h = omega arith

-- `while val >= 0x80 { push(val as u8 | 0x80); val >>= 7 }`, then the last byte.
encode_varint_loop : List ℕ → (val : ℕ) → Acc ◌<◌ val → List ℕ
encode_varint_loop buf val (Acc.intro _ smaller) =
    dite (dec_le 128 val)
      (λ more.
        encode_varint_loop (buf ++ (bit_or (val % 256) 0x80 ∷ [])) (val / 128)
          (smaller (val / 128) (shift_shrinks val more)))
      (λ _. buf ++ (val % 256 ∷ []))

pub encode_varint : ℕ → Encoder
encode_varint val buf = some (encode_varint_loop buf val (lt_wf.apply val))

-- `((field_number as u64) << 3) | wire_type as u64`
abbrev pub tag_value : ℕ → ℕ → ℕ
tag_value field_number wire_type = bit_or (field_number * 8 % 2 ^ 64) wire_type

pub encode_tag : ℕ → ℕ → Encoder
encode_tag field_number wire_type = encode_varint (tag_value field_number wire_type)

pub encode_varint_field_always : ℕ → ℕ → Encoder
encode_varint_field_always field val = do encode_tag field wire_type_varint; encode_varint val

pub encode_varint_field : ℕ → ℕ → Encoder
encode_varint_field field val =
    if val == 0 then skip else (do encode_tag field wire_type_varint; encode_varint val)

pub encode_bytes_field : ℕ → List ℕ → Encoder
encode_bytes_field field [] = skip
encode_bytes_field field (b ∷ bs) = do
  encode_tag field wire_type_length_delimited
  encode_varint (length (b ∷ bs))
  extend_from_slice (b ∷ bs)

pub encode_string_field : ℕ → List ℕ → Encoder
encode_string_field field [] = skip
encode_string_field field (b ∷ bs) = encode_bytes_field field (b ∷ bs)

pub encode_fixed64_field_always : ℕ → ℕ → Encoder
encode_fixed64_field_always field val = do
  encode_tag field wire_type_fixed64
  extend_from_slice (to_le_bytes val)

pub encode_fixed64_field : ℕ → ℕ → Encoder
encode_fixed64_field field val =
    if val == 0
    then skip
    else (do encode_tag field wire_type_fixed64; extend_from_slice (to_le_bytes val))

-- A loop over a list whose body is a call on `buf`.
pub for_each {ℓ} : {A : Type ℓ} → List A → (A → Encoder) → Encoder
for_each [] body = skip
for_each (x ∷ xs) body = do body x; for_each xs body

pub encode_packed_fixed64_field : ℕ → List ℕ → Encoder
encode_packed_fixed64_field field [] = skip
encode_packed_fixed64_field field (v ∷ vs) = do
  encode_tag field wire_type_length_delimited
  encode_varint (length (v ∷ vs) * 8 % 2 ^ 64)
  for_each (v ∷ vs) (λ x. extend_from_slice (to_le_bytes x))

-- The values are bit patterns: `v.to_bits().to_le_bytes()`.
pub encode_packed_double_field : ℕ → List ℕ → Encoder
encode_packed_double_field field [] = skip
encode_packed_double_field field (v ∷ vs) = do
  encode_tag field wire_type_length_delimited
  encode_varint (length (v ∷ vs) * 8 % 2 ^ 64)
  for_each (v ∷ vs) (λ x. extend_from_slice (to_le_bytes x))

-- The allocating form, which the tests hold the in-place form against.
pub encode_message_field : ℕ → List ℕ → Encoder
encode_message_field field [] = skip
encode_message_field field (b ∷ bs) = do
  encode_tag field wire_type_length_delimited
  encode_varint (length (b ∷ bs))
  extend_from_slice (b ∷ bs)

-- `out[i] = v`, which panics out of bounds.
store : List ℕ → ℕ → ℕ → Option (List ℕ)
store [] i v = none
store (x ∷ xs) zero v = some (v ∷ xs)
store (x ∷ xs) (suc i) v = store xs i v >>= λ ys. some (x ∷ ys)

varint_to_slice_loop : List ℕ → (val : ℕ) → ℕ → Acc ◌<◌ val → Option (List ℕ × ℕ)
varint_to_slice_loop out val i (Acc.intro _ smaller) =
    dite (dec_le 128 val)
      (λ more. store out i (bit_or (val % 256) 0x80) >>= λ out'.
        varint_to_slice_loop out' (val / 128) (suc i)
          (smaller (val / 128) (shift_shrinks val more)))
      (λ _. store out i (val % 256) >>= λ out'. some (out', suc i))

pub encode_varint_to_slice : List ℕ → ℕ → Option (List ℕ × ℕ)
encode_varint_to_slice out val = varint_to_slice_loop out val 0 (lt_wf.apply val)

tag_len_loop : (v : ℕ) → ℕ → Acc ◌<◌ v → ℕ
tag_len_loop v n (Acc.intro _ smaller) =
    dite (dec_le 128 v)
      (λ more. tag_len_loop (v / 128) (n + 1) (smaller (v / 128) (shift_shrinks v more))) (λ _. n)

pub varint_tag_len : ℕ → ℕ
varint_tag_len field =
    let tag_val = tag_value field wire_type_length_delimited in
    tag_len_loop tag_val 1 (lt_wf.apply tag_val)

-- `buf.copy_within(src..src + n, dst)`, and `buf[pos..pos + xs.len()].copy_from_slice(xs)`.
pub copy_within : ℕ → ℕ → ℕ → List ℕ → List ℕ
copy_within src n dst buf = take dst buf ++ (take n (drop src buf) ++ drop (dst + n) buf)

pub copy_from_slice : ℕ → List ℕ → List ℕ → List ℕ
copy_from_slice pos xs buf = take pos buf ++ (xs ++ drop (pos + length xs) buf)

abbrev pub max_len_bytes : ℕ
max_len_bytes = 5

-- The length is patched into the reserved bytes, and the body moved down over those not needed.
patch_length : ℕ → ℕ → List ℕ × ℕ → List ℕ → List ℕ
patch_length tag_end body_len (len_buf, varint_len) buf =
    if ltb varint_len max_len_bytes
    then take (tag_end + varint_len + body_len) (
        copy_from_slice tag_end (take varint_len len_buf)
          (copy_within (tag_end + max_len_bytes) body_len (tag_end + varint_len) buf))
    else copy_from_slice tag_end len_buf buf

-- What follows the closure: nothing was written, or the length is. `buf.len() - body_start` on a
-- buffer that the closure cut short is a panic.
finish_in_place : ℕ → ℕ → Encoder
finish_in_place field tag_end buf =
    let body_len = length buf - (tag_end + max_len_bytes) in
    if ltb (length buf) (tag_end + max_len_bytes)
    then none
    else if body_len == 0
    then some (take (tag_end - varint_tag_len field) buf)
    else encode_varint_to_slice (replicate max_len_bytes 0) body_len >>= λ r.
        some (patch_length tag_end body_len r buf)

pub encode_message_field_in_place : ℕ → Encoder → Encoder
encode_message_field_in_place field f buf =
    encode_tag field wire_type_length_delimited buf >>= λ tagged.
    f (tagged ++ replicate max_len_bytes 0) >>= λ filled.
    finish_in_place field (length tagged) filled
