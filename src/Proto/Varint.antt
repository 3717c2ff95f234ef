-- ===== src/Proto/Varint.antt =====
-- What `encode_varint`, `encode_tag`, `encode_varint_to_slice` and `varint_tag_len` of src/proto.rs
-- compute, in the terms of the wire format.
use mathlib.Core.WellFounded.{Acc}
use mathlib.Core.Logic.{dif_pos}
use native.Mathlib.Bridge.{le_prop}
use native.Mathlib.Numerals.{add-one}
use rolly.Base.{
  ℕ, zero, suc, ◌+◌, ◌-◌, ◌*◌, ◌/◌, ◌%◌, ◌^◌, ◌≤◌, ◌<◌, ◌≡◌, refl, ap, ◌∙◌, none, some, List, [],
  ◌∷◌, ◌++◌, append_assoc, arith, length, replicate, length-append, All, bit_or, lt_wf, dec_le,
  Option-cases, inl, inr,
}
use rolly.Base.Bits.{set_top, bit_or_shl3}
use rolly.Base.Bytes.{IsU64, IsByte}
use rolly.Wire.{leb128, varint_bytes, tag_bytes, decode_varint}
use rolly.Wire.RoundTrip.{length-leb128, leb128-IsByte, decode_varint-leb128}
use rolly.Proto.{
  encode_varint_loop, encode_varint, encode_tag, tag_value, store, varint_to_slice_loop,
  encode_varint_to_slice, tag_len_loop, varint_tag_len, shift_shrinks,
}

-- The byte that is pushed while more follow.
inner_byte : (v : ℕ) → bit_or (v % 256) 0x80 ≡ v % 128 + 128
inner_byte v = rw (set_top (v % 256) (omega arith)) (omega arith)

encode_varint_loop-leb128 :
    (k : ℕ) (buf : List ℕ) (v : ℕ) (w : Acc ◌<◌ v)
    → v < 128 ^ suc k
    → encode_varint_loop buf v w ≡ buf ++ leb128 k v
unfolding encode_varint_loop leb128
encode_varint_loop-leb128 zero buf v (Acc.intro _ smaller) h = grind arith
encode_varint_loop-leb128 (suc k) buf v (Acc.intro _ smaller) h =
    let head : List ℕ = (v % 128 + 128) ∷ [] in
    grind (
      arith,
      inner_byte v,
      λ (w : Acc ◌<◌ (v / 128)).
          encode_varint_loop-leb128 k (buf ++ head) (v / 128) w (omega arith),
      append_assoc buf head (leb128 k (v / 128)),
    )

pub encode_varint-varint_bytes :
    (v : ℕ) (buf : List ℕ) → v < 2 ^ 70 → encode_varint v buf ≡ some (buf ++ varint_bytes v)
unfolding encode_varint
encode_varint-varint_bytes v buf h = ap some (encode_varint_loop-leb128 9 buf v _ (omega arith))

pub tag_value-lt : (n w : ℕ) → n < 2 ^ 32 → w < 8 → tag_value n w ≡ n * 8 + w
tag_value-lt n w hn hw =
    let fits : n * 8 % 2 ^ 64 ≡ n * 8 = omega arith in rw fits (bit_or_shl3 n w hw)

pub encode_tag-tag_bytes :
    (n w : ℕ) (buf : List ℕ) → n < 2 ^ 32 → w < 8 → encode_tag n w buf ≡ some (buf ++ tag_bytes n w)
unfolding encode_tag
encode_tag-tag_bytes n w buf hn hw =
    rw (tag_value-lt n w hn hw) (encode_varint-varint_bytes (n * 8 + w) buf (omega arith))

-- `encode_varint` appends one to ten bytes, from which any decoder reads the number back, whatever
-- follows.
decode_varint-encode_varint :
    (v : ℕ) (buf rest : List ℕ)
    → IsU64 v
    → (bytes : List ℕ) × (encode_varint v buf ≡ some (buf ++ bytes))
      × (decode_varint (bytes ++ rest) ≡ some (v, rest))
      × All IsByte bytes
      × (1 ≤ length bytes)
      × (length bytes ≤ 10)
decode_varint-encode_varint v buf rest h = (
  varint_bytes v,
  encode_varint-varint_bytes v buf (omega arith),
  decode_varint-leb128 9 v rest (omega arith),
  leb128-IsByte 9 v (omega arith),
  (length-leb128 9 v).0,
  (length-leb128 9 v).1,
)

-- Fewer groups are enough where the number fits them.
leb128-suc : (k v : ℕ) → v < 128 ^ suc k → leb128 (suc k) v ≡ leb128 k v
unfolding leb128
leb128-suc zero v h = ground arith
leb128-suc (suc k) v h = ground (arith, leb128-suc k (v / 128) (omega arith))

pub varint_bytes-small : (v : ℕ) → v < 2 ^ 35 → varint_bytes v ≡ leb128 4 v
varint_bytes-small v h =
    leb128-suc 8 v (omega arith)
    ∙ leb128-suc 7 v (omega arith)
    ∙ leb128-suc 6 v (omega arith)
    ∙ leb128-suc 5 v (omega arith)
    ∙ leb128-suc 4 v (omega arith)

tag_len_loop-leb128 :
    (k v n : ℕ) (w : Acc ◌<◌ v)
    → v < 128 ^ suc k
    → tag_len_loop v (n + 1) w ≡ n + length (leb128 k v)
unfolding tag_len_loop leb128
tag_len_loop-leb128 zero v n (Acc.intro _ smaller) h = grind arith
tag_len_loop-leb128 (suc k) v n (Acc.intro _ smaller) h =
    grind
      (arith, λ (w : Acc ◌<◌ (v / 128)). tag_len_loop-leb128 k (v / 128) (n + 1) w (omega arith))

pub varint_tag_len-length : (n : ℕ) → n < 2 ^ 32 → varint_tag_len n ≡ length (tag_bytes n 2)
unfolding varint_tag_len
varint_tag_len-length n h =
    rw (tag_value-lt n 2 h (omega arith))
      (omega (arith, tag_len_loop-leb128 9 (n * 8 + 2) 0 (lt_wf.apply (n * 8 + 2)) (omega arith)))

-- `varint_tag_len` is the number of bytes that `encode_tag` appends for a length-delimited field.
pub varint_tag_len-encode_tag :
    (n : ℕ) (buf : List ℕ)
    → n < 2 ^ 32
    → (bytes : List ℕ) × (encode_tag n 2 buf ≡ some (buf ++ bytes))
      × (varint_tag_len n ≡ length bytes)
varint_tag_len-encode_tag n buf h =
    (tag_bytes n 2, encode_tag-tag_bytes n 2 buf h (omega arith), varint_tag_len-length n h)

store-append :
    (done : List ℕ) (x v : ℕ) (rest : List ℕ)
    → store (done ++ (x ∷ rest)) (length done) v ≡ some (done ++ (v ∷ rest))
unfolding store
store-append [] x v rest = refl
store-append (d ∷ ds) x v rest = rw (store-append ds x v rest)

store_out : (out : List ℕ) (i v : ℕ) → length out ≤ i → store out i v ≡ none
unfolding store
store_out [] i v h = refl
store_out (x ∷ xs) zero v h = absurd (omega arith)
store_out (x ∷ xs) (suc i) v h = rw (store_out xs i v (omega arith))

leb128-last : (k v : ℕ) → v < 128 → leb128 k v ≡ v ∷ []
unfolding leb128
leb128-last zero v h = refl
leb128-last (suc k) v h = ground arith

leb128-more : (k v : ℕ) → 128 ≤ v → leb128 (suc k) v ≡ (v % 128 + 128) ∷ leb128 k (v / 128)
unfolding leb128
leb128-more k v h = ground arith

-- What the slice holds when the number is written behind `done`, into `n` zero bytes.
abbrev filled : List ℕ → ℕ → List ℕ → List ℕ
filled done n bytes = done ++ (bytes ++ replicate (n - length bytes) 0)

module _ (done rest : List ℕ) (v : ℕ) where
  -- The last byte of a number goes behind `done`.
  slice_last :
      (w : Acc ◌<◌ v)
      → v < 128
      → varint_to_slice_loop (done ++ (0 ∷ rest)) v (length done) w
        ≡ some (done ++ (v ∷ rest), suc (length done))
  unfolding varint_to_slice_loop
  slice_last (Acc.intro _ smaller) last = grind (arith, store-append done 0 (v % 256) rest)

  -- So does an inner one, and the loop goes on.
  slice_more :
      (w : Acc ◌<◌ v)
      → 128 ≤ v
      → (w' : Acc ◌<◌ (v / 128)) × (varint_to_slice_loop (done ++ (0 ∷ rest)) v (length done) w
          ≡ varint_to_slice_loop
              (done ++ ((v % 128 + 128) ∷ rest))
              (v / 128)
              (suc (length done))
              w')
  unfolding varint_to_slice_loop
  slice_more (Acc.intro _ smaller) more = (
    smaller (v / 128) (shift_shrinks v more),
    rw (dif_pos _ le_prop more, inner_byte v, store-append done 0 (v % 128 + 128) rest),
  )

suc_sub_suc : (a b : ℕ) → suc a - suc b ≡ a - b
suc_sub_suc a b = omega arith

-- The byte just written belongs to those done.
regroup :
    (done : List ℕ) (b n : ℕ) (v : ℕ) (w : Acc ◌<◌ v)
    → varint_to_slice_loop (done ++ (b ∷ replicate n 0)) v (suc (length done)) w
      ≡ varint_to_slice_loop ((done ++ (b ∷ [])) ++ replicate n 0) v (length (done ++ (b ∷ []))) w
regroup done b n v w =
    let e : length (done ++ (b ∷ [])) ≡ suc (length done) =
      omega (arith, length-append done (b ∷ [])) in
    rw (e, append_assoc)

-- With room for `k + 1` bytes behind those written, a number of as many groups fits.
varint_to_slice_loop-leb128 :
    (k : ℕ) (done : List ℕ) (v : ℕ) (w : Acc ◌<◌ v)
    → v < 128 ^ suc k
    → varint_to_slice_loop (done ++ replicate (suc k) 0) v (length done) w
      ≡ some (filled done (suc k) (leb128 k v), length done + length (leb128 k v))
varint_to_slice_loop-leb128 zero done v w h =
    rw (slice_last done [] v w (omega arith), leb128-last 0 v (omega arith), add-one)
varint_to_slice_loop-leb128 (suc k) done v w h = elim (dec_le 128 v) [
  | no few ↦
      let room : suc (suc k) - 1 ≡ suc k = omega arith in
      rw (
        slice_last done (replicate (suc k) 0) v w (omega arith),
        leb128-last (suc k) v (omega arith),
        room,
        add-one,
      )
  | yes many ↦
      let b = v % 128 + 128 in
      let (w', e) = slice_more done (replicate (suc k) 0) v w many in
      rw
        (
          e,
          regroup done b (suc k) (v / 128) w',
          varint_to_slice_loop-leb128 k (done ++ (b ∷ [])) (v / 128) w' (omega arith),
          leb128-more k v many,
        )
        (rw
          (
            length-append done (b ∷ []),
            append_assoc,
            suc_sub_suc (suc k) (length (leb128 k (v / 128))),
          )
          (ap
            (λ t. some (
              done
                  ++ (b
                      ∷ (leb128 k (v / 128) ++ replicate (suc k - length (leb128 k (v / 128))) 0)),
              t,
            ))
            (omega arith)))
]

-- `encode_varint_to_slice` writes the bytes of a varint to the front of the five-byte slice and
-- returns their number, for every length below 2^35.
pub encode_varint_to_slice-small :
    (v : ℕ)
    → v < 2 ^ 35
    → encode_varint_to_slice (replicate 5 0) v
      ≡ some (varint_bytes v ++ replicate (5 - length (varint_bytes v)) 0, length (varint_bytes v))
unfolding encode_varint_to_slice
encode_varint_to_slice-small v h =
    rw (varint_bytes-small v h, varint_to_slice_loop-leb128 4 [] v _ (omega arith))
      (ap (λ t. some (filled [] 5 (leb128 4 v), t)) (omega arith))

length-store :
    (out : List ℕ) (i v : ℕ) {out' : List ℕ} → store out i v ≡ some out' → length out' ≡ length out
unfolding store
length-store [] i v h = cc
length-store (x ∷ xs) zero v h = ground arith
length-store (x ∷ xs) (suc i) v {out'} h = elim (Option-cases (store xs i v)) [
  | inl full ↦ cc (full, h)
  | inr (ys, e) ↦ ground (arith, e, h, length-store xs i v e)
]

pow_pos : (k : ℕ) → 1 ≤ 128 ^ k
pow_pos zero = omega arith
pow_pos (suc k) = omega (arith, pow_pos k)

-- A longer one runs past the slice, which panics.
varint_to_slice_loop-none :
    (k : ℕ) (out : List ℕ) (v i : ℕ) (w : Acc ◌<◌ v)
    → 128 ^ k ≤ v
    → length out ≤ i + k
    → varint_to_slice_loop out v i w ≡ none
unfolding varint_to_slice_loop
varint_to_slice_loop-none zero out v i (Acc.intro _ smaller) h e =
    grind (arith, store_out out i (bit_or (v % 256) 0x80), store_out out i (v % 256))
varint_to_slice_loop-none (suc k) out v i (Acc.intro _ smaller) h e =
    let many : 128 ≤ v = omega (arith, pow_pos k) in
    elim (Option-cases (store out i (bit_or (v % 256) 0x80))) [
      | inl full ↦ rw (dif_pos _ le_prop many, full)
      | inr (out', stored) ↦
          rw (dif_pos _ le_prop many, stored)
            (varint_to_slice_loop-none k out' (v / 128) (suc i)
              (smaller (v / 128) (shift_shrinks v many)) (omega arith)
              (omega (arith, length-store out i (bit_or (v % 256) 0x80) stored)))
    ]

pub encode_varint_to_slice-large :
    (v : ℕ) → 2 ^ 35 ≤ v → encode_varint_to_slice (replicate 5 0) v ≡ none
unfolding encode_varint_to_slice
encode_varint_to_slice-large v h = varint_to_slice_loop-none 5 (replicate 5 0) v 0 _ h (omega arith)
