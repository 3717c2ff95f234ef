-- ===== src/Proto/InPlace.antt =====
-- `encode_message_field_in_place` of src/proto.rs against the allocating `encode_message_field`.
use rolly.Base.{
  ◌>>=◌, ℕ, zero, suc, ◌+◌, ◌-◌, ◌^◌, ◌≤◌, ◌<◌, ◌≡◌, refl, sym, ◌∙◌, ap, none, some, false, List,
  [], ◌∷◌, ◌++◌, append-nil, append_assoc, arith, length, take, drop, replicate, length-append,
  take-append, Bool-cases, inl, inr, take-append_add, drop-append_add, take-length, ltb, ◌==◌,
  if◌then◌else◌,
}
use mathlib.Core.Path.{subst}
use native.Mathlib.Nat.{add_assoc}
use rolly.Wire.{varint_bytes, tag_bytes}
use rolly.Wire.RoundTrip.{length-leb128}
use rolly.Proto.{
  Encoder, skip, ◌>>◌, extend_from_slice, encode_message_field, encode_varint_to_slice,
  varint_tag_len, copy_within, copy_from_slice, patch_length, finish_in_place,
  encode_message_field_in_place,
}
use rolly.Proto.Varint.{
  encode_tag-tag_bytes, encode_varint-varint_bytes, varint_tag_len-length, varint_bytes-small,
  encode_varint_to_slice-small, encode_varint_to_slice-large,
}

drop-replicate : (n : ℕ) (xs : List ℕ) → drop n (replicate n 0 ++ xs) ≡ xs
drop-replicate zero xs = refl
drop-replicate (suc n) xs = drop-replicate n xs

-- The buffer when the closure has returned: `tagged`, five zero bytes, and the body.
abbrev filled : List ℕ → List ℕ → List ℕ
filled tagged body = tagged ++ (replicate 5 0 ++ body)

zeros_cut : (n : ℕ) (body : List ℕ) → n ≤ 5 → take n (replicate 5 0 ++ body) ≡ replicate n 0
zeros_cut zero body h = refl
zeros_cut (suc zero) body h = refl
zeros_cut (suc (suc zero)) body h = refl
zeros_cut (suc (suc (suc zero))) body h = refl
zeros_cut (suc (suc (suc (suc zero)))) body h = refl
zeros_cut (suc (suc (suc (suc (suc zero))))) body h = refl
zeros_cut (suc (suc (suc (suc (suc (suc n)))))) body h = absurd (omega arith)

module _ (tagged body len : List ℕ) (h : length len ≤ 5) where
  -- What stands behind the moved body is cut off in the end.
  abbrev leftover : List ℕ
  leftover = drop (length tagged + length len + length body) (filled tagged body)

  copy_within-filled :
      copy_within
        (length tagged + 5)
        (length body)
        (length tagged + length len)
        (filled tagged body)
      ≡ tagged ++ (replicate (length len) 0 ++ (body ++ leftover))
  unfolding copy_within
  copy_within-filled = rw (
    take-append_add tagged (replicate 5 0 ++ body) (length len),
    drop-append_add tagged (replicate 5 0 ++ body) 5,
    zeros_cut (length len) body h,
    take-length body,
    append_assoc,
  )

module _ (tagged len rest : List ℕ) where
  copy_from_slice-moved :
      copy_from_slice (length tagged) len (tagged ++ (replicate (length len) 0 ++ rest))
      ≡ tagged ++ (len ++ rest)
  unfolding copy_from_slice
  copy_from_slice-moved =
      rw
        (
          drop-append_add tagged (replicate (length len) 0 ++ rest) (length len),
          take-append tagged (replicate (length len) 0 ++ rest),
        )
        (ap (λ t. tagged ++ (len ++ t)) (drop-replicate (length len) rest))

module _ (tagged body len rest : List ℕ) where
  take-moved :
      take (length tagged + length len + length body) (tagged ++ (len ++ (body ++ rest)))
      ≡ tagged ++ (len ++ body)
  take-moved = rw (
    add_assoc (length tagged) (length len) (length body),
    take-append_add tagged (len ++ (body ++ rest)) (length len + length body),
    take-append_add len (body ++ rest) (length body),
    take-append body rest,
  )

-- The length goes to the front of the five reserved bytes, and the body behind it.
patch_length_lem :
    (tagged body len : List ℕ)
    → length len ≤ 5
    → patch_length
        (length tagged)
        (length body)
        (len ++ replicate (5 - length len) 0, length len)
        (filled tagged body)
      ≡ tagged ++ (len ++ body)
unfolding patch_length
patch_length_lem tagged body len h = elim (Bool-cases (ltb (length len) 5)) [
  | inl short ↦
      rw
        (
          short,
          take-append len (replicate (5 - length len) 0),
          copy_within-filled tagged body len h,
          copy_from_slice-moved tagged len (body ++ leftover tagged body len h),
        )
        (take-moved tagged body len (leftover tagged body len h))
  | inr full ↦
      let five : length len ≡ 5 = ground arith in
      rw (full, five, append-nil)
        (subst
          (λ n.
            copy_from_slice (length tagged) len (tagged ++ (replicate n 0 ++ body))
            ≡ tagged ++ (len ++ body))
          five (copy_from_slice-moved tagged len body))
]

-- The three ends of the call: the closure wrote nothing and the tag goes again, the length is
-- patched in, or it needs a sixth byte and the store is out of bounds.
module _ (field : ℕ) (buf : List ℕ) (hf : field < 2 ^ 32) where
  abbrev tagged : List ℕ
  tagged = buf ++ tag_bytes field 2

  length-filled : (body : List ℕ) → length (filled tagged body) ≡ length tagged + 5 + length body
  length-filled body = omega (arith, length-append tagged (replicate 5 0 ++ body))

  finish_in_place-filled :
      (body : List ℕ)
      → finish_in_place field (length tagged) (filled tagged body) ≡ (
          if length body == 0
          then some (take (length tagged - varint_tag_len field) (filled tagged body))
          else encode_varint_to_slice (replicate 5 0) (length body) >>= λ r.
              some (patch_length (length tagged) (length body) r (filled tagged body)))
  unfolding finish_in_place
  finish_in_place-filled body =
      let n : ℕ = length (filled tagged body) in
      let kept : ltb n (length tagged + 5) ≡ false = ground (arith, length-filled body) in
      let written : n - (length tagged + 5) ≡ length body = omega (arith, length-filled body) in
      rw (kept, written)

  finish_in_place-empty : finish_in_place field (length tagged) (filled tagged []) ≡ some buf
  finish_in_place-empty =
      let cut : length tagged - length (tag_bytes field 2) ≡ length buf =
        omega (arith, length-append buf (tag_bytes field 2)) in
      rw (
        finish_in_place-filled [],
        varint_tag_len-length field hf,
        cut,
        append_assoc,
        take-append buf (tag_bytes field 2 ++ replicate 5 0),
      )

  finish_in_place-small :
      (body : List ℕ)
      → 1 ≤ length body
      → length body < 2 ^ 35
      → finish_in_place field (length tagged) (filled tagged body)
        ≡ some (tagged ++ (varint_bytes (length body) ++ body))
  finish_in_place-small body h k =
      let nonempty : (length body == 0) ≡ false = ground arith in
      let short : length (varint_bytes (length body)) ≤ 5 =
        rw (varint_bytes-small (length body) k) ((length-leb128 4 (length body)).1) in
      rw (
        finish_in_place-filled body,
        nonempty,
        encode_varint_to_slice-small (length body) k,
        patch_length_lem tagged body (varint_bytes (length body)) short,
      )

  finish_in_place-large :
      (body : List ℕ)
      → 2 ^ 35 ≤ length body
      → finish_in_place field (length tagged) (filled tagged body) ≡ none
  finish_in_place-large body h =
      let nonempty : (length body == 0) ≡ false = ground arith in
      rw (finish_in_place-filled body, nonempty, encode_varint_to_slice-large (length body) h)

-- `f` appends `body` to the buffer that it is given.
abbrev Appends : Encoder → List ℕ → List ℕ → Type 0
Appends f body buf = f buf ≡ some (buf ++ body)

module _ (field : ℕ) (f : Encoder) (buf : List ℕ) (hf : field < 2 ^ 32) where
  in_place-finish :
      (body : List ℕ)
      → Appends f body (tagged field buf hf ++ replicate 5 0)
      → encode_message_field_in_place field f buf
        ≡ finish_in_place field (length (tagged field buf hf)) (filled (tagged field buf hf) body)
  unfolding encode_message_field_in_place
  in_place-finish body h = rw (encode_tag-tag_bytes field 2 buf hf (omega arith), h, append_assoc)

  pub in_place-empty :
      Appends f [] (tagged field buf hf ++ replicate 5 0)
      → encode_message_field_in_place field f buf ≡ some buf
  in_place-empty h = in_place-finish [] h ∙ finish_in_place-empty field buf hf

  pub in_place-small :
      (body : List ℕ)
      → Appends f body (tagged field buf hf ++ replicate 5 0)
      → 1 ≤ length body
      → length body < 2 ^ 35
      → encode_message_field_in_place field f buf
        ≡ some (tagged field buf hf ++ (varint_bytes (length body) ++ body))
  in_place-small body h nonempty fits =
      in_place-finish body h ∙ finish_in_place-small field buf hf body nonempty fits

-- The allocating form, in the terms of the wire format.
encode_message_field-wire :
    (field b : ℕ) (bs buf : List ℕ)
    → field < 2 ^ 32
    → length (b ∷ bs) < 2 ^ 35
    → encode_message_field field (b ∷ bs) buf
      ≡ some (buf ++ tag_bytes field 2 ++ (varint_bytes (length (b ∷ bs)) ++ (b ∷ bs)))
unfolding encode_message_field ◌>>◌ extend_from_slice
encode_message_field-wire field b bs buf hf fits = rw (
  encode_tag-tag_bytes field 2 buf hf (omega arith),
  encode_varint-varint_bytes (length (b ∷ bs)) _ (omega arith),
  append_assoc,
)

-- For a closure that appends `body` to any buffer, `body` below 32 GiB, the in-place form writes
-- exactly what the allocating form writes: nothing for an empty body, else the tag, the length and
-- the body.
pub in_place-eq-encode_message_field :
    (field : ℕ) (f : Encoder) (body buf : List ℕ)
    → field < 2 ^ 32
    → ((b : List ℕ) → f b ≡ some (b ++ body))
    → length body < 2 ^ 35
    → encode_message_field_in_place field f buf ≡ encode_message_field field body buf
in_place-eq-encode_message_field field f [] buf hf h fits =
    in_place-empty field f buf hf (h _) ∙ unfold encode_message_field skip in refl
in_place-eq-encode_message_field field f (b ∷ bs) buf hf h fits =
    in_place-small field f buf hf (b ∷ bs) (h _) (omega arith) fits
    ∙ sym (encode_message_field-wire field b bs buf hf fits)

-- A body of 32 GiB or more needs a length of six bytes, for which no room is reserved: the call
-- panics.
pub in_place_panics :
    (field : ℕ) (f : Encoder) (body buf : List ℕ)
    → field < 2 ^ 32
    → ((b : List ℕ) → f b ≡ some (b ++ body))
    → 2 ^ 35 ≤ length body
    → encode_message_field_in_place field f buf ≡ none
in_place_panics field f body buf hf h large =
    in_place-finish field f buf hf body (h _) ∙ finish_in_place-large field buf hf body large
