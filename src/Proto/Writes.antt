-- ===== src/Proto/Writes.antt =====
-- The contract of an encoder: which fields it appends to the buffer. One rule for each procedure of
-- src/proto.rs, and one for each way to put calls together.
use rolly.Base.{
  ℕ, ◌+◌, ◌*◌, ◌^◌, ◌%◌, ◌≤◌, ◌<◌, ◌≡◌, refl, ◌∙◌, some, List, [], ◌∷◌, ◌++◌, append-nil,
  append_assoc, arith, length, length-append, Bool-cases, inl, inr, ◌==◌, if◌then◌else◌,
}
use rolly.Base.Bytes.{to_le_bytes, length-to_le_bytes}
use rolly.Wire.{
  Field, varint, fixed64, delimited, print_field, print, varint_bytes, tag_bytes, decode, IsMessage,
}
use rolly.Wire.RoundTrip.{print-append, length-print_field, decode-print}
use rolly.Proto.{
  Encoder, ◌>>◌, skip, extend_from_slice, for_each, encode_tag, encode_varint, encode_varint_field,
  encode_varint_field_always, encode_bytes_field, encode_string_field, encode_fixed64_field,
  encode_fixed64_field_always, encode_packed_fixed64_field, encode_packed_double_field,
  encode_message_field_in_place,
}
use rolly.Proto.Varint.{encode_varint-varint_bytes, encode_tag-tag_bytes}
use rolly.Proto.InPlace.{in_place-empty, in_place-small}

-- On any buffer `f` returns, and has appended the fields `m`, provided they take less than 32 GiB.
pub record Writes (f : Encoder) (m : List Field) : Type 0 where
  pub at : (buf : List ℕ) → length (print m) < 2 ^ 35 → f buf ≡ some (buf ++ print m)

-- Fields by kind; proto3 leaves out a field with the default value.
abbrev pub uint_field : ℕ → ℕ → List Field
uint_field n v = if v == 0 then [] else varint n v ∷ []

abbrev pub fixed_field : ℕ → ℕ → List Field
fixed_field n v = if v == 0 then [] else fixed64 n v ∷ []

abbrev pub bytes_field : ℕ → List ℕ → List Field
bytes_field n [] = []
bytes_field n (b ∷ bs) = delimited n (b ∷ bs) ∷ []

abbrev pub message_field : ℕ → List Field → List Field
message_field n [] = []
message_field n (f ∷ fs) = delimited n (print (f ∷ fs)) ∷ []

abbrev pub concat_map {ℓ} : {A : Type ℓ} → (A → List Field) → List A → List Field
concat_map g [] = []
concat_map g (x ∷ xs) = g x ++ concat_map g xs

-- The words of a packed field, one after the other.
abbrev pub le_words : List ℕ → List ℕ
le_words [] = []
le_words (v ∷ vs) = to_le_bytes v ++ le_words vs

abbrev pub packed_field : ℕ → List ℕ → List Field
packed_field n [] = []
packed_field n (v ∷ vs) = delimited n (le_words (v ∷ vs)) ∷ []

print-nil : print [] ≡ []
unfolding print
print-nil = refl

print-varint : (n v : ℕ) → print (varint n v ∷ []) ≡ tag_bytes n 0 ++ varint_bytes v
unfolding print print_field
print-varint n v = append-nil _

print-fixed64 : (n v : ℕ) → print (fixed64 n v ∷ []) ≡ tag_bytes n 1 ++ to_le_bytes v
unfolding print print_field
print-fixed64 n v = append-nil _

print-delimited :
    (n : ℕ) (bs : List ℕ)
    → print (delimited n bs ∷ []) ≡ tag_bytes n 2 ++ (varint_bytes (length bs) ++ bs)
unfolding print print_field
print-delimited n bs = append-nil _

-- A payload is shorter than the field that holds it.
pub delimited_size : (n : ℕ) (bs : List ℕ) → length bs ≤ length (print (delimited n bs ∷ []))
delimited_size n bs =
    rw (print-delimited n bs, length-append, length-append (varint_bytes (length bs)) bs)
      (omega arith)

print_pos : (f : Field) (fs : List Field) → 1 ≤ length (print (f ∷ fs))
unfolding print
print_pos f fs = rw length-append (omega (arith, length-print_field f))

pub Writes-skip : Writes skip []
unfolding skip print
Writes-skip = record { at = λ buf h. rw append-nil }

pub Writes-seq :
    {f g : Encoder} {m n : List Field} → Writes f m → Writes g n → Writes (f >> g) (m ++ n)
unfolding ◌>>◌
Writes-seq {f} {g} {m} {n} wf wg = record {
  at = λ buf h.
      let size : length (print m) + length (print n) < 2 ^ 35 =
        rw (← length-append, ← print-append m n) h in
      rw (
        wf.at buf (omega arith),
        wg.at (buf ++ print m) (omega arith),
        print-append m n,
        append_assoc,
      );
}

pub Writes-for_each {ℓ} :
    {A : Type ℓ} (xs : List A) (body : A → Encoder) (g : A → List Field)
    → ((x : A) → Writes (body x) (g x))
    → Writes (for_each xs body) (concat_map g xs)
unfolding for_each
Writes-for_each [] body g w = Writes-skip
Writes-for_each (x ∷ xs) body g w = Writes-seq (w x) (Writes-for_each xs body g w)

Writes-nothing :
    {f : Encoder}
    → Writes f []
    → length (print []) < 2 ^ 35
    → (buf : List ℕ) → f buf ≡ some (buf ++ [])
Writes-nothing w h buf = rw print-nil at (w.at buf h)

-- The words of a packed field are appended one by one.
for_each-le_words :
    (vs buf : List ℕ)
    → for_each vs (λ x. extend_from_slice (to_le_bytes x)) buf ≡ some (buf ++ le_words vs)
unfolding for_each skip ◌>>◌ extend_from_slice
for_each-le_words [] buf = rw append-nil
for_each-le_words (v ∷ vs) buf = for_each-le_words vs (buf ++ to_le_bytes v) ∙ rw append_assoc

length-le_words : (vs : List ℕ) → length (le_words vs) ≡ length vs * 8
length-le_words [] = omega arith
length-le_words (v ∷ vs) =
    rw (length-append, length-to_le_bytes) (omega (arith, length-le_words vs))

module _ (n : ℕ) (hn : n < 2 ^ 32) where
  -- A message below 32 GiB fits, and so does every message inside it.
  in_place-Writes :
      (f : Encoder) (m : List Field)
      → Writes f m
      → (buf : List ℕ) → length (print (message_field n m)) < 2 ^ 35
      → encode_message_field_in_place n f buf ≡ some (buf ++ print (message_field n m))
  in_place-Writes f [] w buf h =
      in_place-empty n f buf hn (Writes-nothing w h _) ∙ rw (print-nil, append-nil)
  in_place-Writes f (x ∷ xs) w buf h =
      let fits : length (print (x ∷ xs)) < 2 ^ 35 =
        omega (arith, delimited_size n (print (x ∷ xs))) in
      in_place-small n f buf hn (print (x ∷ xs)) (w.at _ fits) (print_pos x xs) fits
      ∙ rw (print-delimited n (print (x ∷ xs)), append_assoc)

  pub Writes-message :
      {f : Encoder} {m : List Field}
      → Writes f m
      → Writes (encode_message_field_in_place n f) (message_field n m)
  Writes-message {f} {m} w = record { at = in_place-Writes f m w }

  pub Writes-varint_always :
      (v : ℕ) → v < 2 ^ 64 → Writes (encode_varint_field_always n v) (varint n v ∷ [])
  unfolding encode_varint_field_always ◌>>◌
  Writes-varint_always v h = record {
    at = λ buf _. rw (
      print-varint n v,
      encode_tag-tag_bytes n 0 buf hn (omega arith),
      encode_varint-varint_bytes v (buf ++ tag_bytes n 0) (omega arith),
      append_assoc,
    );
  }

  pub Writes-varint : (v : ℕ) → v < 2 ^ 64 → Writes (encode_varint_field n v) (uint_field n v)
  unfolding encode_varint_field
  Writes-varint v h = elim (Bool-cases (v == 0)) [
    | inl zero_value ↦ rw zero_value Writes-skip
    | inr other ↦ rw other (unfold encode_varint_field_always in Writes-varint_always v h)
  ]

  pub Writes-fixed64_always : (v : ℕ) → Writes (encode_fixed64_field_always n v) (fixed64 n v ∷ [])
  unfolding encode_fixed64_field_always ◌>>◌ extend_from_slice
  Writes-fixed64_always v = record {
    at = λ buf _.
        rw (print-fixed64 n v, encode_tag-tag_bytes n 1 buf hn (omega arith), append_assoc);
  }

  -- The same with more calls behind it, for a list of fields that has computed.
  pub Writes-fixed64_then :
      (v : ℕ) {g : Encoder} {m : List Field}
      → Writes g m
      → Writes (encode_fixed64_field_always n v >> g) (fixed64 n v ∷ m)
  Writes-fixed64_then v w = Writes-seq (Writes-fixed64_always v) w

  pub Writes-fixed64 : (v : ℕ) → Writes (encode_fixed64_field n v) (fixed_field n v)
  unfolding encode_fixed64_field
  Writes-fixed64 v = elim (Bool-cases (v == 0)) [
    | inl zero_value ↦ rw zero_value Writes-skip
    | inr other ↦ rw other (unfold encode_fixed64_field_always in Writes-fixed64_always v)
  ]

  -- The tag, the length and the bytes, as three procedures write them.
  write_delimited :
      (bs buf : List ℕ) (tail : Encoder)
      → length bs < 2 ^ 64
      → ((b : List ℕ) → tail b ≡ some (b ++ bs))
      → (encode_tag n 2 >> (encode_varint (length bs) >> tail)) buf
        ≡ some (buf ++ print (delimited n bs ∷ []))
  unfolding ◌>>◌
  write_delimited bs buf tail fits h = rw (
    print-delimited n bs,
    encode_tag-tag_bytes n 2 buf hn (omega arith),
    encode_varint-varint_bytes (length bs) (buf ++ tag_bytes n 2) (omega arith),
    h (buf ++ tag_bytes n 2 ++ varint_bytes (length bs)),
    append_assoc,
    append_assoc,
  )

  pub Writes-bytes : (bs : List ℕ) → Writes (encode_bytes_field n bs) (bytes_field n bs)
  unfolding encode_bytes_field extend_from_slice
  Writes-bytes [] = Writes-skip
  Writes-bytes (b ∷ bs) = record {
    at = λ buf h.
        let fits : length (b ∷ bs) < 2 ^ 35 = omega (arith, delimited_size n (b ∷ bs)) in
        write_delimited (b ∷ bs) buf _ (omega arith) (λ t. refl);
  }

  pub Writes-string : (bs : List ℕ) → Writes (encode_string_field n bs) (bytes_field n bs)
  unfolding encode_string_field
  Writes-string [] = Writes-skip
  Writes-string (b ∷ bs) = Writes-bytes (b ∷ bs)

  -- Both packed procedures, whose loops are alike: eight bytes for each value.
  packed_write :
      (v : ℕ) (vs buf : List ℕ)
      → length (print (packed_field n (v ∷ vs))) < 2 ^ 35
      → (encode_tag n 2
            >> (encode_varint (length (v ∷ vs) * 8 % 2 ^ 64)
                >> for_each (v ∷ vs) (λ x. extend_from_slice (to_le_bytes x))))
          buf
        ≡ some (buf ++ print (packed_field n (v ∷ vs)))
  packed_write v vs buf h =
      let words : List ℕ = le_words (v ∷ vs) in
      let fits : length words < 2 ^ 35 = omega (arith, delimited_size n words) in
      let size : length (v ∷ vs) * 8 % 2 ^ 64 ≡ length words =
        omega (arith, length-le_words (v ∷ vs)) in
      rw size (write_delimited words buf _ (omega arith) (for_each-le_words (v ∷ vs)))

  pub Writes-packed_fixed64 :
      (vs : List ℕ) → Writes (encode_packed_fixed64_field n vs) (packed_field n vs)
  unfolding encode_packed_fixed64_field
  Writes-packed_fixed64 [] = Writes-skip
  Writes-packed_fixed64 (v ∷ vs) = record { at = packed_write v vs }

  pub Writes-packed_double :
      (vs : List ℕ) → Writes (encode_packed_double_field n vs) (packed_field n vs)
  unfolding encode_packed_double_field
  Writes-packed_double [] = Writes-skip
  Writes-packed_double (v ∷ vs) = record { at = packed_write v vs }

-- A message as a whole request: the encoder starts from an empty buffer.
pub Writes-decode :
    {f : Encoder} {m : List Field}
    → Writes f m
    → IsMessage m
    → length (print m) < 2 ^ 35
    → (bytes : List ℕ) × (f [] ≡ some bytes) × (decode bytes ≡ some m)
Writes-decode {m} w valid h = (print m, w.at [] h, decode-print m valid)

-- A request is one message, whose payload is bounded by the size of the request.
pub message_field-IsMessage :
    (n : ℕ) (m : List Field)
    → n < 2 ^ 32
    → length (print (message_field n m)) < 2 ^ 35
    → IsMessage (message_field n m)
message_field-IsMessage n [] hn h = tt
message_field-IsMessage n (f ∷ fs) hn h =
    ((hn, omega (arith, delimited_size n (print (f ∷ fs)))), tt)

pub Writes-request :
    {f : Encoder} {m : List Field}
    → Writes f m
    → length (print (message_field 1 m)) < 2 ^ 35
    → (bytes : List ℕ) × (encode_message_field_in_place 1 f [] ≡ some bytes)
      × (decode bytes ≡ some (message_field 1 m))
Writes-request {m} w h =
    Writes-decode (Writes-message 1 (omega arith) w) (message_field-IsMessage 1 m (omega arith) h) h

-- The rules of which an encoder's contract is put together.
pub ruleset encoder_rules = (
  Writes-skip, Writes-seq, Writes-message, Writes-string, Writes-bytes, Writes-varint,
  Writes-varint_always, Writes-fixed64, Writes-fixed64_always, Writes-packed_fixed64,
  Writes-packed_double, Writes-fixed64_then,
)
