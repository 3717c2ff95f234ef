-- ===== src/Wire/Append.antt =====
-- Protobuf messages merge on concatenation: the decoder reads one message behind another as the
-- fields of both, in order.
use native.Mathlib.Nat.{zero-add, suc-add}
use rolly.Base.{
  bind_some, ℕ, zero, suc, ◌+◌, ◌/◌, ◌%◌, ◌≤◌, ◌≡◌, ap, ◌∙◌, true, Bool-cases, inl, inr, Option,
  none, some, List, [], ◌∷◌, ◌++◌, arith, length, length-append, take, drop, take-append_left,
  drop-append_left, ltb, leb, if◌then◌else◌,
}
use rolly.Wire.{
  Field, delimited, decode_varint, decode_le, decode_payload, decode_field, decode_loop, decode,
}

-- More input behind what a step leaves.
behind : {A : Type 0} → List ℕ → Option (A × List ℕ) → Option (A × List ℕ)
behind c none = none
behind c (some (a, rest)) = some (a, rest ++ c)

-- What `decode_payload` does behind the length `k`.
delimited_within : ℕ → ℕ → List ℕ → Option (Field × List ℕ)
delimited_within k n bs =
    if leb k (length bs) then some (delimited n (take k bs), drop k bs) else none

module _ (c : List ℕ) where
  decode_varint-append :
      (bs : List ℕ) (p : ℕ × List ℕ)
      → decode_varint bs ≡ some p
      → decode_varint (bs ++ c) ≡ some (p.0, p.1 ++ c)
  unfolding decode_varint behind
  decode_varint-append [] p e = absurd cc
  decode_varint-append (b ∷ bs) p e = elim (Bool-cases (ltb b 128)) [
    | inl last ↦ rw last (ap (λ o. behind c o) (rw last at e))
    | inr more ↦
        let (q, d, f) = bind_some (decode_varint bs) _ p (rw more at e) in
        rw (more, decode_varint-append bs q d) (ap (λ o. behind c o) f)
  ]

  decode_le-append :
      (n : ℕ) (bs : List ℕ) (p : ℕ × List ℕ)
      → decode_le n bs ≡ some p
      → decode_le n (bs ++ c) ≡ some (p.0, p.1 ++ c)
  unfolding decode_le behind
  decode_le-append zero bs p e = ap (λ o. behind c o) e
  decode_le-append (suc n) [] p e = absurd cc
  decode_le-append (suc n) (b ∷ bs) p e =
      let (q, d, f) = bind_some (decode_le n bs) _ p e in
      rw (decode_le-append n bs q d) (ap (λ o. behind c o) f)

  delimited_within-append :
      (k n : ℕ) (bs : List ℕ) (p : Field × List ℕ)
      → delimited_within k n bs ≡ some p
      → delimited_within k n (bs ++ c) ≡ some (p.0, p.1 ++ c)
  unfolding delimited_within behind
  delimited_within-append k n bs p e = elim (Bool-cases (leb k (length bs))) [
    | inl fits ↦
        let le : k ≤ length bs = ground (arith, fits) in
        let still : leb k (length (bs ++ c)) ≡ true = rw length-append (ground (arith, le)) in
        rw (still, take-append_left k bs c le, drop-append_left k bs c le)
          (ap (λ o. behind c o) (rw fits at e))
    | inr short ↦ absurd (let g = rw short at e in cc)
  ]

  decode_payload-append :
      (w n : ℕ) (bs : List ℕ) (p : Field × List ℕ)
      → decode_payload w n bs ≡ some p
      → decode_payload w n (bs ++ c) ≡ some (p.0, p.1 ++ c)
  unfolding decode_payload behind delimited_within
  decode_payload-append zero n bs p e =
      let (q, d, f) = bind_some (decode_varint bs) _ p e in
      rw (decode_varint-append bs q d) (ap (λ o. behind c o) f)
  decode_payload-append (suc zero) n bs p e =
      let (q, d, f) = bind_some (decode_le 8 bs) _ p e in
      rw (decode_le-append 8 bs q d) (ap (λ o. behind c o) f)
  decode_payload-append (suc (suc zero)) n bs p e =
      let (q, d, f) = bind_some (decode_varint bs) _ p e in
      rw (decode_varint-append bs q d) (delimited_within-append q.0 n q.1 p f)
  decode_payload-append (suc (suc (suc w))) n bs p e = absurd cc

  decode_field-append :
      (bs : List ℕ) (p : Field × List ℕ)
      → decode_field bs ≡ some p
      → decode_field (bs ++ c) ≡ some (p.0, p.1 ++ c)
  unfolding decode_field
  decode_field-append bs p e =
      let (q, d, f) = bind_some (decode_varint bs) _ p e in
      rw (decode_varint-append bs q d) (decode_payload-append (q.0 % 8) (q.0 / 8) q.1 p f)

decode_loop-more :
    (n : ℕ) (bs : List ℕ) (fs : List Field)
    → decode_loop n bs ≡ some fs
    → decode_loop (suc n) bs ≡ some fs
unfolding decode_loop
decode_loop-more n [] fs e = e
decode_loop-more zero (b ∷ bs) fs e = absurd cc
decode_loop-more (suc n) (b ∷ bs) fs e =
    let (r, d, f) = bind_some (decode_field (b ∷ bs)) _ fs e in
    let (gs, k, l) = bind_some (decode_loop n r.1) _ fs f in rw (d, decode_loop-more n r.1 gs k) l

decode_loop-add :
    (n m : ℕ) (bs : List ℕ) (fs : List Field)
    → decode_loop m bs ≡ some fs
    → decode_loop (n + m) bs ≡ some fs
decode_loop-add zero m bs fs e = rw zero-add e
decode_loop-add (suc n) m bs fs e =
    rw suc-add (decode_loop-more (n + m) bs fs (decode_loop-add n m bs fs e))

followed : List Field → Option (List Field) → Option (List Field)
followed gs none = none
followed gs (some fs) = some (fs ++ gs)

decode_loop-append :
    (n m : ℕ) (bs c : List ℕ) (fs gs : List Field)
    → decode_loop n bs ≡ some fs
    → decode_loop m c ≡ some gs
    → decode_loop (n + m) (bs ++ c) ≡ some (fs ++ gs)
unfolding decode_loop followed
decode_loop-append zero m [] c fs gs e k = decode_loop-add zero m c gs k ∙ ap (λ o. followed gs o) e
decode_loop-append (suc n) m [] c fs gs e k =
    decode_loop-add (suc n) m c gs k ∙ ap (λ o. followed gs o) e
decode_loop-append zero m (b ∷ bs) c fs gs e k = absurd cc
decode_loop-append (suc n) m (b ∷ bs) c fs gs e k =
    let (r, d, f) = bind_some (decode_field (b ∷ bs)) _ fs e in
    let (hs, i, l) = bind_some (decode_loop n r.1) _ fs f in
    rw (suc-add, decode_field-append c (b ∷ bs) r d, decode_loop-append n m r.1 c hs gs i k)
      (ap (λ o. followed gs o) l)

pub decode-append :
    (bs c : List ℕ) (fs gs : List Field)
    → decode bs ≡ some fs
    → decode c ≡ some gs
    → decode (bs ++ c) ≡ some (fs ++ gs)
unfolding decode
decode-append bs c fs gs e k =
    rw length-append (decode_loop-append (length bs) (length c) bs c fs gs e k)
