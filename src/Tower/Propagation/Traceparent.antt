-- ===== src/Tower/Propagation/Traceparent.antt =====
-- What src/tower/propagation.rs sends, read as the W3C Trace Context recommendation says.
use rolly.Base.{
  ◌>>=◌, ℕ, zero, suc, ◌/◌, ◌%◌, ◌≤◌, ◌<◌, ◌≡◌, ◌≢◌, refl, sym, ap, ◌∙◌, arith, Bool, true, ◌&&◌,
  Option, none, some, List, [], ◌∷◌, ◌++◌, ◌==◌, if◌then◌else◌, length, take, drop, ltb, leb,
  take-append, drop-suc-append, get_elem?-append_right, replicate, get_elem?, All, All-append,
}
use rolly.Base.Bits.{low_nibble, every_below, every_below→at}
use rolly.Base.Bytes.{IsByte}
use rolly.Base.Text.{codes}
use rolly.TraceId.{hex_encode, hex_char}
use rolly.TraceId.Hex.{length-hex_encode}
use rolly.Layer.{SpanFields, hex_chunks, hex_nibble}
use rolly.Layer.HexParse.{hex_chunks-hex_encode}
use rolly.Tower.{Http, lowercase}
use rolly.Tower.Propagation.{
  nearest, nearest_ancestor, traceparent, inserted_header, propagated, call,
}

-- The parts of a header of version 00.
pub record Parent : Type 0 where
  pub version : List ℕ
  pub trace_id : List ℕ
  pub parent_id : List ℕ
  pub flags : List ℕ

abbrev after_dash : Option ℕ → List ℕ → Option (List ℕ)
after_dash none rest = none
after_dash (some c) rest = if c == b'-' then some rest else none

dash_at : ℕ → List ℕ → Option (List ℕ)
dash_at i s = after_dash (get_elem? s i) (drop (suc i) s)

-- `n` hexadecimal digits before a dash, as bytes, and what stands behind the dash.
field : ℕ → List ℕ → Option (List ℕ × List ℕ)
unfolding dash_at
field n s = do value ← hex_chunks (take n s); rest ← dash_at n s; some (value, rest)

unfoldable pub parse : List ℕ → Option Parent
unfolding field
parse s = do
  (version, s₁) ← field 2 s
  (trace_id, s₂) ← field 32 s₁
  (parent_id, s₃) ← field 16 s₂
  flags ← (if length s₃ == 2 then hex_chunks s₃ else none)
  some (record { version = version; trace_id = trace_id; parent_id = parent_id; flags = flags })

dash_at-append : (xs rest : List ℕ) → dash_at (length xs) (xs ++ (b'-' ∷ rest)) ≡ some rest
unfolding dash_at
dash_at-append xs rest =
    ap (λ o. after_dash o (drop (suc (length xs)) (xs ++ (b'-' ∷ rest))))
      (get_elem?-append_right xs (b'-' ∷ rest) (length xs) 0 (omega arith))
    ∙ ap some (drop-suc-append xs b'-' rest)

field-hex_encode :
    (n : ℕ) (bs rest : List ℕ)
    → All IsByte bs
    → length (hex_encode bs) ≡ n
    → field n (hex_encode bs ++ (b'-' ∷ rest)) ≡ some (bs, rest)
unfolding field
field-hex_encode n bs rest h len = rw (
  sym len,
  take-append (hex_encode bs) (b'-' ∷ rest),
  hex_chunks-hex_encode bs h,
  dash_at-append (hex_encode bs) rest,
)

-- The header for IDs of 16 and 8 bytes has version 0, the two IDs, and the flag "sampled".
parse-traceparent :
    (t s : List ℕ)
    → All IsByte t
    → All IsByte s
    → length t ≡ 16
    → length s ≡ 8
    → parse (traceparent t s)
      ≡ some (record { version = 0 ∷ []; trace_id = t; parent_id = s; flags = 1 ∷ [] })
unfolding parse traceparent hex_chunks hex_nibble
parse-traceparent t s ht hs lt ls = rw (
  field-hex_encode 32 t (hex_encode s ++ codes "-01") ht (omega (arith, length-hex_encode t, lt)),
  field-hex_encode 16 s (codes "01") hs (omega (arith, length-hex_encode s, ls)),
)

is_visible : ℕ → Bool
is_visible c = leb 32 c && ltb c 127

hex_table : every_below (λ n. is_visible (hex_char n)) 16 ≡ true
unfolding every_below is_visible
hex_table = refl

hex_char-IsVisible : (n : ℕ) → n < 16 → (32 ≤ hex_char n) × (hex_char n < 127)
unfolding is_visible
hex_char-IsVisible n h =
    let e = every_below→at (λ n. is_visible (hex_char n)) 16 n hex_table h in ground arith

abbrev IsVisible : ℕ → Type 0
IsVisible c = (32 ≤ c) × (c < 127)

hex_encode-IsVisible : (bs : List ℕ) → All IsByte bs → All IsVisible (hex_encode bs)
unfolding hex_encode
hex_encode-IsVisible [] h = tt
hex_encode-IsVisible (b ∷ bs) (h, k) = (
  hex_char-IsVisible (b / 16) (omega arith),
  (rw (low_nibble b h) (hex_char-IsVisible (b % 16) (omega arith)), hex_encode-IsVisible bs k),
)

traceparent-IsVisible :
    (t s : List ℕ) → All IsByte t → All IsByte s → All IsVisible (traceparent t s)
unfolding traceparent
traceparent-IsVisible t s ht hs = All-append IsVisible (codes "00-") _ (omega arith) (
    All-append IsVisible (hex_encode t) _ (hex_encode-IsVisible t ht) (
      All-append IsVisible (codes "-") _ (omega arith)
        (All-append IsVisible (hex_encode s) _ (hex_encode-IsVisible s hs) (omega arith))))

nearest_ancestor-replicate :
    (k : ℕ) (fields : SpanFields) (rest : List (Option SpanFields))
    → nearest_ancestor (replicate k none ++ (some fields ∷ rest)) ≡ some fields
unfolding nearest_ancestor
nearest_ancestor-replicate zero fields rest = refl
nearest_ancestor-replicate (suc k) fields rest = nearest_ancestor-replicate k fields rest

nearest-replicate :
    (k : ℕ) (fields : SpanFields) (rest : List (Option SpanFields))
    → nearest (replicate k none ++ (some fields ∷ rest)) ≡ some fields
unfolding nearest
nearest-replicate zero fields rest = refl
nearest-replicate (suc k) fields rest = nearest_ancestor-replicate k fields rest

-- However many spans without fields stand below it, the nearest span with fields, whose IDs have 16
-- and 8 bytes, is the parent that an outgoing request names in its traceparent header: version 0, the
-- span's trace ID and span ID, and always the flag "sampled", also if the span is not sampled. So it
-- is found under any spelling of the name in upper and lower case, and a
-- header of any other name, case ignored, stays.
pub call-traceparent :
    (http : Http) (k : ℕ) (fields : SpanFields) (rest : List (Option SpanFields))
    (headers : http.HeaderMap) (spelling other : List ℕ)
    → All IsByte fields.trace_id
    → All IsByte fields.span_id
    → length fields.trace_id ≡ 16
    → length fields.span_id ≡ 8
    → lowercase spelling ≡ codes "traceparent"
    → lowercase other ≢ codes "traceparent"
    → let headers' = call http (replicate k none ++ (some fields ∷ rest)) headers in
      (v : http.HeaderValue) × (s : List ℕ) × (http.get spelling headers' ≡ some v)
      × (http.to_str v ≡ some s)
      × (parse s
          ≡ some (record {
            version = 0 ∷ [];
            trace_id = fields.trace_id;
            parent_id = fields.span_id;
            flags = 1 ∷ [];
          }))
      × (http.get other headers' ≡ http.get other headers)
unfolding call propagated inserted_header
call-traceparent http k fields rest headers spelling other ht hs lt ls same ne =
    let s = traceparent fields.trace_id fields.span_id in
    let (v, made, text) = http.from_str-visible s (traceparent-IsVisible _ _ ht hs) in
    (
      v,
      s,
      rw (nearest-replicate k fields rest, made)
          (http.get-insert (codes "traceparent") spelling v headers (omega arith) same),
      text,
      parse-traceparent fields.trace_id fields.span_id ht hs lt ls,
      rw (nearest-replicate k fields rest, made)
          (http.get-insert_other (codes "traceparent") other v headers (omega arith) ne),
    )
