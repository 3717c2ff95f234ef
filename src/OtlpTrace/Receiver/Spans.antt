-- ===== src/OtlpTrace/Receiver/Spans.antt =====
-- The receiver gets back the spans that src/otlp_trace.rs encodes.
use rolly.Base.{
  ℕ, Bool-cases, inl, inr, ◌≡◌, refl, ap, ◌∙◌, arith, none, some, List, [], ◌∷◌, ◌++◌, ◌==◌, All,
}
use rolly.Base.Bytes.{IsU64}
use rolly.Wire.{Field, print}
use rolly.Proto.Writes.{bytes_field, uint_field, fixed_field}
use rolly.OtlpTrace.{
  KeyValue, SpanKind, kind_number, unspecified, internal, server, client, producer, consumer,
  SpanData,
}
use rolly.OtlpTrace.Fields.{key_value_fields, span_status_fields, span_fields}
use rolly.OtlpTrace.Receiver.{merge_all, kind_of, merge_span, empty_span, receive_span}
use rolly.OtlpTrace.Receiver.Fits.{
  IsShort, IsShort-append, Fits, Fits-append, Fits-bytes, Fits-fixed, Fits-concat_map,
  merge_all-append, receive_message,
}
use rolly.OtlpTrace.Receiver.Values.{IsValue}
use rolly.OtlpTrace.Receiver.Attributes.{
  IsStatus, attributes_fields, attributes-merge, status-merge, Fits-span_status,
}

-- A span that OTLP can carry.
pub record IsSpan (span : SpanData) : Type 0 where
  pub start_time : IsU64 span.start_time_unix_nano
  pub end_time : IsU64 span.end_time_unix_nano
  pub attributes : All (λ kv. IsValue kv.value) span.attributes
  pub status : IsStatus span.status

-- A span of which the first fields have been received.
abbrev so_far : List ℕ → List ℕ → List ℕ → List ℕ → SpanKind → ℕ → ℕ → List KeyValue → SpanData
so_far t s p n k b e attrs = record {
  trace_id = t;
  span_id = s;
  parent_span_id = p;
  name = n;
  kind = k;
  start_time_unix_nano = b;
  end_time_unix_nano = e;
  attributes = attrs;
  status = none;
}

trace_id-merge :
    (t : List ℕ)
    → merge_all merge_span empty_span (bytes_field 1 t)
      ≡ some (so_far t [] [] [] unspecified 0 0 [])
unfolding merge_all merge_span empty_span
trace_id-merge [] = refl
trace_id-merge (c ∷ t) = refl

span_id-merge :
    (t s : List ℕ)
    → merge_all merge_span (so_far t [] [] [] unspecified 0 0 []) (bytes_field 2 s)
      ≡ some (so_far t s [] [] unspecified 0 0 [])
unfolding merge_all merge_span
span_id-merge t [] = refl
span_id-merge t (c ∷ s) = refl

parent_span_id-merge :
    (t s p : List ℕ)
    → merge_all merge_span (so_far t s [] [] unspecified 0 0 []) (bytes_field 4 p)
      ≡ some (so_far t s p [] unspecified 0 0 [])
unfolding merge_all merge_span
parent_span_id-merge t s [] = refl
parent_span_id-merge t s (c ∷ p) = refl

name-merge :
    (t s p n : List ℕ)
    → merge_all merge_span (so_far t s p [] unspecified 0 0 []) (bytes_field 5 n)
      ≡ some (so_far t s p n unspecified 0 0 [])
unfolding merge_all merge_span
name-merge t s p [] = refl
name-merge t s p (c ∷ n) = refl

kind-merge :
    (t s p n : List ℕ) (k : SpanKind)
    → merge_all merge_span (so_far t s p n unspecified 0 0 []) (uint_field 6 (kind_number k))
      ≡ some (so_far t s p n k 0 0 [])
unfolding merge_all merge_span kind_of
kind-merge t s p n unspecified = refl
kind-merge t s p n internal = refl
kind-merge t s p n server = refl
kind-merge t s p n client = refl
kind-merge t s p n producer = refl
kind-merge t s p n consumer = refl

start_time-merge :
    (t s p n : List ℕ) (k : SpanKind) (b : ℕ)
    → merge_all merge_span (so_far t s p n k 0 0 []) (fixed_field 7 b)
      ≡ some (so_far t s p n k b 0 [])
unfolding merge_all merge_span
start_time-merge t s p n k b = elim (Bool-cases (b == 0)) [
  | inl z ↦
      let same : 0 ≡ b = ground (arith, z) in rw z (ap (λ x. some (so_far t s p n k x 0 [])) same)
  | inr other ↦ rw other
]

end_time-merge :
    (t s p n : List ℕ) (k : SpanKind) (b e : ℕ)
    → merge_all merge_span (so_far t s p n k b 0 []) (fixed_field 8 e)
      ≡ some (so_far t s p n k b e [])
unfolding merge_all merge_span
end_time-merge t s p n k b e = elim (Bool-cases (e == 0)) [
  | inl z ↦
      let same : 0 ≡ e = ground (arith, z) in rw z (ap (λ x. some (so_far t s p n k b x [])) same)
  | inr other ↦ rw other
]

Fits-kind : (k : SpanKind) → Fits (uint_field 6 (kind_number k))
Fits-kind unspecified short = tt
Fits-kind _ short = omega arith

module _ (span : SpanData) (valid : IsSpan span) where
  Fits-span : Fits (span_fields span)
  Fits-span = Fits-append _ _ (Fits-bytes 1 span.trace_id (omega arith)) (
      Fits-append _ _ (Fits-bytes 2 span.span_id (omega arith)) (
        Fits-append _ _ (Fits-bytes 4 span.parent_span_id (omega arith)) (
          Fits-append _ _ (Fits-bytes 5 span.name (omega arith)) (
            Fits-append _ _ (Fits-kind span.kind) (
              Fits-append _ _
                (Fits-fixed 7 span.start_time_unix_nano (omega arith) valid.start_time)
                (Fits-append _ _ (Fits-fixed 8 span.end_time_unix_nano (omega arith) valid.end_time)
                  (Fits-append _ _
                    (Fits-concat_map 9 key_value_fields span.attributes (omega arith))
                    (Fits-span_status span.status))))))))

  -- The attributes and the status, behind the seven single fields.
  rest_of : List Field
  rest_of = attributes_fields span.attributes ++ span_status_fields span.status

  rest_of-IsShort : IsShort (span_fields span) → IsShort rest_of
  unfolding rest_of attributes_fields
  rest_of-IsShort short =
      let s₁ = IsShort-append (bytes_field 1 span.trace_id) _ short in
      let s₂ = IsShort-append (bytes_field 2 span.span_id) _ (s₁.1) in
      let s₃ = IsShort-append (bytes_field 4 span.parent_span_id) _ (s₂.1) in
      let s₄ = IsShort-append (bytes_field 5 span.name) _ (s₃.1) in
      let s₅ = IsShort-append (uint_field 6 (kind_number span.kind)) _ (s₄.1) in
      let s₆ = IsShort-append (fixed_field 7 span.start_time_unix_nano) _ (s₅.1) in
      (IsShort-append (fixed_field 8 span.end_time_unix_nano) _ (s₆.1)).1

  single-merge :
      merge_all merge_span empty_span (span_fields span)
      ≡ merge_all merge_span
          (so_far span.trace_id span.span_id span.parent_span_id span.name span.kind
            span.start_time_unix_nano span.end_time_unix_nano [])
          rest_of
  unfolding rest_of attributes_fields
  single-merge =
      let t = span.trace_id in
      let s = span.span_id in
      let p = span.parent_span_id in
      let n = span.name in
      let k = span.kind in
      let b = span.start_time_unix_nano in
      let e = span.end_time_unix_nano in
      merge_all-append merge_span _ _ (bytes_field 1 t) _ (trace_id-merge t)
      ∙ merge_all-append merge_span _ _ (bytes_field 2 s) _ (span_id-merge t s)
      ∙ merge_all-append merge_span _ _ (bytes_field 4 p) _ (parent_span_id-merge t s p)
      ∙ merge_all-append merge_span _ _ (bytes_field 5 n) _ (name-merge t s p n)
      ∙ merge_all-append merge_span _ _ (uint_field 6 (kind_number k)) _ (kind-merge t s p n k)
      ∙ merge_all-append merge_span _ _ (fixed_field 7 b) _ (start_time-merge t s p n k b)
      ∙ merge_all-append merge_span _ _ (fixed_field 8 e) _ (end_time-merge t s p n k b e)

  rest-merge :
      (s : SpanData)
      → s.status ≡ none
      → s.attributes ≡ []
      → IsShort rest_of
      → merge_all merge_span s rest_of
        ≡ some (record s { attributes = span.attributes; status = span.status })
  unfolding rest_of
  rest-merge s e a short =
      let (first, second) = IsShort-append (attributes_fields span.attributes) _ short in
      merge_all-append merge_span s _ (attributes_fields span.attributes) _
        (attributes-merge s span.attributes valid.attributes first)
      ∙ status-merge (record s { attributes = s.attributes ++ span.attributes }) span.status e
          valid.status second
      ∙ ap (λ l. some (record s { attributes = l ++ span.attributes; status = span.status })) a

  pub receive_span-print :
      IsShort (span_fields span) → receive_span (print (span_fields span)) ≡ some span
  unfolding receive_span
  receive_span-print short =
      receive_message merge_span empty_span span (span_fields span) (Fits-span short)
        (single-merge ∙ rest-merge _ refl refl (rest_of-IsShort short))
