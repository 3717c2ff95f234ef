-- ===== src/OtlpTrace/Receiver/RoundTrip.antt =====
-- The receiver gets back the requests that src/otlp_trace.rs encodes.
use rolly.Base.{◌>>=◌, ℕ, ◌≡◌, ◌≢◌, refl, ap, ◌∙◌, arith, none, some, List, [], ◌∷◌, ◌++◌, All}
use rolly.Wire.{Field, print, decode}
use rolly.Proto.Writes.{bytes_field, uint_field, message_field, concat_map}
use rolly.OtlpTrace.{
  KeyValue, SpanKind, unspecified, kind_number, SpanData, encode_export_trace_request,
}
use rolly.OtlpTrace.Fields.{
  key_value_fields, span_fields, resource_fields, scope_fields, trace_request_fields,
  encode_export_trace_request-decode,
}
use rolly.OtlpTrace.Receiver.{merge_all, receive_key_value, receive_span}
use rolly.OtlpTrace.Receiver.Requests.{
  ScopeSpans, ResourceSpans, merge_resource, merge_scope, merge_scope_spans, receive_scope_spans,
  merge_resource_spans, receive_resource_spans, merge_request, receive_request,
}
use rolly.OtlpTrace.Receiver.Fits.{
  IsShort, IsShort-append, IsShort-message, Fits, Fits-append, Fits-bytes, Fits-message,
  Fits-concat_map, merge_all-append, receive_message, repeated-merge, nested-merge,
}
use rolly.OtlpTrace.Receiver.Values.{IsValue, receive_key_value-print}
use rolly.OtlpTrace.Receiver.Spans.{IsSpan, receive_span-print}

resource-merge :
    (attrs : List KeyValue)
    → All (λ kv. IsValue kv.value) attrs
    → IsShort (resource_fields attrs)
    → merge_all merge_resource [] (resource_fields attrs) ≡ some attrs
resource-merge attrs h k =
    repeated-merge merge_resource 1 key_value_fields (λ l. l) (λ kv. IsValue kv.value)
      (λ l kv valid short.
        attribute l kv (key_value_fields kv) (receive_key_value-print kv valid short))
      attrs [] h k
  where
    attribute :
        (l : List KeyValue) (kv : KeyValue) (fs : List Field)
        → receive_key_value (print fs) ≡ some kv
        → merge_all merge_resource l (message_field 1 fs) ≡ some (l ++ (kv ∷ []))
    attribute l kv [] e =
        unfold receive_key_value decode print merge_all in let d : none ≡ some kv = e in absurd cc
    attribute l kv (f ∷ fs) e = unfold merge_all merge_resource in rw e

scope-merge :
    (name version : List ℕ)
    → merge_all merge_scope ([], []) (scope_fields name version) ≡ some (name, version)
unfolding merge_all merge_scope
scope-merge [] [] = refl
scope-merge [] (d ∷ version) = refl
scope-merge (c ∷ name) [] = refl
scope-merge (c ∷ name) (d ∷ version) = refl

Fits-scope : (name version : List ℕ) → Fits (scope_fields name version)
Fits-scope name version =
    Fits-append (bytes_field 1 name) _ (Fits-bytes 1 name (omega arith))
      (Fits-bytes 2 version (omega arith))

-- A span that is not left out.
abbrev pub IsSent : SpanData → Type 0
IsSent span = IsSpan span × (span.kind ≢ unspecified)

append-nonempty : (fs gs : List Field) → gs ≢ [] → (fs ++ gs) ≢ []
append-nonempty [] gs ne = ne
append-nonempty (f ∷ fs) gs ne = λ e. cc

kind-nonempty :
    (k : SpanKind) (fs : List Field) → k ≢ unspecified → (uint_field 6 (kind_number k) ++ fs) ≢ []
kind-nonempty unspecified fs ne = absurd (ne refl)
kind-nonempty _ fs ne = λ e. cc

span_fields-nonempty : (span : SpanData) → span.kind ≢ unspecified → span_fields span ≢ []
span_fields-nonempty span ne = append-nonempty (bytes_field 1 span.trace_id) _ (
    append-nonempty (bytes_field 2 span.span_id) _ (
      append-nonempty (bytes_field 4 span.parent_span_id) _
        (append-nonempty (bytes_field 5 span.name) _ (kind-nonempty span.kind _ ne))))

spans-merge :
    (s : ScopeSpans) (spans : List SpanData)
    → s.spans ≡ []
    → All IsSent spans
    → IsShort (concat_map (λ span. message_field 2 (span_fields span)) spans)
    → merge_all merge_scope_spans s (concat_map (λ span. message_field 2 (span_fields span)) spans)
      ≡ some (record s { spans = spans })
spans-merge s spans e h k =
    repeated-merge merge_scope_spans 2 span_fields (λ l. record s { spans = l }) IsSent
      (λ l span (valid, kind) short.
        one l span (span_fields span) (span_fields-nonempty span kind)
          (receive_span-print span valid short))
      spans s.spans h k
    ∙ ap (λ l. some (record s { spans = l ++ spans })) e
  where
    one :
        (l : List SpanData) (span : SpanData) (fs : List Field)
        → fs ≢ []
        → receive_span (print fs) ≡ some span
        → merge_all merge_scope_spans (record s { spans = l }) (message_field 2 fs)
          ≡ some (record s { spans = l ++ (span ∷ []) })
    one l span [] ne d = absurd (ne refl)
    one l span (f ∷ fs) ne d = unfold merge_all merge_scope_spans in rw d

module _ (attrs : List KeyValue) (name version : List ℕ) (spans : List SpanData) where
  scope_spans_fields : List Field
  scope_spans_fields =
      message_field 1 (scope_fields name version)
      ++ concat_map (λ span. message_field 2 (span_fields span)) spans

  abbrev pub scope_spans : ScopeSpans
  scope_spans = record { scope_name = name; scope_version = version; spans = spans }

  scope_spans-received :
      All IsSent spans
      → IsShort scope_spans_fields
      → receive_scope_spans (print scope_spans_fields) ≡ some scope_spans
  unfolding scope_spans_fields receive_scope_spans
  scope_spans-received h short =
      let (first, second) = IsShort-append (message_field 1 (scope_fields name version)) _ short in
      receive_message merge_scope_spans _ scope_spans scope_spans_fields
        (Fits-append (message_field 1 (scope_fields name version)) _
          (Fits-message 1 (scope_fields name version) (omega arith))
          (Fits-concat_map 2 span_fields spans (omega arith)) short)
        (merge_all-append merge_scope_spans _ (record scope_spans { spans = [] })
            (message_field 1 (scope_fields name version)) _
            (nested-merge merge_scope_spans merge_scope 1
              (λ (n, v). record { scope_name = n; scope_version = v; spans = [] }) ([], [])
              (name, version) (scope_fields name version) (λ bs. unfold merge_scope_spans in refl)
              (Fits-scope name version (IsShort-message 1 (scope_fields name version) first))
              (scope-merge name version))
          ∙ spans-merge (record scope_spans { spans = [] }) spans refl h second)

  resource_spans_fields : List Field
  resource_spans_fields =
      message_field 1 (resource_fields attrs) ++ message_field 2 scope_spans_fields

  -- What a collector is told by the request.
  abbrev pub resource_spans : ResourceSpans
  resource_spans = record { resource = attrs; scope_spans = scope_spans ∷ [] }

  nested-nonempty : (n : ℕ) (fs : List Field) → fs ≢ [] → message_field n fs ≢ []
  nested-nonempty n [] ne = absurd (ne refl)
  nested-nonempty n (f ∷ fs) ne = λ e. cc

  scope_spans_fields-nonempty : All IsSent spans → spans ≢ [] → scope_spans_fields ≢ []
  unfolding scope_spans_fields
  scope_spans_fields-nonempty h ne =
      append-nonempty (message_field 1 (scope_fields name version)) _ (some_span spans h ne)
    where
      some_span :
          (l : List SpanData)
          → All IsSent l
          → l ≢ []
          → concat_map (λ span. message_field 2 (span_fields span)) l ≢ []
      some_span [] h ne = absurd (ne refl)
      some_span (span ∷ l) ((valid, kind), hs) ne =
          filled (span_fields span) (span_fields-nonempty span kind)
        where
          filled :
              (fs : List Field)
              → fs ≢ []
              → (message_field 2 fs ++ concat_map (λ s. message_field 2 (span_fields s)) l) ≢ []
          filled [] ne' = absurd (ne' refl)
          filled (f ∷ fs) ne' = λ e. cc

  module _ (valid : All (λ kv. IsValue kv.value) attrs) (sent : All IsSent spans)
      (ne : spans ≢ []) where
    resource_spans-received :
        IsShort resource_spans_fields
        → receive_resource_spans (print resource_spans_fields) ≡ some resource_spans
    unfolding resource_spans_fields receive_resource_spans
    resource_spans-received short =
        let (first, second) = IsShort-append (message_field 1 (resource_fields attrs)) _ short in
        let resource_short = IsShort-message 1 (resource_fields attrs) first in
        receive_message merge_resource_spans _ resource_spans resource_spans_fields
          (Fits-append (message_field 1 (resource_fields attrs)) _
            (Fits-message 1 (resource_fields attrs) (omega arith))
            (Fits-message 2 scope_spans_fields (omega arith)) short)
          (merge_all-append merge_resource_spans _ (record resource_spans { scope_spans = [] })
              (message_field 1 (resource_fields attrs)) _
              (nested-merge merge_resource_spans merge_resource 1
                (λ l. record { resource = l; scope_spans = [] }) [] attrs (resource_fields attrs)
                (λ bs. unfold merge_resource_spans in refl)
                (Fits-concat_map 1 key_value_fields attrs (omega arith) resource_short)
                (resource-merge attrs valid resource_short))
            ∙ one scope_spans_fields (scope_spans_fields-nonempty sent ne)
                (scope_spans-received sent (IsShort-message 2 scope_spans_fields second)))
      where
        one :
            (fs : List Field)
            → fs ≢ []
            → receive_scope_spans (print fs) ≡ some scope_spans
            → merge_all merge_resource_spans
                (record resource_spans { scope_spans = [] })
                (message_field 2 fs)
              ≡ some resource_spans
        one [] ne d = absurd (ne refl)
        one (f ∷ fs) ne d = unfold merge_all merge_resource_spans in rw d

    -- One request behind those that have been received.
    pub trace_request-merge :
        (rs : List ResourceSpans)
        → IsShort (trace_request_fields attrs name version spans)
        → merge_all merge_request rs (trace_request_fields attrs name version spans)
          ≡ some (rs ++ (resource_spans ∷ []))
    unfolding resource_spans_fields scope_spans_fields
    trace_request-merge rs short =
        one resource_spans_fields
          (append-nonempty (message_field 1 (resource_fields attrs)) _
            (nested-nonempty 2 scope_spans_fields (scope_spans_fields-nonempty sent ne)))
          (resource_spans-received (IsShort-message 1 resource_spans_fields short))
      where
        one :
            (fs : List Field)
            → fs ≢ []
            → receive_resource_spans (print fs) ≡ some resource_spans
            → merge_all merge_request rs (message_field 1 fs) ≡ some (rs ++ (resource_spans ∷ []))
        one [] ne d = absurd (ne refl)
        one (f ∷ fs) ne d = unfold merge_all merge_request in rw d

-- A request with at least one span, all with a kind, times and numbers of 64 bits, and no status
-- that is unset without a message, with no attribute of a span or of the resource whose value is an
-- empty string or empty bytes, is encoded without a
-- panic if it takes less than 32 GiB, and a collector that reads the bytes field by field gets the
-- resource, the scope and every span back as they were.
pub encode_export_trace_request-receive :
    (attrs : List KeyValue) (name version : List ℕ) (spans : List SpanData)
    → All (λ kv. IsValue kv.value) attrs
    → All IsSent spans
    → spans ≢ []
    → IsShort (trace_request_fields attrs name version spans)
    → (bytes : List ℕ) × (encode_export_trace_request attrs name version spans ≡ some bytes)
      × (receive_request bytes ≡ some (resource_spans attrs name version spans ∷ []))
unfolding receive_request
encode_export_trace_request-receive attrs name version spans valid sent ne short =
    let (bytes, encoded, decoded) =
      encode_export_trace_request-decode attrs name version spans short in
    (
      bytes,
      encoded,
      ap (λ o. o >>= merge_all merge_request []) decoded
          ∙ trace_request-merge attrs name version spans valid sent ne [] short,
    )
