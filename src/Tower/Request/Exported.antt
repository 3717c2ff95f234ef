-- ===== src/Tower/Request/Exported.antt =====
-- The span of src/tower/request.rs in the layer of src/otlp_layer.rs, from its opening to its export.
use rolly.Base.{ℕ, ◌≡◌, ◌<◌, ◌^◌, refl, sym, true, Option, none, some, List, [], ◌∷◌, length}
use rolly.Base.Int.{as_i64}
use rolly.Base.Text.{codes}
use rolly.Wire.{print, decode}
use rolly.TraceId.{generate_trace_id, hex_encode}
use rolly.OtlpTrace.{KeyValue, string, int, double, SpanData, internal}
use rolly.OtlpTrace.Fields.{trace_request_fields}
use rolly.Exporter.{Mpsc, Exporter, send_traces}
use rolly.Layer.{
  SpanFields, OtlpLayer, zero_trace_id, zero_span_id, should_sample, on_new_span, on_record,
  on_close, span_of,
}
use rolly.Layer.Spans.{descend, sampled_is_sent}
use rolly.Tower.Request.{Answered, ok, err, call, poll}

abbrev text_attr : List ℕ → List ℕ → KeyValue
text_attr k v = record { key = k; value = string v }

latency_attr : ℕ → KeyValue
latency_attr latency_ms = record { key = codes "http.latency_ms"; value = double latency_ms }

-- What the answer adds to the span.
answer_attrs : Answered → ℕ → List KeyValue
unfolding latency_attr
answer_attrs (ok status) latency_ms =
    record { key = codes "http.status_code"; value = int (as_i64 status) }
    ∷ (latency_attr latency_ms ∷ [])
answer_attrs err latency_ms = latency_attr latency_ms ∷ []

shown : Option (List ℕ) → List ℕ
shown none = codes "-"
shown (some id) = id

module _ (normalized : ℕ → ℕ) (layer : OtlpLayer) (blake3 : List ℕ → List ℕ)
    (random_uuid random_id method uri : List ℕ) (request_id : Option (List ℕ)) where
  -- The span that a request without a parent is exported as, under the layer's ID for it.
  unfoldable pub request_span : List ℕ → Answered → ℕ → ℕ → ℕ → SpanData
  unfolding answer_attrs shown
  request_span span_id result latency_ms opened closed = record {
    trace_id = zero_trace_id;
    span_id = span_id;
    parent_span_id = zero_span_id;
    name = codes "request";
    kind = internal;
    start_time_unix_nano = opened;
    end_time_unix_nano = closed;
    attributes =
        text_attr (codes "http.method") method
        ∷ (text_attr (codes "http.uri") uri
            ∷ (text_attr (codes "cf.request_id") (shown request_id)
                ∷ (text_attr (codes "trace_id")
                      (hex_encode (generate_trace_id blake3 random_uuid request_id))
                    ∷ (text_attr (codes "span_id") (hex_encode random_id)
                        ∷ answer_attrs result latency_ms))));
    status = none;
  }

  -- The stored fields of the span when the inner future has been polled to its end.
  unfoldable pub answered_fields : List ℕ → Answered → ℕ → ℕ → SpanFields
  answered_fields span_id result latency_ms opened =
      let this = call blake3 random_uuid random_id method uri request_id in
      on_record (poll this (some result) latency_ms).1
        (on_new_span normalized layer this.span none span_id opened)

  span_of-answered :
      (span_id : List ℕ) (result : Answered) (latency_ms opened closed : ℕ)
      → span_of (answered_fields span_id result latency_ms opened) (codes "request") closed
        ≡ request_span span_id result latency_ms opened closed
  unfolding span_of answered_fields call poll on_record on_new_span request_span
  span_of-answered span_id (ok status) latency_ms opened closed = refl
  span_of-answered span_id err latency_ms opened closed = refl

  answered_fields-sampled :
      (span_id : List ℕ) (result : Answered) (latency_ms opened : ℕ)
      → should_sample normalized zero_trace_id layer.sampling_rate ≡ true
      → (answered_fields span_id result latency_ms opened).sampled ≡ true
  unfolding answered_fields on_record on_new_span call
  answered_fields-sampled span_id result latency_ms opened sampled = sampled

  -- A request without a parent whose span the layer samples, by the trace ID of zeros, is exported
  -- when its span closes, if traces are exported and the message takes less than 32 GiB, whether the
  -- inner service answers or fails: the exporter gets bytes that a protobuf decoder reads as the one
  -- span "request" with the method, the path, the request ID, the generated trace and span IDs and
  -- the answer's status and latency as its attributes, in this order. Its own trace ID is zero, and
  -- its own span ID is the layer's.
  pub request_span_exported :
      (ch : Mpsc) (e : Exporter ch.Sender) (span_id : List ℕ) (result : Answered)
      (latency_ms opened closed : ℕ)
      → layer.export_traces ≡ true
      → should_sample normalized zero_trace_id layer.sampling_rate ≡ true
      → length (
          print (
            trace_request_fields layer.resource_attrs layer.scope_name layer.scope_version
              (request_span span_id result latency_ms opened closed ∷ [])))
        < 2 ^ 35
      → (bytes : List ℕ) × (on_close ch layer
            (some (answered_fields span_id result latency_ms opened))
            (codes "request")
            closed
            e
          ≡ some (send_traces ch bytes e))
        × (decode bytes
            ≡ some (
                trace_request_fields layer.resource_attrs layer.scope_name layer.scope_version
                  (request_span span_id result latency_ms opened closed ∷ [])))
  unfolding descend
  request_span_exported ch e span_id result latency_ms opened closed on sampled small =
      let fields = answered_fields span_id result latency_ms opened in
      let same = span_of-answered span_id result latency_ms opened closed in
      rw (sym same) (
        sampled_is_sent normalized layer ch e fields [] (codes "request") closed on
          (answered_fields-sampled span_id result latency_ms opened sampled)
          (rw (descend, same) small))
