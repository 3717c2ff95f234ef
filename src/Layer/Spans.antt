-- ===== src/Layer/Spans.antt =====
-- The life of a span in src/otlp_layer.rs: the trace ID it takes, the sampling decision that its
-- descendants inherit, and what is exported on an event and on its close.
use rolly.Base.{
  ◌>>=◌, ℕ, ◌≡◌, refl, ap, ◌∙◌, ◌<◌, ◌^◌, arith, Bool, true, false, not, Option, some, List, [],
  ◌∷◌, length, if◌then◌else◌, All,
}
use rolly.Base.Bytes.{beq_bytes}
use rolly.Wire.{print, decode}
use rolly.OtlpTrace.Fields.{trace_request_fields, encode_export_trace_request-decode}
use rolly.Exporter.{Mpsc, Exporter, send_traces}
use rolly.Layer.{
  id_or, SpanFields, FieldCollector, Recorded, by_debug, by_str, by_i64, by_u64, by_bool, by_f64,
  Values, visit, collect, collect_from, empty_collector, trace_id_field, zero_trace_id, OtlpLayer,
  Level, on_new_span, on_event, on_close, span_of,
}

-- Can the field set the trace ID? Only a string field of that name can.
unfoldable pub names_trace_id : List ℕ × Recorded → Bool
names_trace_id (name, by_str s) = beq_bytes name trace_id_field
names_trace_id (name, _) = false

visit-trace_id :
    (name : List ℕ) (r : Recorded) (c : FieldCollector)
    → names_trace_id (name, r) ≡ false
    → (visit name r c).trace_id ≡ c.trace_id
unfolding names_trace_id visit
visit-trace_id name (by_debug s) c h = ground arith
visit-trace_id name (by_str s) c h = ground (arith, h)
visit-trace_id name (by_i64 i) c h = refl
visit-trace_id name (by_u64 n) c h = refl
visit-trace_id name (by_bool b) c h = refl
visit-trace_id name (by_f64 d) c h = refl

collect_from-trace_id :
    (values : Values) (c : FieldCollector)
    → All (λ v. names_trace_id v ≡ false) values
    → (collect_from c values).trace_id ≡ c.trace_id
unfolding collect_from
collect_from-trace_id [] c h = refl
collect_from-trace_id ((name, r) ∷ rest) c (h, k) =
    collect_from-trace_id rest (visit name r c) k ∙ visit-trace_id name r c h

-- A span that records no string field named trace_id takes the trace ID of zeros, also if its parent
-- has a trace ID, and also if a field of that name is recorded by its Debug text.
pub on_new_span-zero_trace_id :
    (normalized : ℕ → ℕ) (layer : OtlpLayer) (values : Values) (parent : Option SpanFields)
    (span_id : List ℕ) (now : ℕ)
    → All (λ v. names_trace_id v ≡ false) values
    → (on_new_span normalized layer values parent span_id now).trace_id ≡ zero_trace_id
unfolding on_new_span collect id_or empty_collector
on_new_span-zero_trace_id normalized layer values parent span_id now h =
    ap (λ o. id_or zero_trace_id o) (collect_from-trace_id values empty_collector h)

-- The shape of a handler: two guards, then the bytes are encoded and sent.
silent_if :
    {A : Type 0} (on sampled : Bool) (o : Option A) (e : A)
    → sampled ≡ false
    → (if not on then some e else if not sampled then some e else o) ≡ some e
silent_if on sampled o e h = ground (arith, h)

sent_if :
    {A : Type 0} (on sampled : Bool) (o : Option (List ℕ)) (send : List ℕ → A) (e : A)
    (bytes : List ℕ)
    → on ≡ true
    → sampled ≡ true
    → o ≡ some bytes
    → (if not on then some e else if not sampled then some e else o >>= (λ b. some (send b)))
      ≡ some (send bytes)
sent_if on sampled o send e bytes h k l = rw (h, k, l)

module _ (normalized : ℕ → ℕ) (layer : OtlpLayer) where
  -- The spans opened one inside the other, below a given one: each with its fields, ID and time.
  unfoldable pub descend : SpanFields → List (Values × List ℕ × ℕ) → SpanFields
  unfolding on_new_span
  descend root [] = root
  descend root ((values, span_id, now) ∷ inner) =
      descend (on_new_span normalized layer values (some root) span_id now) inner

  pub descend-sampled :
      (root : SpanFields) (inner : List (Values × List ℕ × ℕ))
      → (descend root inner).sampled ≡ root.sampled
  unfolding descend
  descend-sampled root [] = refl
  descend-sampled root ((values, span_id, now) ∷ inner) =
      descend-sampled (on_new_span normalized layer values (some root) span_id now) inner

  -- Below a span that is not sampled, at any depth, an event and a close export nothing: the
  -- exporter is as before.
  pub unsampled_exports_nothing :
      (ch : Mpsc) (e : Exporter ch.Sender) (root : SpanFields) (inner : List (Values × List ℕ × ℕ))
      (level : Level) (values : Values) (name : List ℕ) (now : ℕ)
      → root.sampled ≡ false
      → (on_event ch layer level values (some (descend root inner)) now e ≡ some e)
        × (on_close ch layer (some (descend root inner)) name now e ≡ some e)
  unfolding on_event on_close
  unsampled_exports_nothing ch e root inner level values name now h = (
    silent_if layer.export_logs _ _ e (descend-sampled root inner ∙ h),
    silent_if layer.export_traces _ _ e (descend-sampled root inner ∙ h),
  )

  -- A sampled span below any sampled one, at any depth, is sent when it closes, if traces are
  -- exported and the request takes less than 32 GiB: the exporter gets bytes that a protobuf decoder
  -- reads as the request of the one span that `span_of` makes of what is stored.
  pub sampled_is_sent :
      (ch : Mpsc) (e : Exporter ch.Sender) (root : SpanFields) (inner : List (Values × List ℕ × ℕ))
      (name : List ℕ) (now : ℕ)
      → layer.export_traces ≡ true
      → root.sampled ≡ true
      → length (
          print (
            trace_request_fields layer.resource_attrs layer.scope_name layer.scope_version
              (span_of (descend root inner) name now ∷ [])))
        < 2 ^ 35
      → (bytes : List ℕ) × (on_close ch layer (some (descend root inner)) name now e
          ≡ some (send_traces ch bytes e))
        × (decode bytes
            ≡ some (
                trace_request_fields layer.resource_attrs layer.scope_name layer.scope_version
                  (span_of (descend root inner) name now ∷ [])))
  unfolding on_close
  sampled_is_sent ch e root inner name now h k small =
      let (bytes, encoded, decoded) =
        encode_export_trace_request-decode layer.resource_attrs layer.scope_name layer.scope_version
          (span_of (descend root inner) name now ∷ []) small in
      (
        bytes,
        sent_if layer.export_traces _ _ (λ b. send_traces ch b e) e bytes h
            (descend-sampled root inner ∙ k) encoded,
        decoded,
      )
