-- ===== src/OtlpTrace/Fields.antt =====
-- Which protobuf fields the encoders of src/otlp_trace.rs write, by the field numbers of OTLP.
use rolly.Base.{
  ℕ, ◌<◌, ◌^◌, ◌≡◌, Bool, true, false, Option, none, some, List, [], ◌∷◌, ◌++◌, arith, length,
}
use rolly.Base.Int.{as_u64, as_u64-lt}
use rolly.Wire.{Field, varint, fixed64, print, decode}
use rolly.Proto.Writes.{
  Writes, uint_field, fixed_field, bytes_field, message_field, concat_map, Writes-message,
  Writes-for_each, Writes-skip, encoder_rules, Writes-request,
}
use rolly.Proto.{for_each, encode_message_field_in_place}
use rolly.OtlpTrace.{
  AnyValue, string, int, bool, double, bytes, KeyValue, SpanKind, kind_number, unspecified,
  StatusCode, unset, status_number, SpanStatus, SpanData, bool_number, encode_any_value,
  encode_key_value, encode_resource, encode_scope, encode_status, encode_span_status, encode_span,
  encode_export_trace_request,
}

-- AnyValue is a `oneof`: a number or a Boolean is written even if it is zero.
abbrev pub any_value_fields : AnyValue → List Field
any_value_fields (string s) = bytes_field 1 s
any_value_fields (bool b) = varint 2 (bool_number b) ∷ []
any_value_fields (int i) = varint 3 (as_u64 i) ∷ []
any_value_fields (double d) = fixed64 4 d ∷ []
any_value_fields (bytes b) = bytes_field 7 b

abbrev pub key_value_fields : KeyValue → List Field
key_value_fields kv = bytes_field 1 kv.key ++ message_field 2 (any_value_fields kv.value)

bool_number-lt : (b : Bool) → bool_number b < 2 ^ 64
bool_number-lt true = omega arith
bool_number-lt false = omega arith

pub encode_any_value-Writes : (v : AnyValue) → Writes (encode_any_value v) (any_value_fields v)
unfolding encode_any_value
encode_any_value-Writes (string s) = search (encoder_rules, as_u64-lt, arith)
encode_any_value-Writes (bool b) = search (encoder_rules, as_u64-lt, bool_number-lt, arith)
encode_any_value-Writes (int i) = search (encoder_rules, as_u64-lt, arith)
encode_any_value-Writes (double d) = search (encoder_rules, as_u64-lt, arith)
encode_any_value-Writes (bytes b) = search (encoder_rules, as_u64-lt, arith)

pub encode_key_value-Writes : (kv : KeyValue) → Writes (encode_key_value kv) (key_value_fields kv)
unfolding encode_key_value
encode_key_value-Writes kv = search (encoder_rules, as_u64-lt, encode_any_value-Writes, arith)

abbrev pub resource_fields : List KeyValue → List Field
resource_fields attrs = concat_map (λ kv. message_field 1 (key_value_fields kv)) attrs

abbrev pub scope_fields : List ℕ → List ℕ → List Field
scope_fields name version = bytes_field 1 name ++ bytes_field 2 version

abbrev pub status_fields : SpanStatus → List Field
status_fields status = bytes_field 2 status.message ++ uint_field 3 (status_number status.code)

abbrev pub span_status_fields : Option SpanStatus → List Field
span_status_fields none = []
span_status_fields (some status) = message_field 15 (status_fields status)

abbrev pub span_fields : SpanData → List Field
span_fields span =
    bytes_field 1 span.trace_id
    ++ (bytes_field 2 span.span_id
        ++ (bytes_field 4 span.parent_span_id
            ++ (bytes_field 5 span.name
                ++ (uint_field 6 (kind_number span.kind)
                    ++ (fixed_field 7 span.start_time_unix_nano
                        ++ (fixed_field 8 span.end_time_unix_nano
                            ++ (concat_map (λ kv. message_field 9 (key_value_fields kv))
                                  span.attributes
                                ++ span_status_fields span.status)))))))

abbrev pub trace_request_fields : List KeyValue → List ℕ → List ℕ → List SpanData → List Field
trace_request_fields resource_attrs scope_name scope_version spans = message_field 1 (
    message_field 1 (resource_fields resource_attrs)
    ++ message_field 2 (
        message_field 1 (scope_fields scope_name scope_version)
        ++ concat_map (λ span. message_field 2 (span_fields span)) spans))

pub encode_resource-Writes :
    (attrs : List KeyValue) → Writes (encode_resource attrs) (resource_fields attrs)
unfolding encode_resource
encode_resource-Writes attrs =
    Writes-for_each attrs _ _ (λ kv. Writes-message 1 (omega arith) (encode_key_value-Writes kv))

pub encode_scope-Writes :
    (name version : List ℕ) → Writes (encode_scope name version) (scope_fields name version)
unfolding encode_scope
encode_scope-Writes name version = search (encoder_rules, arith)

kind_number-lt : (k : SpanKind) → kind_number k < 2 ^ 64
kind_number-lt unspecified = omega arith
kind_number-lt _ = omega arith

status_number-lt : (c : StatusCode) → status_number c < 2 ^ 64
status_number-lt unset = omega arith
status_number-lt _ = omega arith

encode_status-Writes : (s : SpanStatus) → Writes (encode_status s) (status_fields s)
unfolding encode_status
encode_status-Writes s = search (encoder_rules, status_number-lt, arith)

encode_span_status-Writes :
    (o : Option SpanStatus) → Writes (encode_span_status o) (span_status_fields o)
unfolding encode_span_status
encode_span_status-Writes none = Writes-skip
encode_span_status-Writes (some s) = search (encoder_rules, encode_status-Writes, arith)

attributes-Writes :
    (attrs : List KeyValue)
    → Writes
        (for_each attrs (λ kv. encode_message_field_in_place 9 (encode_key_value kv)))
        (concat_map (λ kv. message_field 9 (key_value_fields kv)) attrs)
attributes-Writes attrs =
    Writes-for_each attrs _ _ (λ kv. Writes-message 9 (omega arith) (encode_key_value-Writes kv))

encode_span-Writes : (span : SpanData) → Writes (encode_span span) (span_fields span)
unfolding encode_span
encode_span-Writes span =
    search (encoder_rules, kind_number-lt, attributes-Writes, encode_span_status-Writes, arith)
      depth 12

spans-Writes :
    (spans : List SpanData)
    → Writes
        (for_each spans (λ span. encode_message_field_in_place 2 (encode_span span)))
        (concat_map (λ span. message_field 2 (span_fields span)) spans)
spans-Writes spans =
    Writes-for_each spans _ _ (λ span. Writes-message 2 (omega arith) (encode_span-Writes span))

-- The trace request is encoded without a panic if it takes less than 32 GiB, and a protobuf decoder
-- reads from the bytes exactly the fields of the request: one ResourceSpans with the resource and one
-- ScopeSpans, which holds the scope and every span in its order.
pub encode_export_trace_request-decode :
    (attrs : List KeyValue) (name version : List ℕ) (spans : List SpanData)
    → length (print (trace_request_fields attrs name version spans)) < 2 ^ 35
    → (bytes : List ℕ) × (encode_export_trace_request attrs name version spans ≡ some bytes)
      × (decode bytes ≡ some (trace_request_fields attrs name version spans))
unfolding encode_export_trace_request
encode_export_trace_request-decode attrs name version spans h =
    Writes-request
      (search (encoder_rules, encode_resource-Writes, encode_scope-Writes, spans-Writes, arith)
        depth 12)
      h
