-- ===== src/Layer/Examples.antt =====
-- src/otlp_layer.rs on concrete spans.
use rolly.Base.{
  ℕ, ◌≡◌, ◌<◌, ◌^◌, refl, ltb→lt, zero, suc, Bool, true, false, some, List, [], ◌∷◌, length,
  replicate,
}
use rolly.Base.Bytes.{beq_bytes, to_le_bytes, le_bytes, from_le_bytes}
use rolly.Base.F64.{zero_f64, lt_f64, le_f64}
use rolly.Base.Text.{codes}
use rolly.Wire.{Field, print, print_field, leb128, decode}
use rolly.Exporter.{Exporter, send_traces, drop}
use rolly.Exporter.Channel.{Channel, channel}
use rolly.Base.Int.{as_u64, as_i64}
use rolly.OtlpTrace.Fields.{trace_request_fields}
use rolly.Layer.{
  SpanFields, by_debug, by_str, by_u64, hex_to_bytes_16, hex_chunks, hex_nibble, Values, OtlpLayer,
  Level, should_sample, zero_trace_id, on_new_span, on_event, on_close,
}
use rolly.Layer.Spans.{
  names_trace_id, on_new_span-zero_trace_id, descend, unsampled_exports_nothing,
}
use rolly.Layer.Written.{written, attributes_of, recorded_id, innermost, written_span_is_sent}

-- The bit pattern of 0.5, and a quotient that is 0.5 for every hash but 0.
abbrev half : ℕ
half = 0x3fe0_0000_0000_0000

abbrev quotient : ℕ → ℕ
quotient zero = zero_f64
quotient (suc n) = half

sampled : should_sample quotient (replicate 16 1) 0x3fe8_0000_0000_0000 ≡ true
unfolding should_sample le_f64 lt_f64 from_le_bytes
sampled = refl

abbrev layer : OtlpLayer
layer = record {
  resource_attrs = [];
  scope_name = codes "rolly";
  scope_version = codes "1";
  export_traces = true;
  export_logs = true;
  sampling_rate = half;
}

abbrev root : Bool → SpanFields
root sampled = record {
  start_nanos = 5;
  attrs = [];
  trace_id = replicate 16 1;
  span_id = replicate 8 2;
  parent_span_id = replicate 8 0;
  sampled = sampled;
}

-- The trace ID by its Debug text, as `%x` records it.
abbrev values : Values
values = (codes "trace_id", by_debug (codes "0101")) ∷ ((codes "size", by_u64 3) ∷ [])

on_new_span-zero_trace_id_example :
    (on_new_span quotient layer values (some (root true)) (replicate 8 3) 7).trace_id
    ≡ zero_trace_id
unfolding names_trace_id
on_new_span-zero_trace_id_example =
    on_new_span-zero_trace_id quotient layer values (some (root true)) (replicate 8 3) 7
      (refl, (refl, tt))

abbrev inner : List (Values × List ℕ × ℕ)
inner = (values, replicate 8 3, 7) ∷ (([], replicate 8 4, 8) ∷ [])

abbrev exporter : Exporter Channel
exporter = record {
  tx = record { queue = []; room = 2; closed = false };
  backpressure_strategy = drop;
  dropped_total = 0;
}

unsampled_exports_nothing_example :
    (on_event channel layer Level.error []
        (some (descend quotient layer (root false) inner))
        9
        exporter
      ≡ some exporter)
    × (on_close channel layer
          (some (descend quotient layer (root false) inner))
          (codes "GET /")
          9
          exporter
        ≡ some exporter)
unsampled_exports_nothing_example =
    unsampled_exports_nothing quotient layer channel exporter (root false) inner Level.error []
      (codes "GET /") 9 refl

-- The trace ID as the program's own string field, and a message.
abbrev told : Values
told =
    (codes "trace_id", by_str (codes "000102030405060708090a0b0c0d0e0f"))
    ∷ ((codes "message", by_debug (codes "hi")) ∷ ((codes "size", by_u64 3) ∷ []))

abbrev closed_fields : List Field
closed_fields =
    trace_request_fields [] (codes "rolly") (codes "1")
      (written (replicate 8 2) inner told (replicate 8 5) 9 (codes "GET /") 11 ∷ [])

small : length (print closed_fields) < 2 ^ 35
unfolding print print_field leb128 to_le_bytes le_bytes as_u64 written attributes_of recorded_id
    innermost hex_to_bytes_16 hex_chunks hex_nibble beq_bytes as_i64
small = ltb→lt _ _ refl

written_span_is_sent_example :
    (bytes : List ℕ) × (on_close channel layer
        (some (
          on_new_span quotient layer told
            (some (descend quotient layer (root true) inner))
            (replicate 8 5)
            9))
        (codes "GET /")
        11
        exporter
      ≡ some (send_traces channel bytes exporter))
    × (decode bytes ≡ some closed_fields)
written_span_is_sent_example =
    written_span_is_sent quotient layer channel exporter (root true) inner told (replicate 8 5) 9
      (codes "GET /") 11 refl refl small
