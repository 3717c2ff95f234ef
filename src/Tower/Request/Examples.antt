-- ===== src/Tower/Request/Examples.antt =====
-- src/tower/request.rs on a concrete request, answered with 503.
use rolly.Base.{
  ℕ, ◌≡◌, ◌<◌, ◌^◌, refl, ltb→lt, zero, suc, true, false, some, List, [], ◌∷◌, length, replicate,
}
use rolly.Base.Bytes.{beq_bytes, to_le_bytes, le_bytes, from_le_bytes}
use rolly.Base.F64.{zero_f64, lt_f64, le_f64}
use rolly.Base.Int.{as_u64, as_i64}
use rolly.Base.Text.{codes}
use rolly.Wire.{Field, print, print_field, leb128, decode}
use rolly.TraceId.{hex_encode, generate_trace_id}
use rolly.OtlpTrace.Fields.{trace_request_fields}
use rolly.Exporter.{Exporter, send_traces, drop}
use rolly.Exporter.Channel.{Channel, channel}
use rolly.Layer.{OtlpLayer, should_sample, zero_trace_id, zero_span_id, on_close}
use rolly.Tower.Request.{ok}
use rolly.Tower.Request.Exported.{request_span, answered_fields, request_span_exported}

abbrev half : ℕ
half = 0x3fe0_0000_0000_0000

abbrev quotient : ℕ → ℕ
quotient zero = zero_f64
quotient (suc n) = half

abbrev layer : OtlpLayer
layer = record {
  resource_attrs = [];
  scope_name = codes "rolly";
  scope_version = codes "1";
  export_traces = true;
  export_logs = true;
  sampling_rate = half;
}

abbrev exporter : Exporter Channel
exporter = record {
  tx = record { queue = []; room = 2; closed = false };
  backpressure_strategy = drop;
  dropped_total = 0;
}

abbrev hashed : List ℕ → List ℕ
hashed s = replicate 32 (length s)

abbrev exported : List Field
exported = trace_request_fields [] (codes "rolly") (codes "1") (
    request_span quotient layer hashed (replicate 16 9) (replicate 8 5) (codes "GET") (codes "/")
      (some (codes "abc")) (replicate 8 6) (ok 503) half 7 8
    ∷ [])

sampled : should_sample quotient zero_trace_id half ≡ true
unfolding should_sample le_f64 lt_f64 from_le_bytes zero_trace_id
sampled = refl

small : length (print exported) < 2 ^ 35
unfolding print print_field leb128 to_le_bytes le_bytes as_u64 as_i64 request_span zero_trace_id
    hex_encode generate_trace_id zero_span_id beq_bytes
small = ltb→lt _ _ refl

request_span_exported_example :
    (bytes : List ℕ) × (on_close channel layer
        (some (
          answered_fields quotient layer hashed
            (replicate 16 9)
            (replicate 8 5)
            (codes "GET")
            (codes "/")
            (some (codes "abc"))
            (replicate 8 6)
            (ok 503)
            half
            7))
        (codes "request")
        8
        exporter
      ≡ some (send_traces channel bytes exporter))
    × (decode bytes ≡ some exported)
request_span_exported_example =
    request_span_exported quotient layer hashed (replicate 16 9) (replicate 8 5) (codes "GET")
      (codes "/") (some (codes "abc")) channel exporter (replicate 8 6) (ok 503) half 7 8 refl
      sampled small
