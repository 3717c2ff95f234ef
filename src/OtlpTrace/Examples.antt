-- ===== src/OtlpTrace/Examples.antt =====
-- A request of src/otlp_trace.rs with one span.
use rolly.Base.{ltb→lt, refl, arith, ℕ, ◌≡◌, ◌<◌, ◌^◌, true, some, List, [], ◌∷◌, length}
use rolly.Base.Int.{as_u64, negsuc}
use rolly.Base.Bytes.{to_le_bytes, le_bytes}
use rolly.Base.Text.{codes}
use rolly.Wire.{print, print_field, leb128, decode}
use rolly.OtlpTrace.{KeyValue, int, bool, SpanData, internal, error, encode_export_trace_request}
use rolly.OtlpTrace.Receiver.Requests.{receive_request}
use rolly.OtlpTrace.Receiver.RoundTrip.{IsSent, resource_spans, encode_export_trace_request-receive}
use rolly.OtlpTrace.Fields.{trace_request_fields, encode_export_trace_request-decode}

abbrev span : SpanData
span = record {
  trace_id = 1 ∷ (2 ∷ []);
  span_id = 3 ∷ [];
  parent_span_id = [];
  name = codes "GET /";
  kind = internal;
  start_time_unix_nano = 1000;
  end_time_unix_nano = 2000;
  attributes =
      record { key = codes "retry"; value = bool true }
      ∷ (record { key = codes "delta"; value = int (negsuc 0) } ∷ []);
  status = some (record { message = codes "no"; code = error });
}

abbrev attrs : List KeyValue
attrs = []

small : length (print (trace_request_fields attrs (codes "rolly") (codes "1") (span ∷ []))) < 2 ^ 35
unfolding print print_field leb128 to_le_bytes le_bytes as_u64
small = ltb→lt _ _ refl

encode_export_trace_request-decode_example :
    (bytes : List ℕ) × (encode_export_trace_request attrs (codes "rolly") (codes "1") (span ∷ [])
      ≡ some bytes)
    × (decode bytes ≡ some (trace_request_fields attrs (codes "rolly") (codes "1") (span ∷ [])))
encode_export_trace_request-decode_example =
    encode_export_trace_request-decode attrs (codes "rolly") (codes "1") (span ∷ []) small

span-IsSent : IsSent span
span-IsSent = (
  record {
    start_time = omega arith;
    end_time = omega arith;
    attributes = (tt, (omega arith, tt));
    status = λ e. cc;
  },
  λ e. cc,
)

encode_export_trace_request-receive_example :
    (bytes : List ℕ) × (encode_export_trace_request attrs (codes "rolly") (codes "1") (span ∷ [])
      ≡ some bytes)
    × (receive_request bytes
        ≡ some (resource_spans attrs (codes "rolly") (codes "1") (span ∷ []) ∷ []))
encode_export_trace_request-receive_example =
    encode_export_trace_request-receive attrs (codes "rolly") (codes "1") (span ∷ []) tt
      (span-IsSent, tt) (λ e. cc) small
