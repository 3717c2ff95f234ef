-- ===== src/OtlpMetrics/Examples.antt =====
-- A request of src/otlp_metrics.rs with a counter that has an exemplar, and a histogram.
use rolly.Base.{ltb→lt, refl, ℕ, ◌≡◌, ◌<◌, ◌^◌, some, none, List, [], ◌∷◌, length}
use rolly.Base.Int.{pos}
use rolly.Base.Bytes.{to_le_bytes, le_bytes}
use rolly.Base.Text.{codes}
use rolly.Base.F64.{one_f64}
use rolly.Wire.{print, print_field, leb128, decode}
use rolly.Metrics.{int}
use rolly.Registry.{MetricSnapshot, counter_snapshot, histogram_snapshot}
use rolly.OtlpMetrics.{encode_export_metrics_request}
use rolly.OtlpMetrics.Fields.{metrics_request_fields, encode_export_metrics_request-decode}

abbrev snapshots : List MetricSnapshot
snapshots =
    counter_snapshot (codes "requests") (codes "all of them") (
      record {
        attrs = (codes "method", codes "GET") ∷ [];
        value = pos 42;
        exemplar = some (record {
          trace_id = 1 ∷ [];
          span_id = 2 ∷ [];
          time_unix_nano = 7;
          value = int (pos 1);
        });
      }
      ∷ [])
    ∷ (histogram_snapshot (codes "latency") [] (one_f64 ∷ []) (
          record {
            attrs = [];
            value = record {
              bucket_counts = 0 ∷ (1 ∷ []);
              sum = one_f64;
              count = 1;
              min = one_f64;
              max = one_f64;
            };
            exemplar = none;
          }
          ∷ [])
        ∷ [])

small :
    length (print (metrics_request_fields [] (codes "rolly") (codes "1") snapshots 1000 2000))
    < 2 ^ 35
unfolding print print_field leb128 to_le_bytes le_bytes
small = ltb→lt _ _ refl

encode_export_metrics_request-decode_example :
    (bytes : List ℕ) × (encode_export_metrics_request []
        (codes "rolly")
        (codes "1")
        snapshots
        1000
        2000
      ≡ some bytes)
    × (decode bytes
        ≡ some (metrics_request_fields [] (codes "rolly") (codes "1") snapshots 1000 2000))
encode_export_metrics_request-decode_example =
    encode_export_metrics_request-decode [] (codes "rolly") (codes "1") snapshots 1000 2000 small
