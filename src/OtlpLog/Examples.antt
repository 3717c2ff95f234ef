-- ===== src/OtlpLog/Examples.antt =====
-- A request of src/otlp_log.rs with one record.
use rolly.Base.{ltb→lt, refl, ℕ, ◌≡◌, ◌<◌, ◌^◌, some, List, [], ◌∷◌, length}
use rolly.Base.Int.{as_u64, pos}
use rolly.Base.Bytes.{to_le_bytes, le_bytes}
use rolly.Base.Text.{codes}
use rolly.Wire.{print, print_field, leb128, decode}
use rolly.OtlpTrace.{string, int}
use rolly.OtlpLog.{LogData, warn, encode_export_logs_request}
use rolly.OtlpLog.Fields.{logs_request_fields, encode_export_logs_request-decode}

abbrev log : LogData
log = record {
  time_unix_nano = 1000;
  severity_number = warn;
  severity_text = codes "WARN";
  body = string (codes "slow");
  attributes = record { key = codes "ms"; value = int (pos 300) } ∷ [];
  trace_id = 1 ∷ (2 ∷ []);
  span_id = 3 ∷ [];
}

small : length (print (logs_request_fields [] (codes "rolly") (codes "1") (log ∷ []))) < 2 ^ 35
unfolding print print_field leb128 to_le_bytes le_bytes as_u64
small = ltb→lt _ _ refl

encode_export_logs_request-decode_example :
    (bytes : List ℕ) × (encode_export_logs_request [] (codes "rolly") (codes "1") (log ∷ [])
      ≡ some bytes)
    × (decode bytes ≡ some (logs_request_fields [] (codes "rolly") (codes "1") (log ∷ [])))
encode_export_logs_request-decode_example =
    encode_export_logs_request-decode [] (codes "rolly") (codes "1") (log ∷ []) small
