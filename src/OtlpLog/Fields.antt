-- ===== src/OtlpLog/Fields.antt =====
-- Which protobuf fields the encoders of src/otlp_log.rs write, by the field numbers of OTLP.
use rolly.Base.{ℕ, ◌<◌, ◌^◌, ◌≡◌, some, List, ◌++◌, arith, length}
use rolly.Wire.{Field, print, decode}
use rolly.Proto.{for_each, encode_message_field_in_place}
use rolly.Proto.Writes.{
  Writes, uint_field, fixed_field, bytes_field, message_field, concat_map, Writes-for_each,
  Writes-message, encoder_rules, Writes-request,
}
use rolly.OtlpTrace.{KeyValue, encode_key_value}
use rolly.OtlpTrace.Fields.{
  any_value_fields, key_value_fields, resource_fields, scope_fields, encode_any_value-Writes,
  encode_key_value-Writes, encode_resource-Writes, encode_scope-Writes,
}
use rolly.OtlpLog.{
  SeverityNumber, trace, severity_value, LogData, encode_log_record, encode_export_logs_request,
}

abbrev pub log_record_fields : LogData → List Field
log_record_fields log =
    fixed_field 1 log.time_unix_nano
    ++ (uint_field 2 (severity_value log.severity_number)
        ++ (bytes_field 3 log.severity_text
            ++ (message_field 5 (any_value_fields log.body)
                ++ (concat_map (λ kv. message_field 6 (key_value_fields kv)) log.attributes
                    ++ (bytes_field 9 log.trace_id ++ bytes_field 10 log.span_id)))))

abbrev pub logs_request_fields : List KeyValue → List ℕ → List ℕ → List LogData → List Field
logs_request_fields resource_attrs scope_name scope_version logs = message_field 1 (
    message_field 1 (resource_fields resource_attrs)
    ++ message_field 2 (
        message_field 1 (scope_fields scope_name scope_version)
        ++ concat_map (λ log. message_field 2 (log_record_fields log)) logs))

severity_value-lt : (n : SeverityNumber) → severity_value n < 2 ^ 64
severity_value-lt trace = omega arith
severity_value-lt _ = omega arith

attributes-Writes :
    (attrs : List KeyValue)
    → Writes
        (for_each attrs (λ kv. encode_message_field_in_place 6 (encode_key_value kv)))
        (concat_map (λ kv. message_field 6 (key_value_fields kv)) attrs)
attributes-Writes attrs =
    Writes-for_each attrs _ _ (λ kv. Writes-message 6 (omega arith) (encode_key_value-Writes kv))

encode_log_record-Writes : (log : LogData) → Writes (encode_log_record log) (log_record_fields log)
unfolding encode_log_record
encode_log_record-Writes log =
    search (encoder_rules, severity_value-lt, attributes-Writes, encode_any_value-Writes, arith)
      depth 12

log_records-Writes :
    (logs : List LogData)
    → Writes
        (for_each logs (λ log. encode_message_field_in_place 2 (encode_log_record log)))
        (concat_map (λ log. message_field 2 (log_record_fields log)) logs)
log_records-Writes logs =
    Writes-for_each logs _ _ (λ log. Writes-message 2 (omega arith) (encode_log_record-Writes log))

-- The logs request is encoded without a panic if it takes less than 32 GiB, and a protobuf decoder
-- reads from the bytes exactly the fields of the request: one ResourceLogs with the resource and one
-- ScopeLogs, which holds the scope and every record in its order.
pub encode_export_logs_request-decode :
    (attrs : List KeyValue) (name version : List ℕ) (logs : List LogData)
    → length (print (logs_request_fields attrs name version logs)) < 2 ^ 35
    → (bytes : List ℕ) × (encode_export_logs_request attrs name version logs ≡ some bytes)
      × (decode bytes ≡ some (logs_request_fields attrs name version logs))
unfolding encode_export_logs_request
encode_export_logs_request-decode attrs name version logs h =
    Writes-request
      (search
        (encoder_rules, encode_resource-Writes, encode_scope-Writes, log_records-Writes, arith)
        depth 12)
      h
