-- ===== src/OtlpLog.antt =====
-- src/otlp_log.rs: log records and their encoders.
pub mod Fields
mod Examples
use rolly.Base.{ℕ, Option, List, []}
use rolly.Proto.{
  Encoder, ◌>>◌, for_each, encode_varint_field, encode_bytes_field, encode_string_field,
  encode_fixed64_field, encode_message_field_in_place,
}
use rolly.OtlpTrace.{
  AnyValue, KeyValue, encode_any_value, encode_key_value, encode_resource, encode_scope,
}

pub data SeverityNumber : Type 0 where
  trace debug info warn error fatal : SeverityNumber

-- `severity_number as u64`
abbrev pub severity_value : SeverityNumber → ℕ
severity_value trace = 1
severity_value debug = 5
severity_value info = 9
severity_value warn = 13
severity_value error = 17
severity_value fatal = 21

pub record LogData : Type 0 where
  pub time_unix_nano : ℕ
  pub severity_number : SeverityNumber
  pub severity_text : List ℕ
  pub body : AnyValue
  pub attributes : List KeyValue
  pub trace_id : List ℕ
  pub span_id : List ℕ

pub encode_log_record : LogData → Encoder
encode_log_record log = do
  encode_fixed64_field 1 log.time_unix_nano
  encode_varint_field 2 (severity_value log.severity_number)
  encode_string_field 3 log.severity_text
  encode_message_field_in_place 5 (encode_any_value log.body)
  for_each log.attributes (λ kv. encode_message_field_in_place 6 (encode_key_value kv))
  encode_bytes_field 9 log.trace_id
  encode_bytes_field 10 log.span_id

pub encode_export_logs_request : List KeyValue → List ℕ → List ℕ → List LogData → Option (List ℕ)
encode_export_logs_request resource_attrs scope_name scope_version logs =
    encode_message_field_in_place 1
      (do
        encode_message_field_in_place 1 (encode_resource resource_attrs)
        encode_message_field_in_place 2 (do
          encode_message_field_in_place 1 (encode_scope scope_name scope_version)
          for_each logs (λ log. encode_message_field_in_place 2 (encode_log_record log))))
      []
