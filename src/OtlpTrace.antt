-- ===== src/OtlpTrace.antt =====
-- src/otlp_trace.rs: the data of spans and attributes, and their encoders. A string is the list of
-- its UTF-8 bytes, an `i64` an integer, an `f64` its bit pattern.
pub mod Fields
pub mod Receiver
mod Examples
use rolly.Base.{ℕ, Bool, true, false, Option, none, some, List, []}
use rolly.Base.Int.{ℤ, as_u64}
use rolly.Proto.{
  Encoder, ◌>>◌, skip, for_each, encode_varint_field, encode_varint_field_always,
  encode_bytes_field, encode_string_field, encode_fixed64_field, encode_fixed64_field_always,
  encode_message_field_in_place,
}

pub data AnyValue : Type 0 where
  string : List ℕ → AnyValue
  int : ℤ → AnyValue
  bool : Bool → AnyValue
  double : ℕ → AnyValue
  bytes : List ℕ → AnyValue

pub record KeyValue : Type 0 where
  pub key : List ℕ
  pub value : AnyValue

pub data SpanKind : Type 0 where
  unspecified internal server client producer consumer : SpanKind

-- `kind as u64`
abbrev pub kind_number : SpanKind → ℕ
kind_number unspecified = 0
kind_number internal = 1
kind_number server = 2
kind_number client = 3
kind_number producer = 4
kind_number consumer = 5

pub data StatusCode : Type 0 where
  unset ok error : StatusCode

-- `code as u64`
abbrev pub status_number : StatusCode → ℕ
status_number unset = 0
status_number ok = 1
status_number error = 2

pub record SpanStatus : Type 0 where
  pub message : List ℕ
  pub code : StatusCode

pub record SpanData : Type 0 where
  pub trace_id : List ℕ
  pub span_id : List ℕ
  pub parent_span_id : List ℕ
  pub name : List ℕ
  pub kind : SpanKind
  pub start_time_unix_nano : ℕ
  pub end_time_unix_nano : ℕ
  pub attributes : List KeyValue
  pub status : Option SpanStatus

-- `b as u64`
abbrev pub bool_number : Bool → ℕ
bool_number true = 1
bool_number false = 0

pub encode_any_value : AnyValue → Encoder
encode_any_value (string s) = encode_string_field 1 s
encode_any_value (bool b) = encode_varint_field_always 2 (bool_number b)
encode_any_value (int i) = encode_varint_field_always 3 (as_u64 i)
encode_any_value (double d) = encode_fixed64_field_always 4 d
encode_any_value (bytes b) = encode_bytes_field 7 b

pub encode_key_value : KeyValue → Encoder
encode_key_value kv = do
  encode_string_field 1 kv.key
  encode_message_field_in_place 2 (encode_any_value kv.value)

pub encode_resource : List KeyValue → Encoder
encode_resource attrs = for_each attrs (λ kv. encode_message_field_in_place 1 (encode_key_value kv))

pub encode_scope : List ℕ → List ℕ → Encoder
encode_scope name version = do encode_string_field 1 name; encode_string_field 2 version

pub encode_status : SpanStatus → Encoder
encode_status status = do
  encode_string_field 2 status.message
  encode_varint_field 3 (status_number status.code)

-- `if let Some(ref status) = span.status`
encode_span_status : Option SpanStatus → Encoder
encode_span_status none = skip
encode_span_status (some status) = encode_message_field_in_place 15 (encode_status status)

pub encode_span : SpanData → Encoder
encode_span span = do
  encode_bytes_field 1 span.trace_id
  encode_bytes_field 2 span.span_id
  encode_bytes_field 4 span.parent_span_id
  encode_string_field 5 span.name
  encode_varint_field 6 (kind_number span.kind)
  encode_fixed64_field 7 span.start_time_unix_nano
  encode_fixed64_field 8 span.end_time_unix_nano
  for_each span.attributes (λ kv. encode_message_field_in_place 9 (encode_key_value kv))
  encode_span_status span.status

pub encode_export_trace_request : List KeyValue → List ℕ → List ℕ → List SpanData → Option (List ℕ)
encode_export_trace_request resource_attrs scope_name scope_version spans =
    encode_message_field_in_place 1
      (do
        encode_message_field_in_place 1 (encode_resource resource_attrs)
        encode_message_field_in_place 2 (do
          encode_message_field_in_place 1 (encode_scope scope_name scope_version)
          for_each spans (λ span. encode_message_field_in_place 2 (encode_span span))))
      []
