-- ===== src/Layer.antt =====
-- src/otlp_layer.rs: the tracing layer. What `tracing` hands over (the fields that a span or an event
-- records, the span's parent, name and stored extensions, the level) is an argument, and so are the
-- clock, the random span ID and the rounded quotient by which a trace ID is sampled. A handler
-- returns the new state of what it changes; `none` is a panic of an encoder.
pub mod HexParse
pub mod Sampling
pub mod Spans
pub mod Written
pub mod Resource
mod Examples
use rolly.Base.{
  ◌>>=◌, ℕ, zero, suc, ◌+◌, ◌-◌, ◌*◌, ◌%◌, ◌≤◌, ◌<◌, Bool, true, false, not, Option, none, some,
  List, [], ◌∷◌, ◌++◌, bit_or, ltb, leb, ◌==◌, if◌then◌else◌, length, take, replicate,
}
use rolly.Base.Int.{ℤ, as_i64}
use rolly.Base.Bytes.{beq_bytes, from_le_bytes}
use rolly.Base.F64.{lt_f64, le_f64, one_f64, zero_f64}
use rolly.Base.Text.{codes}
use rolly.OtlpTrace.{
  AnyValue, string, int, bool, double, KeyValue, SpanData, internal, encode_export_trace_request,
}
use rolly.OtlpLog.{SeverityNumber, LogData, encode_export_logs_request}
use rolly.Exporter.{Mpsc, Exporter, send_logs, send_traces}

-- `SpanTiming` and `SpanFields`, which a span stores together.
pub record SpanFields : Type 0 where
  pub start_nanos : ℕ
  pub attrs : List KeyValue
  pub trace_id : List ℕ
  pub span_id : List ℕ
  pub parent_span_id : List ℕ
  pub sampled : Bool

pub record FieldCollector : Type 0 where
  pub attrs : List KeyValue
  pub trace_id : Option (List ℕ)
  pub message : Option (List ℕ)

unfoldable pub empty_collector : FieldCollector
empty_collector = record { attrs = []; trace_id = none; message = none }

-- How `tracing` hands a field to the visitor: by `record_debug` with the text that `{:?}` prints,
-- or by the method of its type. A field written `%x` or `?x` comes by `record_debug`.
pub data Recorded : Type 0 where
  by_debug by_str : List ℕ → Recorded
  by_i64 : ℤ → Recorded
  by_u64 : ℕ → Recorded
  by_bool : Bool → Recorded
  by_f64 : ℕ → Recorded

-- A pattern `lo..=hi`.
abbrev between : ℕ → ℕ → ℕ → Bool
between lo hi b = if leb lo b then leb b hi else false

unfoldable pub hex_nibble : ℕ → Option ℕ
hex_nibble b =
    if between b'0' b'9' b
    then some (b - b'0')
    else if between b'a' b'f' b
    then some (b - b'a' + 10)
    else if between b'A' b'F' b
    then some (b - b'A' + 10)
    else none

-- The loop over `chunks(2)`; the length being even, every chunk has two bytes.
unfoldable pub hex_chunks : List ℕ → Option (List ℕ)
unfolding hex_nibble
hex_chunks [] = some []
hex_chunks (h ∷ []) = none
hex_chunks (h ∷ (l ∷ rest)) = do
  hi ← hex_nibble h
  lo ← hex_nibble l
  out ← hex_chunks rest
  some (bit_or (hi * 16 % 256) lo ∷ out)

-- `Err(())` is `none`.
unfoldable pub hex_to_bytes_16 : List ℕ → Option (List ℕ)
unfolding hex_chunks
hex_to_bytes_16 s = if length s == 32 then hex_chunks s else none

abbrev message_field : List ℕ
message_field = codes "message"

abbrev pub trace_id_field : List ℕ
trace_id_field = codes "trace_id"

pub push_attr : List ℕ → AnyValue → FieldCollector → FieldCollector
push_attr name value c = record c { attrs = c.attrs ++ (record { key = name; value = value } ∷ []) }

-- `if let Ok(bytes) = hex_to_bytes_16(value) { self.trace_id = Some(bytes) }`
parsed_id : Option (List ℕ) → FieldCollector → FieldCollector
parsed_id none c = c
parsed_id (some t) c = record c { trace_id = some t }

unfoldable pub visit : List ℕ → Recorded → FieldCollector → FieldCollector
unfolding push_attr parsed_id beq_bytes hex_to_bytes_16
visit name (by_debug s) c =
    if beq_bytes name message_field
    then record c { message = some s }
    else push_attr name (string s) c
visit name (by_str s) c =
    if beq_bytes name message_field
    then record c { message = some s }
    else push_attr name (string s)
        (if beq_bytes name trace_id_field then parsed_id (hex_to_bytes_16 s) c else c)
visit name (by_i64 i) c = push_attr name (int i) c
visit name (by_u64 n) c = push_attr name (int (as_i64 n)) c
visit name (by_bool b) c = push_attr name (bool b) c
visit name (by_f64 d) c = push_attr name (double d) c

-- A field's name with how it is recorded.
abbrev pub Values : Type 0
Values = List (List ℕ × Recorded)

unfoldable pub collect_from : FieldCollector → Values → FieldCollector
collect_from c [] = c
collect_from c ((name, r) ∷ rest) = collect_from (visit name r c) rest

unfoldable pub collect : Values → FieldCollector
collect values = collect_from empty_collector values

-- `(hash as f64) / (u64::MAX as f64)` is the parameter `normalized`.
unfoldable pub should_sample : (ℕ → ℕ) → List ℕ → ℕ → Bool
should_sample normalized trace_id sampling_rate =
    if le_f64 one_f64 sampling_rate
    then true
    else if le_f64 sampling_rate zero_f64
    then false
    else lt_f64 (normalized (from_le_bytes (take 8 trace_id))) sampling_rate

pub record OtlpLayer : Type 0 where
  pub resource_attrs : List KeyValue
  pub scope_name : List ℕ
  pub scope_version : List ℕ
  pub export_traces : Bool
  pub export_logs : Bool
  pub sampling_rate : ℕ

-- What `OtlpLayer::new` is given, besides the exporter.
pub record OtlpLayerConfig : Type 0 where
  pub service_name : List ℕ
  pub service_version : List ℕ
  pub environment : List ℕ
  pub resource_attributes : List (List ℕ × List ℕ)
  pub export_traces : Bool
  pub export_logs : Bool
  pub sampling_rate : ℕ

-- The attributes of `config.resource_attributes`, behind the standard three.
unfoldable pub string_attrs : List (List ℕ × List ℕ) → List KeyValue
string_attrs [] = []
string_attrs ((k, v) ∷ rest) = record { key = k; value = string v } ∷ string_attrs rest

unfoldable pub resource : List ℕ → List ℕ → List ℕ → List (List ℕ × List ℕ) → List KeyValue
unfolding string_attrs
resource service_name service_version environment more =
    record { key = codes "service.name"; value = string service_name }
    ∷ (record { key = codes "service.version"; value = string service_version }
        ∷ (record { key = codes "deployment.environment"; value = string environment }
            ∷ string_attrs more))

-- `OtlpLayer::new`; the version is the one of the crate's manifest.
unfoldable pub new_layer : List ℕ → OtlpLayerConfig → OtlpLayer
unfolding resource
new_layer cargo_pkg_version config = record {
  resource_attrs =
      resource config.service_name config.service_version config.environment
        config.resource_attributes;
  scope_name = codes "pz-o11y";
  scope_version = cargo_pkg_version;
  export_traces = config.export_traces;
  export_logs = config.export_logs;
  sampling_rate = config.sampling_rate;
}

unfoldable pub zero_trace_id : List ℕ
zero_trace_id = replicate 16 0

unfoldable pub zero_span_id : List ℕ
zero_span_id = replicate 8 0

unfoldable pub id_or : List ℕ → Option (List ℕ) → List ℕ
id_or default none = default
id_or default (some t) = t

-- `parent_fields.map(|(id, _)| id).unwrap_or([0u8; 8])`
parent_id : Option SpanFields → List ℕ
parent_id none = zero_span_id
parent_id (some p) = p.span_id

-- The parent's decision is inherited; a root span makes its own.
decision : (ℕ → ℕ) → ℕ → List ℕ → Option SpanFields → Bool
decision normalized rate trace_id none = should_sample normalized trace_id rate
decision normalized rate trace_id (some p) = p.sampled

-- The extensions that `on_new_span` stores in the span.
unfoldable pub on_new_span :
    (ℕ → ℕ) → OtlpLayer → Values → Option SpanFields → List ℕ → ℕ → SpanFields
unfolding id_or parent_id decision collect collect_from visit empty_collector zero_trace_id
    zero_span_id
on_new_span normalized layer values parent span_id now =
    let visitor = collect values in
    let trace_id = id_or zero_trace_id visitor.trace_id in
    record {
      start_nanos = now;
      attrs = visitor.attrs;
      trace_id = trace_id;
      span_id = span_id;
      parent_span_id = parent_id parent;
      sampled = decision normalized layer.sampling_rate trace_id parent;
    }

-- `on_record` on a span that has `SpanFields`.
unfoldable pub on_record : Values → SpanFields → SpanFields
unfolding collect collect_from visit empty_collector
on_record values fields = record fields { attrs = fields.attrs ++ (collect values).attrs }

pub data Level : Type 0 where
  trace debug info warn error : Level

pub level_to_severity : Level → SeverityNumber
level_to_severity Level.trace = SeverityNumber.trace
level_to_severity Level.debug = SeverityNumber.debug
level_to_severity Level.info = SeverityNumber.info
level_to_severity Level.warn = SeverityNumber.warn
level_to_severity Level.error = SeverityNumber.error

-- `level.to_string()`
abbrev level_name : Level → List ℕ
level_name Level.trace = codes "TRACE"
level_name Level.debug = codes "DEBUG"
level_name Level.info = codes "INFO"
level_name Level.warn = codes "WARN"
level_name Level.error = codes "ERROR"

-- The trace, the span and the decision that an event takes over from the current span.
abbrev pub context : Option SpanFields → List ℕ × List ℕ × Bool
context none = (zero_trace_id, zero_span_id, true)
context (some f) = (f.trace_id, f.span_id, f.sampled)

pub log_of : Level → Values → Option SpanFields → ℕ → LogData
log_of level values current now =
    let visitor = collect values in
    let (trace_id, span_id, sampled) = context current in
    record {
      time_unix_nano = now;
      severity_number = level_to_severity level;
      severity_text = level_name level;
      body = string (id_or [] visitor.message);
      attributes = visitor.attrs;
      trace_id = trace_id;
      span_id = span_id;
    }

unfoldable pub span_of : SpanFields → List ℕ → ℕ → SpanData
span_of fields name now = record {
  trace_id = fields.trace_id;
  span_id = fields.span_id;
  parent_span_id = fields.parent_span_id;
  name = name;
  kind = internal;
  start_time_unix_nano = fields.start_nanos;
  end_time_unix_nano = now;
  attributes = fields.attrs;
  status = none;
}

module _ (ch : Mpsc) (layer : OtlpLayer) where
  unfoldable pub on_event :
      Level → Values → Option SpanFields → ℕ → Exporter ch.Sender → Option (Exporter ch.Sender)
  on_event level values current now exporter =
      if not layer.export_logs
      then some exporter
      else if not (context current).2
      then some exporter
      else (do
        bytes ←
            encode_export_logs_request layer.resource_attrs layer.scope_name layer.scope_version
              (log_of level values current now ∷ [])
        some (send_logs ch bytes exporter))

  -- The stored extensions, if the span has any, with its name.
  unfoldable pub on_close :
      Option SpanFields → List ℕ → ℕ → Exporter ch.Sender → Option (Exporter ch.Sender)
  on_close none name now exporter = some exporter
  on_close (some fields) name now exporter =
      if not layer.export_traces
      then some exporter
      else if not fields.sampled
      then some exporter
      else (do
        bytes ←
            encode_export_trace_request layer.resource_attrs layer.scope_name layer.scope_version
              (span_of fields name now ∷ [])
        some (send_traces ch bytes exporter))
