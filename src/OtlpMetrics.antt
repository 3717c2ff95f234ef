-- ===== src/OtlpMetrics.antt =====
-- src/otlp_metrics.rs: the encoders of metric snapshots.
pub mod Fields
mod Examples
use rolly.Base.{ℕ, Option, none, some, List, []}
use rolly.Base.Int.{ℤ, as_u64}
use rolly.Proto.{
  Encoder, ◌>>◌, skip, for_each, encode_varint_field, encode_bytes_field, encode_string_field,
  encode_fixed64_field, encode_fixed64_field_always, encode_packed_fixed64_field,
  encode_packed_double_field, encode_message_field_in_place,
}
use rolly.OtlpTrace.{KeyValue, encode_resource, encode_scope}
use rolly.Metrics.{Attrs, Exemplar, ExemplarValue, int, double, Point, HistogramState}
use rolly.Registry.{MetricSnapshot, counter_snapshot, gauge_snapshot, histogram_snapshot}

pub encode_attr_key_value : List ℕ → List ℕ → Encoder
encode_attr_key_value key value = do
  encode_string_field 1 key
  encode_message_field_in_place 2 (encode_string_field 1 value)

encode_exemplar_value : ExemplarValue → Encoder
encode_exemplar_value (double v) = encode_fixed64_field_always 3 v
encode_exemplar_value (int v) = encode_fixed64_field_always 6 (as_u64 v)

pub encode_exemplar : Exemplar → Encoder
encode_exemplar exemplar = do
  encode_fixed64_field 2 exemplar.time_unix_nano
  encode_exemplar_value exemplar.value
  encode_bytes_field 4 exemplar.span_id
  encode_bytes_field 5 exemplar.trace_id

-- `if let Some(ex) = exemplar`
encode_optional_exemplar : ℕ → Option Exemplar → Encoder
encode_optional_exemplar field none = skip
encode_optional_exemplar field (some ex) = encode_message_field_in_place field (encode_exemplar ex)

encode_attrs : ℕ → Attrs → Encoder
encode_attrs field attrs =
    for_each attrs (λ kv. encode_message_field_in_place field (encode_attr_key_value kv.0 kv.1))

pub encode_counter_data_point : Attrs → ℕ → ℕ → ℤ → Option Exemplar → Encoder
encode_counter_data_point attrs start_time time value exemplar = do
  encode_fixed64_field 2 start_time
  encode_fixed64_field 3 time
  encode_optional_exemplar 5 exemplar
  encode_fixed64_field_always 6 (as_u64 value)
  encode_attrs 7 attrs

pub encode_gauge_data_point : Attrs → ℕ → ℕ → ℕ → Option Exemplar → Encoder
encode_gauge_data_point attrs start_time time value exemplar = do
  encode_fixed64_field 2 start_time
  encode_fixed64_field 3 time
  encode_fixed64_field_always 4 value
  encode_optional_exemplar 5 exemplar
  encode_attrs 7 attrs

pub encode_sum : List (Point ℤ) → ℕ → ℕ → Encoder
encode_sum data_points start_time time = do
  for_each data_points (λ p.
      encode_message_field_in_place 1
        (encode_counter_data_point p.attrs start_time time p.value p.exemplar))
  encode_varint_field 2 2
  encode_varint_field 3 1

pub encode_gauge_msg : List (Point ℕ) → ℕ → ℕ → Encoder
encode_gauge_msg data_points start_time time = for_each data_points (λ p.
    encode_message_field_in_place 1
      (encode_gauge_data_point p.attrs start_time time p.value p.exemplar))

pub encode_histogram_data_point : Point HistogramState → List ℕ → ℕ → ℕ → Encoder
encode_histogram_data_point dp boundaries start_time time = do
  encode_fixed64_field 2 start_time
  encode_fixed64_field 3 time
  encode_fixed64_field_always 4 dp.value.count
  encode_fixed64_field_always 5 dp.value.sum
  encode_packed_fixed64_field 6 dp.value.bucket_counts
  encode_packed_double_field 7 boundaries
  encode_attrs 9 dp.attrs
  encode_optional_exemplar 8 dp.exemplar
  encode_fixed64_field_always 11 dp.value.min
  encode_fixed64_field_always 12 dp.value.max

pub encode_histogram_msg : List (Point HistogramState) → List ℕ → ℕ → ℕ → Encoder
encode_histogram_msg data_points boundaries start_time time = do
  for_each data_points (λ dp.
      encode_message_field_in_place 1 (encode_histogram_data_point dp boundaries start_time time))
  encode_varint_field 2 2

pub encode_metric : MetricSnapshot → ℕ → ℕ → Encoder
encode_metric (counter_snapshot name description data_points) start_time time = do
  encode_string_field 1 name
  encode_string_field 2 description
  encode_message_field_in_place 7 (encode_sum data_points start_time time)
encode_metric (gauge_snapshot name description data_points) start_time time = do
  encode_string_field 1 name
  encode_string_field 2 description
  encode_message_field_in_place 5 (encode_gauge_msg data_points start_time time)
encode_metric (histogram_snapshot name description boundaries data_points) start_time time = do
  encode_string_field 1 name
  encode_string_field 2 description
  encode_message_field_in_place 9 (encode_histogram_msg data_points boundaries start_time time)

pub encode_export_metrics_request :
    List KeyValue → List ℕ → List ℕ → List MetricSnapshot → ℕ → ℕ → Option (List ℕ)
encode_export_metrics_request resource_attrs scope_name scope_version snapshots start_time time =
    encode_message_field_in_place 1
      (do
        encode_message_field_in_place 1 (encode_resource resource_attrs)
        encode_message_field_in_place 2 (do
          encode_message_field_in_place 1 (encode_scope scope_name scope_version)
          for_each snapshots
              (λ s. encode_message_field_in_place 2 (encode_metric s start_time time))))
      []
