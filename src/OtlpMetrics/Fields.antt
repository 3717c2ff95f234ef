-- ===== src/OtlpMetrics/Fields.antt =====
-- Which protobuf fields the encoders of src/otlp_metrics.rs write, by the field numbers of OTLP.
use rolly.Base.{ℕ, ◌<◌, ◌^◌, ◌≡◌, Option, none, some, List, [], ◌∷◌, ◌++◌, arith, length}
use rolly.Base.Int.{ℤ, as_u64, as_u64-lt}
use rolly.Wire.{Field, fixed64, varint, print, decode}
use rolly.Proto.{for_each, encode_message_field_in_place}
use rolly.Proto.Writes.{
  Writes, fixed_field, bytes_field, message_field, packed_field, concat_map, Writes-for_each,
  Writes-seq, Writes-varint, Writes-message, Writes-skip, encoder_rules, Writes-request,
}
use rolly.OtlpTrace.{KeyValue}
use rolly.OtlpTrace.Fields.{
  resource_fields, scope_fields, encode_resource-Writes, encode_scope-Writes,
}
use rolly.Metrics.{Attrs, Exemplar, ExemplarValue, int, double, Point, HistogramState}
use rolly.Registry.{MetricSnapshot, counter_snapshot, gauge_snapshot, histogram_snapshot}
use rolly.OtlpMetrics.{
  encode_attr_key_value, encode_exemplar_value, encode_exemplar, encode_optional_exemplar,
  encode_attrs, encode_counter_data_point, encode_gauge_data_point, encode_sum, encode_gauge_msg,
  encode_histogram_data_point, encode_histogram_msg, encode_metric, encode_export_metrics_request,
}

abbrev pub attr_fields : List ℕ → List ℕ → List Field
attr_fields key value = bytes_field 1 key ++ message_field 2 (bytes_field 1 value)

abbrev pub exemplar_value_fields : ExemplarValue → List Field
exemplar_value_fields (double v) = fixed64 3 v ∷ []
exemplar_value_fields (int v) = fixed64 6 (as_u64 v) ∷ []

abbrev pub exemplar_fields : Exemplar → List Field
exemplar_fields e =
    fixed_field 2 e.time_unix_nano
    ++ (exemplar_value_fields e.value ++ (bytes_field 4 e.span_id ++ bytes_field 5 e.trace_id))

abbrev pub optional_exemplar_fields : ℕ → Option Exemplar → List Field
optional_exemplar_fields n none = []
optional_exemplar_fields n (some e) = message_field n (exemplar_fields e)

abbrev pub attrs_fields : ℕ → Attrs → List Field
attrs_fields n attrs = concat_map (λ kv. message_field n (attr_fields kv.0 kv.1)) attrs

abbrev pub counter_point_fields : ℕ → ℕ → Point ℤ → List Field
counter_point_fields start_time time p =
    fixed_field 2 start_time
    ++ (fixed_field 3 time
        ++ (optional_exemplar_fields 5 p.exemplar
            ++ (fixed64 6 (as_u64 p.value) ∷ [] ++ attrs_fields 7 p.attrs)))

abbrev pub gauge_point_fields : ℕ → ℕ → Point ℕ → List Field
gauge_point_fields start_time time p =
    fixed_field 2 start_time
    ++ (fixed_field 3 time
        ++ (fixed64 4 p.value ∷ []
            ++ (optional_exemplar_fields 5 p.exemplar ++ attrs_fields 7 p.attrs)))

abbrev pub histogram_point_fields : List ℕ → ℕ → ℕ → Point HistogramState → List Field
histogram_point_fields boundaries start_time time p =
    fixed_field 2 start_time
    ++ (fixed_field 3 time
        ++ (fixed64 4 p.value.count ∷ []
            ++ (fixed64 5 p.value.sum ∷ []
                ++ (packed_field 6 p.value.bucket_counts
                    ++ (packed_field 7 boundaries
                        ++ (attrs_fields 9 p.attrs
                            ++ (optional_exemplar_fields 8 p.exemplar
                                ++ (fixed64 11 p.value.min ∷ []
                                    ++ fixed64 12 p.value.max ∷ []))))))))

-- A cumulative (2), monotonic sum; a gauge; a cumulative histogram.
abbrev pub metric_fields : ℕ → ℕ → MetricSnapshot → List Field
metric_fields start_time time (counter_snapshot name description points) =
    bytes_field 1 name
    ++ (bytes_field 2 description
        ++ message_field 7 (
            concat_map (λ p. message_field 1 (counter_point_fields start_time time p)) points
            ++ (varint 2 2 ∷ [] ++ varint 3 1 ∷ [])))
metric_fields start_time time (gauge_snapshot name description points) =
    bytes_field 1 name
    ++ (bytes_field 2 description
        ++ message_field 5
            (concat_map (λ p. message_field 1 (gauge_point_fields start_time time p)) points))
metric_fields start_time time (histogram_snapshot name description boundaries points) =
    bytes_field 1 name
    ++ (bytes_field 2 description
        ++ message_field 9 (
            concat_map (λ p. message_field 1 (histogram_point_fields boundaries start_time time p))
              points
            ++ varint 2 2 ∷ []))

abbrev pub metrics_request_fields :
    List KeyValue → List ℕ → List ℕ → List MetricSnapshot → ℕ → ℕ → List Field
metrics_request_fields resource_attrs scope_name scope_version snapshots start_time time =
    message_field 1 (
      message_field 1 (resource_fields resource_attrs)
      ++ message_field 2 (
          message_field 1 (scope_fields scope_name scope_version)
          ++ concat_map (λ s. message_field 2 (metric_fields start_time time s)) snapshots))

attr-Writes : (k v : List ℕ) → Writes (encode_attr_key_value k v) (attr_fields k v)
unfolding encode_attr_key_value
attr-Writes k v = search (encoder_rules, arith)

exemplar_value-Writes :
    (v : ExemplarValue) → Writes (encode_exemplar_value v) (exemplar_value_fields v)
unfolding encode_exemplar_value
exemplar_value-Writes (double v) = search (encoder_rules, arith)
exemplar_value-Writes (int v) = search (encoder_rules, as_u64-lt, arith)

encode_exemplar-Writes : (e : Exemplar) → Writes (encode_exemplar e) (exemplar_fields e)
unfolding encode_exemplar
encode_exemplar-Writes e = search (encoder_rules, exemplar_value-Writes, arith)

module _ (n : ℕ) (hn : n < 2 ^ 32) where
  attrs-Writes : (attrs : Attrs) → Writes (encode_attrs n attrs) (attrs_fields n attrs)
  unfolding encode_attrs
  attrs-Writes attrs = Writes-for_each attrs _ _ (λ kv. Writes-message n hn (attr-Writes kv.0 kv.1))

  exemplar-Writes :
      (o : Option Exemplar) → Writes (encode_optional_exemplar n o) (optional_exemplar_fields n o)
  unfolding encode_optional_exemplar
  exemplar-Writes none = Writes-skip
  exemplar-Writes (some e) = Writes-message n hn (encode_exemplar-Writes e)

ruleset point_rules = (encoder_rules, attrs-Writes, exemplar-Writes, as_u64-lt)

module _ (start_time time : ℕ) where
  counter_point-Writes :
      (p : Point ℤ)
      → Writes
          (encode_counter_data_point p.attrs start_time time p.value p.exemplar)
          (counter_point_fields start_time time p)
  unfolding encode_counter_data_point
  counter_point-Writes p = search (point_rules, arith) depth 12

  gauge_point-Writes :
      (p : Point ℕ)
      → Writes
          (encode_gauge_data_point p.attrs start_time time p.value p.exemplar)
          (gauge_point_fields start_time time p)
  unfolding encode_gauge_data_point
  gauge_point-Writes p = search (point_rules, arith) depth 12

  histogram_point-Writes :
      (boundaries : List ℕ) (p : Point HistogramState)
      → Writes
          (encode_histogram_data_point p boundaries start_time time)
          (histogram_point_fields boundaries start_time time p)
  unfolding encode_histogram_data_point
  histogram_point-Writes boundaries p = search (point_rules, arith) depth 15

  sum-Writes :
      (points : List (Point ℤ))
      → Writes (encode_sum points start_time time) (
          concat_map (λ p. message_field 1 (counter_point_fields start_time time p)) points
          ++ (varint 2 2 ∷ [] ++ varint 3 1 ∷ []))
  unfolding encode_sum
  sum-Writes points =
      Writes-seq
        (Writes-for_each points _ _ (λ p. Writes-message 1 (omega arith) (counter_point-Writes p)))
        (Writes-seq (Writes-varint 2 (omega arith) 2 (omega arith))
          (Writes-varint 3 (omega arith) 1 (omega arith)))

  gauge_msg-Writes :
      (points : List (Point ℕ))
      → Writes
          (encode_gauge_msg points start_time time)
          (concat_map (λ p. message_field 1 (gauge_point_fields start_time time p)) points)
  unfolding encode_gauge_msg
  gauge_msg-Writes points =
      Writes-for_each points _ _ (λ p. Writes-message 1 (omega arith) (gauge_point-Writes p))

  histogram_msg-Writes :
      (boundaries : List ℕ) (points : List (Point HistogramState))
      → Writes (encode_histogram_msg points boundaries start_time time) (
          concat_map
            (λ p. message_field 1 (histogram_point_fields boundaries start_time time p))
            points
          ++ varint 2 2 ∷ [])
  unfolding encode_histogram_msg
  histogram_msg-Writes boundaries points =
      Writes-seq
        (Writes-for_each points _ _
          (λ p. Writes-message 1 (omega arith) (histogram_point-Writes boundaries p)))
        (Writes-varint 2 (omega arith) 2 (omega arith))

  encode_metric-Writes :
      (s : MetricSnapshot)
      → Writes (encode_metric s start_time time) (metric_fields start_time time s)
  unfolding encode_metric
  encode_metric-Writes (counter_snapshot name description points) =
      search (encoder_rules, sum-Writes, arith) depth 8
  encode_metric-Writes (gauge_snapshot name description points) =
      search (encoder_rules, gauge_msg-Writes, arith) depth 8
  encode_metric-Writes (histogram_snapshot name description boundaries points) =
      search (encoder_rules, histogram_msg-Writes, arith) depth 8

  metrics-Writes :
      (snapshots : List MetricSnapshot)
      → Writes
          (for_each snapshots
            (λ s. encode_message_field_in_place 2 (encode_metric s start_time time)))
          (concat_map (λ s. message_field 2 (metric_fields start_time time s)) snapshots)
  metrics-Writes snapshots =
      Writes-for_each snapshots _ _ (λ s. Writes-message 2 (omega arith) (encode_metric-Writes s))

-- The metrics request is encoded without a panic if it takes less than 32 GiB, and a protobuf
-- decoder reads from the bytes exactly the fields of the request: one ResourceMetrics with the
-- resource and one ScopeMetrics, which holds the scope and every snapshot in its order.
pub encode_export_metrics_request-decode :
    (attrs : List KeyValue) (name version : List ℕ) (snapshots : List MetricSnapshot)
    (start_time time : ℕ)
    → length (print (metrics_request_fields attrs name version snapshots start_time time)) < 2 ^ 35
    → (bytes : List ℕ) × (encode_export_metrics_request attrs name version snapshots start_time time
        ≡ some bytes)
      × (decode bytes ≡ some (metrics_request_fields attrs name version snapshots start_time time))
unfolding encode_export_metrics_request
encode_export_metrics_request-decode attrs name version snapshots start_time time h =
    Writes-request
      (search (encoder_rules, encode_resource-Writes, encode_scope-Writes, metrics-Writes, arith)
        depth 12)
      h
