-- ===== src/Telemetry/Examples.antt =====
-- src/lib.rs with one collector for traces and logs, and none for metrics.
use rolly.Base.{
  ◌≡◌, ◌≢◌, ◌<◌, ◌^◌, refl, arith, ltb→lt, true, false, none, some, List, [], ◌∷◌, length, ℕ, Bool,
  replicate, All,
}
use rolly.Base.Int.{pos, as_u64}
use rolly.Base.Bytes.{to_le_bytes, le_bytes}
use rolly.Base.F64.{one_f64}
use rolly.Base.Text.{codes}
use rolly.Wire.{print, print_field, leb128, decode}
use rolly.OtlpMetrics.Fields.{metrics_request_fields}
use rolly.Registry.{
  MetricsRegistry, collect, counter_snapshots, gauge_snapshots, histogram_snapshots, present,
  values,
}
use rolly.Exporter.{
  traces, drop, Exporter, send_metrics, Event, received, start, run, step, step_running, on_message,
}
use rolly.Exporter.Channel.{Channel, channel}
use rolly.Exporter.Held.{trace, IsOwn}
use rolly.Exporter.Received.{Pause, ticked, ended}
use rolly.Layer.{OtlpLayer, SpanFields, span_of}
use rolly.Telemetry.Collected.{Closed, IsShort}
use rolly.Telemetry.{TelemetryConfig, exporter_config, signal_url, aggregation_tick}
use rolly.Telemetry.Delivery.{exporter_config-IsOwn, aggregation_tick-exports}

abbrev config : TelemetryConfig
config = record {
  service_name = codes "shop";
  service_version = codes "1";
  environment = codes "prod";
  otlp_traces_endpoint = some (codes "http://c");
  otlp_logs_endpoint = some (codes "http://c");
  otlp_metrics_endpoint = none;
  log_to_stderr = false;
  use_metrics_interval = none;
  metrics_flush_interval = none;
  sampling_rate = none;
  backpressure_strategy = drop;
  resource_attributes = (codes "team", codes "pay") ∷ [];
}

traces_url : (exporter_config config).traces_url ≡ some (codes "http://c/v1/traces")
unfolding exporter_config signal_url
traces_url = refl

exporter_config-IsOwn_example : IsOwn trace (codes "http://c/v1/traces") (exporter_config config)
exporter_config-IsOwn_example =
    exporter_config-IsOwn config trace (codes "http://c/v1/traces") traces_url

abbrev events : List Event
events = received (some (traces (10 ∷ []))) ∷ []

still_on : (run (exporter_config config) events start).running ≡ true
unfolding run step step_running on_message start exporter_config
still_on = refl

abbrev exporter : Exporter Channel
exporter = record {
  tx = record { queue = []; room = 2; closed = false };
  backpressure_strategy = drop;
  dropped_total = 0;
}

abbrev layer : OtlpLayer
layer = record {
  resource_attrs = [];
  scope_name = codes "rolly";
  scope_version = codes "1";
  export_traces = true;
  export_logs = true;
  sampling_rate = one_f64;
}

abbrev fields : ℕ → Bool → SpanFields
fields id sampled = record {
  start_nanos = id;
  attrs = [];
  trace_id = replicate 16 1;
  span_id = replicate 8 id;
  parent_span_id = replicate 8 0;
  sampled = sampled;
}

abbrev closed_spans : List Closed
closed_spans = (fields 2 true, codes "a", 5) ∷ ((fields 3 false, codes "b", 6) ∷ [])

closed_spans-IsShort : All (IsShort layer) closed_spans
unfolding print print_field leb128 to_le_bytes le_bytes as_u64 span_of
closed_spans-IsShort = (ltb→lt _ _ refl, (ltb→lt _ _ refl, tt))

abbrev pauses : ℕ → List Pause
pauses n = ticked ∷ (ended n ∷ [])

abbrev registry : MetricsRegistry
registry = record {
  counters =
      (
        codes "requests",
        record {
          name = codes "requests";
          description = [];
          max_cardinality = 10;
          overflow_warned = false;
          points = (0, record { attrs = []; value = pos 3; exemplar = none }) ∷ [];
        },
      )
      ∷ [];
  gauges = [];
  histograms = [];
  default_max_cardinality = 10;
}

some_data : (collect registry).1 ≢ []
unfolding collect counter_snapshots gauge_snapshots histogram_snapshots present
some_data e = ground arith

small :
    length
      (print (metrics_request_fields [] (codes "rolly") (codes "1") (collect registry).1 1000 2000))
    < 2 ^ 35
unfolding collect counter_snapshots gauge_snapshots histogram_snapshots present values print
    print_field leb128 to_le_bytes le_bytes as_u64
small = ltb→lt _ _ refl

aggregation_tick-exports_example :
    (bytes : List ℕ) × (aggregation_tick channel [] (codes "1") 1000 2000 registry exporter
      ≡ ((collect registry).0, some (send_metrics channel bytes exporter)))
    × (decode bytes
        ≡ some
            (metrics_request_fields [] (codes "rolly") (codes "1") (collect registry).1 1000 2000))
aggregation_tick-exports_example =
    aggregation_tick-exports channel [] (codes "1") 1000 2000 registry exporter some_data small
