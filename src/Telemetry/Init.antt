-- ===== src/Telemetry/Init.antt =====
-- `init` of src/lib.rs: what it starts for a configuration. The subscriber's filter, the format of
-- the lines on stderr, and the event by which `init` reports itself are not modelled.
use rolly.Base.{ℕ, Bool, true, false, ◌||◌, Option, none, some, List, if◌then◌else◌}
use rolly.Exporter.{ExporterConfig}
use rolly.Layer.{OtlpLayerConfig, OtlpLayer, new_layer}
use rolly.Telemetry.{TelemetryConfig, exporter_config, clamped_rate}

unfoldable pub is_some : {A : Type 0} → Option A → Bool
is_some none = false
is_some (some a) = true

-- What `init` leaves: the layers, the exporter that it starts (which the guard holds), and the
-- intervals of the tasks that it spawns.
pub record Started : Type 0 where
  pub fmt_layer : Bool
  pub otlp_layer : Option OtlpLayer
  pub exporter : Option ExporterConfig
  pub use_metrics : Option ℕ
  pub aggregation : Option ℕ

abbrev pub layer_config : TelemetryConfig → OtlpLayerConfig
layer_config config = record {
  service_name = config.service_name;
  service_version = config.service_version;
  environment = config.environment;
  resource_attributes = config.resource_attributes;
  export_traces = is_some config.otlp_traces_endpoint;
  export_logs = is_some config.otlp_logs_endpoint;
  sampling_rate = clamped_rate config.sampling_rate;
}

-- `unwrap_or(Duration::from_secs(10))`
interval_or : ℕ → Option ℕ → ℕ
interval_or default none = default
interval_or default (some interval) = interval

unfoldable pub init : List ℕ → TelemetryConfig → Started
unfolding is_some interval_or
init cargo_pkg_version config =
    let export_traces = is_some config.otlp_traces_endpoint in
    let export_logs = is_some config.otlp_logs_endpoint in
    let export_metrics = is_some config.otlp_metrics_endpoint in
    let has_exporter = export_traces || export_logs || export_metrics in
    record {
      fmt_layer = config.log_to_stderr;
      otlp_layer =
          if has_exporter
          then (if export_traces || export_logs
              then some (new_layer cargo_pkg_version (layer_config config))
              else none)
          else none;
      exporter = if has_exporter then some (exporter_config config) else none;
      use_metrics = config.use_metrics_interval;
      aggregation =
          if has_exporter
          then (if export_metrics
              then some (interval_or 10_000_000_000 config.metrics_flush_interval)
              else none)
          else none;
    }
