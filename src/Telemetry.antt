-- ===== src/Telemetry.antt =====
-- src/lib.rs: what `init` derives from the configuration, the tick of the loop that exports metrics,
-- and the messages of the guard's drop. The clock is an argument.
pub mod Delivery
pub mod Collected
pub mod Rebuilt
pub mod Init
pub mod Collector
pub mod Expected
pub mod Whole
pub mod Drop
mod Examples
use rolly.Base.{ℕ, Bool, true, false, Option, none, some, List, [], ◌∷◌, ◌++◌, if◌then◌else◌}
use rolly.Base.F64.{lt_f64, zero_f64, one_f64}
use rolly.Base.Text.{codes}
use rolly.OtlpTrace.{KeyValue}
use rolly.OtlpMetrics.{encode_export_metrics_request}
use rolly.Registry.{MetricsRegistry, MetricSnapshot, collect}
use rolly.Exporter.{
  ExportMessage, flush, shutdown, BackpressureStrategy, ExporterConfig, Mpsc, Exporter,
  send_metrics, request_flush, request_shutdown,
}

-- Intervals are in nanoseconds.
pub record TelemetryConfig : Type 0 where
  pub service_name : List ℕ
  pub service_version : List ℕ
  pub environment : List ℕ
  pub otlp_traces_endpoint : Option (List ℕ)
  pub otlp_logs_endpoint : Option (List ℕ)
  pub otlp_metrics_endpoint : Option (List ℕ)
  pub log_to_stderr : Bool
  pub use_metrics_interval : Option ℕ
  pub metrics_flush_interval : Option ℕ
  pub sampling_rate : Option ℕ
  pub backpressure_strategy : BackpressureStrategy
  pub resource_attributes : List (List ℕ × List ℕ)

-- `endpoint.as_deref().map(|ep| format!("{}…", ep))`
pub signal_url : List ℕ → Option (List ℕ) → Option (List ℕ)
signal_url path none = none
signal_url path (some ep) = some (ep ++ path)

unfoldable pub exporter_config : TelemetryConfig → ExporterConfig
unfolding signal_url
exporter_config config = record {
  traces_url = signal_url (codes "/v1/traces") config.otlp_traces_endpoint;
  logs_url = signal_url (codes "/v1/logs") config.otlp_logs_endpoint;
  metrics_url = signal_url (codes "/v1/metrics") config.otlp_metrics_endpoint;
  channel_capacity = 1024;
  batch_size = 512;
  flush_interval = 1_000_000_000;
  max_concurrent_exports = 4;
  backpressure_strategy = config.backpressure_strategy;
}

-- `config.sampling_rate.unwrap_or(1.0).clamp(0.0, 1.0)`; a NaN stays.
pub clamped_rate : Option ℕ → ℕ
unfolding lt_f64
clamped_rate none = one_f64
clamped_rate (some rate) =
    if lt_f64 rate zero_f64 then zero_f64 else if lt_f64 one_f64 rate then one_f64 else rate

module _ (ch : Mpsc) where
  -- The request that was encoded; a panic of the encoder ends the task.
  send_encoded : Option (List ℕ) → Exporter ch.Sender → Option (Exporter ch.Sender)
  send_encoded none exporter = none
  send_encoded (some bytes) exporter = some (send_metrics ch bytes exporter)

  -- What a tick does with the snapshots of the registry.
  export_snapshots :
      List KeyValue
      → List ℕ
      → ℕ
      → ℕ
      → List MetricSnapshot
      → Exporter ch.Sender
      → Option (Exporter ch.Sender)
  unfolding send_encoded
  export_snapshots resource_attrs service_version start_time now [] exporter = some exporter
  export_snapshots resource_attrs service_version start_time now (s ∷ snapshots) exporter =
      send_encoded
        (encode_export_metrics_request resource_attrs (codes "rolly") service_version
          (s ∷ snapshots) start_time now)
        exporter

  -- One round of `metrics_aggregation_loop`: the registry is collected, then exported.
  pub aggregation_tick :
      List KeyValue
      → List ℕ
      → ℕ
      → ℕ
      → MetricsRegistry
      → Exporter ch.Sender
      → MetricsRegistry × Option (Exporter ch.Sender)
  unfolding export_snapshots
  aggregation_tick resource_attrs service_version start_time now registry exporter =
      let (registry', snapshots) = collect registry in
      (registry', export_snapshots resource_attrs service_version start_time now snapshots exporter)

-- `TelemetryGuard::drop` on the guard's exporter.
pub guard_drop : (ch : Mpsc) → Bool → ℕ → Option (Exporter ch.Sender) → Option (Exporter ch.Sender)
unfolding request_flush request_shutdown
guard_drop ch has_runtime done none = none
guard_drop ch has_runtime done (some exporter) =
    some (if has_runtime then request_shutdown ch (request_flush ch done exporter).0 else exporter)

-- The messages of `TelemetryGuard::drop`, if there is an exporter and the runtime could be built; a
-- send waits for room, and fails only when the loop has ended.
unfoldable pub drop_messages : Bool → Bool → ℕ → List ExportMessage
drop_messages has_exporter has_runtime done =
    if has_exporter then (if has_runtime then flush done ∷ (shutdown ∷ []) else []) else []
