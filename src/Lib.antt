-- ===== src/Lib.antt =====
-- rolly: an OpenTelemetry exporter for the `tracing` crate (the crate in src/). Spans and events that
-- the application makes pass through the tracing layer, which encodes each as a complete OTLP request
-- and hands the bytes to the exporter's handle; instruments are updated in a registry, which is
-- collected into snapshots that are encoded in the same way. The handle puts the bytes into a bounded
-- channel or counts them as dropped; the background loop batches them by signal and posts each batch,
-- with retries.
--
-- The files:
-- - Base: lists, Boolean tests, bit operations as arithmetic, bytes, `f64` as a bit pattern with
--   its comparisons, signed 64-bit integers, and stable sorting.
-- - Wire: the protobuf wire format, on its own: fields, how they are printed, and a decoder. It
--   describes what the encoders should do and is not a translation of code.
-- - Proto: src/proto.rs. An encoder is a function from the buffer to the buffer, or to `none`
--   where the code panics. The loops over a varint recur on the value, which shrinks, so no fuel
--   is needed. Varint and InPlace treat the parts, Writes is the interface by which the messages
--   are put together. Its bound of 32 GiB is the length for which `encode_message_field_in_place`
--   reserves room.
-- - OtlpTrace, OtlpLog, OtlpMetrics: src/otlp_trace.rs, src/otlp_log.rs and src/otlp_metrics.rs,
--   each with the fields that its request stands for in Fields. OtlpTrace/Receiver is a
--   collector's side of the trace requests, written from the format; it is not a translation of
--   code.
-- - Metrics, Registry: src/metrics.rs. A `HashMap` is an association list in the order of
--   creation, a shared `Inner` is the entry of its name, and the lock makes each call one step.
--   The sum of two `f64` is a parameter. The binary search for a bucket runs on fuel, the length
--   of the slice, which is enough since every turn makes the range smaller (Metrics/Partition).
--   Metrics/Lookup writes out what a sequence of updates leaves for a set of attributes.
-- - Exporter: src/exporter.rs. The channel is a parameter with the documented laws of `try_send`
--   and `send`; the loop is a function of a sequence of events: a message, a tick, the end of a
--   task. A POST's payload is recorded with the task that makes it. Retry: `post_with_retry`, as
--   the list of what it does. Exporter/Pool: the spawned tasks and the semaphore that limits
--   them, as a step relation in which they run in any order; tokio's semaphore is a parameter
--   with its documented laws. Exporter/System: threads that call the handle and the loop that
--   takes from the channel, as a sequence of acts in any order; it keeps the accepted, the lost
--   and the counted messages as a history, which the program does not.
-- - TraceId: src/trace_id.rs, with BLAKE3 and the random bytes as parameters.
-- - Layer: src/otlp_layer.rs. What `tracing` hands over is an argument, and so is the rounded
--   quotient by which a trace ID is sampled. Written writes out the span that is to be exported,
--   from what the program recorded.
-- - Telemetry: src/lib.rs, what `init` derives from the configuration, one round of the loop that
--   exports metrics, and the messages that the guard sends when it is dropped. Collected joins
--   the layer, the handle, the loop and the guard into the way of a span to a task that posts it,
--   and Rebuilt reads the payloads of those tasks as a collector does. Init is `init` itself, by
--   what it starts, Expected writes out what a collector is to be told under a configuration,
--   Whole puts that together, and Drop is the guard's drop on the handle. Collector reads
--   the payloads when several threads send, each task's on its own in Each. What the tasks make of their payloads, in which order they
--   reach an endpoint and whether they do, is the matter of Exporter/Pool and Retry.
-- - UseMetrics: src/use_metrics.rs, the two files of /proc as text, and one round of the polling
--   loop.
-- - Tower: src/tower/request.rs and src/tower/propagation.rs. Headers are a parameter with the
--   documented laws of the `http` crate, whose names know no case; Propagation/Traceparent reads the header that is sent,
--   and Request/Exported follows the request's span through Layer.
-- - Baseline: tools/render_baseline.rs, a tool beside the library that sums up the benchmarks.
--   Written is the write-back into the text of the file, Svg the drawing as lines with their
--   arguments, and Nested a reader of XML that follows the tags; it is not a translation of code.
--   TOML and the arithmetic and printing of `f64` are arguments.
-- Files named Examples hold concrete runs.
--
-- Not modelled: the rest of src/lib.rs (the subscriber's filter and format, and the event by which
-- `init` reports itself), the public names of fields in src/constants.rs, the
-- benchmarks (not part of the library), and what the operating system, tokio, the inner HTTP service
-- and the HTTP client do.
pub mod Baseline
pub mod Base
pub mod Wire
pub mod Proto
pub mod OtlpTrace
pub mod OtlpLog
pub mod Metrics
pub mod Registry
pub mod OtlpMetrics
pub mod Exporter
pub mod Retry
pub mod TraceId
pub mod Layer
pub mod Telemetry
pub mod UseMetrics
pub mod Tower
