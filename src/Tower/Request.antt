-- ===== src/Tower/Request.antt =====
-- src/tower/request.rs: the middleware that opens a span for each request, with the names of
-- src/constants.rs. Field names and how a field is recorded are what `tracing` hands to the layer.
pub mod Exported
mod Examples
use rolly.Base.{◌>>=◌, ℕ, ◌≤◌, Bool, Option, none, some, List, [], ◌∷◌, leb, if◌then◌else◌}
use rolly.Base.Text.{codes}
use rolly.TraceId.{generate_trace_id, hex_encode}
use rolly.Layer.{Recorded, by_debug, by_str, by_u64, by_f64, Values}
use rolly.Tower.{Http}

abbrev request_duration : List ℕ
request_duration = codes "http.server.request.duration"

abbrev request_count : List ℕ
request_count = codes "http.server.request.count"

abbrev error_count : List ℕ
error_count = codes "http.server.error.count"

-- `unwrap_or("-")`
display : Option (List ℕ) → List ℕ
display none = codes "-"
display (some id) = id

-- What `call` reads from the request, and the future keeps.
pub record CfRequestIdFuture : Type 0 where
  pub span : Values
  pub method : List ℕ
  pub uri : List ℕ

module _ (http : Http) where
  pub request_id : http.HeaderMap → Option (List ℕ)
  request_id headers = do v ← http.get (codes "x-amz-cf-id") headers; http.to_str v

-- `req.headers().get(...)` is `request_id`; a field written `%x` comes by its Debug text, which is
-- the text that Display prints.
unfoldable pub call :
    (List ℕ → List ℕ) → List ℕ → List ℕ → List ℕ → List ℕ → Option (List ℕ) → CfRequestIdFuture
unfolding display
call blake3 random_uuid random_id method uri request_id = record {
  span =
      (codes "http.method", by_debug method)
      ∷ ((codes "http.uri", by_debug uri)
          ∷ ((codes "cf.request_id", by_debug (display request_id))
              ∷ ((
                codes "trace_id",
                by_debug (hex_encode (generate_trace_id blake3 random_uuid request_id)),
              )
                  ∷ ((codes "span_id", by_debug (hex_encode random_id)) ∷ []))));
  method = method;
  uri = uri;
}

-- `Result<Response<ResBody>, E>`: the status of the response.
pub data Answered : Type 0 where
  ok : ℕ → Answered
  err : Answered

-- What `poll` records in the span.
recorded_values : Answered → ℕ → Values
recorded_values (ok status) latency_ms =
    (codes "http.status_code", by_u64 status) ∷ ((codes "http.latency_ms", by_f64 latency_ms) ∷ [])
recorded_values err latency_ms = (codes "http.latency_ms", by_f64 latency_ms) ∷ []

-- `tracing::info!` with the fields of a metric.
event : List ℕ → List ℕ → Recorded → CfRequestIdFuture → ℕ → Values
event metric kind value this status =
    (codes "metric", by_str metric)
    ∷ ((codes "type", by_str kind)
        ∷ ((codes "value", value)
            ∷ ((codes "method", by_debug this.method)
                ∷ ((codes "route", by_debug this.uri) ∷ ((codes "status", by_u64 status) ∷ [])))))

-- The metric events, in order.
metric_events : CfRequestIdFuture → Answered → ℕ → List Values
unfolding event
metric_events this err latency_ms = []
metric_events this (ok status) latency_ms =
    event request_duration (codes "histogram") (by_f64 latency_ms) this status
    ∷ (event request_count (codes "counter") (by_u64 1) this status
        ∷ (if leb 400 status
            then event error_count (codes "counter") (by_u64 1) this status ∷ []
            else []))

-- What `poll` returns, records in the span and emits; the inner future's `Poll::Pending` is `none`.
unfoldable pub poll :
    CfRequestIdFuture → Option Answered → ℕ → Option Answered × Values × List Values
unfolding recorded_values metric_events
poll this none latency_ms = (none, [], [])
poll this (some result) latency_ms =
    (some result, recorded_values result latency_ms, metric_events this result latency_ms)
