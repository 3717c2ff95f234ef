-- ===== src/Telemetry/Rebuilt.antt =====
-- What a collector makes of the spans that the crate has posted.
use rolly.Base.{
  ◌>>=◌, ℕ, ◌≡◌, sym, ap, ◌∙◌, ◌<◌, ◌≤◌, ◌^◌, Bool, true, false, some, List, [], ◌∷◌, ◌++◌,
  append_assoc, append-nil, length, if◌then◌else◌, All,
}
use rolly.Base.Bytes.{IsU64}
use rolly.OtlpTrace.Receiver.{merge_all}
use rolly.OtlpTrace.Receiver.Requests.{ResourceSpans, merge_request, receive_request}
use rolly.OtlpTrace.Receiver.Fits.{merge_all-append}
use rolly.OtlpTrace.Receiver.Values.{IsValue}
use rolly.OtlpTrace.Receiver.RoundTrip.{IsSent, resource_spans, trace_request-merge}
use rolly.Layer.{OtlpLayer, span_of}
use rolly.Exporter.{Mpsc, Exporter, start, run}
use rolly.Exporter.Held.{trace, url_of, posted}
use rolly.Exporter.Delivery.{HasEnded}
use rolly.Exporter.Received.{Pause, receive_between}
use rolly.Telemetry.{TelemetryConfig, exporter_config, drop_messages}
use rolly.Telemetry.Delivery.{receive_all}
use rolly.Telemetry.Collected.{Closed, request, requests, IsShort, close_all, spans_are_collected}

-- Times of 64 bits, and attributes that OTLP can carry.
abbrev pub IsCarried : Closed → Type 0
IsCarried (fields, name, now) =
    IsU64 fields.start_nanos × IsU64 now × All (λ kv. IsValue kv.value) fields.attrs

span_of-IsSent : (c : Closed) → IsCarried c → IsSent (span_of c.0 c.1 c.2)
unfolding span_of
span_of-IsSent c (opened, closed, attrs) =
    (record { start_time = opened; end_time = closed; attributes = attrs; status = tt }, λ e. cc)

module _ (layer : OtlpLayer) where
  -- What the collector is told of one span.
  abbrev pub told : Closed → ResourceSpans
  told (fields, name, now) =
      resource_spans layer.resource_attrs layer.scope_name layer.scope_version
        (span_of fields name now ∷ [])

  abbrev pub told_all : List Closed → List ResourceSpans
  told_all [] = []
  told_all (c ∷ cs) = (if c.0.sampled then told c ∷ [] else []) ++ told_all cs

  module _ (valid : All (λ kv. IsValue kv.value) layer.resource_attrs) where
    request_if-merge :
        (rs : List ResourceSpans) (c : Closed) (sampled : Bool)
        → IsShort layer c
        → IsCarried c
        → merge_all merge_request rs (if sampled then request layer c else [])
          ≡ some (rs ++ (if sampled then told c ∷ [] else []))
    unfolding merge_all
    request_if-merge rs c true short carried =
        trace_request-merge layer.resource_attrs layer.scope_name layer.scope_version
          (span_of c.0 c.1 c.2 ∷ []) valid (span_of-IsSent c carried, tt) (λ e. cc) rs short
    request_if-merge rs c false short carried = ap some (sym (append-nil rs))

    requests-merge :
        (cs : List Closed) (rs : List ResourceSpans)
        → All (IsShort layer) cs
        → All IsCarried cs
        → merge_all merge_request rs (requests layer cs) ≡ some (rs ++ told_all cs)
    requests-merge [] rs h k = unfold merge_all in ap some (sym (append-nil rs))
    requests-merge (c ∷ cs) rs (h, hs) (k, ks) =
        merge_all-append merge_request rs _ (if c.0.sampled then request layer c else [])
          (requests layer cs) (request_if-merge rs c c.0.sampled h k)
        ∙ requests-merge cs _ hs ks
        ∙ ap some (append_assoc rs _ (told_all cs))

-- The whole way of the spans, under the conditions of a drain: traces are exported and have an
-- endpoint, the channel is open, empty, and has room for one message for each span, no request
-- takes 32 GiB or more, times have 64 bits, numbers in attributes are as their types hold them, no
-- attribute of a span or the resource is an empty string or empty bytes, and the counter of drops
-- fits a `u64`. The spans are closed one after the other while the loop takes no message;
-- then it receives what is queued, with any ticks and ends of tasks between, and the guard is
-- dropped. No close panics, nothing is dropped, the loop ends, every POST's task has ended, and the
-- payloads of the tasks spawned for the endpoint, one behind the other in the order of spawning, read
-- as what is told of the sampled spans, in the order of their closes.
pub spans_are_rebuilt :
    (ch : Mpsc) (config : TelemetryConfig) (layer : OtlpLayer) (u : List ℕ) (e : Exporter ch.Sender)
    (cs : List Closed) (pauses : ℕ → List Pause) (done : ℕ)
    → url_of trace (exporter_config config) ≡ some u
    → layer.export_traces ≡ true
    → ch.is_closed e.tx ≡ false
    → ch.queued e.tx ≡ []
    → length cs ≤ ch.capacity e.tx
    → e.dropped_total < 2 ^ 64
    → All (IsShort layer) cs
    → All IsCarried cs
    → All (λ kv. IsValue kv.value) layer.resource_attrs
    → (e' : Exporter ch.Sender) × (close_all layer ch cs e ≡ some e')
      × (e'.dropped_total ≡ e.dropped_total)
      × (let s =
            run
              (exporter_config config)
              (receive_between pauses (ch.queued e'.tx)
                ++ receive_all (drop_messages true true done))
              start in
          (s.running ≡ false)
          × HasEnded s.join_set
          × (receive_request (posted u s.join_set) ≡ some (told_all layer cs)))
unfolding receive_request
spans_are_rebuilt ch config layer u e cs pauses done url on opened empty room low short carried
      valid =
    let (e', closed, dropped, (off, ended, decoded)) =
      spans_are_collected ch config layer u e cs pauses done url on opened empty room low short in
    (
      e',
      closed,
      dropped,
      (
        off,
        ended,
        ap (λ o. o >>= merge_all merge_request []) decoded
            ∙ requests-merge layer valid cs [] short carried,
      ),
    )
