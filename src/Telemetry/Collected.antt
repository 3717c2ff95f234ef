-- ===== src/Telemetry/Collected.antt =====
-- The way of a span through the crate: src/otlp_layer.rs encodes it when it closes, the handle of
-- src/exporter.rs queues it, the loop batches and posts it, and the drop of the guard in src/lib.rs
-- drains what is left.
use rolly.Base.{
  ◌>>=◌, ℕ, zero, suc, ◌≡◌, refl, sym, ap, ◌∙◌, ◌<◌, ◌≤◌, ◌^◌, arith, Bool-cases, inl, inr, Bool,
  true, false, Option, some, List, [], ◌∷◌, ◌++◌, length, map, take, if◌then◌else◌, All,
}
use rolly.Wire.{Field, print, decode}
use rolly.Wire.Append.{decode-append}
use rolly.OtlpTrace.Fields.{trace_request_fields}
use rolly.Layer.{SpanFields, OtlpLayer, Level, span_of, on_close}
use rolly.Layer.Spans.{descend, sampled_is_sent, unsampled_exports_nothing}
use rolly.Exporter.{traces, Mpsc, Exporter, start, concat, run}
use rolly.Exporter.Send.{Call, call_traces, calls, messages, calls_account}
use rolly.Exporter.Held.{trace, url_of, posted}
use rolly.Exporter.Delivery.{HasEnded}
use rolly.Exporter.Received.{Pause, receive_between, receive_between-traces}
use rolly.Telemetry.{TelemetryConfig, exporter_config, drop_messages}
use rolly.Telemetry.Delivery.{receive_all, drop_delivers}

-- What a closed span has stored, with its name and the time of the close.
abbrev pub Closed : Type 0
Closed = SpanFields × List ℕ × ℕ

module _ (layer : OtlpLayer) where
  -- The request that a span makes on its own.
  abbrev pub request : Closed → List Field
  request (fields, name, now) =
      trace_request_fields layer.resource_attrs layer.scope_name layer.scope_version
        (span_of fields name now ∷ [])

  -- What a collector is to get: the requests of the sampled spans, in the order of their ends.
  abbrev pub requests : List Closed → List Field
  requests [] = []
  requests (c ∷ cs) = (if c.0.sampled then request c else []) ++ requests cs

  if_sampled :
      (c : Closed) (cs : List Closed) (b d : Bool)
      → b ≡ d
      → some ((if d then request c else []) ++ requests cs)
        ≡ some ((if b then request c else []) ++ requests cs)
  if_sampled c cs b d e = ap (λ x. some ((if x then request c else []) ++ requests cs)) (sym e)

  abbrev pub IsShort : Closed → Type 0
  IsShort c = length (print (request c)) < 2 ^ 35

  module _ (ch : Mpsc) where
    -- The spans are closed one after the other.
    abbrev pub close_all : List Closed → Exporter ch.Sender → Option (Exporter ch.Sender)
    close_all [] e = some e
    close_all ((fields, name, now) ∷ cs) e =
        on_close ch layer (some fields) name now e >>= close_all cs

    -- The closes are calls of `send_traces`, at most one for each span, with data that decodes to
    -- the requests.
    close_all-calls :
        (cs : List Closed) (e : Exporter ch.Sender)
        → layer.export_traces ≡ true
        → All IsShort cs
        → (items : List (List ℕ)) × (close_all cs e ≡ some (calls ch (map call_traces items) e))
          × (length items ≤ length cs)
          × (decode (concat items) ≡ some (requests cs))
    unfolding concat decode descend
    close_all-calls [] e on short = ([], refl, omega arith, refl)
    close_all-calls ((fields, name, now) ∷ cs) e on (short, shorts) =
        elim (Bool-cases fields.sampled) [
          | inl sampled ↦
              let (bytes, sent, decoded) =
                sampled_is_sent (λ n. n) layer ch e fields [] name now on sampled short in
              let (items, closed, few, all) =
                close_all-calls cs (calls ch (call_traces bytes ∷ []) e) on shorts in
              (
                bytes ∷ items,
                rw sent closed,
                omega (arith, few),
                decode-append bytes (concat items) _ _ decoded all
                    ∙ if_sampled (fields, name, now) cs fields.sampled true sampled,
              )
          | inr unsampled ↦
              let (items, closed, few, all) = close_all-calls cs e on shorts in
              let silent =
                unsampled_exports_nothing (λ n. n) layer ch e fields [] Level.error [] name now
                  unsampled in
              (
                items,
                rw (silent.1) closed,
                omega (arith, few),
                all ∙ if_sampled (fields, name, now) cs fields.sampled false unsampled,
              )
        ]

messages-traces : (items : List (List ℕ)) → messages (map call_traces items) ≡ map traces items
messages-traces [] = refl
messages-traces (b ∷ items) = ap (λ t. traces b ∷ t) (messages-traces items)

length-map : (items : List (List ℕ)) → length (map call_traces items) ≡ length items
length-map [] = refl
length-map (b ∷ items) = ap suc (length-map items)

take_all : (n : ℕ) (cs : List Call) → length cs ≤ n → take n cs ≡ cs
take_all zero [] h = refl
take_all (suc n) [] h = refl
take_all zero (c ∷ cs) h = absurd (omega arith)
take_all (suc n) (c ∷ cs) h = ap (λ t. c ∷ t) (take_all n cs (omega arith))

-- With room for all of them the calls are queued, and none is counted as dropped.
queued-calls :
    (ch : Mpsc) (e : Exporter ch.Sender) (items : List (List ℕ))
    → ch.is_closed e.tx ≡ false
    → ch.queued e.tx ≡ []
    → length items ≤ ch.capacity e.tx
    → e.dropped_total < 2 ^ 64
    → (ch.queued (calls ch (map call_traces items) e).tx ≡ map traces items)
      × ((calls ch (map call_traces items) e).dropped_total ≡ e.dropped_total)
queued-calls ch e items opened empty room low =
    let cs = map call_traces items in
    let fits : length cs ≤ ch.capacity e.tx = omega (arith, length-map items) in
    let (queue, dropped) =
      calls_account ch cs e (ch.capacity e.tx) opened (rw empty (omega arith)) low in
    (
      queue ∙ rw empty (ap messages (take_all (ch.capacity e.tx) cs fits)) ∙ messages-traces items,
      dropped ∙ omega arith,
    )

-- Spans are closed one after the other, traces being exported and each request taking less than
-- 32 GiB, while the loop takes no message from the open and empty channel, which has room for one
-- message for each span; then the loop receives what is queued, with any ticks and ends of tasks
-- between the messages, and the guard is dropped. For a configured traces endpoint, no close panics,
-- nothing is dropped, the loop ends, every POST's task has ended, and what has been posted to the
-- endpoint decodes to the requests of the sampled spans, each once, in the order of their closes,
-- and nothing else.
pub spans_are_collected :
    (ch : Mpsc) (config : TelemetryConfig) (layer : OtlpLayer) (u : List ℕ) (e : Exporter ch.Sender)
    (cs : List Closed) (pauses : ℕ → List Pause) (done : ℕ)
    → url_of trace (exporter_config config) ≡ some u
    → layer.export_traces ≡ true
    → ch.is_closed e.tx ≡ false
    → ch.queued e.tx ≡ []
    → length cs ≤ ch.capacity e.tx
    → e.dropped_total < 2 ^ 64
    → All (IsShort layer) cs
    → (e' : Exporter ch.Sender) × (close_all layer ch cs e ≡ some e')
      × (e'.dropped_total ≡ e.dropped_total)
      × (let s =
            run
              (exporter_config config)
              (receive_between pauses (ch.queued e'.tx)
                ++ receive_all (drop_messages true true done))
              start in
          (s.running ≡ false)
          × HasEnded s.join_set
          × (decode (posted u s.join_set) ≡ some (requests layer cs)))
unfolding start
spans_are_collected ch config layer u e cs pauses done url on opened empty room low short =
    let (items, closed, few, decoded) = close_all-calls layer ch cs e on short in
    let (queue, dropped) = queued-calls ch e items opened empty (omega arith) low in
    let (arrived, goes_on) =
      receive_between-traces (exporter_config config) items pauses start refl in
    let (off, delivered, ended) =
      drop_delivers config trace u (receive_between pauses (map traces items)) done url goes_on in
    (
      calls ch (map call_traces items) e,
      closed,
      dropped,
      rw queue (off, ended, rw (delivered, arrived) decoded),
    )
