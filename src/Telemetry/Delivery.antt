-- ===== src/Telemetry/Delivery.antt =====
-- What src/lib.rs adds up to: the endpoints of the signals, the drop of the guard, and a tick of the
-- loop that exports metrics.
use rolly.Base.{
  ℕ, ◌≡◌, ◌≢◌, refl, ap, sym, ◌∙◌, ◌<◌, ◌^◌, arith, true, false, Option, none, some, List, [], ◌∷◌,
  ◌++◌, length,
}
use rolly.Base.Text.{codes}
use rolly.Wire.{print, decode}
use rolly.OtlpTrace.{KeyValue}
use rolly.OtlpMetrics.{encode_export_metrics_request}
use rolly.OtlpMetrics.Fields.{metrics_request_fields, encode_export_metrics_request-decode}
use rolly.Registry.{MetricsRegistry, MetricSnapshot, collect}
use rolly.Exporter.{ExportMessage, Mpsc, Exporter, send_metrics, Event, received, start, run}
use rolly.Exporter.Held.{Signal, trace, log, metric, IsOwn, url_of, posted}
use rolly.Exporter.Delivery.{arrivals, HasEnded}
use rolly.Exporter.Shutdown.{flush_shutdown}
use rolly.Telemetry.{
  TelemetryConfig, exporter_config, signal_url, aggregation_tick, send_encoded, export_snapshots,
  drop_messages,
}

-- The last byte but one, `a` and `b` standing before the list.
last_but_one : ℕ → ℕ → List ℕ → ℕ
last_but_one a b [] = a
last_but_one a b (x ∷ xs) = last_but_one b x xs

last_but_one-append :
    (xs s : List ℕ) (c : ℕ)
    → ((a b : ℕ) → last_but_one a b s ≡ c)
    → (a b : ℕ) → last_but_one a b (xs ++ s) ≡ c
unfolding last_but_one
last_but_one-append [] s c h a b = h a b
last_but_one-append (x ∷ xs) s c h a b = last_but_one-append xs s c h b x

-- The byte by which a URL tells its signal.
mark : Option (List ℕ) → ℕ
mark none = 0
mark (some u) = last_but_one 0 0 u

mark-signal_url :
    (path : List ℕ) (o : Option (List ℕ)) (u : List ℕ) (c : ℕ)
    → ((a b : ℕ) → last_but_one a b path ≡ c)
    → signal_url path o ≡ some u
    → mark (signal_url path o) ≡ c
unfolding mark signal_url
mark-signal_url path none u c h e = ground arith
mark-signal_url path (some ep) u c h e = last_but_one-append ep path c h 0 0

differ :
    (p q : List ℕ) (o r : Option (List ℕ)) (u : List ℕ) (c d : ℕ)
    → ((a b : ℕ) → last_but_one a b p ≡ c)
    → ((a b : ℕ) → last_but_one a b q ≡ d)
    → c ≢ d
    → signal_url p o ≡ some u
    → signal_url q r ≢ some u
differ p q o r u c d hp hq ne e f = ne (
    sym (mark-signal_url p o u c hp e) ∙ ap mark e ∙ sym (ap mark f) ∙ mark-signal_url q r u d hq f)

-- Whatever endpoints are configured, also if they are all the same, the URL of each signal is one to
-- which no other signal is posted.
pub exporter_config-IsOwn :
    (config : TelemetryConfig) (g : Signal) (u : List ℕ)
    → url_of g (exporter_config config) ≡ some u
    → IsOwn g u (exporter_config config)
unfolding exporter_config last_but_one
exporter_config-IsOwn config trace u e = (
  e,
  differ (codes "/v1/traces") (codes "/v1/logs") _ _ u 101 103 (λ a b. refl) (λ a b. refl)
      (omega arith) e,
  differ (codes "/v1/traces") (codes "/v1/metrics") _ _ u 101 99 (λ a b. refl) (λ a b. refl)
      (omega arith) e,
)
exporter_config-IsOwn config log u e = (
  e,
  differ (codes "/v1/logs") (codes "/v1/traces") _ _ u 103 101 (λ a b. refl) (λ a b. refl)
      (omega arith) e,
  differ (codes "/v1/logs") (codes "/v1/metrics") _ _ u 103 99 (λ a b. refl) (λ a b. refl)
      (omega arith) e,
)
exporter_config-IsOwn config metric u e = (
  e,
  differ (codes "/v1/metrics") (codes "/v1/traces") _ _ u 99 101 (λ a b. refl) (λ a b. refl)
      (omega arith) e,
  differ (codes "/v1/metrics") (codes "/v1/logs") _ _ u 99 103 (λ a b. refl) (λ a b. refl)
      (omega arith) e,
)

export_snapshots-some :
    (ch : Mpsc) (attrs : List KeyValue) (version : List ℕ) (start_time now : ℕ)
    (snapshots : List MetricSnapshot) (e : Exporter ch.Sender) (bytes : List ℕ)
    → snapshots ≢ []
    → encode_export_metrics_request attrs (codes "rolly") version snapshots start_time now
      ≡ some bytes
    → export_snapshots ch attrs version start_time now snapshots e ≡ some (send_metrics ch bytes e)
unfolding export_snapshots send_encoded
export_snapshots-some ch attrs version start_time now [] e bytes ne h = absurd (ne refl)
export_snapshots-some ch attrs version start_time now (s ∷ ss) e bytes ne h =
    ap (λ o. send_encoded ch o e) h

-- If the registry has data to collect, and the request takes less than 32 GiB, a tick hands the
-- exporter bytes that a protobuf decoder reads as the request of all the snapshots, and leaves the
-- registry as `collect` does.
pub aggregation_tick-exports :
    (ch : Mpsc) (attrs : List KeyValue) (version : List ℕ) (start_time now : ℕ)
    (registry : MetricsRegistry) (e : Exporter ch.Sender)
    → (collect registry).1 ≢ []
    → length (
        print (
          metrics_request_fields attrs (codes "rolly") version (collect registry).1 start_time now))
      < 2 ^ 35
    → (bytes : List ℕ) × (aggregation_tick ch attrs version start_time now registry e
        ≡ ((collect registry).0, some (send_metrics ch bytes e)))
      × (decode bytes
          ≡ some (
              metrics_request_fields attrs
                (codes "rolly")
                version
                (collect registry).1
                start_time
                now))
unfolding aggregation_tick
aggregation_tick-exports ch attrs version start_time now registry e ne small =
    let (bytes, encoded, decoded) =
      encode_export_metrics_request-decode attrs (codes "rolly") version (collect registry).1
        start_time now small in
    (
      bytes,
      ap (λ o. ((collect registry).0, o))
          (export_snapshots-some ch attrs version start_time now (collect registry).1 e bytes ne
            encoded),
      decoded,
    )

-- The events by which the loop receives messages.
abbrev pub receive_all : List ExportMessage → List Event
receive_all [] = []
receive_all (m ∷ ms) = received (some m) ∷ receive_all ms

-- When the guard is dropped while the loop runs, with an exporter and a runtime, the loop ends, and
-- everything that it had received for a configured signal is in the payloads posted to the signal's
-- URL, in order and once, and every POST's task has ended.
pub drop_delivers :
    (config : TelemetryConfig) (g : Signal) (u : List ℕ) (es : List Event) (done : ℕ)
    → url_of g (exporter_config config) ≡ some u
    → (run (exporter_config config) es start).running ≡ true
    → let s =
        run (exporter_config config) (es ++ receive_all (drop_messages true true done)) start in
      (s.running ≡ false)
      × (posted u s.join_set ≡ arrivals g (exporter_config config) es start)
      × HasEnded s.join_set
unfolding drop_messages
drop_delivers config g u es done e on =
    flush_shutdown u (exporter_config config) g (exporter_config-IsOwn config g u e) es done on
