-- ===== src/Telemetry/Collector/Examples.antt =====
-- Requests of several threads through src/exporter.rs, as a collector reads them.
use rolly.Base.{suc, ◌≡◌, refl, arith, some, List, [], ◌∷◌, length, replicate}
use rolly.Exporter.{traces, logs}
use rolly.Exporter.Channel.{channel}
use rolly.Exporter.System.{flushes, takes, perform_all}
use rolly.Wire.{decode, decode_loop, decode_field, decode_varint, decode_payload}
use rolly.OtlpTrace.Receiver.{merge_all}
use rolly.OtlpTrace.Receiver.Requests.{
  ResourceSpans, merge_request, receive_resource_spans, receive_request,
}
use rolly.Telemetry.Collector.{IsReadable, receive_each}
use rolly.Telemetry.Collector.Tasks.{receive_tasks}
use rolly.Telemetry.Collector.Each.{each_task_is_readable}
use rolly.Exporter.System.Runs.{
  config, traces_alone, request, sent_acts, at, sent_acts_running, sent_acts_room, sent_acts_open,
}

request-IsReadable : IsReadable (traces request)
unfolding receive_request decode decode_loop decode_field decode_varint decode_payload merge_all
    merge_request receive_resource_spans
request-IsReadable = (_, refl)

log-IsReadable : IsReadable (logs (20 ∷ []))
unfolding receive_request decode decode_loop merge_all
log-IsReadable = ([], refl)

each_task_is_readable_example :
    let s' =
      perform_all channel config
        (flushes 9 ∷ replicate (suc (length (channel.queued (at sent_acts).handle.tx))) takes)
        (at sent_acts) in
    (rs : List ResourceSpans) × (receive_each (at sent_acts).accepted ≡ some rs)
    × (receive_tasks (1 ∷ []) s'.loop.join_set ≡ some rs)
each_task_is_readable_example =
    each_task_is_readable channel config (1 ∷ []) 5 9 sent_acts traces_alone (omega arith)
      (request-IsReadable, (log-IsReadable, (tt, (tt, (tt, (request-IsReadable, tt))))))
      sent_acts_running sent_acts_room sent_acts_open
