-- ===== src/Exporter/Examples.antt =====
-- The exporter of src/exporter.rs on concrete calls and events, with a channel of one concrete kind.
use rolly.Base.{
  ◌+◌, ◌-◌, ◌%◌, ◌^◌, ◌≡◌, refl, arith, true, false, none, some, List, [], ◌∷◌, ◌++◌, take,
}
use rolly.Base.Bytes.{beq_bytes}
use rolly.Exporter.{
  traces, logs, shutdown, drop, Exporter, ExporterConfig, start, concat, flush_batch, flush_traces,
  flush_logs, flush_metrics, flush_all, end_all, end_task, join_all, on_message, Event, received,
  tick, task_ended, step_running, step, run,
}
use rolly.Exporter.Channel.{Channel, channel}
use rolly.Exporter.Held.{trace, IsOwn, posted}
use rolly.Exporter.Bounds.{IsSmall, run-IsSmall}
use rolly.Exporter.Send.{Call, call_traces, call_logs, call_metrics, calls, messages, calls_account}

abbrev exporter : Exporter Channel
exporter = record {
  tx = record { queue = []; room = 2; closed = false };
  backpressure_strategy = drop;
  dropped_total = 5;
}

abbrev three_calls : List Call
three_calls = call_traces (1 ∷ []) ∷ (call_logs (2 ∷ []) ∷ (call_metrics (3 ∷ []) ∷ []))

calls_account_example :
    ((calls channel three_calls exporter).tx.queue ≡ [] ++ messages (take 2 three_calls))
    × ((calls channel three_calls exporter).dropped_total ≡ (5 + (3 - 2)) % 2 ^ 64)
calls_account_example = calls_account channel three_calls exporter 2 refl refl (omega arith)

abbrev config : ExporterConfig
config = record {
  traces_url = some (1 ∷ []);
  logs_url = some (2 ∷ []);
  metrics_url = none;
  channel_capacity = 4;
  batch_size = 2;
  flush_interval = 1_000_000_000;
  max_concurrent_exports = 4;
  backpressure_strategy = drop;
}

traces_alone : IsOwn trace (1 ∷ []) config
traces_alone = (refl, (λ e. ground arith), (λ e. ground arith))

-- Two traces fill a batch, a log and a trace wait, the tick flushes them, and the loop shuts down.
abbrev events : List Event
events =
    received (some (traces (10 ∷ [])))
    ∷ (received (some (traces (11 ∷ [])))
        ∷ (received (some (logs (20 ∷ [])))
            ∷ (received (some (traces (12 ∷ [])))
                ∷ (tick ∷ (task_ended 0 ∷ (received (some shutdown) ∷ []))))))

abbrev few_events : List Event
few_events = received (some (traces (10 ∷ []))) ∷ (received (some (logs (20 ∷ []))) ∷ [])

run_stopped : (run config events start).running ≡ false
unfolding run step step_running on_message join_all flush_all flush_traces flush_logs flush_metrics
    start flush_batch end_all end_task concat
run_stopped = refl

payloads : posted (1 ∷ []) (run config events start).join_set ≡ 10 ∷ (11 ∷ (12 ∷ []))
unfolding run step step_running on_message join_all flush_all flush_traces flush_logs flush_metrics
    start flush_batch end_all end_task concat posted beq_bytes
payloads = refl

run_still_on : (run config few_events start).running ≡ true
unfolding run step step_running on_message flush_traces flush_logs start
run_still_on = refl

run-IsSmall_example : IsSmall 2 (run config few_events start)
run-IsSmall_example = run-IsSmall config few_events (omega arith)
