-- ===== src/Exporter/System/Runs.antt =====
-- Concrete acts of threads and of the loop of src/exporter.rs.
use rolly.Base.{ℕ, ◌<◌, ◌≡◌, refl, arith, true, false, none, some, List, [], ◌∷◌, length}
use rolly.Exporter.{
  traces, flush, drop, ExporterConfig, start, concat, flush_batch, flush_traces, flush_logs,
  flush_metrics, flush_all, on_message, step_running, step, sent, asked, offer, send_traces,
  send_logs, request_flush, request_shutdown,
}
use rolly.Exporter.Channel.{channel, try_send_to, receive_from, receive}
use rolly.Exporter.Held.{trace, IsOwn}
use rolly.Exporter.Send.{call_traces, call_logs}
use rolly.Exporter.Received.{ticked}
use rolly.Exporter.System.{
  Act, calls, flushes, shuts_down, takes, pauses, perform_call, perform_flush, perform_shutdown,
  take, can_send, System, perform, perform_all, initial,
}
use rolly.Exporter.System.Barrier.{ends}

abbrev pub config : ExporterConfig
config = record {
  traces_url = some (1 ∷ []);
  logs_url = some (2 ∷ []);
  metrics_url = none;
  channel_capacity = 4;
  batch_size = 2;
  flush_interval = 1_000_000_000;
  max_concurrent_exports = 4;
  backpressure_strategy = drop;
}

pub traces_alone : IsOwn trace (1 ∷ []) config
traces_alone = (refl, (λ e. ground arith), (λ e. ground arith))

-- A request with one ResourceSpans, which is empty.
abbrev pub request : List ℕ
request = 10 ∷ (0 ∷ [])

-- Two threads send, one asks for a flush, the loop takes two messages, and another trace comes.
abbrev pub sent_acts : List Act
sent_acts =
    calls (call_traces request)
    ∷ (calls (call_logs (20 ∷ []))
        ∷ (takes ∷ (takes ∷ (pauses ticked ∷ (calls (call_traces request) ∷ [])))))

abbrev pub flush_acts : List Act
flush_acts =
    calls (call_traces (10 ∷ [])) ∷ (flushes 7 ∷ (takes ∷ (calls (call_traces (11 ∷ [])) ∷ [])))

abbrev pub shutdown_acts : List Act
shutdown_acts =
    calls (call_traces (10 ∷ [])) ∷ (shuts_down ∷ (takes ∷ (calls (call_traces (11 ∷ [])) ∷ [])))

abbrev pub at : List Act → System channel
at acts = perform_all channel config acts (initial channel config 5)

pub flush_acts_running : (at flush_acts).loop.running ≡ true
unfolding perform_all perform perform_call perform_flush perform_shutdown take can_send initial
    start sent asked offer send_traces send_logs request_flush request_shutdown step step_running
    on_message flush_all flush_traces flush_logs flush_metrics flush_batch try_send_to receive_from
    receive concat
flush_acts_running = refl

pub flush_acts_queued : channel.queued (at flush_acts).handle.tx ≡ flush 7 ∷ (traces (11 ∷ []) ∷ [])
unfolding perform_all perform perform_call perform_flush perform_shutdown take can_send initial
    start sent asked offer send_traces send_logs request_flush request_shutdown step step_running
    on_message flush_all flush_traces flush_logs flush_metrics flush_batch try_send_to receive_from
    receive concat
flush_acts_queued = refl

pub shutdown_acts_running : (at shutdown_acts).loop.running ≡ true
unfolding perform_all perform perform_call perform_flush perform_shutdown take can_send initial
    start sent asked offer send_traces send_logs request_flush request_shutdown step step_running
    on_message flush_all flush_traces flush_logs flush_metrics flush_batch try_send_to receive_from
    receive concat
shutdown_acts_running = refl

pub sent_acts_room : length (channel.queued (at sent_acts).handle.tx) < 4
unfolding perform_all perform perform_call perform_flush perform_shutdown take can_send initial
    start sent asked offer send_traces send_logs request_flush request_shutdown step step_running
    on_message flush_all flush_traces flush_logs flush_metrics flush_batch try_send_to receive_from
    receive concat
sent_acts_room = omega arith

pub sent_acts_running : (at sent_acts).loop.running ≡ true
unfolding perform_all perform perform_call perform_flush perform_shutdown take can_send initial
    start sent asked offer send_traces send_logs request_flush request_shutdown step step_running
    on_message flush_all flush_traces flush_logs flush_metrics flush_batch try_send_to receive_from
    receive concat
sent_acts_running = refl

pub sent_acts_open : ends (channel.queued (at sent_acts).handle.tx) ≡ false
unfolding perform_all perform perform_call perform_flush perform_shutdown take can_send initial
    start sent asked offer send_traces send_logs request_flush request_shutdown step step_running
    on_message flush_all flush_traces flush_logs flush_metrics flush_batch try_send_to receive_from
    receive concat
sent_acts_open = refl
