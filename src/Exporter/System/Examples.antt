-- ===== src/Exporter/System/Examples.antt =====
-- Threads and the loop of src/exporter.rs on concrete acts.
use rolly.Base.{
  ℕ, suc, ◌+◌, ◌-◌, ◌%◌, ◌^◌, ◌≤◌, ◌≡◌, ◌⊎◌, refl, arith, true, false, List, [], ◌∷◌, ◌++◌, length,
  replicate,
}
use rolly.Exporter.{
  traces, shutdown, start, concat, flush_batch, flush_traces, flush_logs, flush_metrics, flush_all,
  on_message, step_running, step, sent, asked, offer, send_traces, send_logs, request_flush,
  request_shutdown,
}
use rolly.Exporter.Channel.{channel, try_send_to, receive_from, receive}
use rolly.Exporter.Held.{trace, posted, batch_of}
use rolly.Exporter.Delivery.{HasEnded}
use rolly.Exporter.System.{
  flushes, takes, returns, perform_call, perform_flush, perform_shutdown, take, can_send, perform,
  perform_all, initial,
}
use rolly.Exporter.System.Sends.{data_count}
use rolly.Exporter.System.Reached.{reached_counts}
use rolly.Exporter.System.Order.{data_of}
use rolly.Exporter.System.Kept.{reached-Accounted}
use rolly.Exporter.System.Barrier.{flush_is_barrier}
use rolly.Exporter.System.Answer.{flush_is_answered}
use rolly.Exporter.System.Last.{shutdown_is_last}
use rolly.Exporter.System.Runs.{
  config, traces_alone, sent_acts, flush_acts, shutdown_acts, at, flush_acts_running,
  flush_acts_queued, shutdown_acts_running, sent_acts_room, sent_acts_running, sent_acts_open,
}

reached_counts_example :
    (((channel.is_closed (at sent_acts).handle.tx ≡ false) × ((at sent_acts).lost ≡ []))
      ⊎ ((channel.is_closed (at sent_acts).handle.tx ≡ true)
          × ((at sent_acts).loop.running ≡ false)
          × (channel.queued (at sent_acts).handle.tx ≡ [])))
    × (length (channel.queued (at sent_acts).handle.tx) ≤ 4)
    × (data_count (at sent_acts).accepted ≤ (at sent_acts).called)
    × ((at sent_acts).handle.dropped_total
        ≡ (5 + ((at sent_acts).called - data_count (at sent_acts).accepted)) % 2 ^ 64)
reached_counts_example = reached_counts channel config 5 sent_acts (omega arith)

reached-Accounted_example :
    data_of trace (at sent_acts).accepted
    ≡ (posted (1 ∷ []) (at sent_acts).loop.join_set ++ concat (batch_of trace (at sent_acts).loop))
      ++ (data_of trace (channel.queued (at sent_acts).handle.tx)
          ++ data_of trace (at sent_acts).lost)
reached-Accounted_example =
    reached-Accounted channel config (1 ∷ []) trace traces_alone 5 sent_acts (omega arith)

shutdown_acts_queued :
    channel.queued (at shutdown_acts).handle.tx ≡ shutdown ∷ (traces (11 ∷ []) ∷ [])
unfolding perform_all perform perform_call perform_flush perform_shutdown take can_send initial
    start sent asked offer send_traces send_logs request_flush request_shutdown step step_running
    on_message flush_all flush_traces flush_logs flush_metrics flush_batch try_send_to receive_from
    receive concat
shutdown_acts_queued = refl

flush_is_barrier_example :
    let s' = perform channel config takes (at flush_acts) in
    (data_of trace (at flush_acts).accepted
      ≡ posted (1 ∷ []) s'.loop.join_set ++ data_of trace (traces (11 ∷ []) ∷ []))
    × HasEnded s'.loop.join_set
    × (s'.loop.acknowledged ≡ (at flush_acts).loop.acknowledged ++ (7 ∷ []))
    × (s'.loop.running ≡ true)
flush_is_barrier_example =
    flush_is_barrier channel config (1 ∷ []) trace traces_alone 5 7 flush_acts
      (traces (11 ∷ []) ∷ []) (omega arith) flush_acts_running flush_acts_queued

flush_is_answered_example :
    let s = at sent_acts in
    let s' =
      perform_all channel config
        (flushes 9 ∷ replicate (suc (length (channel.queued s.handle.tx))) takes)
        s in
    (data_of trace s.accepted ≡ posted (1 ∷ []) s'.loop.join_set)
    × HasEnded s'.loop.join_set
    × ((acks : List ℕ) × (s'.loop.acknowledged ≡ acks ++ (9 ∷ [])))
    × (s'.loop.running ≡ true)
flush_is_answered_example =
    flush_is_answered channel config (1 ∷ []) trace traces_alone 5 9 sent_acts (omega arith)
      sent_acts_running sent_acts_room sent_acts_open

shutdown_is_last_example :
    let s = at shutdown_acts in
    let s' = perform channel config returns (perform channel config takes s) in
    (s'.loop.running ≡ false)
    × (channel.is_closed s'.handle.tx ≡ true)
    × HasEnded s'.loop.join_set
    × (data_of trace s.accepted
        ≡ posted (1 ∷ []) s'.loop.join_set ++ data_of trace (traces (11 ∷ []) ∷ []))
    × (s'.lost ≡ traces (11 ∷ []) ∷ [])
    × (s'.handle.dropped_total ≡ s.handle.dropped_total)
shutdown_is_last_example =
    shutdown_is_last channel config (1 ∷ []) trace traces_alone 5 shutdown_acts
      (traces (11 ∷ []) ∷ []) (omega arith) shutdown_acts_running shutdown_acts_queued
