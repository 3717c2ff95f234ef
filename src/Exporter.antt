-- ===== src/Exporter.antt =====
-- src/exporter.rs: the handle that sends, the background loop that batches, and the POST with
-- retries. Bytes are lists of numbers. The channel of tokio is a parameter with its documented laws;
-- its `JoinSet` is the list of the tasks spawned, in their order, with a mark on those that have
-- ended, and what the environment does is a sequence of events.
pub mod Held
pub mod Delivery
pub mod Bounds
pub mod Send
pub mod Channel
pub mod Shutdown
pub mod Received
pub mod Pool
pub mod System
mod Examples
use rolly.Base.{
  ℕ, zero, suc, ◌+◌, ◌*◌, ◌%◌, ◌^◌, ◌≤◌, ◌<◌, ◌≡◌, ◌⊎◌, Bool, true, false, Option, none, some, List,
  [], ◌∷◌, ◌++◌, leb, if◌then◌else◌, length,
}

pub data ExportMessage : Type 0 where
  traces : List ℕ → ExportMessage
  logs : List ℕ → ExportMessage
  metrics : List ℕ → ExportMessage
  -- With the number of the `oneshot` sender that is answered.
  flush : ℕ → ExportMessage
  shutdown : ExportMessage

pub data BackpressureStrategy : Type 0 where
  drop : BackpressureStrategy

-- `tokio::sync::mpsc`, as its documentation describes it. `try_send` appends to
-- the queue, and fails at once on a full or a closed channel. `channel` makes an empty one.
pub record Mpsc : Type 1 where
  pub Sender : Type 0
  pub queued : Sender → List ExportMessage
  pub capacity : Sender → ℕ
  pub is_closed : Sender → Bool
  pub channel : ℕ → Sender
  pub try_send : ExportMessage → Sender → Option Sender
  -- What `send` comes to, which waits while the channel is full: it fails when the receiver is gone.
  pub send : ExportMessage → Sender → Option Sender
  pub send-room :
      (m : ExportMessage) (tx : Sender)
      → is_closed tx ≡ false
      → length (queued tx) < capacity tx
      → send m tx ≡ try_send m tx
  pub channel-is_empty :
      (n : ℕ)
      → (queued (channel n) ≡ []) × (capacity (channel n) ≡ n) × (is_closed (channel n) ≡ false)
  pub accepts :
      (m : ExportMessage) (tx : Sender)
      → is_closed tx ≡ false
      → length (queued tx) < capacity tx
      → (tx' : Sender) × (try_send m tx ≡ some tx')
        × (queued tx' ≡ queued tx ++ (m ∷ []))
        × (capacity tx' ≡ capacity tx)
        × (is_closed tx' ≡ false)
  pub refuses_send : (m : ExportMessage) (tx : Sender) → is_closed tx ≡ true → send m tx ≡ none
  -- What `rx.recv()` takes out, `none` while it waits; and what dropping `rx` leaves.
  pub recv : Sender → Option (ExportMessage × Sender)
  pub recv-next :
      (m : ExportMessage) (ms : List ExportMessage) (tx : Sender)
      → queued tx ≡ m ∷ ms
      → (tx' : Sender) × (recv tx ≡ some (m, tx'))
        × (queued tx' ≡ ms)
        × (capacity tx' ≡ capacity tx)
        × (is_closed tx' ≡ is_closed tx)
  pub recv-waits : (tx : Sender) → queued tx ≡ [] → recv tx ≡ none
  pub close : Sender → Sender
  pub close-is_empty :
      (tx : Sender)
      → (queued (close tx) ≡ [])
        × (capacity (close tx) ≡ capacity tx)
        × (is_closed (close tx) ≡ true)
  pub refuses :
      (m : ExportMessage) (tx : Sender)
      → (is_closed tx ≡ true) ⊎ (capacity tx ≤ length (queued tx))
      → try_send m tx ≡ none

-- The handle, with the process-wide `DROPPED_TOTAL` (a `u64`) beside it.
pub record Exporter (Sender : Type 0) : Type 0 where
  pub tx : Sender
  pub backpressure_strategy : BackpressureStrategy
  pub dropped_total : ℕ

module _ (ch : Mpsc) where
  -- The `match` on the outcome of `try_send`.
  unfoldable pub sent : Exporter ch.Sender → Option ch.Sender → Exporter ch.Sender
  sent e none = record e { dropped_total = (e.dropped_total + 1) % 2 ^ 64 }
  sent e (some tx') = record e { tx = tx' }

  offer : BackpressureStrategy → ExportMessage → Exporter ch.Sender → Exporter ch.Sender
  unfolding sent
  offer drop m e = sent e (ch.try_send m e.tx)

  pub send_traces : List ℕ → Exporter ch.Sender → Exporter ch.Sender
  unfolding offer
  send_traces bytes e = offer e.backpressure_strategy (traces bytes) e

  pub send_logs : List ℕ → Exporter ch.Sender → Exporter ch.Sender
  unfolding offer
  send_logs bytes e = offer e.backpressure_strategy (logs bytes) e

  pub send_metrics : List ℕ → Exporter ch.Sender → Exporter ch.Sender
  unfolding offer
  send_metrics bytes e = offer e.backpressure_strategy (metrics bytes) e

module _ (ch : Mpsc) where
  -- The outcome of `send`: the handle, and whether the message is on its way.
  unfoldable pub asked : Exporter ch.Sender → Option ch.Sender → Exporter ch.Sender × Bool
  asked e none = (e, false)
  asked e (some tx') = (record e { tx = tx' }, true)

  -- `Exporter::flush`, which then waits for the answer, if the message is on its way.
  unfoldable pub request_flush : ℕ → Exporter ch.Sender → Exporter ch.Sender × Bool
  unfolding asked
  request_flush done e = asked e (ch.send (flush done) e.tx)

  -- `Exporter::shutdown`
  unfoldable pub request_shutdown : Exporter ch.Sender → Exporter ch.Sender
  unfolding asked
  request_shutdown e = (asked e (ch.send shutdown e.tx)).0

-- The interval is in nanoseconds.
pub record ExporterConfig : Type 0 where
  pub traces_url : Option (List ℕ)
  pub logs_url : Option (List ℕ)
  pub metrics_url : Option (List ℕ)
  pub channel_capacity : ℕ
  pub batch_size : ℕ
  pub flush_interval : ℕ
  pub max_concurrent_exports : ℕ
  pub backpressure_strategy : BackpressureStrategy

-- The handle that `Exporter::start` returns; the loop that it spawns is `run`.
abbrev pub started : (ch : Mpsc) → ExporterConfig → ℕ → Exporter ch.Sender
started ch config dropped_total = record {
  tx = ch.channel config.channel_capacity;
  backpressure_strategy = config.backpressure_strategy;
  dropped_total = dropped_total;
}

-- A task of the `JoinSet`: the POST that it makes, and whether it has ended.
pub record Task : Type 0 where
  pub url : List ℕ
  pub payload : List ℕ
  pub ended : Bool

-- The variables of `exporter_loop`, the acknowledgements sent, and whether the loop goes on. A task
-- that has ended is only dropped by the reaping, so it is kept.
pub record Loop : Type 0 where
  pub trace_batch : List (List ℕ)
  pub log_batch : List (List ℕ)
  pub metrics_batch : List (List ℕ)
  pub join_set : List Task
  pub acknowledged : List ℕ
  pub running : Bool

unfoldable pub start : Loop
start = record {
  trace_batch = [];
  log_batch = [];
  metrics_batch = [];
  join_set = [];
  acknowledged = [];
  running = true;
}

-- `for item in batch.drain(..) { payload.extend_from_slice(&item); }`
unfoldable pub concat : List (List ℕ) → List ℕ
concat [] = []
concat (item ∷ items) = item ++ concat items

-- The tasks that `flush_batch` leaves; the batch is empty afterwards on every branch.
unfoldable pub flush_batch : List (List ℕ) → Option (List ℕ) → List Task → List Task
flush_batch [] url join_set = join_set
flush_batch (item ∷ items) none join_set = join_set
flush_batch (item ∷ items) (some u) join_set =
    join_set ++ (record { url = u; payload = concat (item ∷ items); ended = false } ∷ [])

unfoldable pub flush_traces : ExporterConfig → Loop → Loop
flush_traces config s = record s {
  trace_batch = [];
  join_set = flush_batch s.trace_batch config.traces_url s.join_set;
}

unfoldable pub flush_logs : ExporterConfig → Loop → Loop
flush_logs config s = record s {
  log_batch = [];
  join_set = flush_batch s.log_batch config.logs_url s.join_set;
}

unfoldable pub flush_metrics : ExporterConfig → Loop → Loop
flush_metrics config s = record s {
  metrics_batch = [];
  join_set = flush_batch s.metrics_batch config.metrics_url s.join_set;
}

unfoldable pub flush_all : ExporterConfig → Loop → Loop
flush_all config s = flush_metrics config (flush_logs config (flush_traces config s))

-- `while join_set.join_next().await.is_some() {}`: every task has ended.
unfoldable pub end_all : List Task → List Task
end_all [] = []
end_all (t ∷ ts) = record t { ended = true } ∷ end_all ts

unfoldable pub join_all : Loop → Loop
join_all s = record s { join_set = end_all s.join_set }

-- The `match` on what `rx.recv()` returned; `none` is a channel with no sender left.
unfoldable pub on_message : ExporterConfig → Option ExportMessage → Loop → Loop
on_message config (some (traces bytes)) s =
    let s' = record s { trace_batch = s.trace_batch ++ (bytes ∷ []) } in
    if leb config.batch_size (length s'.trace_batch) then flush_traces config s' else s'
on_message config (some (logs bytes)) s =
    let s' = record s { log_batch = s.log_batch ++ (bytes ∷ []) } in
    if leb config.batch_size (length s'.log_batch) then flush_logs config s' else s'
on_message config (some (metrics bytes)) s =
    let s' = record s { metrics_batch = s.metrics_batch ++ (bytes ∷ []) } in
    if leb config.batch_size (length s'.metrics_batch) then flush_metrics config s' else s'
on_message config (some (flush done)) s =
    let s' = join_all (flush_all config s) in
    record s' { acknowledged = s'.acknowledged ++ (done ∷ []) }
on_message config (some shutdown) s =
    let s' = join_all (flush_all config s) in record s' { running = false }
on_message config none s = let s' = join_all (flush_all config s) in record s' { running = false }

-- What may happen next: a message, the interval's tick, or the end of the i-th task.
pub data Event : Type 0 where
  received : Option ExportMessage → Event
  tick : Event
  task_ended : ℕ → Event

unfoldable pub end_task : ℕ → List Task → List Task
end_task i [] = []
end_task zero (t ∷ ts) = record t { ended = true } ∷ ts
end_task (suc i) (t ∷ ts) = t ∷ end_task i ts

unfoldable pub step_running : ExporterConfig → Event → Loop → Loop
step_running config (received m) s = on_message config m s
step_running config tick s = flush_all config s
step_running config (task_ended i) s = record s { join_set = end_task i s.join_set }

-- After `break` nothing happens any more.
unfoldable pub step : ExporterConfig → Event → Loop → Loop
step config e s = if s.running then step_running config e s else s

unfoldable pub run : ExporterConfig → List Event → Loop → Loop
run config [] s = s
run config (e ∷ es) s = run config es (step config e s)
