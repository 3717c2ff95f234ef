-- ===== src/Telemetry/Collector/Tasks.antt =====
-- Each POST of src/exporter.rs on its own: a batch is a whole number of messages, so that a collector
-- can read the payload of every task, whatever becomes of the others.
use rolly.Base.{
  ◌>>=◌, ℕ, suc, zero, ◌≡◌, ◌≢◌, refl, ap, Bool, Bool-cases, inl, inr, true, false, Option, none,
  some, List, [], ◌∷◌, ◌++◌, All, All-append, if◌then◌else◌, length, leb,
}
use rolly.Base.Bytes.{beq_bytes, beq_bytes_iff}
use rolly.OtlpTrace.Receiver.Requests.{ResourceSpans, receive_request}
use rolly.Exporter.{
  ExportMessage, traces, logs, metrics, flush, shutdown, ExporterConfig, Task, Loop, concat,
  flush_batch, flush_traces, flush_logs, flush_metrics, flush_all, end_all, join_all, on_message,
  received, end_task, step_running, step,
}
use rolly.Exporter.Held.{trace, IsOwn, posted}
use rolly.Telemetry.Collector.{IsReadable, nothing-IsReadable, receive_request-append}
use rolly.Exporter.Received.{Pause, ticked, ended, pause_event}

-- Bytes that a collector can read.
abbrev pub IsRequest : List ℕ → Type 0
IsRequest bytes = (rs : List ResourceSpans) × (receive_request bytes ≡ some rs)

concat-IsRequest : (items : List (List ℕ)) → All IsRequest items → IsRequest (concat items)
unfolding concat
concat-IsRequest [] h = ([], nothing-IsReadable)
concat-IsRequest (b ∷ bs) ((a, e), h) =
    let (r, k) = concat-IsRequest bs h in (a ++ r, receive_request-append b (concat bs) a r e k)

module _ (u : List ℕ) where
  -- The payload is readable, if it goes to `u`.
  abbrev pub IsSentTo : Task → Type 0
  IsSentTo t = beq_bytes t.url u ≡ true → IsRequest t.payload

  -- What a collector reads from each task's payload alone, in the order of spawning.
  unfoldable pub receive_tasks : List Task → Option (List ResourceSpans)
  receive_tasks [] = some []
  receive_tasks (t ∷ ts) =
      if beq_bytes t.url u
      then receive_request t.payload >>= (λ a. receive_tasks ts >>= λ b. some (a ++ b))
      else receive_tasks ts

  pub receive_tasks-posted :
      (ts : List Task)
      → All IsSentTo ts
      → (rs : List ResourceSpans) × (receive_tasks ts ≡ some rs)
        × (receive_request (posted u ts) ≡ some rs)
  unfolding receive_tasks posted
  receive_tasks-posted [] h = ([], refl, nothing-IsReadable)
  receive_tasks-posted (t ∷ ts) (h, hs) = elim (Bool-cases (beq_bytes t.url u)) [
    | inl own ↦
        let (a, e) = h own in
        let (b, each, all) = receive_tasks-posted ts hs in
        (
          a ++ b,
          rw (own, e, each) refl,
          rw own (receive_request-append t.payload (posted u ts) a b e all),
        )
    | inr other ↦
        let (b, each, all) = receive_tasks-posted ts hs in (b, rw other each, rw other all)
  ]

  flush_batch-IsSentTo :
      (batch : List (List ℕ)) (o : Option (List ℕ)) (ts : List Task)
      → All IsRequest batch
      → All IsSentTo ts
      → All IsSentTo (flush_batch batch o ts)
  unfolding flush_batch
  flush_batch-IsSentTo [] o ts h k = k
  flush_batch-IsSentTo (b ∷ bs) none ts h k = k
  flush_batch-IsSentTo (b ∷ bs) (some v) ts h k =
      All-append IsSentTo ts _ k ((λ _. concat-IsRequest (b ∷ bs) h), tt)

  flush_batch-IsSentTo_other :
      (batch : List (List ℕ)) (o : Option (List ℕ)) (ts : List Task)
      → o ≢ some u
      → All IsSentTo ts
      → All IsSentTo (flush_batch batch o ts)
  unfolding flush_batch
  flush_batch-IsSentTo_other [] o ts ne k = k
  flush_batch-IsSentTo_other (b ∷ bs) none ts ne k = k
  flush_batch-IsSentTo_other (b ∷ bs) (some v) ts ne k =
      All-append IsSentTo ts _ k ((λ same. absurd (ne (ap some ((beq_bytes_iff v u).0 same)))), tt)

  end_all-IsSentTo : (ts : List Task) → All IsSentTo ts → All IsSentTo (end_all ts)
  unfolding end_all
  end_all-IsSentTo [] h = tt
  end_all-IsSentTo (t ∷ ts) (h, hs) = (h, end_all-IsSentTo ts hs)

  end_task-IsSentTo : (i : ℕ) (ts : List Task) → All IsSentTo ts → All IsSentTo (end_task i ts)
  unfolding end_task
  end_task-IsSentTo i [] h = tt
  end_task-IsSentTo zero (t ∷ ts) h = h
  end_task-IsSentTo (suc i) (t ∷ ts) (h, hs) = (h, end_task-IsSentTo i ts hs)

  -- Every message in the batch of the traces is readable, and so is every payload for `u`.
  pub record IsSound (s : Loop) : Type 0 where
    pub items : All IsRequest s.trace_batch
    pub tasks : All IsSentTo s.join_set

  IsSound-if : (b : Bool) (t f : Loop) → IsSound t → IsSound f → IsSound (if b then t else f)
  IsSound-if true t f h k = h
  IsSound-if false t f h k = k

  module _ (config : ExporterConfig) (own : IsOwn trace u config) where
    flush_traces-IsSound : (s : Loop) → IsSound s → IsSound (flush_traces config s)
    unfolding flush_traces
    flush_traces-IsSound s h = record {
      items = tt;
      tasks = flush_batch-IsSentTo s.trace_batch config.traces_url s.join_set h.items h.tasks;
    }

    flush_logs-IsSound : (s : Loop) → IsSound s → IsSound (flush_logs config s)
    unfolding flush_logs
    flush_logs-IsSound s h = record {
      items = h.items;
      tasks = flush_batch-IsSentTo_other s.log_batch config.logs_url s.join_set own.1 h.tasks;
    }

    flush_metrics-IsSound : (s : Loop) → IsSound s → IsSound (flush_metrics config s)
    unfolding flush_metrics
    flush_metrics-IsSound s h = record {
      items = h.items;
      tasks =
          flush_batch-IsSentTo_other s.metrics_batch config.metrics_url s.join_set own.2 h.tasks;
    }

    flush_all-IsSound : (s : Loop) → IsSound s → IsSound (flush_all config s)
    unfolding flush_all
    flush_all-IsSound s h =
        flush_metrics-IsSound _ (flush_logs-IsSound _ (flush_traces-IsSound s h))

    drained-IsSound : (s : Loop) → IsSound s → IsSound (join_all (flush_all config s))
    unfolding join_all
    drained-IsSound s h =
        let flushed = flush_all-IsSound s h in
        record { items = flushed.items; tasks = end_all-IsSentTo _ flushed.tasks }

    IsSound-update :
        (acks : List ℕ) (on : Bool) (s : Loop)
        → IsSound s
        → IsSound (record s { acknowledged = acks; running = on })
    IsSound-update acks on s h = record { items = h.items; tasks = h.tasks }

    traces-IsSound :
        (b : List ℕ) (s : Loop)
        → IsRequest b
        → IsSound s
        → IsSound (record s { trace_batch = s.trace_batch ++ (b ∷ []) })
    traces-IsSound b s r h = record {
      items = All-append IsRequest s.trace_batch (b ∷ []) h.items (r, tt);
      tasks = h.tasks;
    }

    -- No other signal goes to `u`.
    kept-IsSound :
        (ls ms : List (List ℕ)) (s : Loop)
        → IsSound s
        → IsSound (record s { log_batch = ls; metrics_batch = ms })
    kept-IsSound ls ms s h = record { items = h.items; tasks = h.tasks }

    on_message-IsSound :
        (m : ExportMessage) (s : Loop)
        → IsReadable m
        → IsSound s
        → IsSound (on_message config (some m) s)
    unfolding on_message
    on_message-IsSound (traces b) s r h =
        let more = traces-IsSound b s r h in
        IsSound-if (leb config.batch_size (length (s.trace_batch ++ (b ∷ [])))) _ _
          (flush_traces-IsSound _ more) more
    on_message-IsSound (logs b) s r h =
        let more = kept-IsSound (s.log_batch ++ (b ∷ [])) s.metrics_batch s h in
        IsSound-if (leb config.batch_size (length (s.log_batch ++ (b ∷ [])))) _ _
          (flush_logs-IsSound _ more) more
    on_message-IsSound (metrics b) s r h =
        let more = kept-IsSound s.log_batch (s.metrics_batch ++ (b ∷ [])) s h in
        IsSound-if (leb config.batch_size (length (s.metrics_batch ++ (b ∷ [])))) _ _
          (flush_metrics-IsSound _ more) more
    on_message-IsSound (flush done) s r h = IsSound-update _ _ _ (drained-IsSound s h)
    on_message-IsSound shutdown s r h = IsSound-update _ _ _ (drained-IsSound s h)

    pub step_received-IsSound :
        (m : ExportMessage) (s : Loop)
        → IsReadable m
        → IsSound s
        → IsSound (step config (received (some m)) s)
    unfolding step step_running
    step_received-IsSound m s r h = IsSound-if s.running _ s (on_message-IsSound m s r h) h

    pub step_pause-IsSound :
        (p : Pause) (s : Loop) → IsSound s → IsSound (step config (pause_event p) s)
    unfolding step step_running
    step_pause-IsSound ticked s h = IsSound-if s.running _ s (flush_all-IsSound s h) h
    step_pause-IsSound (ended i) s h =
        IsSound-if s.running _ s
          record { items = h.items; tasks = end_task-IsSentTo i s.join_set h.tasks } h
