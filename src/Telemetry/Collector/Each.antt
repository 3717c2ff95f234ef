-- ===== src/Telemetry/Collector/Each.antt =====
-- What a collector reads from each POST of src/exporter.rs on its own, with several threads at work.
use mathlib.Core.Path.{subst}
use rolly.Base.{
  ℕ, zero, suc, ◌^◌, ◌<◌, ◌≡◌, refl, sym, ◌∙◌, Bool, true, false, Option, none, some, List, [], ◌∷◌,
  All, All-append, if◌then◌else◌, length, replicate,
}
use rolly.OtlpTrace.Receiver.Requests.{ResourceSpans}
use rolly.Exporter.{
  ExportMessage, flush, shutdown, ExporterConfig, Mpsc, start, sent, asked, request_flush,
  request_shutdown,
}
use rolly.Exporter.Held.{trace, IsOwn}
use rolly.Exporter.Send.{Call, message}
use rolly.Exporter.System.{
  Act, calls, flushes, shuts_down, takes, pauses, returns, System, can_send, take, perform_flush,
  perform_shutdown, perform_return, perform, perform_all, initial,
}
use rolly.Exporter.System.Sends.{try_send-some, send-eq-try_send}
use rolly.Exporter.System.Consistent.{called_with, asked_with, perform_call-called_with}
use rolly.Exporter.System.Barrier.{ends}
use rolly.Telemetry.Collector.{
  IsReadable, IsTold, nothing-IsReadable, receive_each, flush_is_readable,
}
use rolly.Telemetry.Collector.Tasks.{
  IsSound, receive_tasks, receive_tasks-posted, step_received-IsSound, step_pause-IsSound,
}

module _ (ch : Mpsc) (config : ExporterConfig) (u : List ℕ) (own : IsOwn trace u config) where
  -- What is queued is readable, and so is what the loop has and has spawned.
  record IsSoundSystem (s : System ch) : Type 0 where
    pub queue : All IsReadable (ch.queued s.handle.tx)
    pub loop : IsSound u s.loop

  entered_queue :
      (m : ExportMessage) (tx tx' : ch.Sender)
      → ch.try_send m tx ≡ some tx'
      → IsReadable m
      → All IsReadable (ch.queued tx)
      → All IsReadable (ch.queued tx')
  entered_queue m tx tx' e r h =
      let (opened, room, queue, capacity, opened') = try_send-some ch m tx tx' e in
      subst (λ q. All IsReadable q) (sym queue)
        (All-append IsReadable (ch.queued tx) (m ∷ []) h (r, tt))

  called_with-IsSoundSystem :
      (c : Call) (s : System ch) (o : Option ch.Sender)
      → ch.try_send (message c) s.handle.tx ≡ o
      → IsReadable (message c)
      → IsSoundSystem s
      → IsSoundSystem (called_with ch config 0 c s o)
  unfolding called_with sent
  called_with-IsSoundSystem c s none e r h = record { queue = h.queue; loop = h.loop }
  called_with-IsSoundSystem c s (some tx') e r h = record {
    queue = entered_queue (message c) s.handle.tx tx' e r h.queue;
    loop = h.loop;
  }

  asked_with-IsSoundSystem :
      (m : ExportMessage) (s : System ch) (o : Option ch.Sender)
      → ch.try_send m s.handle.tx ≡ o
      → IsReadable m
      → IsSoundSystem s
      → IsSoundSystem (asked_with ch config 0 m s o)
  unfolding asked_with asked
  asked_with-IsSoundSystem m s none e r h = record { queue = h.queue; loop = h.loop }
  asked_with-IsSoundSystem m s (some tx') e r h = record {
    queue = entered_queue m s.handle.tx tx' e r h.queue;
    loop = h.loop;
  }

  take-IsSoundSystem :
      (s : System ch) (q : List ExportMessage)
      → ch.queued s.handle.tx ≡ q
      → All IsReadable q
      → IsSoundSystem s
      → IsSoundSystem (take ch config (ch.recv s.handle.tx) s)
  unfolding take
  take-IsSoundSystem s [] e r h =
      subst (λ o. IsSoundSystem (take ch config o s)) (sym (ch.recv-waits s.handle.tx e)) h
  take-IsSoundSystem s (m ∷ ms) e (r, rs) h =
      let (tx', received', queue, capacity, closed) = ch.recv-next m ms s.handle.tx e in
      subst (λ o. IsSoundSystem (take ch config o s)) (sym received')
        record {
          queue = subst (λ q. All IsReadable q) (sym queue) rs;
          loop = step_received-IsSound u config own m s.loop r h.loop;
        }

  IsSoundSystem-if :
      (b : Bool) (t f : System ch)
      → (b ≡ true → IsSoundSystem t)
      → IsSoundSystem f
      → IsSoundSystem (if b then t else f)
  IsSoundSystem-if true t f h k = h refl
  IsSoundSystem-if false t f h k = k

  perform-IsSoundSystem :
      (a : Act) (s : System ch) → IsTold a → IsSoundSystem s → IsSoundSystem (perform ch config a s)
  unfolding perform perform_flush perform_shutdown perform_return request_flush request_shutdown
      asked_with
  perform-IsSoundSystem (calls c) s told h =
      subst (λ t. IsSoundSystem t) (sym (perform_call-called_with ch config 0 c s))
        (called_with-IsSoundSystem c s _ refl told h)
  perform-IsSoundSystem (flushes done) s told h =
      IsSoundSystem-if (can_send ch s.handle.tx) _ s
        (λ over.
          asked_with-IsSoundSystem (flush done) s _
            (sym (send-eq-try_send ch (flush done) s.handle.tx over)) ([], nothing-IsReadable) h)
        h
  perform-IsSoundSystem shuts_down s told h =
      IsSoundSystem-if (can_send ch s.handle.tx) _ s
        (λ over.
          asked_with-IsSoundSystem shutdown s _
            (sym (send-eq-try_send ch shutdown s.handle.tx over)) ([], nothing-IsReadable) h)
        h
  perform-IsSoundSystem takes s told h =
      IsSoundSystem-if s.loop.running _ s (λ on. take-IsSoundSystem s _ refl h.queue h) h
  perform-IsSoundSystem (pauses p) s told h = record {
    queue = h.queue;
    loop = step_pause-IsSound u config own p s.loop h.loop;
  }
  perform-IsSoundSystem returns s told h =
      let (empty, capacity, closed) = ch.close-is_empty s.handle.tx in
      returned s.loop.running
        record { queue = subst (λ q. All IsReadable q) (sym empty) tt; loop = h.loop }
    where
      returned :
          (b : Bool)
          → IsSoundSystem (perform_return ch s)
          → IsSoundSystem (if b then s else perform_return ch s)
      returned true k = h
      returned false k = k

  perform_all-IsSoundSystem :
      (acts : List Act) (s : System ch)
      → All IsTold acts
      → IsSoundSystem s
      → IsSoundSystem (perform_all ch config acts s)
  unfolding perform_all
  perform_all-IsSoundSystem [] s told h = h
  perform_all-IsSoundSystem (a ∷ acts) s (t, told) h =
      perform_all-IsSoundSystem acts (perform ch config a s) told (perform-IsSoundSystem a s t h)

  initial-IsSoundSystem : (d : ℕ) → IsSoundSystem (initial ch config d)
  unfolding initial start
  initial-IsSoundSystem d =
      let (empty, capacity, opened) = ch.channel-is_empty config.channel_capacity in
      record {
        queue = subst (λ q. All IsReadable q) (sym empty) tt;
        loop = record { items = tt; tasks = tt };
      }

-- A take sends nothing.
takes-IsTold : (n : ℕ) → All IsTold (replicate n takes)
takes-IsTold zero = tt
takes-IsTold (suc n) = (tt, takes-IsTold n)

-- While the loop runs, after any acts on a fresh exporter, whose counter of drops fits a `u64`, in which
-- the threads send only trace data that a collector can read, and with an endpoint for traces that no
-- other signal has: after a `flush` on a channel with room and with no `Shutdown` queued, as many takes
-- later as were queued and the flush itself, a collector can read the payload of every task spawned
-- for that endpoint on its own, whatever becomes of the others, and what these hold, in the order of
-- spawning, is what each accepted message reads as alone, in the order of acceptance, each once. In
-- which order the tasks' requests reach a collector, and whether each does, is not said.
pub each_task_is_readable :
    (ch : Mpsc) (config : ExporterConfig) (u : List ℕ) (d done : ℕ) (acts : List Act)
    → IsOwn trace u config
    → d < 2 ^ 64
    → All IsTold acts
    → (perform_all ch config acts (initial ch config d)).loop.running ≡ true
    → length (ch.queued (perform_all ch config acts (initial ch config d)).handle.tx)
      < config.channel_capacity
    → ends (ch.queued (perform_all ch config acts (initial ch config d)).handle.tx) ≡ false
    → let s = perform_all ch config acts (initial ch config d) in
      let s' =
        perform_all ch config
          (flushes done ∷ replicate (suc (length (ch.queued s.handle.tx))) takes)
          s in
      (rs : List ResourceSpans) × (receive_each s.accepted ≡ some rs)
      × (receive_tasks u s'.loop.join_set ≡ some rs)
each_task_is_readable ch config u d done acts own low told on room free =
    let s = perform_all ch config acts (initial ch config d) in
    let taken = flushes done ∷ replicate (suc (length (ch.queued s.handle.tx))) takes in
    let sound =
      perform_all-IsSoundSystem ch config u own taken s
        (tt, takes-IsTold (suc (length (ch.queued s.handle.tx))))
        (perform_all-IsSoundSystem ch config u own acts (initial ch config d) told
          (initial-IsSoundSystem ch config u own d)) in
    let (rs, each, all) = flush_is_readable ch config u d done acts own low told on room free in
    let (ts, tasks, joined) = receive_tasks-posted u _ sound.loop.tasks in
    (rs, each, tasks ∙ sym joined ∙ all)
