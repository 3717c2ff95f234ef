-- ===== src/Exporter/System/Reached.antt =====
-- What every act leaves of the handle, the channel and the loop of src/exporter.rs after any sequence of acts.
use mathlib.Core.Path.{subst}
use rolly.Base.{
  ℕ, ◌+◌, ◌-◌, ◌%◌, ◌^◌, ◌≤◌, ◌<◌, ◌≡◌, refl, sym, ap, ◌∙◌, ◌⊎◌, inl, inr, Bool, Bool-cases, true,
  false, List, [], ◌∷◌, arith, if◌then◌else◌, length,
}
use rolly.Exporter.{
  ExportMessage, flush, shutdown, ExporterConfig, Mpsc, Event, step_running, Loop, step,
  request_flush, request_shutdown,
}
use rolly.Exporter.Received.{pause_event}
use rolly.Exporter.System.{
  Act, calls, flushes, shuts_down, takes, pauses, returns, System, can_send, take, perform_flush,
  perform_shutdown, perform_return, perform, perform_all, initial,
}
use rolly.Exporter.System.Sends.{data_count, send-eq-try_send}
use rolly.Exporter.System.Consistent.{
  IsConsistent, initial-IsConsistent, call-IsConsistent, asked_with, asked_with-IsConsistent,
}

module _ (ch : Mpsc) (config : ExporterConfig) (dropped_before : ℕ) where
  -- What holds in every state.
  abbrev pub Ok : System ch → Type 0
  Ok s = IsConsistent ch config dropped_before s

  flush-IsConsistent :
      (done : ℕ) (s : System ch)
      → can_send ch s.handle.tx ≡ true
      → Ok s
      → Ok (perform_flush ch done s)
  unfolding perform_flush request_flush asked_with
  flush-IsConsistent done s over h =
      asked_with-IsConsistent ch config dropped_before (flush done) s _ refl h
        (sym (send-eq-try_send ch (flush done) s.handle.tx over))

  shutdown-IsConsistent :
      (s : System ch) → can_send ch s.handle.tx ≡ true → Ok s → Ok (perform_shutdown ch s)
  unfolding perform_shutdown request_shutdown asked_with
  shutdown-IsConsistent s over h =
      asked_with-IsConsistent ch config dropped_before shutdown s _ refl h
        (sym (send-eq-try_send ch shutdown s.handle.tx over))

  -- A step of the loop that leaves the rest alone.
  looped-IsConsistent :
      (s : System ch) (l : Loop)
      → (l.running ≡ true → s.loop.running ≡ true)
      → Ok s
      → Ok (record s { loop = l })
  looped-IsConsistent s l back h = record {
    open_while_running = λ on. h.open_while_running (back on);
    none_lost = h.none_lost;
    emptied = h.emptied;
    bounded = h.bounded;
    capacity = h.capacity;
    counted = h.counted;
    dropped = h.dropped;
  }

  return-IsConsistent : (s : System ch) → s.loop.running ≡ false → Ok s → Ok (perform_return ch s)
  unfolding perform_return
  return-IsConsistent s off h =
      let (empty, capacity, closed) = ch.close-is_empty s.handle.tx in
      record {
        open_while_running = λ on. absurd (let c : true ≡ false = sym on ∙ off in cc);
        none_lost = λ o. absurd (let c : true ≡ false = sym closed ∙ o in cc);
        emptied = λ _. empty;
        bounded = rw (empty) (omega arith);
        capacity = capacity ∙ h.capacity;
        counted = h.counted;
        dropped = h.dropped;
      }

  take-IsConsistent :
      (s : System ch) (q : List ExportMessage)
      → ch.queued s.handle.tx ≡ q
      → s.loop.running ≡ true
      → Ok s
      → Ok (take ch config (ch.recv s.handle.tx) s)
  unfolding take
  take-IsConsistent s [] e on h = rw (ch.recv-waits s.handle.tx e, take) h
  take-IsConsistent s (m ∷ ms) e on h =
      let (tx', received', queue, capacity, closed) = ch.recv-next m ms s.handle.tx e in
      let opened = closed ∙ h.open_while_running on in
      subst (λ o. Ok (take ch config o s)) (sym received')
        record {
          open_while_running = λ _. opened;
          none_lost = λ _. h.none_lost (h.open_while_running on);
          emptied = λ c. absurd (let d : true ≡ false = sym c ∙ opened in cc);
          bounded = rw (queue, capacity) (omega (arith, h.bounded, ap length e));
          capacity = capacity ∙ h.capacity;
          counted = h.counted;
          dropped = h.dropped;
        }

  step_back : (e : Event) (l : Loop) → (step config e l).running ≡ true → l.running ≡ true
  step_back e l on = elim (Bool-cases l.running) [
    | inl running ↦ running
    | inr off ↦
        let same : step config e l ≡ l =
          unfold step in ap (λ b. if b then step_running config e l else l) off in
        sym (ap (λ t. t.running) same) ∙ on
  ]

  IsConsistent-if :
      (b : Bool) (t f : System ch)
      → (b ≡ true → Ok t)
      → (b ≡ false → Ok f)
      → Ok (if b then t else f)
  IsConsistent-if true t f k l = k refl
  IsConsistent-if false t f k l = l refl

  pub perform-IsConsistent : (a : Act) (s : System ch) → Ok s → Ok (perform ch config a s)
  unfolding perform
  perform-IsConsistent (calls c) s h = call-IsConsistent ch config dropped_before c s h
  perform-IsConsistent (flushes done) s h =
      IsConsistent-if (can_send ch s.handle.tx) _ s (λ over. flush-IsConsistent done s over h)
        (λ _. h)
  perform-IsConsistent shuts_down s h =
      IsConsistent-if (can_send ch s.handle.tx) _ s (λ over. shutdown-IsConsistent s over h)
        (λ _. h)
  perform-IsConsistent takes s h =
      IsConsistent-if s.loop.running _ s (λ on. take-IsConsistent s _ refl on h) (λ _. h)
  perform-IsConsistent (pauses p) s h =
      looped-IsConsistent s (step config (pause_event p) s.loop) (step_back (pause_event p) s.loop)
        h
  perform-IsConsistent returns s h =
      IsConsistent-if s.loop.running s _ (λ _. h) (λ off. return-IsConsistent s off h)

  perform_all-IsConsistent :
      (acts : List Act) (s : System ch) → Ok s → Ok (perform_all ch config acts s)
  unfolding perform_all
  perform_all-IsConsistent [] s h = h
  perform_all-IsConsistent (a ∷ acts) s h =
      perform_all-IsConsistent acts (perform ch config a s) (perform-IsConsistent a s h)

  pub reached-IsConsistent :
      (acts : List Act)
      → dropped_before < 2 ^ 64
      → Ok (perform_all ch config acts (initial ch config dropped_before))
  reached-IsConsistent acts low =
      perform_all-IsConsistent acts _ (initial-IsConsistent ch config dropped_before low)

  closed_or_open :
      (s : System ch)
      → Ok s
      → ((ch.is_closed s.handle.tx ≡ false) × (s.lost ≡ []))
        ⊎ ((ch.is_closed s.handle.tx ≡ true)
            × (s.loop.running ≡ false)
            × (ch.queued s.handle.tx ≡ []))
  closed_or_open s h = elim (Bool-cases (ch.is_closed s.handle.tx)) [
    | inl closed ↦ inr (
      closed,
      elim (Bool-cases s.loop.running) [
        | inl on ↦ absurd (let c : true ≡ false = sym closed ∙ h.open_while_running on in cc)
        | inr off ↦ off
      ],
      h.emptied closed,
    )
    | inr opened ↦ inl (opened, h.none_lost opened)
  ]

  -- After any acts on a fresh exporter, of threads that call the handle and of the loop, in any order:
  -- either the channel is open and nothing was lost, or the loop has ended and the queue is empty; at
  -- most `channel_capacity` messages are queued; and every call of `send_traces`, `send_logs` and
  -- `send_metrics` has been accepted or counted as dropped, in a `u64` that wraps.
  pub reached_counts :
      (acts : List Act)
      → dropped_before < 2 ^ 64
      → let s = perform_all ch config acts (initial ch config dropped_before) in
        (((ch.is_closed s.handle.tx ≡ false) × (s.lost ≡ []))
          ⊎ ((ch.is_closed s.handle.tx ≡ true)
              × (s.loop.running ≡ false)
              × (ch.queued s.handle.tx ≡ [])))
        × (length (ch.queued s.handle.tx) ≤ config.channel_capacity)
        × (data_count s.accepted ≤ s.called)
        × (s.handle.dropped_total ≡ (dropped_before + (s.called - data_count s.accepted)) % 2 ^ 64)
  reached_counts acts low =
      let h = reached-IsConsistent acts low in
      (
        closed_or_open _ h,
        subst
            (λ n.
              length (
                ch.queued (perform_all ch config acts (initial ch config dropped_before)).handle.tx)
              ≤ n)
            h.capacity h.bounded,
        h.counted,
        h.dropped,
      )
