-- ===== src/Exporter/System/Consistent.antt =====
-- What holds of the handle, the channel and the loop of src/exporter.rs after any sequence of acts.
use mathlib.Core.Path.{subst}
use rolly.Base.{
  ℕ, ◌+◌, ◌-◌, ◌%◌, ◌^◌, ◌≤◌, ◌<◌, ◌≡◌, refl, sym, ap, ◌∙◌, true, false, Option, none, some, [],
  ◌∷◌, ◌++◌, append-nil, arith, length, length-append,
}
use rolly.Exporter.{ExportMessage, ExporterConfig, Mpsc, start, sent, asked}
use rolly.Exporter.Send.{Call, message, call-sent}
use rolly.Exporter.System.{System, entered, perform_call, initial}
use rolly.Exporter.System.Sends.{data_count, data_count-append, try_send-some}

module _ (ch : Mpsc) (config : ExporterConfig) (dropped_before : ℕ) where
  -- The loop's end closes the channel, and only then a queued message is lost. The queue is within
  -- the capacity, and every call has been accepted or counted.
  pub record IsConsistent (s : System ch) : Type 0 where
    pub open_while_running : s.loop.running ≡ true → ch.is_closed s.handle.tx ≡ false
    pub none_lost : ch.is_closed s.handle.tx ≡ false → s.lost ≡ []
    pub emptied : ch.is_closed s.handle.tx ≡ true → ch.queued s.handle.tx ≡ []
    pub bounded : length (ch.queued s.handle.tx) ≤ ch.capacity s.handle.tx
    pub capacity : ch.capacity s.handle.tx ≡ config.channel_capacity
    pub counted : data_count s.accepted ≤ s.called
    pub dropped :
        s.handle.dropped_total ≡ (dropped_before + (s.called - data_count s.accepted)) % 2 ^ 64

  pub initial-IsConsistent :
      dropped_before < 2 ^ 64 → IsConsistent (initial ch config dropped_before)
  unfolding initial start
  initial-IsConsistent low =
      let (empty, capacity, opened) = ch.channel-is_empty config.channel_capacity in
      record {
        open_while_running = λ on. opened;
        none_lost = λ o. refl;
        emptied = λ closed. empty;
        bounded = rw empty (omega arith);
        capacity = capacity;
        counted = omega arith;
        dropped = omega arith;
      }

  -- A message goes in; `n` is the number of calls afterwards.
  pub queued-IsConsistent :
      (s : System ch) (m : ExportMessage) (tx' : ch.Sender) (n : ℕ)
      → IsConsistent s
      → ch.try_send m s.handle.tx ≡ some tx'
      → n ≡ s.called + data_count (m ∷ [])
      → IsConsistent (record s {
        handle = record s.handle { tx = tx' };
        accepted = s.accepted ++ (m ∷ []);
        called = n;
      })
  queued-IsConsistent s m tx' n h e count =
      let (opened, room, queue, capacity, opened') = try_send-some ch m s.handle.tx tx' e in
      let more = data_count-append s.accepted (m ∷ []) in
      record {
        open_while_running = λ on. opened';
        none_lost = λ o. h.none_lost opened;
        emptied = λ closed. absurd (let c : true ≡ false = sym closed ∙ opened' in cc);
        bounded = rw (queue, length-append, capacity) (omega (arith, room));
        capacity = capacity ∙ h.capacity;
        counted = omega (arith, more, count, h.counted);
        dropped =
            h.dropped
            ∙ ap (λ d. (dropped_before + d) % 2 ^ 64) (omega (arith, more, count, h.counted));
      }

  pub refused-IsConsistent :
      (s : System ch)
      → IsConsistent s
      → IsConsistent (record s {
        handle = record s.handle { dropped_total = (s.handle.dropped_total + 1) % 2 ^ 64 };
        accepted = s.accepted ++ [];
        called = s.called + 1;
      })
  refused-IsConsistent s h = record {
    open_while_running = h.open_while_running;
    none_lost = h.none_lost;
    emptied = h.emptied;
    bounded = h.bounded;
    capacity = h.capacity;
    counted = rw append-nil (omega (arith, h.counted));
    dropped = rw append-nil (omega (arith, h.counted, h.dropped));
  }

  unfoldable pub called_with : Call → System ch → Option ch.Sender → System ch
  called_with c s o = record s {
    handle = sent ch s.handle o;
    accepted = s.accepted ++ entered ch (message c) o;
    called = s.called + 1;
  }

  pub called_with-IsConsistent :
      (c : Call) (s : System ch) (o : Option ch.Sender)
      → IsConsistent s
      → ch.try_send (message c) s.handle.tx ≡ o
      → IsConsistent (called_with c s o)
  unfolding called_with sent
  called_with-IsConsistent c s none h e = refused-IsConsistent s h
  called_with-IsConsistent c s (some tx') h e =
      queued-IsConsistent s (message c) tx' (s.called + 1) h e (one c)
    where
      one : (c : Call) → s.called + 1 ≡ s.called + data_count (message c ∷ [])
      one (Call.call_traces b) = refl
      one (Call.call_logs b) = refl
      one (Call.call_metrics b) = refl

  pub perform_call-called_with :
      (c : Call) (s : System ch)
      → perform_call ch c s ≡ called_with c s (ch.try_send (message c) s.handle.tx)
  unfolding perform_call called_with
  perform_call-called_with c s =
      ap
        (λ e. record s {
          handle = e;
          accepted = s.accepted ++ entered ch (message c) (ch.try_send (message c) s.handle.tx);
          called = s.called + 1;
        })
        (call-sent ch c s.handle)

  pub call-IsConsistent :
      (c : Call) (s : System ch) → IsConsistent s → IsConsistent (perform_call ch c s)
  call-IsConsistent c s h =
      subst (λ t. IsConsistent t) (sym (perform_call-called_with c s))
        (called_with-IsConsistent c s _ h refl)

  unfoldable pub asked_with : ExportMessage → System ch → Option ch.Sender → System ch
  asked_with m s o = record s {
    handle = (asked ch s.handle o).0;
    accepted = s.accepted ++ entered ch m o;
  }

  pub asked_with-IsConsistent :
      (m : ExportMessage) (s : System ch) (o : Option ch.Sender)
      → data_count (m ∷ []) ≡ 0
      → IsConsistent s
      → ch.try_send m s.handle.tx ≡ o
      → IsConsistent (asked_with m s o)
  unfolding asked_with asked
  asked_with-IsConsistent m s none no_data h e =
      subst (λ l. IsConsistent (record s { accepted = l })) (sym (append-nil s.accepted)) h
  asked_with-IsConsistent m s (some tx') no_data h e =
      queued-IsConsistent s m tx' s.called h e (omega (arith, no_data))
