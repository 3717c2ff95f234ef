-- ===== src/Exporter/Send.antt =====
-- The sending side of src/exporter.rs: what becomes of the messages of a sequence of calls.
use rolly.Base.{
  ℕ, zero, suc, ◌+◌, ◌-◌, ◌%◌, ◌^◌, ◌≤◌, ◌<◌, ◌≡◌, refl, sym, ap, ◌∙◌, ◌⊎◌, inr, true, false, List,
  [], ◌∷◌, ◌++◌, append-nil, append_assoc, arith, length, length-append, take,
}
use rolly.Exporter.{
  ExportMessage, traces, logs, metrics, BackpressureStrategy, drop, Mpsc, Exporter, sent, offer,
  send_traces, send_logs, send_metrics,
}

-- One call on the handle, as an application makes it.
pub data Call : Type 0 where
  call_traces call_logs call_metrics : List ℕ → Call

abbrev pub message : Call → ExportMessage
message (call_traces b) = traces b
message (call_logs b) = logs b
message (call_metrics b) = metrics b

module _ (ch : Mpsc) where
  abbrev pub call : Call → Exporter ch.Sender → Exporter ch.Sender
  call (call_traces b) e = send_traces ch b e
  call (call_logs b) e = send_logs ch b e
  call (call_metrics b) e = send_metrics ch b e

  abbrev pub calls : List Call → Exporter ch.Sender → Exporter ch.Sender
  calls [] e = e
  calls (c ∷ cs) e = calls cs (call c e)

  -- With the one strategy there is, a call is one `try_send`.
  offer-sent :
      (strategy : BackpressureStrategy) (m : ExportMessage) (e : Exporter ch.Sender)
      → offer ch strategy m e ≡ sent ch e (ch.try_send m e.tx)
  unfolding offer
  offer-sent drop m e = refl

  pub call-sent :
      (c : Call) (e : Exporter ch.Sender) → call c e ≡ sent ch e (ch.try_send (message c) e.tx)
  unfolding send_traces send_logs send_metrics
  call-sent (call_traces b) e = offer-sent e.backpressure_strategy (traces b) e
  call-sent (call_logs b) e = offer-sent e.backpressure_strategy (logs b) e
  call-sent (call_metrics b) e = offer-sent e.backpressure_strategy (metrics b) e

  call-refused :
      (c : Call) (e : Exporter ch.Sender)
      → (ch.is_closed e.tx ≡ true) ⊎ (ch.capacity e.tx ≤ length (ch.queued e.tx))
      → call c e ≡ record e { dropped_total = (e.dropped_total + 1) % 2 ^ 64 }
  unfolding sent
  call-refused c e h = rw (call-sent c e, ch.refuses (message c) e.tx h)

  -- Once the channel refuses, every further message is counted.
  calls-refused :
      (cs : List Call) (e : Exporter ch.Sender)
      → (ch.is_closed e.tx ≡ true) ⊎ (ch.capacity e.tx ≤ length (ch.queued e.tx))
      → e.dropped_total < 2 ^ 64
      → calls cs e ≡ record e { dropped_total = (e.dropped_total + length cs) % 2 ^ 64 }
  calls-refused [] e h k =
      let same : (e.dropped_total + 0) % 2 ^ 64 ≡ e.dropped_total = omega arith in
      ap (λ d. record e { dropped_total = d }) (sym same)
  calls-refused (c ∷ cs) e h k =
      ap (λ t. calls cs t) (call-refused c e h)
      ∙ calls-refused cs (record e { dropped_total = (e.dropped_total + 1) % 2 ^ 64 }) h
          (omega arith)
      ∙ ap (λ d. record e { dropped_total = d }) (omega arith)

  call-accepted :
      (c : Call) (e : Exporter ch.Sender)
      → ch.is_closed e.tx ≡ false
      → length (ch.queued e.tx) < ch.capacity e.tx
      → (tx' : ch.Sender) × (call c e ≡ record e { tx = tx' })
        × (ch.queued tx' ≡ ch.queued e.tx ++ (message c ∷ []))
        × (ch.capacity tx' ≡ ch.capacity e.tx)
        × (ch.is_closed tx' ≡ false)
  unfolding sent
  call-accepted c e o h =
      let (tx', t, q, cap', open') = ch.accepts (message c) e.tx o h in
      (tx', rw (call-sent c e, t), q, cap', open')

-- The messages of a list of calls.
abbrev pub messages : List Call → List ExportMessage
messages [] = []
messages (c ∷ cs) = message c ∷ messages cs

-- On an open channel with room for `room` messages, of which the receiver takes none meanwhile, the
-- first `room` messages are queued in their order and every other one is counted as dropped, none
-- twice; the counter wraps as a `u64`.
pub calls_account :
    (ch : Mpsc) (cs : List Call) (e : Exporter ch.Sender) (room : ℕ)
    → ch.is_closed e.tx ≡ false
    → length (ch.queued e.tx) + room ≡ ch.capacity e.tx
    → e.dropped_total < 2 ^ 64
    → (ch.queued (calls ch cs e).tx ≡ ch.queued e.tx ++ messages (take room cs))
      × ((calls ch cs e).dropped_total ≡ (e.dropped_total + (length cs - room)) % 2 ^ 64)
calls_account ch [] e room o h k = (take_none room, omega arith)
  where
    take_none : (n : ℕ) → ch.queued e.tx ≡ ch.queued e.tx ++ messages (take n [])
    take_none zero = sym (append-nil _)
    take_none (suc n) = sym (append-nil _)
calls_account ch (c ∷ cs) e zero o h k =
    let full = calls-refused ch (c ∷ cs) e (inr (omega arith)) k in
    (
      ap (λ t. ch.queued t.tx) full ∙ sym (append-nil _),
      ap (λ t. t.dropped_total) full ∙ omega arith,
    )
calls_account ch (c ∷ cs) e (suc room) o h k =
    let (tx', t, q, cap', o') = call-accepted ch c e o (omega arith) in
    let (queue, count) =
      calls_account ch cs (record e { tx = tx' }) room o'
        (rw (q, cap', length-append) (omega arith)) k in
    (
      ap (λ x. ch.queued (calls ch cs x).tx) t ∙ queue ∙ rw (q, append_assoc),
      ap (λ x. (calls ch cs x).dropped_total) t ∙ count ∙ omega arith,
    )
