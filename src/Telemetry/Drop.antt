-- ===== src/Telemetry/Drop.antt =====
-- The drop of the guard in src/lib.rs on the handle of src/exporter.rs.
use rolly.Base.{
  ℕ, ◌+◌, ◌≤◌, ◌<◌, ◌≡◌, refl, ap, ◌∙◌, arith, true, false, some, [], ◌∷◌, ◌++◌, append_assoc,
  length, length-append,
}
use rolly.Exporter.{ExportMessage, flush, shutdown, Mpsc, Exporter, request_flush, request_shutdown}
use rolly.Telemetry.{guard_drop, drop_messages}

-- With room in an open channel a `send` queues its message at once.
send-queued :
    (ch : Mpsc) (m : ExportMessage) (tx : ch.Sender)
    → ch.is_closed tx ≡ false
    → length (ch.queued tx) < ch.capacity tx
    → (tx' : ch.Sender) × (ch.send m tx ≡ some tx')
      × (ch.queued tx' ≡ ch.queued tx ++ (m ∷ []))
      × (ch.capacity tx' ≡ ch.capacity tx)
      × (ch.is_closed tx' ≡ false)
send-queued ch m tx opened room =
    let (tx', accepted, queue, same, opened') = ch.accepts m tx opened room in
    (tx', ch.send-room m tx opened room ∙ accepted, queue, same, opened')

request_flush-sent :
    (ch : Mpsc) (done : ℕ) (e : Exporter ch.Sender) (tx' : ch.Sender)
    → ch.send (flush done) e.tx ≡ some tx'
    → request_flush ch done e ≡ (record e { tx = tx' }, true)
unfolding request_flush
request_flush-sent ch done e tx' s = rw s

request_shutdown-sent :
    (ch : Mpsc) (e : Exporter ch.Sender) (tx' : ch.Sender)
    → ch.send shutdown e.tx ≡ some tx'
    → request_shutdown ch e ≡ record e { tx = tx' }
unfolding request_shutdown
request_shutdown-sent ch e tx' s = rw (request_shutdown, s)

-- With a runtime, and room for two messages in the open channel, the drop queues the messages of a
-- flush and a shutdown behind all others, and counts nothing as dropped.
pub guard_drop-messages :
    (ch : Mpsc) (done : ℕ) (e : Exporter ch.Sender)
    → ch.is_closed e.tx ≡ false
    → length (ch.queued e.tx) + 2 ≤ ch.capacity e.tx
    → (e' : Exporter ch.Sender) × (guard_drop ch true done (some e) ≡ some e')
      × (ch.queued e'.tx ≡ ch.queued e.tx ++ drop_messages true true done)
      × (e'.dropped_total ≡ e.dropped_total)
unfolding guard_drop drop_messages
guard_drop-messages ch done e opened room =
    let (tx', s, queue, same, opened') = send-queued ch (flush done) e.tx opened (omega arith) in
    let (tx'', s', queue', same', opened'') =
      send-queued ch shutdown tx' opened' (rw (queue, same, length-append) (omega arith)) in
    (
      record e { tx = tx'' },
      ap (λ p. some (request_shutdown ch p.0)) (request_flush-sent ch done e tx' s)
          ∙ ap some (request_shutdown-sent ch (record e { tx = tx' }) tx'' s'),
      queue' ∙ ap (λ q. q ++ (shutdown ∷ [])) queue ∙ append_assoc (ch.queued e.tx) _ _,
      refl,
    )
