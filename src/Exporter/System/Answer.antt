-- ===== src/Exporter/System/Answer.antt =====
-- `Exporter::flush` of src/exporter.rs is answered.
use mathlib.Core.Path.{subst}
use rolly.Base.{
  ℕ, suc, ◌^◌, ◌<◌, ◌≡◌, refl, sym, ap, ◌∙◌, true, false, List, [], ◌∷◌, ◌++◌, append-nil, arith,
  if◌then◌else◌, length, replicate,
}
use rolly.Exporter.{ExportMessage, flush, ExporterConfig, Mpsc, Loop, asked, request_flush}
use rolly.Exporter.Held.{Signal, IsOwn, arrived-flush, posted}
use rolly.Exporter.Delivery.{HasEnded}
use rolly.Exporter.System.Barrier.{takes-IsTaken, takes-Answered, goes_on, ends}
use rolly.Exporter.System.{
  Act, flushes, takes, System, entered, can_send, perform_flush, perform, perform_all, initial,
}
use rolly.Exporter.System.Consistent.{IsConsistent}
use rolly.Exporter.System.Reached.{perform-IsConsistent, reached-IsConsistent}
use rolly.Exporter.System.Order.{data_of, data_of-append, Accounted}
use rolly.Exporter.System.Kept.{perform-Accounted, reached-Accounted}

module _ (ch : Mpsc) (config : ExporterConfig) where
  -- What a `flush` with room in the channel leaves.
  pub record IsFlushed (done : ℕ) (s s' : System ch) : Type 0 where
    pub looped : s'.loop ≡ s.loop
    pub behind : ch.queued s'.handle.tx ≡ ch.queued s.handle.tx ++ (flush done ∷ [])
    pub accepted : s'.accepted ≡ s.accepted ++ (flush done ∷ [])

  flushes-IsFlushed :
      (done : ℕ) (s : System ch)
      → ch.is_closed s.handle.tx ≡ false
      → length (ch.queued s.handle.tx) < ch.capacity s.handle.tx
      → IsFlushed done s (perform ch config (flushes done) s)
  unfolding perform perform_flush request_flush
  flushes-IsFlushed done s opened room =
      let (tx', accepts', queue, capacity, opened') =
        ch.accepts (flush done) s.handle.tx opened room in
      let over : can_send ch s.handle.tx ≡ true = unfold can_send in ground (arith, opened, room) in
      subst (λ b. IsFlushed done s (if b then perform_flush ch done s else s)) (sym over)
        (subst
          (λ o. IsFlushed done s (record s {
            handle = (asked ch s.handle o).0;
            accepted = s.accepted ++ entered ch (flush done) o;
          }))
          (sym (ch.send-room (flush done) s.handle.tx opened room ∙ accepts'))
          (unfold asked in record { looped = refl; behind = queue; accepted = refl }))

module _ (ch : Mpsc) (config : ExporterConfig) (u : List ℕ) (g : Signal)
    (own : IsOwn g u config) where
  -- All that was accepted is posted, and `done` is answered last.
  abbrev pub Finished : ℕ → List ExportMessage → Loop → Type 0
  Finished done accepted l =
      (data_of g accepted ≡ posted u l.join_set)
      × HasEnded l.join_set
      × ((acks : List ℕ) × (l.acknowledged ≡ acks ++ (done ∷ [])))
      × (l.running ≡ true)

  drained-Finished :
      (d done : ℕ) (q : List ExportMessage) (s : System ch)
      → IsConsistent ch config d s
      → Accounted ch config u g own s
      → s.loop.running ≡ true
      → ends q ≡ false
      → ch.queued s.handle.tx ≡ q ++ (flush done ∷ [])
      → Finished done s.accepted (perform_all ch config (replicate (suc (length q)) takes) s).loop
  unfolding perform_all data_of
  drained-Finished d done [] s k h on free e =
      let (all, ended, answered, still) = takes-Answered ch config u g own d done [] s k h on e in
      (all ∙ append-nil _, ended, (s.loop.acknowledged, answered), still)
  drained-Finished d done (m ∷ q) s k h on free e =
      let t = takes-IsTaken ch config m (q ++ (flush done ∷ [])) s on e in
      let (still, free') = goes_on config m q s.loop free on in
      subst
        (λ a.
          Finished done a
            (perform_all ch config (replicate (suc (length q)) takes)
              (perform ch config takes s)).loop)
        t.accepted
        (drained-Finished d done q (perform ch config takes s)
          (perform-IsConsistent ch config d takes s k)
          (perform-Accounted ch config u g own d takes s k h) (ap (λ l. l.running) t.looped ∙ still)
          free' t.behind)

  flushed-Finished :
      (d done : ℕ) (s : System ch)
      → IsConsistent ch config d s
      → Accounted ch config u g own s
      → s.loop.running ≡ true
      → length (ch.queued s.handle.tx) < ch.capacity s.handle.tx
      → ends (ch.queued s.handle.tx) ≡ false
      → Finished done s.accepted
          (perform_all ch config
            (replicate (suc (length (ch.queued s.handle.tx))) takes)
            (perform ch config (flushes done) s)).loop
  unfolding data_of
  flushed-Finished d done s k h on room free =
      let s' = perform ch config (flushes done) s in
      let f = flushes-IsFlushed ch config done s (k.open_while_running on) room in
      let (all, ended, answered, still) =
        drained-Finished d done (ch.queued s.handle.tx) s'
          (perform-IsConsistent ch config d (flushes done) s k)
          (perform-Accounted ch config u g own d (flushes done) s k h)
          (ap (λ l. l.running) f.looped ∙ on) free f.behind in
      let same : data_of g s.accepted ≡ data_of g s'.accepted = sym (
        ap (data_of g) f.accepted
        ∙ data_of-append g s.accepted (flush done ∷ [])
        ∙ rw (arrived-flush g done, append-nil) refl) in
      (same ∙ all, ended, answered, still)

  -- While the loop runs, after any acts on a fresh exporter: a `flush` on a channel with room, and with no
  -- `Shutdown` queued, is accepted, and when the loop has taken as many messages as are queued then,
  -- the flush is answered, everything accepted before it for a signal with an endpoint that no other
  -- signal has is posted there, no POST's task is left, and the loop runs.
  pub flush_is_answered :
      (d done : ℕ) (acts : List Act)
      → d < 2 ^ 64
      → (perform_all ch config acts (initial ch config d)).loop.running ≡ true
      → length (ch.queued (perform_all ch config acts (initial ch config d)).handle.tx)
        < config.channel_capacity
      → ends (ch.queued (perform_all ch config acts (initial ch config d)).handle.tx) ≡ false
      → let s = perform_all ch config acts (initial ch config d) in
        let s' =
          perform_all ch config
            (flushes done ∷ replicate (suc (length (ch.queued s.handle.tx))) takes)
            s in
        (data_of g s.accepted ≡ posted u s'.loop.join_set)
        × HasEnded s'.loop.join_set
        × ((acks : List ℕ) × (s'.loop.acknowledged ≡ acks ++ (done ∷ [])))
        × (s'.loop.running ≡ true)
  unfolding perform_all
  flush_is_answered d done acts low on room free =
      let k = reached-IsConsistent ch config d acts low in
      flushed-Finished d done _ k (reached-Accounted ch config u g own d acts low) on
        (subst
          (λ n. length (ch.queued (perform_all ch config acts (initial ch config d)).handle.tx) < n)
          (sym k.capacity) room)
        free
