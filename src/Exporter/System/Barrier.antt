-- ===== src/Exporter/System/Barrier.antt =====
-- What `Exporter::flush` of src/exporter.rs waits for, with other threads at work.
use mathlib.Core.Path.{subst}
use rolly.Base.{
  ℕ, ◌^◌, ◌<◌, ◌≡◌, refl, sym, ap, ◌∙◌, Bool, true, false, some, List, [], ◌∷◌, ◌++◌, append-nil,
  arith, if◌then◌else◌,
}
use rolly.Exporter.{
  ExportMessage, traces, logs, metrics, flush, shutdown, ExporterConfig, Mpsc, Loop, received,
  flush_traces, flush_logs, flush_metrics, on_message, step_running,
}
use rolly.Exporter.Held.{Signal, IsOwn, posted}
use rolly.Exporter.Delivery.{HasEnded, IsIdle, idle_held, on_message-flush, step_on}
use rolly.Exporter.System.{Act, takes, System, take, perform, perform_all, initial}
use rolly.Exporter.System.Consistent.{IsConsistent}
use rolly.Exporter.System.Reached.{reached-IsConsistent}
use rolly.Exporter.System.Order.{data_of, Accounted}
use rolly.Exporter.System.Kept.{perform-Accounted, reached-Accounted}

module _ (ch : Mpsc) (config : ExporterConfig) where
  -- What the loop leaves when it takes a message.
  pub record IsTaken (m : ExportMessage) (ms : List ExportMessage) (s s' : System ch) : Type 0 where
    pub looped : s'.loop ≡ step_running config (received (some m)) s.loop
    pub behind : ch.queued s'.handle.tx ≡ ms
    pub accepted : s'.accepted ≡ s.accepted
    pub lost : s'.lost ≡ s.lost
    pub dropped : s'.handle.dropped_total ≡ s.handle.dropped_total

  pub takes-IsTaken :
      (m : ExportMessage) (ms : List ExportMessage) (s : System ch)
      → s.loop.running ≡ true
      → ch.queued s.handle.tx ≡ m ∷ ms
      → IsTaken m ms s (perform ch config takes s)
  unfolding perform take
  takes-IsTaken m ms s on e =
      let (tx', received', queue, capacity, closed) = ch.recv-next m ms s.handle.tx e in
      subst (λ b. IsTaken m ms s (if b then take ch config (ch.recv s.handle.tx) s else s)) (sym on)
        (subst (λ o. IsTaken m ms s (take ch config o s)) (sym received')
          record {
            looped = step_on config (received (some m)) s.loop on;
            behind = queue;
            accepted = refl;
            lost = refl;
            dropped = refl;
          })

-- A `Shutdown` is among the messages.
abbrev pub ends : List ExportMessage → Bool
ends [] = false
ends (traces b ∷ ms) = ends ms
ends (logs b ∷ ms) = ends ms
ends (metrics b ∷ ms) = ends ms
ends (flush done ∷ ms) = ends ms
ends (shutdown ∷ ms) = true

pub goes_on :
    (config : ExporterConfig) (m : ExportMessage) (ms : List ExportMessage) (s : Loop)
    → ends (m ∷ ms) ≡ false
    → s.running ≡ true
    → ((step_running config (received (some m)) s).running ≡ true) × (ends ms ≡ false)
unfolding step_running on_message
goes_on config (traces b) ms s h on = (unfold flush_traces in ground (arith, on), h)
goes_on config (logs b) ms s h on = (unfold flush_logs in ground (arith, on), h)
goes_on config (metrics b) ms s h on = (unfold flush_metrics in ground (arith, on), h)
goes_on config (flush done) ms s h on = ((on_message-flush config done s).2 ∙ on, h)
goes_on config shutdown ms s h on = absurd (let c : true ≡ false = h in cc)

module _ (ch : Mpsc) (config : ExporterConfig) (u : List ℕ) (g : Signal)
    (own : IsOwn g u config) where
  -- What an answered flush leaves: everything accepted before is posted, except for `ms`, which came
  -- after it.
  abbrev pub Answered : ℕ → List ExportMessage → System ch → System ch → Type 0
  Answered done ms s s' =
      (data_of g s.accepted ≡ posted u s'.loop.join_set ++ data_of g ms)
      × HasEnded s'.loop.join_set
      × (s'.loop.acknowledged ≡ s.loop.acknowledged ++ (done ∷ []))
      × (s'.loop.running ≡ true)

  pub takes-Answered :
      (d done : ℕ) (ms : List ExportMessage) (s : System ch)
      → IsConsistent ch config d s
      → Accounted ch config u g own s
      → s.loop.running ≡ true
      → ch.queued s.handle.tx ≡ flush done ∷ ms
      → Answered done ms s (perform ch config takes s)
  unfolding data_of
  takes-Answered d done ms s k h on e =
      let t = takes-IsTaken ch config (flush done) ms s on e in
      let (idle, answered, still) = on_message-flush config done s.loop in
      let s' = perform ch config takes s in
      let after : Accounted ch config u g own s' =
        perform-Accounted ch config u g own d takes s k h in
      let l : s'.loop ≡ on_message config (some (flush done)) s.loop =
        t.looped ∙ (unfold step_running in refl) in
      let idle' : IsIdle s'.loop = subst (λ x. IsIdle x) (sym l) idle in
      let none_lost : s'.lost ≡ [] = t.lost ∙ k.none_lost (k.open_while_running on) in
      (
        ap (data_of g) (sym t.accepted)
            ∙ after
            ∙ ap (λ x. x ++ (data_of g (ch.queued s'.handle.tx) ++ data_of g s'.lost))
                (sym (idle_held u g s'.loop idle'))
            ∙ ap (λ x. posted u s'.loop.join_set ++ (data_of g x ++ data_of g s'.lost)) t.behind
            ∙ ap (λ x. posted u s'.loop.join_set ++ (data_of g ms ++ data_of g x)) none_lost
            ∙ ap (λ x. posted u s'.loop.join_set ++ x) (append-nil (data_of g ms)),
        idle'.ended,
        ap (λ x. x.acknowledged) l ∙ answered,
        ap (λ x. x.running) l ∙ still ∙ on,
      )

  -- While the loop runs, after any acts on a fresh exporter whose counter of drops fits a `u64`: when
  -- the loop takes a `Flush`, everything that the channel accepted before it, from whatever thread, for
  -- a signal with an endpoint that no other signal has, is in the payloads of the tasks spawned for
  -- that endpoint, in the order of acceptance when the payloads are put one behind the other in the
  -- order of spawning; what is queued behind the `Flush` is in none and stays queued. Every spawned
  -- task has ended, the flush is answered, and the loop goes on.
  pub flush_is_barrier :
      (d done : ℕ) (acts : List Act) (ms : List ExportMessage)
      → d < 2 ^ 64
      → (perform_all ch config acts (initial ch config d)).loop.running ≡ true
      → ch.queued (perform_all ch config acts (initial ch config d)).handle.tx ≡ flush done ∷ ms
      → let s = perform_all ch config acts (initial ch config d) in
        let s' = perform ch config takes s in
        (data_of g s.accepted ≡ posted u s'.loop.join_set ++ data_of g ms)
        × HasEnded s'.loop.join_set
        × (s'.loop.acknowledged ≡ s.loop.acknowledged ++ (done ∷ []))
        × (s'.loop.running ≡ true)
  flush_is_barrier d done acts ms low on e =
      takes-Answered d done ms _ (reached-IsConsistent ch config d acts low)
        (reached-Accounted ch config u g own d acts low) on e
