-- ===== src/Exporter/System/Last.antt =====
-- The end of the loop of src/exporter.rs, with other threads at work.
use mathlib.Core.Path.{subst}
use rolly.Base.{
  ℕ, ◌^◌, ◌<◌, ◌≡◌, refl, sym, ap, ◌∙◌, true, false, some, List, [], ◌∷◌, ◌++◌, if◌then◌else◌,
}
use rolly.Exporter.{ExportMessage, shutdown, ExporterConfig, Mpsc, Loop, on_message, step_running}
use rolly.Exporter.Held.{Signal, IsOwn, posted}
use rolly.Exporter.Delivery.{HasEnded, IsIdle, on_message-EndsIdle, idle_held}
use rolly.Exporter.System.Barrier.{takes-IsTaken}
use rolly.Exporter.System.{
  returns, perform_return, Act, takes, System, perform, perform_all, initial,
}
use rolly.Exporter.System.Reached.{perform-IsConsistent, reached-IsConsistent}
use rolly.Exporter.System.Order.{data_of, Accounted}
use rolly.Exporter.System.Kept.{perform-Accounted, reached-Accounted}

module _ (ch : Mpsc) (config : ExporterConfig) where
  -- What the end of the loop leaves.
  record IsReturned (s s' : System ch) : Type 0 where
    pub looped : s'.loop ≡ s.loop
    pub closed : ch.is_closed s'.handle.tx ≡ true
    pub emptied : ch.queued s'.handle.tx ≡ []
    pub accepted : s'.accepted ≡ s.accepted
    pub lost : s'.lost ≡ s.lost ++ ch.queued s.handle.tx
    pub dropped : s'.handle.dropped_total ≡ s.handle.dropped_total

  returns-IsReturned :
      (s : System ch) → s.loop.running ≡ false → IsReturned s (perform ch config returns s)
  unfolding perform perform_return
  returns-IsReturned s off =
      let (empty, capacity, closed) = ch.close-is_empty s.handle.tx in
      subst (λ b. IsReturned s (if b then s else perform_return ch s)) (sym off)
        record {
          looped = refl;
          closed = closed;
          emptied = empty;
          accepted = refl;
          lost = refl;
          dropped = refl;
        }

on_message-shutdown :
    (config : ExporterConfig) (l : Loop) → (on_message config (some shutdown) l).running ≡ false
unfolding on_message
on_message-shutdown config l = refl

module _ (ch : Mpsc) (config : ExporterConfig) (u : List ℕ) (g : Signal)
    (own : IsOwn g u config) where
  ended-Accounted :
      (s : System ch) (ms : List ExportMessage)
      → Accounted ch config u g own s
      → IsIdle s.loop
      → ch.queued s.handle.tx ≡ []
      → s.lost ≡ ms
      → data_of g s.accepted ≡ posted u s.loop.join_set ++ data_of g ms
  unfolding data_of
  ended-Accounted s ms h idle empty lost =
      h
      ∙ ap (λ x. x ++ (data_of g (ch.queued s.handle.tx) ++ data_of g s.lost))
          (sym (idle_held u g s.loop idle))
      ∙ ap (λ x. posted u s.loop.join_set ++ (data_of g x ++ data_of g s.lost)) empty
      ∙ ap (λ x. posted u s.loop.join_set ++ data_of g x) lost

  -- While the loop runs, after any acts on a fresh exporter: when the loop takes a `Shutdown` and
  -- returns, it has ended, the channel is closed, no POST's task is left, and everything accepted
  -- before for a signal with an endpoint that no other signal has is posted there; but what is
  -- queued behind the `Shutdown` is lost, and not counted as dropped.
  pub shutdown_is_last :
      (d : ℕ) (acts : List Act) (ms : List ExportMessage)
      → d < 2 ^ 64
      → (perform_all ch config acts (initial ch config d)).loop.running ≡ true
      → ch.queued (perform_all ch config acts (initial ch config d)).handle.tx ≡ shutdown ∷ ms
      → let s = perform_all ch config acts (initial ch config d) in
        let s' = perform ch config returns (perform ch config takes s) in
        (s'.loop.running ≡ false)
        × (ch.is_closed s'.handle.tx ≡ true)
        × HasEnded s'.loop.join_set
        × (data_of g s.accepted ≡ posted u s'.loop.join_set ++ data_of g ms)
        × (s'.lost ≡ ms)
        × (s'.handle.dropped_total ≡ s.handle.dropped_total)
  shutdown_is_last d acts ms low on e =
      let s = perform_all ch config acts (initial ch config d) in
      let k = reached-IsConsistent ch config d acts low in
      let h = reached-Accounted ch config u g own d acts low in
      let s1 = perform ch config takes s in
      let k1 = perform-IsConsistent ch config d takes s k in
      let h1 = perform-Accounted ch config u g own d takes s k h in
      let t = takes-IsTaken ch config shutdown ms s on e in
      let l1 : s1.loop ≡ on_message config (some shutdown) s.loop =
        t.looped ∙ (unfold step_running in refl) in
      let off = ap (λ l. l.running) l1 ∙ on_message-shutdown config s.loop in
      let r = returns-IsReturned ch config s1 off in
      let s2 = perform ch config returns s1 in
      let h2 = perform-Accounted ch config u g own d returns s1 k1 h1 in
      let idle : IsIdle s2.loop =
        subst (λ l. IsIdle l) (sym (r.looped ∙ l1))
          (on_message-EndsIdle config (some shutdown) s.loop on
            (on_message-shutdown config s.loop)) in
      let lost : s2.lost ≡ ms =
        r.lost
        ∙ ap (λ x. x ++ ch.queued s1.handle.tx) (t.lost ∙ k.none_lost (k.open_while_running on))
        ∙ t.behind in
      (
        ap (λ l. l.running) r.looped ∙ off,
        r.closed,
        idle.ended,
        ap (data_of g) (sym (r.accepted ∙ t.accepted))
            ∙ ended-Accounted s2 ms h2 idle r.emptied lost,
        lost,
        r.dropped ∙ t.dropped,
      )
