-- ===== src/Exporter/System/Kept.antt =====
-- Every message that the handle of src/exporter.rs accepted, after any acts of its threads and the loop.
use mathlib.Core.Path.{subst}
use rolly.Base.{
  ℕ, ◌^◌, ◌<◌, ◌≡◌, refl, sym, ap, ◌∙◌, Bool, true, false, List, [], ◌∷◌, ◌++◌, if◌then◌else◌,
}
use rolly.Exporter.{flush, shutdown, ExporterConfig, Mpsc, concat, request_flush, request_shutdown}
use rolly.Exporter.Held.{Signal, IsOwn, batch_of, posted, held-start}
use rolly.Exporter.System.{
  Act, calls, flushes, shuts_down, takes, pauses, returns, System, can_send, perform_flush,
  perform_shutdown, perform, perform_all, initial,
}
use rolly.Exporter.System.Sends.{send-eq-try_send}
use rolly.Exporter.System.Consistent.{
  IsConsistent, initial-IsConsistent, perform_call-called_with, asked_with,
}
use rolly.Exporter.System.Reached.{perform-IsConsistent}
use rolly.Exporter.System.Order.{
  data_of, Accounted, called_with-Accounted, asked_with-Accounted, take-Accounted, pause-Accounted,
  return-Accounted,
}

module _ (ch : Mpsc) (config : ExporterConfig) (u : List ℕ) (g : Signal)
    (own : IsOwn g u config) where
  -- What holds in every state.
  abbrev Ok : System ch → Type 0
  Ok s = Accounted ch config u g own s

  Accounted-if :
      (b : Bool) (t f : System ch)
      → (b ≡ true → Ok t)
      → (b ≡ false → Ok f)
      → Ok (if b then t else f)
  Accounted-if true t f k l = k refl
  Accounted-if false t f k l = l refl

  flush-Accounted :
      (d done : ℕ) (s : System ch)
      → can_send ch s.handle.tx ≡ true
      → IsConsistent ch config d s
      → Ok s
      → Ok (perform_flush ch done s)
  unfolding perform_flush request_flush asked_with
  flush-Accounted d done s over k h =
      asked_with-Accounted ch config u g own d (flush done) s _ k.none_lost
        (sym (send-eq-try_send ch (flush done) s.handle.tx over)) h

  shutdown-Accounted :
      (d : ℕ) (s : System ch)
      → can_send ch s.handle.tx ≡ true
      → IsConsistent ch config d s
      → Ok s
      → Ok (perform_shutdown ch s)
  unfolding perform_shutdown request_shutdown asked_with
  shutdown-Accounted d s over k h =
      asked_with-Accounted ch config u g own d shutdown s _ k.none_lost
        (sym (send-eq-try_send ch shutdown s.handle.tx over)) h

  pub perform-Accounted :
      (d : ℕ) (a : Act) (s : System ch)
      → IsConsistent ch config d s
      → Ok s
      → Ok (perform ch config a s)
  unfolding perform
  perform-Accounted d (calls c) s k h =
      subst (λ t. Ok t) (sym (perform_call-called_with ch config d c s))
        (called_with-Accounted ch config u g own d c s _ k.none_lost refl h)
  perform-Accounted d (flushes done) s k h =
      Accounted-if (can_send ch s.handle.tx) _ s (λ over. flush-Accounted d done s over k h)
        (λ _. h)
  perform-Accounted d shuts_down s k h =
      Accounted-if (can_send ch s.handle.tx) _ s (λ over. shutdown-Accounted d s over k h) (λ _. h)
  perform-Accounted d takes s k h =
      Accounted-if s.loop.running _ s (λ on. take-Accounted ch config u g own s _ refl on h)
        (λ _. h)
  perform-Accounted d (pauses p) s k h = pause-Accounted ch config u g own p s h
  perform-Accounted d returns s k h =
      Accounted-if s.loop.running s _ (λ _. h) (λ _. return-Accounted ch config u g own d s k h)

  perform_all-Accounted :
      (d : ℕ) (acts : List Act) (s : System ch)
      → IsConsistent ch config d s
      → Ok s
      → Ok (perform_all ch config acts s)
  unfolding perform_all
  perform_all-Accounted d [] s k h = h
  perform_all-Accounted d (a ∷ acts) s k h =
      perform_all-Accounted d acts (perform ch config a s) (perform-IsConsistent ch config d a s k)
        (perform-Accounted d a s k h)

  initial-Accounted : (d : ℕ) → Ok (initial ch config d)
  unfolding initial data_of
  initial-Accounted d =
      let (empty, capacity, opened) = ch.channel-is_empty config.channel_capacity in
      sym (
        ap (λ t. t ++ (data_of g (ch.queued (ch.channel config.channel_capacity)) ++ []))
          (held-start u g)
        ∙ ap (λ q. data_of g q ++ []) empty)

  -- After any acts on a fresh exporter, of threads that call the handle and of the loop, in any order:
  -- the data of all messages that the channel accepted for a signal with an endpoint that no other
  -- signal has is, in the order of acceptance and byte for byte, what was posted there, then what
  -- waits in the batch, then what is queued, then what was lost at the loop's end.
  pub reached-Accounted :
      (d : ℕ) (acts : List Act)
      → d < 2 ^ 64
      → let s = perform_all ch config acts (initial ch config d) in
        data_of g s.accepted
        ≡ (posted u s.loop.join_set ++ concat (batch_of g s.loop))
          ++ (data_of g (ch.queued s.handle.tx) ++ data_of g s.lost)
  reached-Accounted d acts low =
      perform_all-Accounted d acts _ (initial-IsConsistent ch config d low) (initial-Accounted d)
