-- ===== src/Exporter/System/Order.antt =====
-- What becomes of the accepted messages of src/exporter.rs, whatever threads and loop do.
use mathlib.Core.Path.{subst}
use rolly.Base.{
  ℕ, ◌≡◌, refl, sym, ap, ◌∙◌, Bool-cases, true, false, Option, none, some, List, [], ◌∷◌, ◌++◌, ◌⊎◌,
  append-nil, append_assoc, if◌then◌else◌, inl, inr,
}
use rolly.Exporter.{ExportMessage, ExporterConfig, Mpsc, Loop, sent, asked, received, step}
use rolly.Exporter.Held.{Signal, trace, log, metric, IsOwn, arrived, held}
use rolly.Exporter.Delivery.{held-step}
use rolly.Exporter.Send.{Call, message}
use rolly.Exporter.Received.{Pause, ticked, ended, pause_event}
use rolly.Exporter.Shutdown.{nothing_if}
use rolly.Exporter.System.{System, take, perform_return}
use rolly.Exporter.System.Sends.{try_send-some}
use rolly.Exporter.System.Consistent.{IsConsistent, called_with, asked_with}

-- The data of a signal in a list of messages.
unfoldable pub data_of : Signal → List ExportMessage → List ℕ
data_of g [] = []
data_of g (m ∷ ms) = arrived g (received (some m)) ++ data_of g ms

pub data_of-append :
    (g : Signal) (xs ys : List ExportMessage) → data_of g (xs ++ ys) ≡ data_of g xs ++ data_of g ys
unfolding data_of
data_of-append g [] ys = refl
data_of-append g (m ∷ xs) ys =
    ap (λ t. arrived g (received (some m)) ++ t) (data_of-append g xs ys)
    ∙ sym (append_assoc (arrived g (received (some m))) _ _)

arrived-pause : (g : Signal) (p : Pause) → arrived g (pause_event p) ≡ []
arrived-pause trace ticked = refl
arrived-pause trace (ended i) = refl
arrived-pause log ticked = refl
arrived-pause log (ended i) = refl
arrived-pause metric ticked = refl
arrived-pause metric (ended i) = refl

push_shape : (h q x : List ℕ) → (h ++ (q ++ [])) ++ x ≡ h ++ ((q ++ x) ++ [])
push_shape h q x = rw (append-nil q, append-nil (q ++ x), append_assoc h q x)

take_shape : (h a q l : List ℕ) → h ++ ((a ++ q) ++ l) ≡ (h ++ a) ++ (q ++ l)
take_shape h a q l = rw (append_assoc a q l, append_assoc h a (q ++ l))

module _ (ch : Mpsc) (config : ExporterConfig) (u : List ℕ) (g : Signal)
    (own : IsOwn g u config) where
  -- The accepted data is what the loop holds, and behind it what is queued or lost.
  abbrev pub Accounted : System ch → Type 0
  Accounted s =
      data_of g s.accepted
      ≡ held g u s.loop ++ (data_of g (ch.queued s.handle.tx) ++ data_of g s.lost)

  entered-Accounted :
      (s : System ch) (m : ExportMessage) (tx' : ch.Sender)
      → (ch.is_closed s.handle.tx ≡ false → s.lost ≡ [])
      → ch.try_send m s.handle.tx ≡ some tx'
      → Accounted s
      → data_of g (s.accepted ++ (m ∷ []))
        ≡ held g u s.loop ++ (data_of g (ch.queued tx') ++ data_of g s.lost)
  unfolding data_of
  entered-Accounted s m tx' none_lost e h =
      let (opened, room, queue, capacity, opened') = try_send-some ch m s.handle.tx tx' e in
      let lost : data_of g s.lost ≡ [] = ap (data_of g) (none_lost opened) in
      data_of-append g s.accepted (m ∷ [])
      ∙ ap (λ t. t ++ data_of g (m ∷ []))
          (h ∙ ap (λ l. held g u s.loop ++ (data_of g (ch.queued s.handle.tx) ++ l)) lost)
      ∙ push_shape (held g u s.loop) (data_of g (ch.queued s.handle.tx)) (data_of g (m ∷ []))
      ∙ sym (
          ap (λ q. held g u s.loop ++ (q ++ data_of g s.lost))
            (ap (data_of g) queue ∙ data_of-append g (ch.queued s.handle.tx) (m ∷ []))
          ∙ ap
              (λ l.
                held g u s.loop ++ ((data_of g (ch.queued s.handle.tx) ++ data_of g (m ∷ [])) ++ l))
              lost)

  accepted_nothing :
      (s : System ch) → Accounted s → Accounted (record s { accepted = s.accepted ++ [] })
  accepted_nothing s h = ap (data_of g) (append-nil s.accepted) ∙ h

  pub called_with-Accounted :
      (d : ℕ) (c : Call) (s : System ch) (o : Option ch.Sender)
      → (ch.is_closed s.handle.tx ≡ false → s.lost ≡ [])
      → ch.try_send (message c) s.handle.tx ≡ o
      → Accounted s
      → Accounted (called_with ch config d c s o)
  unfolding called_with sent
  called_with-Accounted d c s none none_lost e h = accepted_nothing s h
  called_with-Accounted d c s (some tx') none_lost e h =
      entered-Accounted s (message c) tx' none_lost e h

  pub asked_with-Accounted :
      (d : ℕ) (m : ExportMessage) (s : System ch) (o : Option ch.Sender)
      → (ch.is_closed s.handle.tx ≡ false → s.lost ≡ [])
      → ch.try_send m s.handle.tx ≡ o
      → Accounted s
      → Accounted (asked_with ch config d m s o)
  unfolding asked_with asked
  asked_with-Accounted d m s none none_lost e h = accepted_nothing s h
  asked_with-Accounted d m s (some tx') none_lost e h = entered-Accounted s m tx' none_lost e h

  pub held-taken :
      (m : ExportMessage) (l : Loop)
      → l.running ≡ true
      → held g u (step config (received (some m)) l) ≡ held g u l ++ arrived g (received (some m))
  held-taken m l on =
      held-step u config g own (received (some m)) l
      ∙ ap (λ b. held g u l ++ (if b then arrived g (received (some m)) else [])) on

  held-pause : (p : Pause) (l : Loop) → held g u (step config (pause_event p) l) ≡ held g u l
  held-pause p l =
      held-step u config g own (pause_event p) l
      ∙ ap (λ t. held g u l ++ t) (nothing_if l.running _ (arrived-pause g p))
      ∙ append-nil _

  pub take-Accounted :
      (s : System ch) (q : List ExportMessage)
      → ch.queued s.handle.tx ≡ q
      → s.loop.running ≡ true
      → Accounted s
      → Accounted (take ch config (ch.recv s.handle.tx) s)
  unfolding take data_of
  take-Accounted s [] e on h =
      subst (λ o. Accounted (take ch config o s)) (sym (ch.recv-waits s.handle.tx e)) h
  take-Accounted s (m ∷ ms) e on h =
      let (tx', received', queue, capacity, closed) = ch.recv-next m ms s.handle.tx e in
      subst (λ o. Accounted (take ch config o s)) (sym received')
        (h
          ∙ ap (λ q. held g u s.loop ++ (data_of g q ++ data_of g s.lost)) e
          ∙ take_shape (held g u s.loop) (arrived g (received (some m))) (data_of g ms)
              (data_of g s.lost)
          ∙ ap (λ t. t ++ (data_of g ms ++ data_of g s.lost)) (sym (held-taken m s.loop on))
          ∙ ap
              (λ q.
                held g u (step config (received (some m)) s.loop)
                ++ (data_of g q ++ data_of g s.lost))
              (sym queue))

  pub pause-Accounted :
      (p : Pause) (s : System ch)
      → Accounted s
      → Accounted (record s { loop = step config (pause_event p) s.loop })
  pause-Accounted p s h =
      h
      ∙ ap (λ t. t ++ (data_of g (ch.queued s.handle.tx) ++ data_of g s.lost))
          (sym (held-pause p s.loop))

  pub return-Accounted :
      (d : ℕ) (s : System ch)
      → IsConsistent ch config d s
      → Accounted s
      → Accounted (perform_return ch s)
  unfolding perform_return data_of
  return-Accounted d s c h =
      let (empty, capacity, closed) = ch.close-is_empty s.handle.tx in
      h
      ∙ ap (λ t. held g u s.loop ++ t)
          (gone (Bool-cases (ch.is_closed s.handle.tx))
            ∙ sym (ap (λ q. data_of g q ++ data_of g (s.lost ++ ch.queued s.handle.tx)) empty))
    where
      gone :
          (ch.is_closed s.handle.tx ≡ true) ⊎ (ch.is_closed s.handle.tx ≡ false)
          → data_of g (ch.queued s.handle.tx) ++ data_of g s.lost
            ≡ data_of g (s.lost ++ ch.queued s.handle.tx)
      gone (inl closed) = rw (c.emptied closed, append-nil) refl
      gone (inr opened) = rw (c.none_lost opened, append-nil) refl
