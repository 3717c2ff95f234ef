-- ===== src/Exporter/Shutdown.antt =====
-- A flush and then a shutdown, as src/lib.rs sends them to the loop of src/exporter.rs.
use rolly.Base.{
  ℕ, ◌≡◌, refl, ap, sym, ◌∙◌, Bool, true, false, some, List, [], ◌∷◌, ◌++◌, append-nil,
  append_assoc, if◌then◌else◌,
}
use rolly.Exporter.{
  flush, shutdown, ExporterConfig, Loop, start, on_message, Event, received, step_running, step,
  run,
}
use rolly.Exporter.Held.{Signal, IsOwn, arrived, arrived-flush, arrived-shutdown, posted}
use rolly.Exporter.Delivery.{arrivals, HasEnded, step_on, flush_delivers, shutdown_delivers}

abbrev ending : ℕ → List Event
ending done = received (some (flush done)) ∷ (received (some shutdown) ∷ [])

run-append :
    (config : ExporterConfig) (es fs : List Event) (s : Loop)
    → run config (es ++ fs) s ≡ run config fs (run config es s)
unfolding run
run-append config [] fs s = refl
run-append config (e ∷ es) fs s = run-append config es fs (step config e s)

arrivals-append :
    (g : Signal) (config : ExporterConfig) (es fs : List Event) (s : Loop)
    → arrivals g config (es ++ fs) s
      ≡ arrivals g config es s ++ arrivals g config fs (run config es s)
unfolding arrivals run
arrivals-append g config [] fs s = refl
arrivals-append g config (e ∷ es) fs s =
    ap (λ t. (if s.running then arrived g e else []) ++ t)
      (arrivals-append g config es fs (step config e s))
    ∙ sym (append_assoc (if s.running then arrived g e else []) _ _)

pub nothing_if : (on : Bool) (bytes : List ℕ) → bytes ≡ [] → (if on then bytes else []) ≡ []
nothing_if true bytes h = h
nothing_if false bytes h = refl

arrivals-ending :
    (g : Signal) (config : ExporterConfig) (done : ℕ) (s : Loop)
    → arrivals g config (ending done) s ≡ []
unfolding arrivals
arrivals-ending g config done s = rw (
  nothing_if s.running _ (arrived-flush g done),
  nothing_if (step config (received (some (flush done))) s).running _ (arrived-shutdown g),
)

step-shutdown :
    (config : ExporterConfig) (s : Loop)
    → s.running ≡ true
    → (step config (received (some shutdown)) s).running ≡ false
unfolding step_running on_message
step-shutdown config s on = ap (λ t. t.running) (step_on config (received (some shutdown)) s on)

module _ (u : List ℕ) (config : ExporterConfig) (g : Signal) (own : IsOwn g u config) where
  pub flush_shutdown :
      (es : List Event) (done : ℕ)
      → (run config es start).running ≡ true
      → let s = run config (es ++ ending done) start in
        (s.running ≡ false)
        × (posted u s.join_set ≡ arrivals g config es start)
        × HasEnded s.join_set
  flush_shutdown es done on =
      let flushed = flush_delivers u config g own es done on in
      let off : (run config (es ++ ending done) start).running ≡ false =
        ap (λ t. t.running) (run-append config es (ending done) start)
        ∙ unfold run in
          step-shutdown config (step config (received (some (flush done))) (run config es start))
            flushed.3 in
      let (delivered, ended) = shutdown_delivers u config g own (es ++ ending done) off in
      (
        off,
        delivered
            ∙ arrivals-append g config es (ending done) start
            ∙ ap (λ t. arrivals g config es start ++ t)
                (arrivals-ending g config done (run config es start))
            ∙ append-nil _,
        ended,
      )
