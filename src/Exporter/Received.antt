-- ===== src/Exporter/Received.antt =====
-- A receiver in src/exporter.rs that takes queued messages, with ticks and ends of tasks between them.
use rolly.Base.{
  ℕ, suc, ◌≡◌, refl, ap, ◌∙◌, arith, true, List, [], ◌∷◌, ◌++◌, some, map, if◌then◌else◌,
}
use rolly.Exporter.{
  ExportMessage, traces, ExporterConfig, Loop, concat, flush_traces, flush_logs, flush_metrics,
  flush_all, Event, received, tick, task_ended, on_message, step_running, step, run,
}
use rolly.Exporter.Held.{trace, arrived}
use rolly.Exporter.Delivery.{arrivals, step_on}

-- What happens while no message comes.
pub data Pause : Type 0 where
  ticked : Pause
  ended : ℕ → Pause

abbrev pub pause_event : Pause → Event
pause_event ticked = tick
pause_event (ended i) = task_ended i

abbrev pub then_pauses : List Pause → List Event → List Event
then_pauses [] es = es
then_pauses (p ∷ ps) es = pause_event p ∷ then_pauses ps es

-- The messages in their order, the n-th behind the pauses number n.
abbrev pub receive_between : (ℕ → List Pause) → List ExportMessage → List Event
receive_between pauses [] = then_pauses (pauses 0) []
receive_between pauses (m ∷ ms) =
    then_pauses (pauses 0) (received (some m) ∷ receive_between (λ n. pauses (suc n)) ms)

pause-running :
    (config : ExporterConfig) (p : Pause) (s : Loop)
    → s.running ≡ true
    → (step config (pause_event p) s).running ≡ true
unfolding step_running flush_all flush_traces flush_logs flush_metrics
pause-running config ticked s on = ap (λ t. t.running) (step_on config tick s on) ∙ on
pause-running config (ended i) s on = ap (λ t. t.running) (step_on config (task_ended i) s on) ∙ on

traces-running :
    (config : ExporterConfig) (b : List ℕ) (s : Loop)
    → s.running ≡ true
    → (step config (received (some (traces b))) s).running ≡ true
traces-running config b s on =
    ap (λ t. t.running) (step_on config (received (some (traces b))) s on) ∙ pushed
  where
    pushed : (step_running config (received (some (traces b))) s).running ≡ true
    pushed = unfold step_running on_message flush_traces in ground (arith, on)

-- The loop runs, and the data `bytes` comes of the events.
abbrev Receives : ExporterConfig → List Event → Loop → List ℕ → Type 0
Receives config es s bytes =
    (arrivals trace config es s ≡ bytes) × ((run config es s).running ≡ true)

Receives-event :
    (config : ExporterConfig) (e : Event) (es : List Event) (s : Loop) (bytes : List ℕ)
    → s.running ≡ true
    → Receives config es (step config e s) bytes
    → Receives config (e ∷ es) s (arrived trace e ++ bytes)
unfolding arrivals run
Receives-event config e es s bytes on (arrived', goes_on) = (
  ap (λ on'. (if on' then arrived trace e else []) ++ arrivals trace config es (step config e s)) on
      ∙ ap (λ t. arrived trace e ++ t) arrived',
  goes_on,
)

then_pauses-Receives :
    (config : ExporterConfig) (ps : List Pause) (es : List Event) (bytes : List ℕ)
    → ((s : Loop) → s.running ≡ true → Receives config es s bytes)
    → (s : Loop) → s.running ≡ true
    → Receives config (then_pauses ps es) s bytes
then_pauses-Receives config [] es bytes h s on = h s on
then_pauses-Receives config (ticked ∷ ps) es bytes h s on =
    Receives-event config tick (then_pauses ps es) s bytes on
      (then_pauses-Receives config ps es bytes h _ (pause-running config ticked s on))
then_pauses-Receives config (ended i ∷ ps) es bytes h s on =
    Receives-event config (task_ended i) (then_pauses ps es) s bytes on
      (then_pauses-Receives config ps es bytes h _ (pause-running config (ended i) s on))

-- Trace messages arrive as their data, in order, and the loop goes on.
pub receive_between-traces :
    (config : ExporterConfig) (items : List (List ℕ)) (pauses : ℕ → List Pause) (s : Loop)
    → s.running ≡ true
    → (arrivals trace config (receive_between pauses (map traces items)) s ≡ concat items)
      × ((run config (receive_between pauses (map traces items)) s).running ≡ true)
unfolding concat arrivals run
receive_between-traces config [] pauses s on =
    then_pauses-Receives config (pauses 0) [] [] (λ t on'. (refl, on')) s on
receive_between-traces config (b ∷ items) pauses s on =
    then_pauses-Receives config (pauses 0) _ (b ++ concat items)
      (λ t on'. Receives-event config (received (some (traces b))) _ t (concat items) on' (
        receive_between-traces config items (λ n. pauses (suc n)) _
          (traces-running config b t on')))
      s on
