-- ===== src/Exporter/Delivery.antt =====
-- The loop of src/exporter.rs over any sequence of events: what is posted, and what a flush and the
-- end of the loop leave.
use rolly.Base.{
  ℕ, ◌≡◌, refl, sym, ap, ◌∙◌, Bool, true, false, Option, none, some, List, [], ◌∷◌, ◌++◌,
  append-nil, append_assoc, arith, if◌then◌else◌, All,
}
use rolly.Exporter.{
  ExportMessage, traces, logs, metrics, flush, shutdown, ExporterConfig, Task, Loop, start, concat,
  flush_traces, flush_logs, flush_metrics, flush_all, end_all, join_all, on_message, Event,
  received, tick, task_ended, step_running, step, run,
}
use rolly.Exporter.Held.{
  Signal, trace, log, metric, IsOwn, arrived, posted, held, held-step_running, held-start,
  arrived-flush,
}

-- What a run receives before the loop ends.
unfoldable pub arrivals : Signal → ExporterConfig → List Event → Loop → List ℕ
arrivals g config [] s = []
arrivals g config (e ∷ es) s =
    (if s.running then arrived g e else []) ++ arrivals g config es (step config e s)

held-step_if :
    (u : List ℕ) (g : Signal) (on : Bool) (s t : Loop) (bytes : List ℕ)
    → held g u t ≡ held g u s ++ bytes
    → held g u (if on then t else s) ≡ held g u s ++ (if on then bytes else [])
held-step_if u g true s t bytes e = e
held-step_if u g false s t bytes e = sym (append-nil _)

module _ (u : List ℕ) (config : ExporterConfig) (g : Signal) (own : IsOwn g u config) where
  pub held-step :
      (e : Event) (s : Loop)
      → held g u (step config e s) ≡ held g u s ++ (if s.running then arrived g e else [])
  unfolding step
  held-step e s =
      held-step_if u g s.running s (step_running config e s) (arrived g e)
        (held-step_running u config g own e s)

  -- Over any events, what has been posted to a signal's endpoint, with what still waits in its batch
  -- behind it, is what the loop held before and then the data that arrived, byte for byte, if no
  -- other signal has that endpoint.
  held-run :
      (es : List Event) (s : Loop)
      → held g u (run config es s) ≡ held g u s ++ arrivals g config es s
  unfolding run arrivals
  held-run [] s = sym (append-nil _)
  held-run (e ∷ es) s =
      held-run es (step config e s)
      ∙ ap (λ t. t ++ arrivals g config es (step config e s)) (held-step e s)
      ∙ append_assoc (held g u s) _ _

-- Every task has ended.
abbrev pub HasEnded : List Task → Type 0
HasEnded ts = All (λ t. t.ended ≡ true) ts

end_all-HasEnded : (ts : List Task) → HasEnded (end_all ts)
unfolding end_all
end_all-HasEnded [] = tt
end_all-HasEnded (t ∷ ts) = (refl, end_all-HasEnded ts)

-- Nothing waits, and nothing is under way.
pub record IsIdle (s : Loop) : Type 0 where
  pub no_traces : s.trace_batch ≡ []
  pub no_logs : s.log_batch ≡ []
  pub no_metrics : s.metrics_batch ≡ []
  pub ended : HasEnded s.join_set

drained-IsIdle : (config : ExporterConfig) (s : Loop) → IsIdle (join_all (flush_all config s))
unfolding join_all flush_all flush_traces flush_logs flush_metrics
drained-IsIdle config s = record {
  no_traces = refl;
  no_logs = refl;
  no_metrics = refl;
  ended = end_all-HasEnded _;
}

-- The two other fields do not count.
IsIdle-update :
    (acks : List ℕ) (on : Bool) (s : Loop)
    → IsIdle s
    → IsIdle (record s { acknowledged = acks; running = on })
IsIdle-update acks on s d = record {
  no_traces = d.no_traces;
  no_logs = d.no_logs;
  no_metrics = d.no_metrics;
  ended = d.ended;
}

-- The loop ends only when nothing is left to do.
abbrev pub EndsIdle : Loop → Type 0
EndsIdle s = s.running ≡ false → IsIdle s

pub on_message-EndsIdle :
    (config : ExporterConfig) (m : Option ExportMessage) (s : Loop)
    → s.running ≡ true
    → EndsIdle (on_message config m s)
unfolding on_message
on_message-EndsIdle config none s on off = IsIdle-update _ _ _ (drained-IsIdle config s)
on_message-EndsIdle config (some (traces b)) s on off = unfold flush_traces in ground arith
on_message-EndsIdle config (some (logs b)) s on off = unfold flush_logs in ground arith
on_message-EndsIdle config (some (metrics b)) s on off = unfold flush_metrics in ground arith
on_message-EndsIdle config (some (flush done)) s on off =
    IsIdle-update _ _ _ (drained-IsIdle config s)
on_message-EndsIdle config (some shutdown) s on off = IsIdle-update _ _ _ (drained-IsIdle config s)

step_running-EndsIdle :
    (config : ExporterConfig) (e : Event) (s : Loop)
    → s.running ≡ true
    → EndsIdle (step_running config e s)
unfolding step_running
step_running-EndsIdle config (received m) s on = on_message-EndsIdle config m s on
step_running-EndsIdle config tick s on =
    unfold flush_all flush_traces flush_logs flush_metrics in λ off. cc
step_running-EndsIdle config (task_ended i) s on = λ off. cc

EndsIdle-if :
    (on : Bool) (s t : Loop)
    → (on ≡ true → EndsIdle t)
    → EndsIdle s
    → EndsIdle (if on then t else s)
EndsIdle-if true s t h k = h refl
EndsIdle-if false s t h k = k

run-EndsIdle :
    (config : ExporterConfig) (es : List Event) (s : Loop) → EndsIdle s → EndsIdle (run config es s)
unfolding run
run-EndsIdle config [] s h = h
run-EndsIdle config (e ∷ es) s h = run-EndsIdle config es (step config e s) (
    unfold step in
    EndsIdle-if s.running s (step_running config e s) (step_running-EndsIdle config e s) h)

pub idle_held : (u : List ℕ) (g : Signal) (s : Loop) → IsIdle s → posted u s.join_set ≡ held g u s
unfolding concat
idle_held u trace s h = sym (ap (λ b. posted u s.join_set ++ concat b) h.no_traces ∙ append-nil _)
idle_held u log s h = sym (ap (λ b. posted u s.join_set ++ concat b) h.no_logs ∙ append-nil _)
idle_held u metric s h = sym (ap (λ b. posted u s.join_set ++ concat b) h.no_metrics ∙ append-nil _)

pub step_on :
    (config : ExporterConfig) (e : Event) (s : Loop)
    → s.running ≡ true
    → step config e s ≡ step_running config e s
unfolding step
step_on config e s on = ap (λ b. if b then step_running config e s else s) on

start-EndsIdle : EndsIdle start
unfolding start
start-EndsIdle = λ e. cc

pub on_message-flush :
    (config : ExporterConfig) (done : ℕ) (s : Loop)
    → IsIdle (on_message config (some (flush done)) s)
      × ((on_message config (some (flush done)) s).acknowledged ≡ s.acknowledged ++ (done ∷ []))
      × ((on_message config (some (flush done)) s).running ≡ s.running)
unfolding on_message
on_message-flush config done s = (
  IsIdle-update _ _ _ (drained-IsIdle config s),
  unfold join_all flush_all flush_traces flush_logs flush_metrics in refl,
  unfold join_all flush_all flush_traces flush_logs flush_metrics in refl,
)

module _ (u : List ℕ) (config : ExporterConfig) (g : Signal) (own : IsOwn g u config) where
  -- What the run holds for the signal is what arrived.
  held-run-start : (es : List Event) → held g u (run config es start) ≡ arrivals g config es start
  held-run-start es =
      held-run u config g own es start ∙ ap (λ t. t ++ arrivals g config es start) (held-start u g)

  -- When the loop has ended, by a shutdown or because no sender is left, everything that it received
  -- for a signal with an endpoint that no other signal has is in the payloads posted there, in order
  -- and once, and every POST's task has ended.
  pub shutdown_delivers :
      (es : List Event)
      → (run config es start).running ≡ false
      → (posted u (run config es start).join_set ≡ arrivals g config es start)
        × HasEnded (run config es start).join_set
  shutdown_delivers es off =
      let idle : IsIdle (run config es start) = run-EndsIdle config es start start-EndsIdle off in
      (idle_held u g (run config es start) idle ∙ held-run-start es, idle.ended)

  -- While the loop runs, a flush posts all that was received before for a signal with an endpoint that
  -- no other signal has, waits for every POST's task, answers its sender once, and the loop goes on.
  pub flush_delivers :
      (es : List Event) (done : ℕ)
      → (run config es start).running ≡ true
      → let s = run config es start in
        let s' = step config (received (some (flush done))) s in
        (posted u s'.join_set ≡ arrivals g config es start)
        × HasEnded s'.join_set
        × (s'.acknowledged ≡ s.acknowledged ++ (done ∷ []))
        × (s'.running ≡ true)
  flush_delivers es done on =
      let s = run config es start in
      let (idle, answered, still) = on_message-flush config done s in
      rw (step_on config (received (some (flush done))) s on) (
        unfold step_running in
        (
          idle_held u g (on_message config (some (flush done)) s) idle
              ∙ held-step_running u config g own (received (some (flush done))) s
              ∙ rw (arrived-flush g done, append-nil) (held-run-start es),
          idle.ended,
          answered,
          still ∙ on,
        ))
