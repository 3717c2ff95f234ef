-- ===== src/Exporter/Bounds.antt =====
-- The loop of src/exporter.rs: how large its batches get.
use rolly.Base.{
  ℕ, ◌≤◌, ◌<◌, Bool, true, false, Option, none, some, List, [], ◌∷◌, arith, if◌then◌else◌, length,
  length-append,
}
use rolly.Exporter.{
  ExportMessage, traces, logs, metrics, flush, shutdown, ExporterConfig, Loop, start, flush_traces,
  flush_logs, flush_metrics, flush_all, join_all, on_message, Event, received, tick, task_ended,
  step_running, step, run,
}

-- Every batch is below the size at which it is flushed.
pub record IsSmall (n : ℕ) (s : Loop) : Type 0 where
  pub few_traces : length s.trace_batch < n
  pub few_logs : length s.log_batch < n
  pub few_metrics : length s.metrics_batch < n

on_message-IsSmall :
    (config : ExporterConfig) (m : Option ExportMessage) (s : Loop)
    → 1 ≤ config.batch_size
    → IsSmall config.batch_size s
    → IsSmall config.batch_size (on_message config m s)
unfolding on_message join_all flush_all flush_traces flush_logs flush_metrics
on_message-IsSmall config none s h k = omega arith
on_message-IsSmall config (some (traces b)) s h k =
    ground (arith, length-append s.trace_batch (b ∷ []))
on_message-IsSmall config (some (logs b)) s h k = ground (arith, length-append s.log_batch (b ∷ []))
on_message-IsSmall config (some (metrics b)) s h k =
    ground (arith, length-append s.metrics_batch (b ∷ []))
on_message-IsSmall config (some (flush done)) s h k = omega arith
on_message-IsSmall config (some shutdown) s h k = omega arith

step_running-IsSmall :
    (config : ExporterConfig) (e : Event) (s : Loop)
    → 1 ≤ config.batch_size
    → IsSmall config.batch_size s
    → IsSmall config.batch_size (step_running config e s)
unfolding step_running
step_running-IsSmall config (received m) s h k = on_message-IsSmall config m s h k
step_running-IsSmall config tick s h k =
    unfold flush_all flush_traces flush_logs flush_metrics in omega arith
step_running-IsSmall config (task_ended i) s h k = omega arith

IsSmall-if :
    (n : ℕ) (on : Bool) (s t : Loop) → IsSmall n t → IsSmall n s → IsSmall n (if on then t else s)
IsSmall-if n true s t h k = h
IsSmall-if n false s t h k = k

step-IsSmall :
    (config : ExporterConfig) (e : Event) (s : Loop)
    → 1 ≤ config.batch_size
    → IsSmall config.batch_size s
    → IsSmall config.batch_size (step config e s)
unfolding step
step-IsSmall config e s h k =
    IsSmall-if config.batch_size s.running s _ (step_running-IsSmall config e s h k) k

run_from-IsSmall :
    (config : ExporterConfig) (es : List Event) (s : Loop)
    → 1 ≤ config.batch_size
    → IsSmall config.batch_size s
    → IsSmall config.batch_size (run config es s)
unfolding run
run_from-IsSmall config [] s h k = k
run_from-IsSmall config (e ∷ es) s h k =
    run_from-IsSmall config es (step config e s) h (step-IsSmall config e s h k)

-- After any events each of the three batches holds fewer messages than `batch_size`, if that is at
-- least one: no batch grows without bound.
pub run-IsSmall :
    (config : ExporterConfig) (es : List Event)
    → 1 ≤ config.batch_size
    → IsSmall config.batch_size (run config es start)
run-IsSmall config es h = run_from-IsSmall config es start h (unfold start in omega arith)
