-- ===== src/Exporter/Held.antt =====
-- The loop of src/exporter.rs: what becomes of the data that it receives.
use rolly.Base.{
  ℕ, zero, suc, ◌≡◌, ◌≢◌, refl, ap, ◌∙◌, Bool, true, false, Option, none, some, List, [], ◌∷◌, ◌++◌,
  append-nil, append_assoc, leb, if◌then◌else◌, length, Bool-cases, inl, inr,
}
use rolly.Base.Bytes.{beq_bytes, beq_bytes_iff, beq_bytes_refl}
use rolly.Exporter.{
  start, ExportMessage, traces, logs, metrics, flush, shutdown, ExporterConfig, Task, Loop, concat,
  flush_batch, flush_traces, flush_logs, flush_metrics, flush_all, end_all, join_all, on_message,
  Event, received, tick, task_ended, end_task, step_running,
}

-- The three kinds of data, with the batch and the endpoint of each.
pub data Signal : Type 0 where
  trace log metric : Signal

abbrev pub batch_of : Signal → Loop → List (List ℕ)
batch_of trace s = s.trace_batch
batch_of log s = s.log_batch
batch_of metric s = s.metrics_batch

abbrev pub url_of : Signal → ExporterConfig → Option (List ℕ)
url_of trace config = config.traces_url
url_of log config = config.logs_url
url_of metric config = config.metrics_url

-- No other signal goes to the endpoint of `g`.
abbrev pub IsOwn : Signal → List ℕ → ExporterConfig → Type 0
IsOwn trace u config =
    (config.traces_url ≡ some u) × (config.logs_url ≢ some u) × (config.metrics_url ≢ some u)
IsOwn log u config =
    (config.logs_url ≡ some u) × (config.traces_url ≢ some u) × (config.metrics_url ≢ some u)
IsOwn metric u config =
    (config.metrics_url ≡ some u) × (config.traces_url ≢ some u) × (config.logs_url ≢ some u)

-- The data of a signal that an event brings.
abbrev pub arrived : Signal → Event → List ℕ
arrived trace (received (some (traces bytes))) = bytes
arrived log (received (some (logs bytes))) = bytes
arrived metric (received (some (metrics bytes))) = bytes
arrived _ _ = []

-- The payloads of the tasks spawned for an endpoint, one behind the other in the order of spawning.
unfoldable pub posted : List ℕ → List Task → List ℕ
posted u [] = []
posted u (t ∷ ts) = if beq_bytes t.url u then t.payload ++ posted u ts else posted u ts

posted-append : (u : List ℕ) (ts rs : List Task) → posted u (ts ++ rs) ≡ posted u ts ++ posted u rs
unfolding posted
posted-append u [] rs = refl
posted-append u (t ∷ ts) rs = elim (Bool-cases (beq_bytes t.url u)) [
  | inl own ↦ rw (own, posted-append u ts rs, append_assoc)
  | inr other ↦ rw (other, posted-append u ts rs)
]

posted-flush_own :
    (u : List ℕ) (batch : List (List ℕ)) (o : Option (List ℕ)) (ts : List Task)
    → o ≡ some u
    → posted u (flush_batch batch o ts) ≡ posted u ts ++ concat batch
posted-flush_own u [] o ts e = unfold flush_batch concat in rw append-nil
posted-flush_own u (b ∷ bs) o ts e =
    rw e
      (unfold flush_batch in rw posted-append (unfold posted in rw (beq_bytes_refl u, append-nil)))

posted-flush_other :
    (u : List ℕ) (batch : List (List ℕ)) (o : Option (List ℕ)) (ts : List Task)
    → o ≢ some u
    → posted u (flush_batch batch o ts) ≡ posted u ts
unfolding flush_batch posted
posted-flush_other u [] o ts h = refl
posted-flush_other u (b ∷ bs) none ts h = refl
posted-flush_other u (b ∷ bs) (some v) ts h = elim (Bool-cases (beq_bytes v u)) [
  | inl same ↦ absurd (h (ap some ((beq_bytes_iff v u).0 same)))
  | inr other ↦ rw (posted-append, other, append-nil)
]

posted-end_all : (u : List ℕ) (ts : List Task) → posted u (end_all ts) ≡ posted u ts
unfolding posted end_all
posted-end_all u [] = refl
posted-end_all u (t ∷ ts) = rw (posted-end_all u ts)

pub posted-end_task : (u : List ℕ) (i : ℕ) (ts : List Task) → posted u (end_task i ts) ≡ posted u ts
unfolding posted end_task
posted-end_task u i [] = refl
posted-end_task u zero (t ∷ ts) = refl
posted-end_task u (suc i) (t ∷ ts) = rw (posted-end_task u i ts)

concat-append : (xs : List (List ℕ)) (b : List ℕ) → concat (xs ++ (b ∷ [])) ≡ concat xs ++ b
unfolding concat
concat-append [] b = append-nil b
concat-append (x ∷ xs) b = rw (concat-append xs b, append_assoc)

-- What is posted or waits in the batch.
abbrev pub held : Signal → List ℕ → Loop → List ℕ
held g u s = posted u s.join_set ++ concat (batch_of g s)

-- A batch that is posted to its own endpoint is held as before.
flush_own :
    (u : List ℕ) (batch : List (List ℕ)) (o : Option (List ℕ)) (ts : List Task)
    → o ≡ some u
    → posted u (flush_batch batch o ts) ++ concat [] ≡ posted u ts ++ concat batch
unfolding concat
flush_own u batch o ts e = rw (append-nil, posted-flush_own u batch o ts e)

module _ (u : List ℕ) (config : ExporterConfig) (s : Loop) where
  held-flush_traces :
      (g : Signal) → IsOwn g u config → held g u (flush_traces config s) ≡ held g u s
  unfolding flush_traces
  held-flush_traces trace h = flush_own u s.trace_batch config.traces_url s.join_set h.0
  held-flush_traces log h = rw (posted-flush_other u s.trace_batch config.traces_url s.join_set h.1)
  held-flush_traces metric h =
      rw (posted-flush_other u s.trace_batch config.traces_url s.join_set h.1)

  held-flush_logs : (g : Signal) → IsOwn g u config → held g u (flush_logs config s) ≡ held g u s
  unfolding flush_logs
  held-flush_logs trace h = rw (posted-flush_other u s.log_batch config.logs_url s.join_set h.1)
  held-flush_logs log h = flush_own u s.log_batch config.logs_url s.join_set h.0
  held-flush_logs metric h = rw (posted-flush_other u s.log_batch config.logs_url s.join_set h.2)

  held-flush_metrics :
      (g : Signal) → IsOwn g u config → held g u (flush_metrics config s) ≡ held g u s
  unfolding flush_metrics
  held-flush_metrics trace h =
      rw (posted-flush_other u s.metrics_batch config.metrics_url s.join_set h.2)
  held-flush_metrics log h =
      rw (posted-flush_other u s.metrics_batch config.metrics_url s.join_set h.2)
  held-flush_metrics metric h = flush_own u s.metrics_batch config.metrics_url s.join_set h.0

pub held-flush_all :
    (u : List ℕ) (config : ExporterConfig) (s : Loop) (g : Signal)
    → IsOwn g u config
    → held g u (flush_all config s) ≡ held g u s
unfolding flush_all
held-flush_all u config s g h =
    held-flush_metrics u config (flush_logs config (flush_traces config s)) g h
    ∙ held-flush_logs u config (flush_traces config s) g h
    ∙ held-flush_traces u config s g h

held-join_all : (u : List ℕ) (s : Loop) (g : Signal) → held g u (join_all s) ≡ held g u s
unfolding join_all
held-join_all u s trace = rw posted-end_all
held-join_all u s log = rw posted-end_all
held-join_all u s metric = rw posted-end_all

-- `flush_all` and `join_all`, as they stand in three branches.
held-drain :
    (u : List ℕ) (config : ExporterConfig) (s : Loop) (g : Signal)
    → IsOwn g u config
    → held g u (join_all (flush_all config s)) ≡ held g u s
held-drain u config s g h = held-join_all u (flush_all config s) g ∙ held-flush_all u config s g h

-- The data joins the batch, which may then be flushed.
pushed :
    (u b : List ℕ) (batch : List (List ℕ)) (ts : List Task)
    → posted u ts ++ concat (batch ++ (b ∷ [])) ≡ posted u ts ++ concat batch ++ b
pushed u b batch ts = rw (concat-append, append_assoc)

module _ (u b : List ℕ) (s : Loop) where
  push_traces :
      (g : Signal)
      → held g u (record s { trace_batch = s.trace_batch ++ (b ∷ []) })
        ≡ held g u s ++ arrived g (received (some (traces b)))
  push_traces trace = pushed u b s.trace_batch s.join_set
  push_traces log = rw append-nil
  push_traces metric = rw append-nil

  push_logs :
      (g : Signal)
      → held g u (record s { log_batch = s.log_batch ++ (b ∷ []) })
        ≡ held g u s ++ arrived g (received (some (logs b)))
  push_logs trace = rw append-nil
  push_logs log = pushed u b s.log_batch s.join_set
  push_logs metric = rw append-nil

  push_metrics :
      (g : Signal)
      → held g u (record s { metrics_batch = s.metrics_batch ++ (b ∷ []) })
        ≡ held g u s ++ arrived g (received (some (metrics b)))
  push_metrics trace = rw append-nil
  push_metrics log = rw append-nil
  push_metrics metric = pushed u b s.metrics_batch s.join_set

-- Both branches of a size test hold the same.
held-if :
    (u : List ℕ) (g : Signal) (full : Bool) (s t : Loop)
    → held g u s ≡ held g u t
    → held g u (if full then s else t) ≡ held g u t
held-if u g true s t e = e
held-if u g false s t e = refl

-- An update of the other fields.
held-frame :
    (u : List ℕ) (g : Signal) (s t : Loop) (bytes : List ℕ)
    → s.join_set ≡ t.join_set
    → s.trace_batch ≡ t.trace_batch
    → s.log_batch ≡ t.log_batch
    → s.metrics_batch ≡ t.metrics_batch
    → bytes ≡ []
    → held g u s ≡ held g u t ++ bytes
held-frame u trace s t bytes j a b c e = rw (e, j, a, append-nil)
held-frame u log s t bytes j a b c e = rw (e, j, b, append-nil)
held-frame u metric s t bytes j a b c e = rw (e, j, c, append-nil)

-- These bring no data.
arrived-none : (g : Signal) → arrived g (received none) ≡ []
arrived-none trace = refl
arrived-none _ = refl

pub arrived-flush : (g : Signal) (done : ℕ) → arrived g (received (some (flush done))) ≡ []
arrived-flush trace done = refl
arrived-flush _ done = refl

pub arrived-shutdown : (g : Signal) → arrived g (received (some shutdown)) ≡ []
arrived-shutdown trace = refl
arrived-shutdown _ = refl

module _ (u : List ℕ) (config : ExporterConfig) (g : Signal) (own : IsOwn g u config) where
  pub held-on_message :
      (m : Option ExportMessage) (s : Loop)
      → held g u (on_message config m s) ≡ held g u s ++ arrived g (received m)
  unfolding on_message
  held-on_message none s =
      held-frame u g _ (join_all (flush_all config s)) _ refl refl refl refl (arrived-none g)
      ∙ ap (λ t. t ++ arrived g (received none)) (held-drain u config s g own)
  held-on_message (some (traces b)) s =
      let s' : Loop = record s { trace_batch = s.trace_batch ++ (b ∷ []) } in
      held-if u g (leb config.batch_size (length s'.trace_batch)) _ s'
        (held-flush_traces u config s' g own)
      ∙ push_traces u b s g
  held-on_message (some (logs b)) s =
      let s' : Loop = record s { log_batch = s.log_batch ++ (b ∷ []) } in
      held-if u g (leb config.batch_size (length s'.log_batch)) _ s'
        (held-flush_logs u config s' g own)
      ∙ push_logs u b s g
  held-on_message (some (metrics b)) s =
      let s' : Loop = record s { metrics_batch = s.metrics_batch ++ (b ∷ []) } in
      held-if u g (leb config.batch_size (length s'.metrics_batch)) _ s'
        (held-flush_metrics u config s' g own)
      ∙ push_metrics u b s g
  held-on_message (some (flush done)) s =
      held-frame u g _ (join_all (flush_all config s)) _ refl refl refl refl (arrived-flush g done)
      ∙ ap (λ t. t ++ arrived g (received (some (flush done)))) (held-drain u config s g own)
  held-on_message (some shutdown) s =
      held-frame u g _ (join_all (flush_all config s)) _ refl refl refl refl (arrived-shutdown g)
      ∙ ap (λ t. t ++ arrived g (received (some shutdown))) (held-drain u config s g own)

arrived-tick : (g : Signal) → arrived g tick ≡ []
arrived-tick trace = refl
arrived-tick _ = refl

arrived-task_ended : (g : Signal) (i : ℕ) → arrived g (task_ended i) ≡ []
arrived-task_ended trace i = refl
arrived-task_ended _ i = refl

held-end_task :
    (u : List ℕ) (g : Signal) (i : ℕ) (s : Loop)
    → held g u (record s { join_set = end_task i s.join_set }) ≡ held g u s
held-end_task u trace i s = rw posted-end_task
held-end_task u log i s = rw posted-end_task
held-end_task u metric i s = rw posted-end_task

-- Whatever happens, data is neither lost nor posted twice, and its order is kept.
pub held-step_running :
    (u : List ℕ) (config : ExporterConfig) (g : Signal)
    → IsOwn g u config
    → (e : Event) (s : Loop) → held g u (step_running config e s) ≡ held g u s ++ arrived g e
unfolding step_running
held-step_running u config g own (received m) s = held-on_message u config g own m s
held-step_running u config g own tick s =
    held-flush_all u config s g own ∙ rw (arrived-tick, append-nil)
held-step_running u config g own (task_ended i) s =
    held-end_task u g i s ∙ rw (arrived-task_ended, append-nil)

pub held-start : (u : List ℕ) (g : Signal) → held g u start ≡ []
unfolding start posted concat
held-start u trace = refl
held-start u log = refl
held-start u metric = refl
