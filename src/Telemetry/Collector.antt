-- ===== src/Telemetry/Collector.antt =====
-- The collector at the end of src/exporter.rs: what it reads from the payloads, into which the loop
-- concatenates the messages of any threads, against what it reads from each message alone.
pub mod Tasks
pub mod Each
mod Examples
use mathlib.Core.Path.{subst}
use rolly.Base.{
  ◌>>=◌, bind_some, ℕ, suc, ◌+◌, ◌%◌, ◌^◌, ◌<◌, ◌≡◌, refl, sym, ap, ◌∙◌, arith, Bool, Bool-cases,
  true, false, Option, none, some, List, [], ◌∷◌, ◌++◌, append-nil, append_assoc, All, All-append,
  inl, inr, if◌then◌else◌, length, replicate, ◌==◌,
}
use rolly.Wire.{Field, varint, fixed64, delimited, decode}
use rolly.Wire.Append.{decode-append}
use rolly.OtlpTrace.Receiver.{merge_all}
use rolly.OtlpTrace.Receiver.Fits.{merge_all-append}
use rolly.OtlpTrace.Receiver.Requests.{
  ResourceSpans, receive_resource_spans, merge_request, receive_request,
}
use rolly.Exporter.{ExportMessage, flush, shutdown, ExporterConfig, Mpsc, received}
use rolly.Exporter.Held.{trace, IsOwn, arrived, posted}
use rolly.Exporter.Delivery.{HasEnded}
use rolly.Exporter.Send.{message}
use rolly.Exporter.System.{
  Act, calls, flushes, shuts_down, takes, pauses, returns, System, entered, can_send, take,
  perform_call, perform_flush, perform_shutdown, perform_return, perform, perform_all, initial,
}
use rolly.Exporter.System.Order.{data_of}
use rolly.Exporter.System.Barrier.{ends}
use rolly.Exporter.System.Answer.{flush_is_answered}

-- What was received before stays in front.
merge_request-behind :
    (f : Field) (rs a b : List ResourceSpans)
    → merge_request f a ≡ some b
    → merge_request f (rs ++ a) ≡ some (rs ++ b)
unfolding merge_request
merge_request-behind (varint n v) rs a b e = let same : a ≡ b = cc in ap (λ t. some (rs ++ t)) same
merge_request-behind (fixed64 n v) rs a b e = let same : a ≡ b = cc in ap (λ t. some (rs ++ t)) same
merge_request-behind (delimited n bs) rs a b e = elim (Bool-cases (n == 1)) [
  | inl one ↦
      let (r, h, k) =
        bind_some (receive_resource_spans bs) (λ r. some (a ++ (r ∷ []))) b (rw one at e) in
      rw (one, h) (ap some (append_assoc rs a (r ∷ [])) ∙ ap (behind rs) k)
  | inr other ↦ rw other (ap (behind rs) (rw other at e))
]
  where
    behind : List ResourceSpans → Option (List ResourceSpans) → Option (List ResourceSpans)
    behind rs none = none
    behind rs (some t) = some (rs ++ t)

merge_all-behind :
    (fs : List Field) (rs a b : List ResourceSpans)
    → merge_all merge_request a fs ≡ some b
    → merge_all merge_request (rs ++ a) fs ≡ some (rs ++ b)
unfolding merge_all
merge_all-behind [] rs a b e = let same : a ≡ b = cc in ap (λ t. some (rs ++ t)) same
merge_all-behind (f ∷ fs) rs a b e =
    let (c, h, k) = bind_some (merge_request f a) (λ x. merge_all merge_request x fs) b e in
    rw (merge_request-behind f rs a c h) (merge_all-behind fs rs c b k)

-- Requests merge on concatenation.
pub receive_request-append :
    (xs ys : List ℕ) (a b : List ResourceSpans)
    → receive_request xs ≡ some a
    → receive_request ys ≡ some b
    → receive_request (xs ++ ys) ≡ some (a ++ b)
unfolding receive_request
receive_request-append xs ys a b h k =
    let (fs, hd, hm) = bind_some (decode xs) (merge_all merge_request []) a h in
    let (gs, kd, km) = bind_some (decode ys) (merge_all merge_request []) b k in
    ap (λ o. o >>= merge_all merge_request []) (decode-append xs ys fs gs hd kd)
    ∙ merge_all-append merge_request [] a fs gs hm
    ∙ ap (λ t. merge_all merge_request t gs) (sym (append-nil a))
    ∙ merge_all-behind gs a [] b km

-- A message whose trace data, if any, a collector can read.
abbrev pub IsReadable : ExportMessage → Type 0
IsReadable m =
    (rs : List ResourceSpans) × (receive_request (arrived trace (received (some m))) ≡ some rs)

-- A thread that sends trace data sends what a collector can read.
abbrev pub IsTold : Act → Type 0
IsTold (calls c) = IsReadable (message c)
IsTold _ = Unit

pub nothing-IsReadable : receive_request [] ≡ some []
unfolding receive_request decode merge_all
nothing-IsReadable = refl

-- What a collector reads from each message alone, in their order.
unfoldable pub receive_each : List ExportMessage → Option (List ResourceSpans)
receive_each [] = some []
receive_each (m ∷ ms) = receive_request (arrived trace (received (some m))) >>= λ a.
    receive_each ms >>= λ b. some (a ++ b)

receive_each-IsReadable :
    (ms : List ExportMessage)
    → All IsReadable ms
    → (rs : List ResourceSpans) × (receive_each ms ≡ some rs)
      × (receive_request (data_of trace ms) ≡ some rs)
unfolding receive_each data_of
receive_each-IsReadable [] h = ([], refl, nothing-IsReadable)
receive_each-IsReadable (m ∷ ms) ((a, e), h) =
    let (b, each, all) = receive_each-IsReadable ms h in
    (
      a ++ b,
      rw (e, each) refl,
      receive_request-append (arrived trace (received (some m))) (data_of trace ms) a b e all,
    )

module _ (ch : Mpsc) (config : ExporterConfig) where
  entered-IsReadable :
      (ms : List ExportMessage) (m : ExportMessage) (o : Option ch.Sender)
      → IsReadable m
      → All IsReadable ms
      → All IsReadable (ms ++ entered ch m o)
  entered-IsReadable ms m none r h = All-append IsReadable ms [] h tt
  entered-IsReadable ms m (some tx) r h = All-append IsReadable ms (m ∷ []) h (r, tt)

  take-accepted :
      (o : Option (ExportMessage × ch.Sender)) (s : System ch)
      → (take ch config o s).accepted ≡ s.accepted
  unfolding take
  take-accepted none s = refl
  take-accepted (some (m, tx)) s = refl

  IsReadable-if :
      (b : Bool) (t f : System ch)
      → All IsReadable t.accepted
      → All IsReadable f.accepted
      → All IsReadable (if b then t else f).accepted
  IsReadable-if true t f h k = h
  IsReadable-if false t f h k = k

  perform-IsReadable :
      (a : Act) (s : System ch)
      → IsTold a
      → All IsReadable s.accepted
      → All IsReadable (perform ch config a s).accepted
  unfolding perform perform_call perform_flush perform_shutdown perform_return
  perform-IsReadable (calls c) s told h = entered-IsReadable s.accepted (message c) _ told h
  perform-IsReadable (flushes done) s told h =
      IsReadable-if (can_send ch s.handle.tx) _ s
        (entered-IsReadable s.accepted (flush done) _ ([], nothing-IsReadable) h) h
  perform-IsReadable shuts_down s told h =
      IsReadable-if (can_send ch s.handle.tx) _ s
        (entered-IsReadable s.accepted shutdown _ ([], nothing-IsReadable) h) h
  perform-IsReadable takes s told h =
      IsReadable-if s.loop.running _ s
        (subst (λ l. All IsReadable l) (sym (take-accepted (ch.recv s.handle.tx) s)) h) h
  perform-IsReadable (pauses p) s told h = h
  perform-IsReadable returns s told h = IsReadable-if s.loop.running s _ h h

  pub perform_all-IsReadable :
      (acts : List Act) (s : System ch)
      → All IsTold acts
      → All IsReadable s.accepted
      → All IsReadable (perform_all ch config acts s).accepted
  unfolding perform_all
  perform_all-IsReadable [] s told h = h
  perform_all-IsReadable (a ∷ acts) s (t, told) h =
      perform_all-IsReadable acts (perform ch config a s) told (perform-IsReadable a s t h)

  pub initial-IsReadable : (d : ℕ) → All IsReadable (initial ch config d).accepted
  unfolding initial
  initial-IsReadable d = tt

-- The payloads of the tasks that a flush has drained, one behind the other in the order of spawning,
-- read as what each accepted message reads as alone.
pub flush_is_readable :
    (ch : Mpsc) (config : ExporterConfig) (u : List ℕ) (d done : ℕ) (acts : List Act)
    → IsOwn trace u config
    → d < 2 ^ 64
    → All IsTold acts
    → (perform_all ch config acts (initial ch config d)).loop.running ≡ true
    → length (ch.queued (perform_all ch config acts (initial ch config d)).handle.tx)
      < config.channel_capacity
    → ends (ch.queued (perform_all ch config acts (initial ch config d)).handle.tx) ≡ false
    → let s = perform_all ch config acts (initial ch config d) in
      let s' =
        perform_all ch config
          (flushes done ∷ replicate (suc (length (ch.queued s.handle.tx))) takes)
          s in
      (rs : List ResourceSpans) × (receive_each s.accepted ≡ some rs)
      × (receive_request (posted u s'.loop.join_set) ≡ some rs)
flush_is_readable ch config u d done acts own low told on room free =
    let (rs, each, all) =
      receive_each-IsReadable (perform_all ch config acts (initial ch config d)).accepted (
        perform_all-IsReadable ch config acts (initial ch config d) told
          (initial-IsReadable ch config d)) in
    let (delivered, ended, answered, still) =
      flush_is_answered ch config u trace own d done acts low on room free in
    (rs, each, ap receive_request (sym delivered) ∙ all)
