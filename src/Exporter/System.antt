-- ===== src/Exporter/System.antt =====
-- The two halves of src/exporter.rs together: threads that call the shared handle, and the background
-- loop that takes from the channel, in any order. A run is a sequence of acts. `accepted`, `lost` and
-- `called` are the history of a run, which the program does not keep.
pub mod Sends
pub mod Consistent
pub mod Reached
pub mod Order
pub mod Kept
pub mod Barrier
pub mod Answer
pub mod Last
pub mod Runs
mod Examples
use rolly.Base.{
  ℕ, ◌+◌, ◌<◌, ◌≤◌, Bool, true, false, ◌||◌, Option, none, some, List, [], ◌∷◌, ◌++◌, ltb,
  if◌then◌else◌, length,
}
use rolly.Exporter.{
  ExportMessage, flush, shutdown, ExporterConfig, Mpsc, Exporter, Loop, start, started, received,
  step, request_flush, request_shutdown,
}
use rolly.Exporter.Send.{Call, message, call}
use rolly.Exporter.Received.{Pause, pause_event}

-- A thread calls the handle; the loop takes the next message, or does something else; the receiver is
-- dropped at the end of `exporter_loop`.
pub data Act : Type 0 where
  calls : Call → Act
  flushes : ℕ → Act
  shuts_down : Act
  takes : Act
  pauses : Pause → Act
  returns : Act

module _ (ch : Mpsc) where
  pub record System : Type 0 where
    pub handle : Exporter ch.Sender
    pub loop : Loop
    pub accepted : List ExportMessage
    pub lost : List ExportMessage
    pub called : ℕ

  -- The message, if it was accepted.
  abbrev pub entered : ExportMessage → Option ch.Sender → List ExportMessage
  entered m none = []
  entered m (some tx') = m ∷ []

  -- A `send` is over when the channel has room or is closed; until then the caller waits.
  pub can_send : ch.Sender → Bool
  can_send tx = ch.is_closed tx || ltb (length (ch.queued tx)) (ch.capacity tx)

  -- What the loop does with what it took.
  unfoldable pub take : ExporterConfig → Option (ExportMessage × ch.Sender) → System → System
  take config none s = s
  take config (some (m, tx')) s = record s {
    handle = record s.handle { tx = tx' };
    loop = step config (received (some m)) s.loop;
  }

  unfoldable pub perform_call : Call → System → System
  perform_call c s = record s {
    handle = call ch c s.handle;
    accepted = s.accepted ++ entered (message c) (ch.try_send (message c) s.handle.tx);
    called = s.called + 1;
  }

  unfoldable pub perform_flush : ℕ → System → System
  perform_flush done s = record s {
    handle = (request_flush ch done s.handle).0;
    accepted = s.accepted ++ entered (flush done) (ch.send (flush done) s.handle.tx);
  }

  unfoldable pub perform_shutdown : System → System
  perform_shutdown s = record s {
    handle = request_shutdown ch s.handle;
    accepted = s.accepted ++ entered shutdown (ch.send shutdown s.handle.tx);
  }

  -- What is queued then is gone.
  unfoldable pub perform_return : System → System
  perform_return s = record s {
    handle = record s.handle { tx = ch.close s.handle.tx };
    lost = s.lost ++ ch.queued s.handle.tx;
  }

  unfoldable pub perform : ExporterConfig → Act → System → System
  unfolding can_send take perform_call perform_flush perform_shutdown perform_return
  perform config (calls c) s = perform_call c s
  perform config (flushes done) s = if can_send s.handle.tx then perform_flush done s else s
  perform config shuts_down s = if can_send s.handle.tx then perform_shutdown s else s
  perform config takes s = if s.loop.running then take config (ch.recv s.handle.tx) s else s
  perform config (pauses p) s = record s { loop = step config (pause_event p) s.loop }
  perform config returns s = if s.loop.running then s else perform_return s

  unfoldable pub perform_all : ExporterConfig → List Act → System → System
  unfolding perform
  perform_all config [] s = s
  perform_all config (a ∷ acts) s = perform_all config acts (perform config a s)

  -- After `Exporter::start`, with `dropped_total` from other exporters of the process.
  unfoldable pub initial : ExporterConfig → ℕ → System
  initial config dropped_total = record {
    handle = started ch config dropped_total;
    loop = start;
    accepted = [];
    lost = [];
    called = 0;
  }
