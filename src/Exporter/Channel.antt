-- ===== src/Exporter/Channel.antt =====
-- A concrete channel for the runs of src/exporter.rs: it shows that the laws of the parameter hold.
use rolly.Base.{
  ℕ, ◌≡◌, ◌≤◌, ◌<◌, ◌⊎◌, inl, refl, ap, arith, Bool, true, false, Option, none, some, List, [], ◌∷◌,
  ◌++◌, if◌then◌else◌, ltb, length,
}
use rolly.Exporter.{ExportMessage, Mpsc}

-- A channel that is its queue, its capacity and whether it is closed.
pub record Channel : Type 0 where
  pub queue : List ExportMessage
  pub room : ℕ
  pub closed : Bool

unfoldable pub try_send_to : ExportMessage → Channel → Option Channel
try_send_to m c =
    if c.closed
    then none
    else if ltb (length c.queue) c.room
    then some (record c { queue = c.queue ++ (m ∷ []) })
    else none

pub push_some :
    (m : ExportMessage) (c : Channel)
    → c.closed ≡ false
    → length c.queue < c.room
    → try_send_to m c ≡ some (record c { queue = c.queue ++ (m ∷ []) })
unfolding try_send_to
push_some m c h k = ground (arith, h, k)

pub push_none :
    (m : ExportMessage) (c : Channel)
    → (c.closed ≡ true) ⊎ (c.room ≤ length c.queue)
    → try_send_to m c ≡ none
unfolding try_send_to
push_none m c h = ground (arith, h)

unfoldable pub receive : List ExportMessage → Channel → Option (ExportMessage × Channel)
receive [] c = none
receive (m ∷ ms) c = some (m, record c { queue = ms })

unfoldable pub receive_from : Channel → Option (ExportMessage × Channel)
receive_from c = receive c.queue c

pub receive_next :
    (m : ExportMessage) (ms : List ExportMessage) (c : Channel)
    → c.queue ≡ m ∷ ms
    → receive_from c ≡ some (m, record c { queue = ms })
unfolding receive_from receive
receive_next m ms c h = ap (λ q. receive q c) h

pub receive_none : (c : Channel) → c.queue ≡ [] → receive_from c ≡ none
unfolding receive_from receive
receive_none c h = ap (λ q. receive q c) h

pub closed_send : (m : ExportMessage) (c : Channel) → c.closed ≡ true → try_send_to m c ≡ none
closed_send m c h = push_none m c (inl h)

abbrev pub channel : Mpsc
channel = record {
  Sender = Channel;
  queued = λ c. c.queue;
  capacity = λ c. c.room;
  is_closed = λ c. c.closed;
  channel = λ n. record { queue = []; room = n; closed = false };
  try_send = try_send_to;
  send = try_send_to;
  recv = receive_from;
  recv-next = λ m ms c h. (record c { queue = ms }, receive_next m ms c h, refl, refl, refl);
  recv-waits = receive_none;
  refuses_send = closed_send;
  close = λ c. record c { queue = []; closed = true };
  close-is_empty = λ c. (refl, refl, refl);
  send-room = λ m tx h k. refl;
  channel-is_empty = λ n. (refl, refl, refl);
  accepts = λ m c h k. (record c { queue = c.queue ++ (m ∷ []) }, push_some m c h k, refl, refl, h);
  refuses = push_none;
}
