-- ===== src/Remote/Link.antt =====
-- remote/conn.go, remote/agent.go and remote/hub.go: one direction of one stream over a connection
-- that can be lost at any time. `Link` is the sender's outbox, the receiver's inbuf, and what is on
-- the way between them; an event is one atomic section of the code, in any order. A websocket keeps
-- order and does not corrupt frames; a lost connection loses all that is on the way.
pub mod Sync
pub mod Sender
pub mod Receiver
pub mod Delivery
pub mod CatchUp
pub mod Unread
use mathlib.Core.Option
use acpp.Prelude.{
  Bytes, ℕ, ◌+◌, Bool, true, false, Option, none, some, List, [], ◌∷◌, ◌++◌, if◌then◌else◌, ◌==◌,
  length, Result, ok, err,
}
use acpp.Remote.Outbox
use acpp.Remote.Outbox.{Outbox}
use acpp.Remote.Inbuf
use acpp.Remote.Inbuf.{Inbuf}

-- `maxChunk`
abbrev pub max_chunk : ℕ
max_chunk = 65536

pub record Link : Type 0 where
  pub outbox : Outbox
  pub inbuf : Inbuf
  -- data frames on the way, oldest first: an offset and its bytes
  pub wire : List (ℕ × Bytes)
  -- the entry of `conn.acks` for the stream, which `queueAck` overwrites, and the ack messages on
  -- the way, oldest first
  pub queued : Option ℕ
  pub acks : List ℕ
  -- the receiver saw a gap and closed the connection
  pub out_of_sync : Bool
  -- history: all bytes that `Write` accepted, and all that a reader got
  pub written : Bytes
  pub delivered : Bytes

pub data Event : Type 0 where
  write : Bytes → Event
  send : Event
  send_fails : Event
  deliver : Event
  read : ℕ → Event
  send_ack : Event
  ack : Event
  reconnect : Event

abbrev pub init : ℕ → ℕ → Link
init start limit = record {
  outbox = Outbox.new_outbox start limit;
  inbuf = Inbuf.new_inbuf start;
  wire = [];
  queued = none;
  acks = [];
  out_of_sync = false;
  written = [];
  delivered = [];
}

pub written_to : Link → Bytes → Outbox × Result Outbox.Error ℕ → Link
written_to l p (o, ok n) = record l { outbox = o; written = l.written ++ p }
written_to l p (o, err e) = record l { outbox = o }

-- One round of `flushLocked`: an empty chunk ends the loop.
pub sent_on : Link → Outbox × ℕ × Bytes → Link
sent_on l (o, off, chunk) = record l {
  outbox = o;
  wire = if length chunk == 0 then l.wire else l.wire ++ (off, chunk) ∷ [];
}

-- The same round when `sendData` fails: the bytes did not leave.
pub send_failed : Link → Outbox × ℕ × Bytes → Link
send_failed l (o, off, chunk) = record l {
  outbox = if length chunk == 0 then o else Outbox.unsend o off;
}

-- The receiver's read loop: on a gap it closes the connection, which loses what is on the way.
pub arrived : Link → List (ℕ × Bytes) → Inbuf × Result Inbuf.Error ℕ → Link
arrived l rest (b, ok n) = record l { inbuf = b; wire = rest }
arrived l rest (b, err e) = record l {
  inbuf = b;
  wire = [];
  queued = none;
  acks = [];
  out_of_sync = true;
}

-- `Read` and the `onConsume` that it calls.
pub read_from : Link → Inbuf × Inbuf.Read → Link
read_from l (b, Inbuf.got chunk off) = record l {
  inbuf = b;
  queued = some off;
  delivered = l.delivered ++ chunk;
}
read_from l (b, Inbuf.end_of_file) = record l { inbuf = b }
read_from l (b, Inbuf.blocked) = record l { inbuf = b }

-- `hello` reports what the receiver holds and the sender rewinds to it. A rewind that fails stops
-- the stream.
pub resumed : Link → Outbox × Result Outbox.Error (Unit {0}) → Option Link
resumed l (o, ok u) = some (record l { outbox = o; wire = []; queued = none; acks = [] })
resumed l (o, err e) = none

pub deliver_next : Link → List (ℕ × Bytes) → Link
unfolding arrived
deliver_next l [] = l
deliver_next l ((off, chunk) ∷ rest) = arrived l rest (Inbuf.write l.inbuf off chunk)

-- The acker sends the queued offset.
pub send_queued : Link → Option ℕ → Link
send_queued l none = l
send_queued l (some off) = record l { queued = none; acks = l.acks ++ off ∷ [] }

pub ack_next : Link → List ℕ → Link
ack_next l [] = l
ack_next l (off ∷ rest) = record l { outbox = Outbox.ack l.outbox off; acks = rest }

-- `none` is a panic, or a stream that has to be stopped.
pub step : Link → Event → Option Link
unfolding written_to sent_on send_failed deliver_next send_queued ack_next read_from resumed
step l (write p) = some (written_to l p (Outbox.write l.outbox p))
step l send = Option.map (sent_on l) (Outbox.next l.outbox max_chunk)
step l send_fails = Option.map (send_failed l) (Outbox.next l.outbox max_chunk)
step l deliver = some (deliver_next l l.wire)
step l (read n) = some (read_from l (Inbuf.read l.inbuf n))
step l send_ack = some (send_queued l l.queued)
step l ack = some (ack_next l l.acks)
step l reconnect = resumed l (Outbox.rewind l.outbox (Inbuf.received l.inbuf))

-- A history of events.
pub run : Link → List Event → Option Link
run l [] = some l
run l (e ∷ es) = elim (step l e) [ none ↦ none | some l' ↦ run l' es ]
