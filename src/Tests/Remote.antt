-- ===== src/Tests/Remote.antt =====
-- remote/: the theorems at concrete streams.
use acpp.Prelude.{
  Bytes, ◌+◌, ◌≤◌, ◌<◌, ◌≡◌, refl, ◌⊎◌, inl, true, false, some, List, [], ◌∷◌, arith, length, take,
  ok, err, codes,
}
use acpp.Remote.Wire.{Frame, short_data_frame, encode_data, decode_data}
use acpp.Remote.Wire.Frames.{IsFrame, decode-encode, decode_cases}
use acpp.Remote.Outbox.{Outbox}
use acpp.Remote.Outbox.Stream.{Tracks}
use acpp.Remote.Inbuf
use acpp.Remote.Inbuf.{Inbuf}
use acpp.Remote.Inbuf.Stream.{Holds}
use acpp.Remote.Inbuf.Drain.{read_all, exhausted, read_all-closed}
use acpp.Remote.Link.{
  Link, Event, write, send, deliver, read, send_ack, ack, reconnect, step, run, init,
}
use acpp.Remote.Link.Sync.{InSync}
use acpp.Remote.Link.Delivery.{payloads, delivered_in_order}
use acpp.Remote.Link.CatchUp.{rounds, catch_up}
use acpp.Remote.Link.Unread.{reconnect_trims_unread}

-- "a\nb"
abbrev text : Bytes
text = 97 ∷ 10 ∷ 98 ∷ []

-- Two of the three bytes are sent.
abbrev half_sent : Outbox
half_sent = record { base = 0; buf = text; sent = 2; limit = 100; eof = false }

half_sent-Tracks : Tracks 0 text half_sent
half_sent-Tracks = record {
  from = omega arith;
  unacked = omega arith;
  unsent = omega arith;
  held = refl;
  bounded = omega arith;
  limit_int = omega arith;
  no_wrap = omega arith;
  line = inl refl;
}

-- The first two bytes were received, and the first was read.
abbrev half_read : Inbuf
half_read = record {
  next = 2;
  buf = 10 ∷ [];
  eof = false;
  consumed = 1;
  line_end = true;
  drained = false;
}

half_read-Holds : Holds 0 (97 ∷ 10 ∷ []) half_read
half_read-Holds = record {
  open_ = refl;
  received = omega arith;
  from = omega arith;
  unread = omega arith;
  held = refl;
  line = unfold Inbuf.last_is_newline in refl;
  no_wrap = omega arith;
}

abbrev lagging : Link
lagging = record {
  outbox = half_sent;
  inbuf = half_read;
  wire = [];
  queued = some 1;
  acks = [];
  out_of_sync = false;
  written = text;
  delivered = 97 ∷ [];
}

lagging-InSync : InSync 0 lagging
lagging-InSync = record {
  tracks = half_sent-Tracks;
  holds = half_read-Holds;
  on_the_way = refl;
  base_le = omega arith;
  queued_le = omega arith;
  acks_le = tt;
  in_order = refl;
  no_gap = refl;
}

abbrev history : List Event
history =
    write text ∷ send ∷ deliver ∷ read 2 ∷ send_ack ∷ write (99 ∷ []) ∷ send ∷ reconnect ∷ ack ∷ []

delivered_in_order_example :
    (l : Link) × run (init 0 100) history ≡ some l
    × l.out_of_sync ≡ false
    × l.delivered ≡ take (length l.delivered) l.written
unfolding payloads
delivered_in_order_example = delivered_in_order 0 100 history (omega arith) (omega arith)

catch_up_example :
    (l : Link) × run (init 0 100) history ≡ some l
    × (l' : Link) × run l (reconnect ∷ rounds 1 4) ≡ some l'
    × l'.delivered ≡ l.written
unfolding payloads
catch_up_example =
    catch_up 0 100 1 4 history (omega arith) (omega arith) (omega arith) (omega arith)

reconnect_trims_unread_example :
    (l' : Link) × step lagging reconnect ≡ some l'
    × l'.inbuf.consumed ≡ 1
    × l'.inbuf.consumed < l'.outbox.base
reconnect_trims_unread_example =
    reconnect_trims_unread 0 1 lagging lagging-InSync (omega arith) (omega arith) (omega arith) refl

read_all-closed_example :
    read_all 4 2 (record half_read { eof = true })
    ≡ (exhausted (record half_read { eof = true }), 10 ∷ [], true)
read_all-closed_example =
    read_all-closed 4 2 (record half_read { eof = true }) (10 ∷ []) refl refl (omega arith)
      (omega arith) (omega arith)

abbrev frame : Frame
frame = record { id = codes "0123456789abcdef"; kind = 1; off = 70000; payload = codes "{}" }

decode-encode_example :
    (decode_data (encode_data frame) ≡ ok frame)
    × (length (encode_data frame) ≡ 25 + length frame.payload)
decode-encode_example = decode-encode frame (omega arith)

decode_cases_example :
    ((length (codes "abc") < 25) × (decode_data (codes "abc") ≡ err short_data_frame))
    ⊎ ((25 ≤ length (codes "abc"))
        × (f : Frame) × (decode_data (codes "abc") ≡ ok f)
        × IsFrame f
        × (encode_data f ≡ codes "abc"))
decode_cases_example = decode_cases (codes "abc") (omega arith)
