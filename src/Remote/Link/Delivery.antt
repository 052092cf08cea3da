-- ===== src/Remote/Link/Delivery.antt =====
-- What the two ends guarantee to the reader, whatever is lost on the way.
use mathlib.Core.Option
use mathlib.Core.Path.{subst}
use acpp.Prelude.{
  Bytes, ℕ, ◌+◌, ◌-◌, ◌≤◌, ◌<◌, ◌≡◌, refl, ap, false, Option, none, some, List, [], ◌∷◌, arith,
  length, take, u64_mod, i64_sign, length-append, take-length-take,
}
use acpp.Remote.Link.{
  Link, Event, write, send, send_fails, deliver, read, send_ack, ack, reconnect, step, run, init,
  max_chunk, deliver_next, send_queued, ack_next, sent_on, send_failed,
}
use acpp.Remote.Link.Sync.{InSync, Chain, AllUpTo, UpTo, AllUpTo-push, init-InSync}
use acpp.Remote.Link.Sender.{
  written_to-InSync, acked_InSync, resumed-InSync, sent_on-InSync, send_failed-InSync, next-chunk,
}
use acpp.Remote.Link.Receiver.{arrived-InSync, read_from-InSync}

-- The bytes that an event asks to write.
pub payload : Event → ℕ
payload (write p) = length p
payload send = 0
payload send_fails = 0
payload deliver = 0
payload (read n) = 0
payload send_ack = 0
payload ack = 0
payload reconnect = 0

unfoldable pub payloads : List Event → ℕ
unfolding payload
payloads [] = 0
payloads (e ∷ es) = payload e + payloads es

module _ (start : ℕ) where
  -- An event went through, and the two ends agree afterwards.
  abbrev Steps : Link → Event → Type 0
  Steps l e = (l' : Link) × step l e ≡ some l' × InSync start l'

  pub deliver_next-InSync :
      (l : Link) (w : List (ℕ × Bytes))
      → InSync start l
      → l.wire ≡ w
      → InSync start (deliver_next l w)
  unfolding deliver_next
  deliver_next-InSync l [] v e = v
  deliver_next-InSync l ((off, c) ∷ w) v e =
      arrived-InSync start l v off c w
        (subst (λ x. Chain start l.written l.inbuf.next x l.outbox.sent) e v.on_the_way)

  send_queued-InSync :
      (l : Link) (q : Option ℕ) → InSync start l → l.queued ≡ q → InSync start (send_queued l q)
  unfolding send_queued
  send_queued-InSync l none v e = v
  send_queued-InSync l (some off) v e = record {
    tracks = v.tracks;
    holds = v.holds;
    on_the_way = v.on_the_way;
    base_le = v.base_le;
    queued_le = tt;
    acks_le =
        AllUpTo-push l.inbuf.consumed off l.acks v.acks_le
          (subst (UpTo l.inbuf.consumed) e v.queued_le);
    in_order = v.in_order;
    no_gap = v.no_gap;
  }

  ack_next-InSync :
      (l : Link) (q : List ℕ) → InSync start l → l.acks ≡ q → InSync start (ack_next l q)
  unfolding ack_next
  ack_next-InSync l [] v e = v
  ack_next-InSync l (off ∷ rest) v e =
      let h : off ≤ l.inbuf.consumed × AllUpTo l.inbuf.consumed rest =
        subst (AllUpTo l.inbuf.consumed) e v.acks_le in
      acked_InSync start l v off rest h.0 h.1

  pub step-InSync :
      (l : Link) (e : Event)
      → InSync start l
      → start + length l.written + payload e < u64_mod
      → Steps l e
  unfolding step payload
  step-InSync l (write p) v h = (_, refl, written_to-InSync start l v p h)
  step-InSync l send v h = (
    _,
    ap (Option.map (sent_on l)) (next-chunk start l v max_chunk),
    sent_on-InSync start l v max_chunk,
  )
  step-InSync l send_fails v h = (
    _,
    ap (Option.map (send_failed l)) (next-chunk start l v max_chunk),
    send_failed-InSync start l v max_chunk,
  )
  step-InSync l deliver v h = (_, refl, deliver_next-InSync l l.wire v refl)
  step-InSync l (read n) v h = (_, refl, read_from-InSync start l v n)
  step-InSync l send_ack v h = (_, refl, send_queued-InSync l l.queued v refl)
  step-InSync l ack v h = (_, refl, ack_next-InSync l l.acks v refl)
  step-InSync l reconnect v h = let (l', q, w, _, _, _, _) = resumed-InSync start l v in (l', q, w)

  length-written :
      (l l' : Link) (e : Event)
      → step l e ≡ some l'
      → length l'.written ≤ length l.written + payload e
  unfolding step payload
  length-written l l' (write p) h = ground (arith, length-append l.written p)
  length-written l l' e h = ground arith

  pub run-InSync :
      (es : List Event) (l : Link)
      → InSync start l
      → start + length l.written + payloads es < u64_mod
      → (l' : Link) × run l es ≡ some l'
        × InSync start l'
        × length l'.written ≤ length l.written + payloads es
  unfolding run payloads
  run-InSync [] l v h = (l, refl, v, omega arith)
  run-InSync (e ∷ es) l v h =
      let (m, q, w) = step-InSync l e v (omega arith) in
      let (l', r, x, y) = run-InSync es m w (omega (arith, length-written l m e q)) in
      (l', rw (q, run) r, x, omega (arith, length-written l m e q, y))

-- Whatever is written, sent, lost with a connection, resent and read, and in whatever order, no
-- panic and no refused resume stops the stream, the receiver never sees a gap, and the reader has
-- got a prefix of what was written: every byte once and in order. The history's writes must stay
-- below 2^64 bytes.
pub delivered_in_order :
    (start limit : ℕ) (es : List Event)
    → limit < i64_sign
    → start + payloads es < u64_mod
    → (l : Link) × run (init start limit) es ≡ some l
      × l.out_of_sync ≡ false
      × l.delivered ≡ take (length l.delivered) l.written
delivered_in_order start limit es h k =
    let (l, r, v, _) =
      run-InSync start es (init start limit) (init-InSync start limit (omega arith) h)
        (omega arith) in
    (l, r, v.no_gap, take-length-take (l.inbuf.consumed - start) l.written l.delivered v.in_order)
