-- ===== src/Remote/Link/Unread.antt =====
-- What a reconnect does to bytes that were received and not read.
use acpp.Prelude.{newline, ℕ, ◌-◌, ◌≤◌, ◌<◌, ◌≡◌, ap, some, arith, get_elem?}
use acpp.Remote.Outbox.{Outbox}
use acpp.Remote.Outbox.Acks.{rewind_trims}
use acpp.Remote.Link.{Link, reconnect, step}
use acpp.Remote.Link.Sync.{InSync, written_prefix}
use acpp.Remote.Link.Sender.{resumed-InSync}

-- If the sender still holds a line that was received and not read, a reconnect drops it from the
-- sender's buffer: the buffer then starts after bytes that no reader has consumed.
pub reconnect_trims_unread :
    (start k : ℕ) (l : Link)
    → InSync start l
    → l.inbuf.consumed ≤ k
    → k < l.inbuf.next
    → l.outbox.base ≤ k
    → get_elem? l.written (k - start) ≡ some newline
    → (l' : Link) × step l reconnect ≡ some l'
      × l'.inbuf.consumed ≡ l.inbuf.consumed
      × l'.inbuf.consumed < l'.outbox.base
unfolding step
reconnect_trims_unread start k l v unread received held line =
    let (l', q, w, _, _, c, o) = resumed-InSync start l v in
    (
      l',
      q,
      c,
      omega (
        arith,
        c,
        ap (λ (x : Outbox). x.base) o,
        rewind_trims start l.written l.outbox l.inbuf.next k v.tracks (written_prefix start l v).2
            held received line,
      ),
    )
