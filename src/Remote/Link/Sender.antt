-- ===== src/Remote/Link/Sender.antt =====
-- The sender's events keep the two ends in step.
use acpp.Prelude.{
  Bytes, ℕ, suc, ◌+◌, ◌-◌, ◌≤◌, ◌<◌, ◌≡◌, refl, ap, sym, ◌∙◌, inl, inr, false, none, some, List, [],
  ◌∷◌, ◌++◌, if◌then◌else◌, ◌==◌, arith, length, take, drop, Result, ok, err, u64_mod, length-take,
  length-drop, take-min,
}
use acpp.Remote.Outbox
use acpp.Remote.Outbox.{Outbox}
use acpp.Remote.Outbox.Stream.{write_position, Tracks, write-Tracks, unsend-sent}
use acpp.Remote.Outbox.Acks.{ack-Tracks, rewind-Tracks, ack-sent, ack-base_le}
use acpp.Remote.Outbox.Chunks.{next-Tracks, next_state-Tracks}
use acpp.Remote.Inbuf
use acpp.Remote.Inbuf.{Inbuf}
use acpp.Remote.Link.{Link, written_to, sent_on, send_failed, resumed}
use acpp.Remote.Link.Sync.{
  written_prefix, same_prefix, InSync, Chain, Chain-le, Chain-push, Chain-append, IsSlice, AllUpTo,
}

written_to_ok :
    (l : Link) (p : Bytes) (r : Outbox × Result Outbox.Error ℕ) (n : ℕ)
    → r.1 ≡ ok n
    → written_to l p r ≡ record l { outbox = r.0; written = l.written ++ p }
unfolding written_to
written_to_ok l p (o, ok m) n h = refl
written_to_ok l p (o, err e) n h = cc

written_to_err :
    (l : Link) (p : Bytes) (r : Outbox × Result Outbox.Error ℕ) (e : Outbox.Error)
    → r.1 ≡ err e
    → r.0 ≡ l.outbox
    → written_to l p r ≡ l
unfolding written_to
written_to_err l p (o, ok m) e h q = cc
written_to_err l p (o, err f) e h q = ap (λ x. record l { outbox = x }) q

resumed_ok :
    (l : Link) (r : Outbox × Result Outbox.Error (Unit {0}))
    → r.1 ≡ ok tt
    → resumed l r ≡ some (record l { outbox = r.0; wire = []; queued = none; acks = [] })
unfolding resumed
resumed_ok l (o, ok u) h = refl
resumed_ok l (o, err e) h = cc

module _ (start : ℕ) (l : Link) (v : InSync start l) where
  written_InSync :
      (p : Bytes) (o : Outbox)
      → o.sent ≡ l.outbox.sent
      → o.base ≡ l.outbox.base
      → Tracks start (l.written ++ p) o
      → InSync start (record l { outbox = o; written = l.written ++ p })
  written_InSync p o e f t = record {
    tracks = t;
    holds = rw (same_prefix start l v l.inbuf.next p (omega arith)) v.holds;
    on_the_way =
        rw e (Chain-append start l.written p l.inbuf.next l.wire l.outbox.sent v.on_the_way);
    base_le = rw f v.base_le;
    queued_le = v.queued_le;
    acks_le = v.acks_le;
    in_order = v.in_order ∙ sym (same_prefix start l v l.inbuf.consumed p v.holds.unread);
    no_gap = v.no_gap;
  }

  -- A sender's state that differs in the position alone, with frames up to that position.
  sender_InSync :
      (o : Outbox) (w : List (ℕ × Bytes))
      → Tracks start l.written o
      → o.base ≤ l.inbuf.next
      → Chain start l.written l.inbuf.next w o.sent
      → InSync start (record l { outbox = o; wire = w })
  sender_InSync o w t b c = record {
    tracks = t;
    holds = v.holds;
    on_the_way = c;
    base_le = b;
    queued_le = v.queued_le;
    acks_le = v.acks_le;
    in_order = v.in_order;
    no_gap = v.no_gap;
  }

module _ (start : ℕ) (l : Link) (v : InSync start l) (max : ℕ) where
  -- The chunk that `next` hands out continues the stream at the send position.
  pub chunk : Bytes
  chunk = take max (drop (l.outbox.sent - start) l.written)

  pub sent_more : Outbox
  sent_more = record l.outbox { sent = l.outbox.sent + length chunk }

  chunk-IsSlice : IsSlice start l.written l.outbox.sent chunk
  unfolding chunk
  chunk-IsSlice = (
    sym (
        ap (λ n. take n (drop (l.outbox.sent - start) l.written)) (length-take max _)
        ∙ take-min max _),
    omega (arith, v.tracks.from, v.tracks.unacked),
    omega (
      arith,
      length-take max (drop (l.outbox.sent - start) l.written),
      length-drop (l.outbox.sent - start) l.written,
      v.tracks.unsent,
      v.tracks.from,
      v.tracks.unacked,
    ),
  )

  pub sent-sent_more : sent_more.sent ≡ l.outbox.sent + length chunk
  unfolding sent_more
  sent-sent_more = refl

  pub chunk_pos : 0 < max → l.outbox.sent < start + length l.written → 0 < length chunk
  unfolding chunk
  chunk_pos h k = omega (
    arith,
    length-take max (drop (l.outbox.sent - start) l.written),
    length-drop (l.outbox.sent - start) l.written,
    v.tracks.from,
    v.tracks.unacked,
  )

  pub next-chunk : Outbox.next l.outbox max ≡ some (sent_more, l.outbox.sent, chunk)
  unfolding chunk sent_more
  next-chunk = next-Tracks start max l.written l.outbox v.tracks

  sent_more-Tracks : Tracks start l.written sent_more
  unfolding chunk sent_more
  sent_more-Tracks = next_state-Tracks start max l.written l.outbox v.tracks

  sent_wire :
      (c : Bytes)
      → IsSlice start l.written l.outbox.sent c
      → Chain start l.written l.inbuf.next
          (if length c == 0 then l.wire else l.wire ++ (l.outbox.sent, c) ∷ [])
          (l.outbox.sent + length c)
  sent_wire [] q =
      let same : l.outbox.sent + 0 ≡ l.outbox.sent = omega arith in rw same v.on_the_way
  sent_wire (b ∷ c) q =
      let more : (suc (length c) == 0) ≡ false = ground arith in
      rw more (Chain-push start l.written l.inbuf.next l.wire l.outbox.sent (b ∷ c) v.on_the_way q)

  pub sent_on-InSync : InSync start (sent_on l (sent_more, l.outbox.sent, chunk))
  unfolding sent_on sent_more
  sent_on-InSync =
      sender_InSync start l v sent_more _ sent_more-Tracks v.base_le (sent_wire chunk chunk-IsSlice)

  pub send_failed-InSync : InSync start (send_failed l (sent_more, l.outbox.sent, chunk))
  unfolding send_failed chunk sent_more
  send_failed-InSync = rw (unsend-sent l.outbox (length chunk) v.tracks.unacked) v

module _ (start : ℕ) (l : Link) (v : InSync start l) where
  pub written_to-InSync :
      (p : Bytes)
      → start + length l.written + length p < u64_mod
      → InSync start (written_to l p (Outbox.write l.outbox p))
  written_to-InSync p h = elim (write-Tracks start l.written p l.outbox v.tracks h) [
    | inl (res, t) ↦
        rw (written_to_ok l p (Outbox.write l.outbox p) _ res) (
          written_InSync start l v p _ (write_position l.outbox p).0 (write_position l.outbox p).1
            t)
    | inr (inl (same, res, _)) ↦ rw (written_to_err l p (Outbox.write l.outbox p) _ res same) v
    | inr (inr (same, res, _)) ↦ rw (written_to_err l p (Outbox.write l.outbox p) _ res same) v
  ]

  pub acked_InSync :
      (off : ℕ) (rest : List ℕ)
      → off ≤ l.inbuf.consumed
      → AllUpTo l.inbuf.consumed rest
      → InSync start (record l { outbox = Outbox.ack l.outbox off; acks = rest })
  acked_InSync off rest h q = record {
    tracks = ack-Tracks start l.written l.outbox off v.tracks;
    holds = v.holds;
    on_the_way = rw (ack-sent start l.written l.outbox off v.tracks before) v.on_the_way;
    base_le =
        ack-base_le start l.written l.outbox off l.inbuf.next v.tracks
          (omega (arith, v.holds.unread)) v.base_le;
    queued_le = v.queued_le;
    acks_le = q;
    in_order = v.in_order;
    no_gap = v.no_gap;
  }
    where
      before : off ≤ l.outbox.sent
      before = omega (
        arith,
        v.holds.unread,
        Chain-le start l.written l.inbuf.next l.wire l.outbox.sent v.on_the_way,
      )

  pub resumed-InSync :
      (l' : Link) × (resumed l (Outbox.rewind l.outbox (Inbuf.received l.inbuf)) ≡ some l')
      × InSync start l'
      × l'.wire ≡ []
      × l'.written ≡ l.written
      × l'.inbuf.consumed ≡ l.inbuf.consumed
      × l'.outbox ≡ (Outbox.rewind l.outbox l.inbuf.next).0
  resumed-InSync = elim (rewind-Tracks start l.written l.outbox l.inbuf.next v.tracks) [
    | inr (out, _, _) ↦ absurd (omega (arith, v.base_le, written_prefix start l v))
    | inl (_, _, res, e, t) ↦ (
      _,
      resumed_ok l _ res,
      record {
        tracks = t;
        holds = v.holds;
        on_the_way = sym e;
        base_le = omega (arith, t.unacked);
        queued_le = tt;
        acks_le = tt;
        in_order = v.in_order;
        no_gap = v.no_gap;
      },
      refl,
      refl,
      refl,
      refl,
    )
  ]
