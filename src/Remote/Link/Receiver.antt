-- ===== src/Remote/Link/Receiver.antt =====
-- The receiver's events keep the two ends in step.
use Prim.Native.Nat.{min}
use acpp.Prelude.{
  Bytes, ℕ, ◌+◌, ◌-◌, ◌≡◌, refl, ap, sym, ◌∙◌, inl, inr, some, List, ◌∷◌, ◌++◌, arith, length, take,
  drop, Result, ok, err, length-append, take-add, take-take,
}
use acpp.Remote.Inbuf
use acpp.Remote.Inbuf.{Inbuf}
use acpp.Remote.Inbuf.Stream.{Holds, write-Holds, read-Holds, consumed-write, next-read}
use acpp.Remote.Link.{Link, arrived, read_from}
use acpp.Remote.Link.Sync.{written_prefix, InSync, Chain, IsSlice, AllUpTo-mono}

arrived_ok :
    (l : Link) (w : List (ℕ × Bytes)) (r : Inbuf × Result Inbuf.Error ℕ) (n : ℕ)
    → r.1 ≡ ok n
    → arrived l w r ≡ record l { inbuf = r.0; wire = w }
unfolding arrived
arrived_ok l w (b, ok m) n h = refl
arrived_ok l w (b, err e) n h = cc

read_from-got :
    (l : Link) (r : Inbuf × Inbuf.Read) (c : Bytes) (off : ℕ)
    → r.1 ≡ Inbuf.got c off
    → read_from l r ≡ record l { inbuf = r.0; queued = some off; delivered = l.delivered ++ c }
unfolding read_from
read_from-got l (b, Inbuf.got d k) c off h = ground arith
read_from-got l (b, Inbuf.blocked) c off h = cc
read_from-got l (b, Inbuf.end_of_file) c off h = cc

module _ (start : ℕ) (l : Link) (v : InSync start l) where
  -- The receiver holds `c` more, and the frames that are left continue from there.
  received_InSync :
      (c : Bytes) (b : Inbuf) (w : List (ℕ × Bytes))
      → Holds start (take (l.inbuf.next - start) l.written ++ c) b
      → IsSlice start l.written l.inbuf.next c
      → b.consumed ≡ l.inbuf.consumed
      → Chain start l.written (l.inbuf.next + length c) w l.outbox.sent
      → InSync start (record l { inbuf = b; wire = w })
  received_InSync c b w h (q, lo, hi) same rest = record {
    tracks = v.tracks;
    holds = rw (more) h;
    on_the_way = rw next' rest;
    base_le = omega (arith, v.base_le, next');
    queued_le = rw same v.queued_le;
    acks_le = rw same v.acks_le;
    in_order = rw same v.in_order;
    no_gap = v.no_gap;
  }
    where
      next' : b.next ≡ l.inbuf.next + length c
      next' = omega (
        arith,
        h.received,
        length-append (take (l.inbuf.next - start) l.written) c,
        written_prefix start l v,
      )

      more : take (b.next - start) l.written ≡ take (l.inbuf.next - start) l.written ++ c
      more =
          ap (λ n. take n l.written) (omega (arith, next', lo))
          ∙ take-add (l.inbuf.next - start) (length c) l.written
          ∙ ap (λ x. take (l.inbuf.next - start) l.written ++ x) (sym q)

  pub arrived-InSync :
      (off : ℕ) (c : Bytes) (w : List (ℕ × Bytes))
      → Chain start l.written l.inbuf.next ((off, c) ∷ w) l.outbox.sent
      → InSync start (arrived l w (Inbuf.write l.inbuf off c))
  unfolding arrived
  arrived-InSync off c w (e, q, h) =
      elim (write-Holds start (take (l.inbuf.next - start) l.written) c l.inbuf off v.holds
        (omega (arith, q.2, v.tracks.no_wrap))) [
          | inl (gap, _) ↦ absurd (omega arith)
          | inr (_, hold, res) ↦
              rw (arrived_ok l w (Inbuf.write l.inbuf off c) _ res) (
                received_InSync c _ w (rw same at hold) (rw e at q) (consumed-write l.inbuf off c)
                  h)
        ]
    where
      same : drop (l.inbuf.next - off) c ≡ c
      same = let none_held : l.inbuf.next - off ≡ 0 = omega arith in rw none_held

  -- The reader got the next bytes of the stream.
  consumed_InSync :
      (n : ℕ) (b : Inbuf)
      → Holds start (take (l.inbuf.next - start) l.written) b
      → b.next ≡ l.inbuf.next
      → b.consumed ≡ l.inbuf.consumed + min n (l.inbuf.next - l.inbuf.consumed)
      → InSync start (record l {
        inbuf = b;
        queued = some b.consumed;
        delivered =
            l.delivered
            ++ take n (drop (l.inbuf.consumed - start) (take (l.inbuf.next - start) l.written));
      })
  consumed_InSync n b h e c = record {
    tracks = v.tracks;
    holds = simp e h;
    on_the_way = rw e v.on_the_way;
    base_le = rw e v.base_le;
    queued_le = omega arith;
    acks_le = AllUpTo-mono l.inbuf.consumed b.consumed l.acks (omega arith) v.acks_le;
    in_order = longer;
    no_gap = v.no_gap;
  }
    where
      got : Bytes
      got = take (l.inbuf.next - start) l.written

      before : l.delivered ≡ take (l.inbuf.consumed - start) got
      before =
          v.in_order
          ∙ ap (λ k. take k l.written) (omega (arith, v.holds.unread))
          ∙ sym (take-take (l.inbuf.consumed - start) (l.inbuf.next - start) l.written)

      longer :
          l.delivered ++ take n (drop (l.inbuf.consumed - start) got)
          ≡ take (b.consumed - start) l.written
      longer =
          ap (λ d. d ++ take n (drop (l.inbuf.consumed - start) got)) before
          ∙ sym (take-add (l.inbuf.consumed - start) n got)
          ∙ take-take (l.inbuf.consumed - start + n) (l.inbuf.next - start) l.written
          ∙ ap (λ k. take k l.written) (omega (arith, c, v.holds.unread, v.holds.from))

  pub read_from-InSync : (n : ℕ) → InSync start (read_from l (Inbuf.read l.inbuf n))
  read_from-InSync n =
      elim (read-Holds start (take (l.inbuf.next - start) l.written) l.inbuf n v.holds) [
        | inl (_, q) ↦ rw q (unfold read_from in v)
        | inr (_, h, got, c) ↦
            rw (read_from-got l (Inbuf.read l.inbuf n) _ _ got)
              (consumed_InSync n _ h (next-read l.inbuf n) c)
      ]
