-- ===== src/Remote/Link/CatchUp.antt =====
-- After a reconnect the stream catches up: nothing that was written is lost.
use Prim.Native.Nat.{min}
use mathlib.Core.Option
use mathlib.Core.Path.{subst}
use acpp.Prelude.{
  Bytes, ℕ, zero, suc, ◌+◌, ◌-◌, ◌≤◌, ◌<◌, ◌≡◌, refl, ap, ◌∙◌, ◌⊎◌, inl, inr, true, false, some,
  List, [], ◌∷◌, ◌++◌, if◌then◌else◌, ◌==◌, arith, length, Bool-cases, Result, ok, err, u64_mod,
  i64_sign, length-append, take_all,
}
use acpp.Remote.Outbox.{Outbox}
use acpp.Remote.Inbuf
use acpp.Remote.Inbuf.{Inbuf}
use acpp.Remote.Link.{
  Link, Event, send, deliver, read, reconnect, step, run, init, max_chunk, deliver_next, sent_on,
  arrived, read_from,
}
use acpp.Remote.Link.Sync.{InSync, Chain, init-InSync}
use acpp.Remote.Link.Sender.{
  resumed-InSync, sent_on-InSync, next-chunk, chunk, sent_more, chunk_pos, sent-sent_more,
}
use acpp.Remote.Link.Receiver.{read_from-InSync}
use acpp.Remote.Inbuf.Stream.{read-Holds, consumed-write}
use acpp.Remote.Link.Delivery.{payloads, run-InSync, deliver_next-InSync}

-- What the parts of a round leave alone.
record Kept (l l' : Link) : Type 0 where
  outbox : l'.outbox ≡ l.outbox
  written : l'.written ≡ l.written

sent_on_parts :
    (l : Link) (r : Outbox × ℕ × Bytes)
    → (sent_on l r).inbuf ≡ l.inbuf
      × (sent_on l r).written ≡ l.written
      × (sent_on l r).outbox ≡ r.0
      × length (sent_on l r).wire ≤ length l.wire + 1
unfolding sent_on
sent_on_parts l (o, off, c) = (refl, refl, refl, grow (Bool-cases (length c == 0)))
  where
    grow :
        (length c == 0 ≡ true) ⊎ (length c == 0 ≡ false)
        → length (if length c == 0 then l.wire else l.wire ++ (off, c) ∷ []) ≤ length l.wire + 1
    grow (inl e) = rw e (omega arith)
    grow (inr e) = rw e (omega (arith, length-append l.wire ((off, c) ∷ [])))

arrived_last :
    (l : Link) (r : Inbuf × Result Inbuf.Error ℕ)
    → (arrived l [] r).wire ≡ []
      × (arrived l [] r).outbox ≡ l.outbox
      × (arrived l [] r).written ≡ l.written
      × (arrived l [] r).inbuf ≡ r.0
unfolding arrived
arrived_last l (b, ok n) = (refl, refl, refl, refl)
arrived_last l (b, err e) = (refl, refl, refl, refl)

read_from_parts :
    (l : Link) (r : Inbuf × Inbuf.Read)
    → (read_from l r).wire ≡ l.wire
      × (read_from l r).outbox ≡ l.outbox
      × (read_from l r).written ≡ l.written
      × (read_from l r).inbuf ≡ r.0
unfolding read_from
read_from_parts l (b, Inbuf.got c off) = (refl, refl, refl, refl)
read_from_parts l (b, Inbuf.end_of_file) = (refl, refl, refl, refl)
read_from_parts l (b, Inbuf.blocked) = (refl, refl, refl, refl)

deliver_short :
    (l : Link) (w : List (ℕ × Bytes))
    → l.wire ≡ w
    → length w ≤ 1
    → (deliver_next l w).wire ≡ []
      × (deliver_next l w).outbox ≡ l.outbox
      × (deliver_next l w).written ≡ l.written
      × (deliver_next l w).inbuf.consumed ≡ l.inbuf.consumed
unfolding deliver_next
deliver_short l [] e h = (e, refl, refl, refl)
deliver_short l ((off, c) ∷ []) e h =
    let (a, b, d, q) = arrived_last l (Inbuf.write l.inbuf off c) in
    (a, b, d, ap (λ (i : Inbuf). i.consumed) q ∙ consumed-write l.inbuf off c)
deliver_short l ((off, c) ∷ f ∷ w) e h = absurd (omega arith)

-- A frame leaves, arrives, and is read from: `k` is the size of the reader's slice.
pub rounds : ℕ → ℕ → List Event
rounds k zero = []
rounds k (suc n) = send ∷ deliver ∷ read k ∷ rounds k n

module _ (start : ℕ) (l : Link) (v : InSync start l) (idle : l.wire ≡ []) where
  -- The states after one more frame was sent, and after it has arrived.
  sent_one : Link
  sent_one = sent_on l (sent_more start l v max_chunk, l.outbox.sent, chunk start l v max_chunk)

  refilled : Link
  refilled = deliver_next sent_one sent_one.wire

  run-refilled : (es : List Event) → run l (send ∷ deliver ∷ es) ≡ run refilled es
  unfolding run step sent_one refilled
  run-refilled es = rw (ap (Option.map (sent_on l)) (next-chunk start l v max_chunk), run, step)

  sent_one_parts :
      sent_one.inbuf ≡ l.inbuf
      × sent_one.written ≡ l.written
      × sent_one.outbox ≡ sent_more start l v max_chunk
      × length sent_one.wire ≤ 1
  unfolding sent_one
  sent_one_parts =
      let (a, b, c, d) =
        sent_on_parts l (sent_more start l v max_chunk, l.outbox.sent, chunk start l v max_chunk) in
      (a, b, c, omega (arith, d, ap length idle))

  refilled-InSync : InSync start refilled
  unfolding refilled sent_one
  refilled-InSync =
      deliver_next-InSync start sent_one sent_one.wire (sent_on-InSync start l v max_chunk) refl

  refilled_parts :
      refilled.wire ≡ []
      × refilled.outbox ≡ sent_more start l v max_chunk
      × refilled.written ≡ l.written
      × refilled.inbuf.consumed ≡ l.inbuf.consumed
  unfolding refilled
  refilled_parts =
      let (a, b, c, d) = deliver_short sent_one sent_one.wire refl sent_one_parts.3 in
      (
        a,
        b ∙ sent_one_parts.2,
        c ∙ sent_one_parts.1,
        d ∙ ap (λ (i : Inbuf). i.consumed) sent_one_parts.0,
      )

  refilled-next : refilled.inbuf.next ≡ l.outbox.sent + length (chunk start l v max_chunk)
  refilled-next =
      subst (λ w. Chain start refilled.written refilled.inbuf.next w refilled.outbox.sent)
        refilled_parts.0 refilled-InSync.on_the_way
      ∙ ap (λ (o : Outbox). o.sent) refilled_parts.1
      ∙ sent-sent_more start l v max_chunk

-- The state after a read.
module _ (start k : ℕ) (l : Link) (v : InSync start l) where
  after_read : Link
  after_read = read_from l (Inbuf.read l.inbuf k)

  after_read_parts :
      InSync start after_read
      × after_read.wire ≡ l.wire
      × after_read.written ≡ l.written
      × after_read.inbuf.consumed ≡ l.inbuf.consumed + min k (l.inbuf.next - l.inbuf.consumed)
  unfolding after_read
  after_read_parts =
      let (a, b, c, d) = read_from_parts l (Inbuf.read l.inbuf k) in
      (read_from-InSync start l v k, a, c, ap (λ (i : Inbuf). i.consumed) d ∙ moved)
    where
      moved :
          (Inbuf.read l.inbuf k).0.consumed
          ≡ l.inbuf.consumed + min k (l.inbuf.next - l.inbuf.consumed)
      moved = elim (read-Holds start _ l.inbuf k v.holds) [
        | inl (e, q) ↦ rw q (omega arith)
        | inr (_, _, _, c) ↦ c
      ]

module _ (start k : ℕ) (room : 0 < k) where
  round_InSync :
      (l : Link) (es : List Event)
      → InSync start l
      → l.wire ≡ []
      → (l' : Link) × run l (send ∷ deliver ∷ read k ∷ es) ≡ run l' es
        × InSync start l'
        × l'.wire ≡ []
        × l'.written ≡ l.written
        × start + length l.written - l'.inbuf.consumed
          ≤ start + length l.written - l.inbuf.consumed - 1
  unfolding after_read
  round_InSync l es v idle =
      let m = refilled start l v idle in
      let w = refilled-InSync start l v idle in
      let (b, o, c, d) = refilled_parts start l v idle in
      let (x, y, z, t) = after_read_parts start k m w in
      (
        after_read start k m w,
        run-refilled start l v idle (read k ∷ es) ∙ unfold run step in refl,
        x,
        y ∙ b,
        z ∙ c,
        gain (after_read start k m w).inbuf.consumed (length (chunk start l v max_chunk))
            (omega (
              arith,
              t,
              ap (λ n. min k (n - l.inbuf.consumed)) (refilled-next start l v idle),
              ap (λ n. min k (m.inbuf.next - n)) d,
              d,
            ))
            (subst (λ w. Chain start l.written l.inbuf.next w l.outbox.sent) idle v.on_the_way)
            (chunk_pos start l v max_chunk (omega arith)),
      )
    where
      -- A reader that lags gets a byte more: one that was there, or one that was just sent.
      gain :
          (c n : ℕ)
          → c ≡ l.inbuf.consumed + min k (l.outbox.sent + n - l.inbuf.consumed)
          → l.inbuf.next ≡ l.outbox.sent
          → (l.outbox.sent < start + length l.written → 0 < n)
          → start + length l.written - c ≤ start + length l.written - l.inbuf.consumed - 1
      gain c n e f g = grind (arith, room, v.holds.unread)

  rounds-InSync :
      (n : ℕ) (l : Link)
      → InSync start l
      → l.wire ≡ []
      → start + length l.written - l.inbuf.consumed ≤ n
      → (l' : Link) × run l (rounds k n) ≡ some l' × l'.delivered ≡ l.written
  unfolding rounds
  rounds-InSync zero l v idle h = (
    l,
    unfold run in refl,
    v.in_order ∙ take_all (l.inbuf.consumed - start) l.written (omega arith),
  )
  rounds-InSync (suc n) l v idle h =
      let (m, q, w, i, e, less) = round_InSync l (rounds k n) v idle in
      let (l', r, d) = rounds-InSync n m w i (omega (arith, ap length e)) in (l', q ∙ r, d ∙ e)

reconnect_idle :
    (start : ℕ) (l : Link) (v : InSync start l)
    → (l' : Link) × ((es : List Event) → run l (reconnect ∷ es) ≡ run l' es)
      × InSync start l'
      × l'.wire ≡ []
      × l'.written ≡ l.written
unfolding run step
reconnect_idle start l v =
    let (l', q, w, i, e, _, _) = resumed-InSync start l v in
    (l', (λ es. rw (q, run, step)), w, i, e)

-- From every state that a history can reach, a reconnect and enough rounds of sending, delivering
-- and reading bring everything that was written to the reader, whatever was lost before.
pub catch_up :
    (start limit k n : ℕ) (es : List Event)
    → limit < i64_sign
    → start + payloads es < u64_mod
    → 0 < k
    → payloads es ≤ n
    → (l : Link) × run (init start limit) es ≡ some l
      × (l' : Link) × run l (reconnect ∷ rounds k n) ≡ some l'
      × l'.delivered ≡ l.written
catch_up start limit k n es h fits room enough =
    let (l, r, v, le) =
      run-InSync start es (init start limit) (init-InSync start limit (omega arith) h)
        (omega arith) in
    let (m, q, w, i, e) = reconnect_idle start l v in
    let (l', p, d) =
      rounds-InSync start k room n m w i (omega (arith, ap length e, le, w.holds.from)) in
    (l, r, l', q (rounds k n) ∙ p, d ∙ e)
