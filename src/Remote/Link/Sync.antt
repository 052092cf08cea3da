-- ===== src/Remote/Link/Sync.antt =====
-- The two ends agree: everything on the way continues what the receiver holds, up to the sender's
-- position.
use acpp.Prelude.{
  Bytes, ℕ, ◌+◌, ◌-◌, ◌≤◌, ◌<◌, ◌≡◌, refl, ap, sym, ◌∙◌, false, Option, none, some, List, [], ◌∷◌,
  ◌++◌, arith, length, take, drop, u64_mod, i64_sign, length-append, length-take, length-drop,
  drop-append_le, take-append_le, take_all,
}
use acpp.Remote.Outbox
use acpp.Remote.Outbox.{Outbox}
use acpp.Remote.Outbox.Stream.{Tracks, new_outbox-Tracks}
use acpp.Remote.Inbuf
use acpp.Remote.Inbuf.{Inbuf}
use acpp.Remote.Inbuf.Stream.{Holds, new_inbuf-Holds}
use acpp.Remote.Link.{Link, init}

-- `c` is the part of the stream at offset `off`.
abbrev pub IsSlice : ℕ → Bytes → ℕ → Bytes → Type 0
IsSlice start s off c =
    c ≡ take (length c) (drop (off - start) s) × start ≤ off × off + length c ≤ start + length s

-- The frames lead from offset `a` to offset `e` without a gap.
abbrev pub Chain : ℕ → Bytes → ℕ → List (ℕ × Bytes) → ℕ → Type 0
Chain start s a [] e = a ≡ e
Chain start s a ((off, c) ∷ w) e =
    off ≡ a × IsSlice start s off c × Chain start s (a + length c) w e

abbrev pub AllUpTo : ℕ → List ℕ → Type 0
AllUpTo n [] = Unit
AllUpTo n (a ∷ l) = a ≤ n × AllUpTo n l

abbrev pub UpTo : ℕ → Option ℕ → Type 0
UpTo n none = Unit
UpTo n (some a) = a ≤ n

pub record InSync (start : ℕ) (l : Link) : Type 0 where
  pub tracks : Tracks start l.written l.outbox
  pub holds : Holds start (take (l.inbuf.next - start) l.written) l.inbuf
  pub on_the_way : Chain start l.written l.inbuf.next l.wire l.outbox.sent
  pub base_le : l.outbox.base ≤ l.inbuf.next
  pub queued_le : UpTo l.inbuf.consumed l.queued
  pub acks_le : AllUpTo l.inbuf.consumed l.acks
  pub in_order : l.delivered ≡ take (l.inbuf.consumed - start) l.written
  pub no_gap : l.out_of_sync ≡ false

pub Chain-le :
    (start : ℕ) (s : Bytes) (a : ℕ) (w : List (ℕ × Bytes)) (e : ℕ) → Chain start s a w e → a ≤ e
Chain-le start s a [] e h = omega arith
Chain-le start s a ((off, c) ∷ w) e (p, q, h) = omega (arith, Chain-le start s (a + length c) w e h)

pub Chain-push :
    (start : ℕ) (s : Bytes) (a : ℕ) (w : List (ℕ × Bytes)) (e : ℕ) (c : Bytes)
    → Chain start s a w e
    → IsSlice start s e c
    → Chain start s a (w ++ (e, c) ∷ []) (e + length c)
Chain-push start s a [] e c h q = (sym h, q, omega arith)
Chain-push start s a ((off, d) ∷ w) e c (p, r, h) q =
    (p, r, Chain-push start s (a + length d) w e c h q)

IsSlice-append :
    (start : ℕ) (s p : Bytes) (off : ℕ) (c : Bytes)
    → IsSlice start s off c
    → IsSlice start (s ++ p) off c
IsSlice-append start s p off c (e, lo, hi) = (
  e
      ∙ sym (
          ap (take (length c)) (drop-append_le (off - start) s p (omega arith))
          ∙ take-append_le (length c) (drop (off - start) s) p
              (omega (arith, length-drop (off - start) s))),
  lo,
  omega (arith, length-append s p),
)

pub Chain-append :
    (start : ℕ) (s p : Bytes) (a : ℕ) (w : List (ℕ × Bytes)) (e : ℕ)
    → Chain start s a w e
    → Chain start (s ++ p) a w e
Chain-append start s p a [] e h = h
Chain-append start s p a ((off, c) ∷ w) e (q, r, h) =
    (q, IsSlice-append start s p off c r, Chain-append start s p (a + length c) w e h)

pub AllUpTo-push : (n k : ℕ) (l : List ℕ) → AllUpTo n l → k ≤ n → AllUpTo n (l ++ k ∷ [])
AllUpTo-push n k [] h q = (q, tt)
AllUpTo-push n k (a ∷ l) (p, h) q = (p, AllUpTo-push n k l h q)

pub AllUpTo-mono : (m n : ℕ) (l : List ℕ) → m ≤ n → AllUpTo m l → AllUpTo n l
AllUpTo-mono m n [] h q = tt
AllUpTo-mono m n (a ∷ l) h (p, q) = (omega arith, AllUpTo-mono m n l h q)

pub UpTo-mono : (m n : ℕ) (o : Option ℕ) → m ≤ n → UpTo m o → UpTo n o
UpTo-mono m n none h q = tt
UpTo-mono m n (some a) h q = omega arith

pub init-InSync :
    (start limit : ℕ) → start < u64_mod → limit < i64_sign → InSync start (init start limit)
unfolding Outbox.new_outbox Inbuf.new_inbuf
init-InSync start limit h k = record {
  tracks = new_outbox-Tracks start limit h k;
  holds = rw nothing (new_inbuf-Holds start h);
  on_the_way = refl;
  base_le = omega arith;
  queued_le = tt;
  acks_le = tt;
  in_order = sym nothing;
  no_gap = refl;
}
  where
    nothing : take {A = ℕ} (start - start) [] ≡ []
    nothing = take_all (start - start) [] (omega arith)

module _ (start : ℕ) (l : Link) (v : InSync start l) where
  pub written_prefix :
      length (take (l.inbuf.next - start) l.written) ≡ l.inbuf.next - start
      × start ≤ l.inbuf.next
      × l.inbuf.next ≤ start + length l.written
  written_prefix = omega (
    arith,
    length-take (l.inbuf.next - start) l.written,
    v.holds.received,
    v.tracks.unsent,
    Chain-le start l.written l.inbuf.next l.wire l.outbox.sent v.on_the_way,
  )

  -- A longer history has what the receiver holds at the same place.
  pub same_prefix :
      (n : ℕ) (p : Bytes)
      → n ≤ l.inbuf.next
      → take (n - start) (l.written ++ p) ≡ take (n - start) l.written
  same_prefix n p h = take-append_le (n - start) l.written p (omega (arith, written_prefix))
