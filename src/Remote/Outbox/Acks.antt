-- ===== src/Remote/Outbox/Acks.antt =====
-- Acknowledgements, and the rewind to what the peer holds after a reconnect.
use Prim.Native.Nat.{max}
use native.Mathlib.Decide.{dec_lt}
use acpp.Prelude.{
  Bytes, newline, get_elem?-drop, get_elem?-take_lt, ℕ, ◌+◌, ◌-◌, ◌≤◌, ◌<◌, ◌≡◌, refl, ap, sym, ◌∙◌,
  ◌⊎◌, inl, inr, Option, none, some, arith, length, take, drop, get_elem?, ok, err, add64,
  length-take, length-drop, drop-drop, drop-take, get_elem?-drop, get_elem?-take_lt,
  lt_of_get_elem?,
}
use acpp.Remote.Bytes.{
  last_index_byte, last_index_byte-hit, last_index_byte-rest, last_index_byte-none,
}
use acpp.Remote.Outbox.{Outbox, cannot_resume, ack, trim, rewind}
use acpp.Remote.Outbox.Stream.{Tracks, resent, end-buf, add64-end}

trimmed :
    (start : ℕ) (s : Bytes) (o : Outbox) (n cut : ℕ)
    → Tracks start s o
    → o.base + n ≤ o.sent
    → last_index_byte (take n o.buf) newline ≡ some cut
    → Tracks start s (trim o (some cut))
unfolding trim
trimmed start s o n cut t le e = record {
  from = omega (arith, t.from, base');
  unacked = omega (arith, below, base');
  unsent = t.unsent;
  held =
      ap (drop (cut + 1)) t.held
      ∙ drop-drop (o.base - start) (cut + 1) s
      ∙ ap (λ k. drop k s) moved;
  bounded = omega (arith, length-drop (cut + 1) o.buf, t.bounded);
  limit_int = t.limit_int;
  no_wrap = t.no_wrap;
  line = inr (
      ap (get_elem? s) (omega (arith, moved))
      ∙ sym (get_elem?-drop (o.base - start) cut s)
      ∙ ap (λ b. get_elem? b cut) (sym t.held)
      ∙ hit);
}
  where
    found : get_elem? (take n o.buf) cut ≡ some newline
    found = last_index_byte-hit (take n o.buf) newline cut e

    below : (cut < n) × (cut < length o.buf)
    below = omega (arith, lt_of_get_elem? (take n o.buf) cut newline found, length-take n o.buf)

    hit : get_elem? o.buf cut ≡ some newline
    hit = sym (get_elem?-take_lt n cut o.buf below.0) ∙ found

    base' : add64 o.base (cut + 1) ≡ o.base + (cut + 1)
    base' = omega (arith, below, end-buf start s o t, t.no_wrap)

    moved : (o.base - start) + (cut + 1) ≡ add64 o.base (cut + 1) - start
    moved = omega (arith, base', t.from)

-- What a trim up to an acknowledged offset leaves.
record Trims (start : ℕ) (s : Bytes) (off : ℕ) (o : Outbox) : Type 0 where
  tracks : Tracks start s o
  reached : off ≤ o.sent
  base_le : o.base ≤ off
  no_line : last_index_byte (take (off - o.base) o.buf) newline ≡ none

trim-Trims :
    (start : ℕ) (s : Bytes) (o : Outbox) (off : ℕ) (at : Option ℕ)
    → Tracks start s o
    → o.base ≤ off
    → off ≤ o.sent
    → last_index_byte (take (off - o.base) o.buf) newline ≡ at
    → Trims start s off (trim o at)
trim-Trims start s o off none t lo hi e =
    unfold trim in record { tracks = t; reached = hi; base_le = lo; no_line = e }
trim-Trims start s o off (some cut) t lo hi e = record {
  tracks = trimmed start s o (off - o.base) cut t (omega (arith)) e;
  reached = unfold trim in hi;
  base_le = unfold trim in omega (arith, base', inside.0);
  no_line =
      unfold trim in
      ap (λ k. last_index_byte (take k (drop (cut + 1) o.buf)) newline)
        (omega (arith, base', inside.0))
      ∙ ap (λ b. last_index_byte b newline) (sym (drop-take (cut + 1) (off - o.base) o.buf))
      ∙ last_index_byte-rest (take (off - o.base) o.buf) newline cut e;
}
  where
    inside : (cut < off - o.base) × (cut < length o.buf)
    inside = omega (
      arith,
      lt_of_get_elem? (take (off - o.base) o.buf) cut newline (last_index_byte-hit _ newline cut e),
      length-take (off - o.base) o.buf,
    )

    base' : add64 o.base (cut + 1) ≡ o.base + (cut + 1)
    base' = omega (arith, inside, end-buf start s o t, t.no_wrap)

ack_cases :
    (o : Outbox) (off : ℕ)
    → ((off ≤ o.base ⊎ add64 o.base (length o.buf) < off) × ack o off ≡ o)
      ⊎ (o.base < off
          × off ≤ add64 o.base (length o.buf)
          × ack o off
            ≡ trim
                (record o { sent = max o.sent off })
                (last_index_byte (take (off - o.base) o.buf) newline))
unfolding ack
ack_cases o off = ground arith

-- An acknowledgement inside the buffer.
ack-Trims :
    (start : ℕ) (s : Bytes) (o : Outbox) (off : ℕ)
    → Tracks start s o
    → o.base < off
    → off ≤ start + length s
    → Trims start s off (ack o off)
ack-Trims start s o off t lo hi = elim (ack_cases o off) [
  | inl (out, _) ↦ absurd (omega (arith, add64-end start s o t))
  | inr (_, _, q) ↦ rw q (
      trim-Trims start s (record o { sent = max o.sent off }) off _
        (resent start s o (max o.sent off) t (omega (arith, t.unacked)) (omega (arith, t.unsent)))
        (omega arith) (omega arith) refl)
]

-- An acknowledgement, valid or not, keeps the outbox a window on the stream that starts at a line.
pub ack-Tracks :
    (start : ℕ) (s : Bytes) (o : Outbox) (off : ℕ) → Tracks start s o → Tracks start s (ack o off)
ack-Tracks start s o off t = elim (ack_cases o off) [
  | inl (_, q) ↦ rw q t
  | inr (lo, hi, _) ↦ (ack-Trims start s o off t lo (omega (arith, add64-end start s o t))).tracks
]

-- After an acknowledgement inside the buffer, everything before its offset counts as sent, and no
-- complete line before it is left in the buffer.
pub ack_trims :
    (start : ℕ) (s : Bytes) (o : Outbox) (off : ℕ)
    → Tracks start s o
    → o.base < off
    → off ≤ start + length s
    → off ≤ (ack o off).sent
      × (ack o off).base ≤ off
      × last_index_byte (take (off - (ack o off).base) (ack o off).buf) newline ≡ none
ack_trims start s o off t lo hi =
    let r = ack-Trims start s o off t lo hi in (r.reached, r.base_le, r.no_line)

rewind_cases :
    (o : Outbox) (off : ℕ)
    → ((off < o.base ⊎ add64 o.base (length o.buf) < off) × rewind o off ≡ (o, err cannot_resume))
      ⊎ (o.base ≤ off
          × off ≤ add64 o.base (length o.buf)
          × rewind o off ≡ (record (ack o off) { sent = off }, ok tt))
unfolding rewind
rewind_cases o off = ground arith

ack-base-le :
    (start : ℕ) (s : Bytes) (o : Outbox) (off : ℕ)
    → Tracks start s o
    → o.base ≤ off
    → off ≤ start + length s
    → (ack o off).base ≤ off
ack-base-le start s o off t lo hi = elim (ack_cases o off) [
  | inl (_, q) ↦ rw q lo
  | inr (lt, _, _) ↦ (ack-Trims start s o off t lt hi).base_le
]

-- A rewind succeeds exactly for an offset that the buffer holds, and then sends from there on;
-- otherwise it changes nothing.
pub rewind-Tracks :
    (start : ℕ) (s : Bytes) (o : Outbox) (off : ℕ)
    → Tracks start s o
    → (o.base ≤ off
        × off ≤ start + length s
        × (rewind o off).1 ≡ ok tt
        × (rewind o off).0.sent ≡ off
        × Tracks start s (rewind o off).0)
      ⊎ ((off < o.base ⊎ start + length s < off)
          × (rewind o off).1 ≡ err cannot_resume
          × (rewind o off).0 ≡ o)
rewind-Tracks start s o off t = elim (rewind_cases o off) [
  | inl (out, q) ↦ inr (omega (arith, add64-end start s o t), rw q, rw q)
  | inr (lo, hi, q) ↦
      let hi' : off ≤ start + length s = omega (arith, add64-end start s o t) in
      inl (
        lo,
        hi',
        rw q,
        rw q,
        rw q (
            resent start s (ack o off) off (ack-Tracks start s o off t)
              (ack-base-le start s o off t lo hi') hi'),
      )
]

-- An acknowledgement of what was sent moves no send position, and the buffer's start never past it.
pub ack-sent :
    (start : ℕ) (s : Bytes) (o : Outbox) (off : ℕ)
    → Tracks start s o
    → off ≤ o.sent
    → (ack o off).sent ≡ o.sent
unfolding ack trim
ack-sent start s o off t h = ground arith

pub ack-base_le :
    (start : ℕ) (s : Bytes) (o : Outbox) (off k : ℕ)
    → Tracks start s o
    → off ≤ k
    → o.base ≤ k
    → (ack o off).base ≤ k
ack-base_le start s o off k t h j = elim (ack_cases o off) [
  | inl (_, q) ↦ rw q j
  | inr (lo, hi, _) ↦
      omega (arith, (ack-Trims start s o off t lo (omega (arith, add64-end start s o t))).base_le)
]

-- A rewind trims like an acknowledgement: no complete line before its offset stays.
pub rewind_trims :
    (start : ℕ) (s : Bytes) (o : Outbox) (off k : ℕ)
    → Tracks start s o
    → off ≤ start + length s
    → o.base ≤ k
    → k < off
    → get_elem? s (k - start) ≡ some newline
    → k < (rewind o off).0.base
rewind_trims start s o off k t hi lo lt line = elim (rewind_cases o off) [
  | inl (out, _) ↦ absurd (omega (arith, add64-end start s o t))
  | inr (_, _, q) ↦
      rw q (elim (dec_lt k (ack o off).base) [ yes h ↦ h | no h ↦ absurd (kept (omega arith)) ])
]
  where
    r : Trims start s off (ack o off)
    r = ack-Trims start s o off t (omega arith) hi

    b : ℕ
    b = (ack o off).base

    kept : b ≤ k → ⊥
    kept h = last_index_byte-none (take (off - b) (ack o off).buf) newline (k - b) r.no_line (
        get_elem?-take_lt (off - b) (k - b) (ack o off).buf (omega arith)
        ∙ ap (λ x. get_elem? x (k - b)) r.tracks.held
        ∙ get_elem?-drop (b - start) (k - b) s
        ∙ ap (get_elem? s) (omega (arith, r.tracks.from))
        ∙ line)
