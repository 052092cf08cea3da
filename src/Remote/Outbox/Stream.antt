-- ===== src/Remote/Outbox/Stream.antt =====
-- The outbox as a window on the stream of all bytes that were written.
use acpp.Prelude.{
  Bytes, newline, if◌then◌else◌, ◌==◌, ℕ, ◌+◌, ◌-◌, ◌≤◌, ◌<◌, ◌≡◌, ap, sym, ◌∙◌, ◌⊎◌, inl, inr,
  true, ◌&&◌, [], ◌++◌, arith, ltb, leb, Bool-cases, length, drop, ok, err, u64_mod, i64_sign,
  add64, length-append, length-drop, drop-append_le, get_elem?-append_lt, lt_of_get_elem?,
}
use acpp.Remote.Bytes.{IsLineStart}
use acpp.Remote.Outbox.{Outbox, closed_pipe, overflow, new_outbox, write, unsend, close_write}

-- `s` is the stream from offset `start` on.
pub record Tracks (start : ℕ) (s : Bytes) (o : Outbox) : Type 0 where
  pub from : start ≤ o.base
  pub unacked : o.base ≤ o.sent
  pub unsent : o.sent ≤ start + length s
  pub held : o.buf ≡ drop (o.base - start) s
  pub bounded : length o.buf ≤ o.limit
  pub limit_int : o.limit < i64_sign
  pub no_wrap : start + length s < u64_mod
  pub line : IsLineStart (o.base - start) s

module _ (start : ℕ) (s : Bytes) (o : Outbox) (t : Tracks start s o) where
  -- The buffer ends where the stream ends.
  pub end-buf : o.base + length o.buf ≡ start + length s
  end-buf =
      omega (arith, ap length t.held, length-drop (o.base - start) s, t.from, t.unacked, t.unsent)

  pub add64-end : add64 o.base (length o.buf) ≡ start + length s
  add64-end = omega (arith, end-buf, t.no_wrap)

sub_self : (n : ℕ) → 0 ≡ n - n
sub_self n = omega arith

IsLineStart-append : (k : ℕ) (s p : Bytes) → k ≤ length s → IsLineStart k s → IsLineStart k (s ++ p)
IsLineStart-append k s p h (inl e) = inl e
IsLineStart-append k s p h (inr e) =
    inr (get_elem?-append_lt s p (k - 1) (lt_of_get_elem? s (k - 1) newline e) ∙ e)

appended :
    (start : ℕ) (s p : Bytes) (o : Outbox)
    → Tracks start s o
    → start + length s + length p < u64_mod
    → length o.buf + length p ≤ o.limit
    → Tracks start (s ++ p) (record o { buf = o.buf ++ p })
appended start s p o t h fits = record {
  from = t.from;
  unacked = t.unacked;
  unsent = omega (arith, t.unsent, length-append s p);
  held = ap (λ b. b ++ p) t.held ∙ sym (drop-append_le (o.base - start) s p inside);
  bounded = omega (arith, length-append o.buf p);
  limit_int = t.limit_int;
  no_wrap = omega (arith, length-append s p);
  line = IsLineStart-append (o.base - start) s p inside t.line;
}
  where
    inside : o.base - start ≤ length s
    inside = omega (arith, t.from, t.unacked, t.unsent)

pub new_outbox-Tracks :
    (start limit : ℕ)
    → start < u64_mod
    → limit < i64_sign
    → Tracks start [] (new_outbox start limit)
unfolding new_outbox
new_outbox-Tracks start limit h k = record {
  from = omega arith;
  unacked = omega arith;
  unsent = omega arith;
  held = ap (λ n. drop n []) (sub_self start);
  bounded = omega arith;
  limit_int = k;
  no_wrap = omega arith;
  line = inl (omega arith);
}

write_cases :
    (o : Outbox) (p : Bytes)
    → (o.eof ≡ true × write o p ≡ (o, err closed_pipe))
      ⊎ (o.limit < length o.buf + length p × write o p ≡ (o, err overflow))
      ⊎ (length o.buf + length p ≤ o.limit
          × write o p ≡ (record o { buf = o.buf ++ p }, ok (length p)))
unfolding write
write_cases o p = ground arith

-- A write appends all of its bytes, or none and says why.
pub write-Tracks :
    (start : ℕ) (s p : Bytes) (o : Outbox)
    → Tracks start s o
    → start + length s + length p < u64_mod
    → ((write o p).1 ≡ ok (length p) × Tracks start (s ++ p) (write o p).0)
      ⊎ ((write o p).0 ≡ o × (write o p).1 ≡ err closed_pipe × o.eof ≡ true)
      ⊎ ((write o p).0 ≡ o × (write o p).1 ≡ err overflow × o.limit < length o.buf + length p)
write-Tracks start s p o t h = elim (write_cases o p) [
  | inl (e, q) ↦ inr (inl (rw q, rw q, e))
  | inr (inl (f, q)) ↦ inr (inr (rw q, rw q, f))
  | inr (inr (f, q)) ↦ inl (rw q, rw q (appended start s p o t h f))
]

pub close_write-Tracks :
    (start : ℕ) (s : Bytes) (o : Outbox) → Tracks start s o → Tracks start s (close_write o)
unfolding close_write
close_write-Tracks start s o t = record {
  from = t.from;
  unacked = t.unacked;
  unsent = t.unsent;
  held = t.held;
  bounded = t.bounded;
  limit_int = t.limit_int;
  no_wrap = t.no_wrap;
  line = t.line;
}

-- A state whose window and flags are those of `o`, with a later send position.
pub resent :
    (start : ℕ) (s : Bytes) (o : Outbox) (k : ℕ)
    → Tracks start s o
    → o.base ≤ k
    → k ≤ start + length s
    → Tracks start s (record o { sent = k })
resent start s o k t lo hi = record {
  from = t.from;
  unacked = lo;
  unsent = hi;
  held = t.held;
  bounded = t.bounded;
  limit_int = t.limit_int;
  no_wrap = t.no_wrap;
  line = t.line;
}

pub unsend-Tracks :
    (start : ℕ) (s : Bytes) (o : Outbox) (off : ℕ)
    → Tracks start s o
    → Tracks start s (unsend o off)
unfolding unsend
unsend-Tracks start s o off t = elim (Bool-cases (leb o.base off && ltb off o.sent)) [
  | inl e ↦ rw e (resent start s o off t (ground arith) (ground (arith, t.unsent)))
  | inr e ↦ rw e t
]

-- A chunk that did not leave is taken back whole.
pub unsend-sent :
    (o : Outbox) (n : ℕ)
    → o.base ≤ o.sent
    → (if n == 0
        then record o { sent = o.sent + n }
        else unsend (record o { sent = o.sent + n }) o.sent)
      ≡ o
unfolding unsend
unsend-sent o n h = ground arith

pub write_position :
    (o : Outbox) (p : Bytes) → (write o p).0.sent ≡ o.sent × (write o p).0.base ≡ o.base
unfolding write
write_position o p = ground arith
