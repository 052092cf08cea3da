-- ===== src/Remote/Inbuf/Stream.antt =====
-- The buffer of an open inbuf as the part of the received stream that nobody has read.
use Prim.Native.Nat.{min}
use acpp.Prelude.{
  Bytes, ℕ, zero, suc, ◌+◌, ◌-◌, ◌≤◌, ◌<◌, ◌≡◌, refl, ap, sym, ◌∙◌, ◌⊎◌, inl, inr, true, false,
  Bool, [], ◌∷◌, ◌++◌, if◌then◌else◌, arith, length, take, drop, ok, err, u64_mod, add64,
  length-append, length-drop, drop-append_le, drop-drop, drop_all, append-nil, take-min,
}
use acpp.Remote.Inbuf.{Inbuf, data_gap, new_inbuf, write, read, blocked, got, last_is_newline}

-- Nothing received, or the last byte ends a line.
abbrev pub at_line_end : Bytes → Bool
at_line_end [] = true
at_line_end (c ∷ s) = last_is_newline (c ∷ s)

-- `s` is what was received from offset `start` on.
pub record Holds (start : ℕ) (s : Bytes) (b : Inbuf) : Type 0 where
  pub open_ : b.eof ≡ false
  pub received : b.next ≡ start + length s
  pub from : start ≤ b.consumed
  pub unread : b.consumed ≤ b.next
  pub held : b.buf ≡ drop (b.consumed - start) s
  pub line : b.line_end ≡ at_line_end s
  pub no_wrap : start + length s < u64_mod

pub new_inbuf-Holds : (start : ℕ) → start < u64_mod → Holds start [] (new_inbuf start)
unfolding new_inbuf
new_inbuf-Holds start h = record {
  open_ = refl;
  received = omega arith;
  from = omega arith;
  unread = omega arith;
  held = ap (λ n. drop n []) (sub_self start);
  line = refl;
  no_wrap = omega arith;
}
  where
    sub_self : (n : ℕ) → 0 ≡ n - n
    sub_self n = omega arith

last_is_newline-append : (s p : Bytes) → 0 < length p → at_line_end (s ++ p) ≡ last_is_newline p
unfolding last_is_newline
last_is_newline-append [] [] h = absurd (omega arith)
last_is_newline-append [] (c ∷ p) h = refl
last_is_newline-append (d ∷ []) [] h = absurd (omega arith)
last_is_newline-append (d ∷ []) (c ∷ p) h = refl
last_is_newline-append (d ∷ e ∷ s) p h = last_is_newline-append (e ∷ s) p h

last_is_newline-drop :
    (n : ℕ) (p : Bytes) → n < length p → last_is_newline (drop n p) ≡ last_is_newline p
unfolding last_is_newline
last_is_newline-drop zero p h = refl
last_is_newline-drop (suc n) [] h = absurd (omega arith)
last_is_newline-drop (suc n) (c ∷ []) h = absurd (omega arith)
last_is_newline-drop (suc n) (c ∷ d ∷ p) h = last_is_newline-drop n (d ∷ p) (omega arith)

write_cases :
    (b : Inbuf) (off : ℕ) (p : Bytes)
    → (b.next < off × write b off p ≡ (b, err (data_gap off b.next)))
      ⊎ (off + length p ≤ b.next × write b off p ≡ (b, ok b.next))
      ⊎ (off ≤ b.next
          × b.next < off + length p
          × write b off p ≡ (
            record b {
              buf = if b.eof then b.buf else b.buf ++ drop (b.next - off) p;
              next = add64 b.next (length p - (b.next - off));
              line_end = last_is_newline p;
            },
            ok (add64 b.next (length p - (b.next - off))),
          ))
unfolding write
write_cases b off p = ground arith

extended :
    (start : ℕ) (s p : Bytes) (b : Inbuf) (off : ℕ)
    → Holds start s b
    → off ≤ b.next
    → b.next < off + length p
    → off + length p < u64_mod
    → Holds start (s ++ drop (b.next - off) p) (record b {
      buf = if b.eof then b.buf else b.buf ++ drop (b.next - off) p;
      next = add64 b.next (length p - (b.next - off));
      line_end = last_is_newline p;
    })
extended start s p b off t lo hi fits = record {
  open_ = t.open_;
  received = omega (arith, len, t.received);
  from = t.from;
  unread = omega (arith, t.unread);
  held = rw t.open_ (
      ap (λ x. x ++ drop (b.next - off) p) t.held
      ∙ sym
          (drop-append_le (b.consumed - start) s _ (omega (arith, t.from, t.unread, t.received))));
  line = sym (
      last_is_newline-append s (drop (b.next - off) p) (omega (arith, len))
      ∙ last_is_newline-drop (b.next - off) p (omega arith));
  no_wrap = omega (arith, len, t.received);
}
  where
    len :
        length (s ++ drop (b.next - off) p) ≡ length s + (length p - (b.next - off))
        × length (drop (b.next - off) p) ≡ length p - (b.next - off)
    len = omega (arith, length-append s (drop (b.next - off) p), length-drop (b.next - off) p)

-- A frame at an offset beyond what was received is refused and changes nothing; of any other, the
-- bytes that are new are appended, and exactly those.
pub write-Holds :
    (start : ℕ) (s p : Bytes) (b : Inbuf) (off : ℕ)
    → Holds start s b
    → off + length p < u64_mod
    → (b.next < off × write b off p ≡ (b, err (data_gap off b.next)))
      ⊎ (off ≤ b.next
          × Holds start (s ++ drop (b.next - off) p) (write b off p).0
          × (write b off p).1 ≡ ok (write b off p).0.next)
write-Holds start s p b off t fits = elim (write_cases b off p) [
  | inl (h, q) ↦ inl (h, q)
  | inr (inl (h, q)) ↦
      inr (omega arith, rw q (nothing_new (drop_all (b.next - off) p (omega arith))), rw q)
  | inr (inr (lo, hi, q)) ↦ inr (lo, rw q (extended start s p b off t lo hi fits), rw q)
]
  where
    nothing_new : drop (b.next - off) p ≡ [] → Holds start (s ++ drop (b.next - off) p) b
    nothing_new e = rw (e, append-nil) t

read_cases :
    (b : Inbuf) (n : ℕ) (xs : Bytes)
    → b.eof ≡ false
    → b.buf ≡ xs
    → (xs ≡ [] × read b n ≡ (b, blocked))
      ⊎ (0 < length xs
          × read b n ≡ (
            record b {
              buf = drop (min n (length xs)) xs;
              consumed = add64 b.consumed (min n (length xs));
            },
            got (take (min n (length xs)) xs) (add64 b.consumed (min n (length xs))),
          ))
unfolding read
read_cases b n [] o e = inl (refl, ground arith)
read_cases b n (x ∷ xs) o e = inr (omega arith, rw (e, read))

-- The buffer ends where the received stream ends.
pub room :
    (start : ℕ) (s : Bytes) (b : Inbuf) → Holds start s b → b.consumed + length b.buf ≡ b.next
room start s b t =
    omega
      (arith, ap length t.held, length-drop (b.consumed - start) s, t.from, t.unread, t.received)

consumed_more :
    (start : ℕ) (s : Bytes) (b : Inbuf) (k : ℕ)
    → Holds start s b
    → k ≤ length b.buf
    → Holds start s (record b { buf = drop k b.buf; consumed = add64 b.consumed k })
      × add64 b.consumed k ≡ b.consumed + k
consumed_more start s b k t le = (
  record {
    open_ = t.open_;
    received = t.received;
    from = omega (arith, t.from, sum);
    unread = omega (arith, room start s b t, sum);
    held =
        ap (drop k) t.held
        ∙ drop-drop (b.consumed - start) k s
        ∙ ap (λ i. drop i s) (omega (arith, sum, t.from));
    line = t.line;
    no_wrap = t.no_wrap;
  },
  sum,
)
  where
    sum : add64 b.consumed k ≡ b.consumed + k
    sum = omega (arith, room start s b t, t.received, t.no_wrap)

-- A read waits exactly when everything received was read; otherwise it returns the next bytes of
-- the received stream, and tells the offset after them.
pub read-Holds :
    (start : ℕ) (s : Bytes) (b : Inbuf) (n : ℕ)
    → Holds start s b
    → (b.consumed ≡ b.next × read b n ≡ (b, blocked))
      ⊎ (b.consumed < b.next
          × Holds start s (read b n).0
          × (read b n).1 ≡ got (take n (drop (b.consumed - start) s)) (read b n).0.consumed
          × (read b n).0.consumed ≡ b.consumed + min n (b.next - b.consumed))
read-Holds start s b n t = elim (read_cases b n b.buf t.open_ refl) [
  | inl (e, q) ↦ inl (omega (arith, ap length e, room start s b t), q)
  | inr (h, q) ↦
      let more = consumed_more start s b (min n (length b.buf)) t (omega arith) in
      inr (
        omega (arith, h, room start s b t),
        rw q more.0,
        rw q (
            ap (λ c. got c (add64 b.consumed (min n (length b.buf))))
              (take-min n b.buf ∙ ap (take n) t.held)),
        rw q (more.1 ∙ ap (λ k. b.consumed + min n k) (omega (arith, room start s b t))),
      )
]

pub consumed-write : (b : Inbuf) (off : ℕ) (p : Bytes) → (write b off p).0.consumed ≡ b.consumed
unfolding write
consumed-write b off p = ground arith

pub next-read : (b : Inbuf) (n : ℕ) → (read b n).0.next ≡ b.next
unfolding read
next-read b n = ground arith
