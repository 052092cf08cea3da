-- ===== src/Remote/Outbox/Chunks.antt =====
-- What `next` hands out.
use Prim.Native.Nat.{max, min}
use acpp.Prelude.{
  Bytes, ℕ, ◌+◌, ◌-◌, ◌≤◌, ◌<◌, ◌≡◌, ap, sym, ◌∙◌, Option, some, if◌then◌else◌, arith, ◌==◌, length,
  take, drop, u64_mod, i64_sign, add64, sub64, length-take, length-drop, drop-drop, take-min,
}
use acpp.Remote.Outbox.{Outbox, next, chunk_at}
use acpp.Remote.Outbox.Stream.{Tracks, resent, end-buf}

next_cases :
    (o : Outbox) (max : ℕ)
    → sub64 o.sent o.base < i64_sign
    → next o max ≡ (
        let chunk =
          take (min max (length o.buf - sub64 o.sent o.base)) (drop (sub64 o.sent o.base) o.buf) in
        some (
          (if length chunk == 0 then o else record o { sent = add64 o.sent (length chunk) }),
          o.sent,
          chunk,
        ))
unfolding next chunk_at
next_cases o max h = ground arith

resent_same :
    (o : Outbox) (n : ℕ)
    → o.sent + n < u64_mod
    → (if n == 0 then o else record o { sent = add64 o.sent n }) ≡ record o { sent = o.sent + n }
resent_same o n h = ground arith

-- the unsent part
window :
    (start : ℕ) (s : Bytes) (o : Outbox)
    → Tracks start s o
    → drop (sub64 o.sent o.base) o.buf ≡ drop (o.sent - start) s
window start s o t =
    ap (drop (sub64 o.sent o.base)) t.held
    ∙ drop-drop (o.base - start) (sub64 o.sent o.base) s
    ∙ ap (λ k. drop k s) (omega (arith, t.from, t.unacked, t.unsent, t.no_wrap))

pub next-Tracks :
    (start max : ℕ) (s : Bytes) (o : Outbox)
    → Tracks start s o
    → let chunk = take max (drop (o.sent - start) s) in
      next o max ≡ some (record o { sent = o.sent + length chunk }, o.sent, chunk)
next-Tracks start max s o t =
    next_cases o max (omega (arith, t.from, t.unacked, t.unsent, t.no_wrap, small))
    ∙ ap f (
        ap (λ n. take (min max n) (drop (sub64 o.sent o.base) o.buf))
          (sym (length-drop (sub64 o.sent o.base) o.buf))
        ∙ take-min max (drop (sub64 o.sent o.base) o.buf)
        ∙ ap (take max) (window start s o t))
    ∙ ap (λ o'. some (o', o.sent, chunk))
        (resent_same o (length chunk) (
          omega (
            arith,
            t.from,
            t.unacked,
            t.unsent,
            t.no_wrap,
            length-take max (drop (o.sent - start) s),
            length-drop (o.sent - start) s,
          )))
  where
    chunk : Bytes
    chunk = take max (drop (o.sent - start) s)

    f : Bytes → Option (Outbox × ℕ × Bytes)
    f c =
        some ((if length c == 0 then o else record o { sent = add64 o.sent (length c) }), o.sent, c)

    small : length o.buf < i64_sign × (o.sent - o.base ≤ length o.buf)
    small = omega (arith, t.bounded, t.limit_int, end-buf start s o t, t.unsent)

pub next_state-Tracks :
    (start max : ℕ) (s : Bytes) (o : Outbox)
    → Tracks start s o
    → Tracks start s (record o { sent = o.sent + length (take max (drop (o.sent - start) s)) })
next_state-Tracks start max s o t = resent start s o _ t (omega (arith, t.unacked)) (
    omega (
      arith,
      length-take max (drop (o.sent - start) s),
      length-drop (o.sent - start) s,
      t.unsent,
      t.from,
      t.unacked,
    ))
