-- ===== src/Remote/Inbuf/Drain.antt =====
-- A reader that reads until it is told to stop, on an inbuf whose peer has closed the stream.
use Prim.Native.Nat.{min}
use acpp.Prelude.{
  Bytes, ℕ, zero, suc, ◌≤◌, ◌<◌, ◌≡◌, refl, ap, sym, ◌∙◌, true, false, Bool, [], ◌∷◌, ◌++◌, arith,
  length, take, drop, add64, u64_mod, length-drop, take-append-drop,
}
use acpp.Remote.Inbuf.{Inbuf, Read, read, blocked, end_of_file, got}

-- What a loop makes of one read: it goes on with `rest` unless it is told to wait or to stop.
continue : (Inbuf → Inbuf × Bytes × Bool) → Inbuf × Read → Inbuf × Bytes × Bool
continue rest (b, got c off) = let (b', more, done) = rest b in (b', c ++ more, done)
continue rest (b, end_of_file) = (b, [], true)
continue rest (b, blocked) = (b, [], false)

-- `fuel` reads of up to `n` bytes: the state, the bytes read, and whether the end was seen.
pub read_all : ℕ → ℕ → Inbuf → Inbuf × Bytes × Bool
unfolding continue
read_all zero n b = (b, [], false)
read_all (suc fuel) n b = continue (read_all fuel n) (read b n)

-- The state in which a reader has seen the end.
pub exhausted : Inbuf → Inbuf
exhausted b = record b { buf = []; consumed = add64 b.consumed (length b.buf); drained = true }

read_some :
    (b : Inbuf) (n : ℕ) (xs : Bytes)
    → b.buf ≡ xs
    → 0 < length xs
    → let k = min n (length xs) in
      read b n ≡ (
        record b { buf = drop k xs; consumed = add64 b.consumed k },
        got (take k xs) (add64 b.consumed k),
      )
unfolding read
read_some b n [] e h = absurd (omega arith)
read_some b n (x ∷ xs) e h = rw (e, read)

read_end :
    (b : Inbuf) (n : ℕ)
    → b.buf ≡ []
    → b.eof ≡ true
    → read b n ≡ (record b { drained = true }, end_of_file)
unfolding read
read_end b n e o = ground arith

exhausted_empty :
    (b : Inbuf) → b.buf ≡ [] → b.consumed < u64_mod → exhausted b ≡ record b { drained = true }
unfolding exhausted
exhausted_empty b e h = ground arith

exhausted_step :
    (b : Inbuf) (k : ℕ) (xs : Bytes)
    → b.buf ≡ xs
    → k ≤ length xs
    → exhausted (record b { buf = drop k xs; consumed = add64 b.consumed k }) ≡ exhausted b
unfolding exhausted
exhausted_step b k xs e h =
    ap (λ c. record b { buf = []; consumed = c; drained = true })
      (omega (arith, ap length e, length-drop k xs))

-- The bytes that a closed stream still holds are read in order, each once, and then the end is
-- seen: with more fuel than bytes the loop finishes.
pub read_all-closed :
    (fuel n : ℕ) (b : Inbuf) (xs : Bytes)
    → b.eof ≡ true
    → b.buf ≡ xs
    → b.consumed < u64_mod
    → 0 < n
    → length xs < fuel
    → read_all fuel n b ≡ (exhausted b, xs, true)
unfolding read_all
read_all-closed zero n b xs o e c h f = absurd (omega arith)
read_all-closed (suc fuel) n b [] o e c h f =
    ap (continue (read_all fuel n)) (read_end b n e o)
    ∙ ap (λ b'. (b', [], true)) (sym (exhausted_empty b e c))
read_all-closed (suc fuel) n b (x ∷ xs) o e c h f =
    ap (continue (read_all fuel n)) (read_some b n (x ∷ xs) e (omega arith))
    ∙ ap (λ (r : Inbuf × Bytes × Bool). (r.0, take k (x ∷ xs) ++ r.1, r.2))
        (read_all-closed fuel n b' (drop k (x ∷ xs)) o refl (omega arith) h
          (omega (arith, length-drop k (x ∷ xs))))
    ∙ cc (exhausted_step b k (x ∷ xs) e (omega arith), take-append-drop k (x ∷ xs))
  where
    k : ℕ
    k = min n (suc (length xs))

    b' : Inbuf
    b' = record b { buf = drop k (x ∷ xs); consumed = add64 b.consumed k }
