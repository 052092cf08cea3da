-- ===== src/Remote/Inbuf.antt =====
-- remote/buffer.go, `inbuf`: the receiving half of one direction of a stream. A method returns the
-- new state beside its result. `Read` waits on a condition variable: a call that would wait is the
-- result `blocked`. `consumed` of a read is what `onConsume` is told.
pub mod Stream
pub mod Drain
use Prim.Native.Nat.{min}
use acpp.Prelude.{
  Bytes, newline, ℕ, ◌-◌, Bool, true, false, Option, none, some, [], ◌∷◌, ◌++◌, ltb, leb, ◌==◌,
  if◌then◌else◌, length, take, drop, get_elem?, Result, ok, err, add64, ◌&&◌, not,
}

pub record Inbuf : Type 0 where
  pub next : ℕ
  pub buf : Bytes
  pub eof : Bool
  pub consumed : ℕ
  pub line_end : Bool
  pub drained : Bool

pub data Error : Type 0 where
  data_gap : ℕ → ℕ → Error

unfoldable pub new_inbuf : ℕ → Inbuf
new_inbuf start = record {
  next = start;
  buf = [];
  eof = false;
  consumed = start;
  line_end = true;
  drained = false;
}

-- p[len(p)-1] == '\n'
unfoldable pub last_is_newline : Bytes → Bool
last_is_newline [] = false
last_is_newline (c ∷ []) = c == newline
last_is_newline (c ∷ d ∷ p) = last_is_newline (d ∷ p)

pub write : Inbuf → ℕ → Bytes → Inbuf × Result Error ℕ
write b off p =
    let skip = b.next - off in
    let next' = add64 b.next (length p - skip) in
    if ltb b.next off
    then (b, err (data_gap off b.next))
    else if leb (length p) skip
    then (b, ok b.next)
    else (
      record b {
        buf = if b.eof then b.buf else b.buf ++ drop skip p;
        next = next';
        line_end = last_is_newline p;
      },
      ok next',
    )

pub ends_line : Inbuf → Bool
ends_line b = b.line_end

abbrev pub received : Inbuf → ℕ
received b = b.next

pub close_write : Inbuf → Inbuf
close_write b = record b { eof = true }

pub data Read : Type 0 where
  blocked : Read
  end_of_file : Read
  got : Bytes → ℕ → Read

-- `Read` into a slice of `n` bytes.
pub read : Inbuf → ℕ → Inbuf × Read
read b n = elim b.buf [
  | [] ↦ if b.eof then (record b { drained = true }, end_of_file) else (b, blocked)
  | c ∷ rest ↦
      let k = min n (length (c ∷ rest)) in
      let consumed' = add64 b.consumed k in
      (
        record b { buf = drop k (c ∷ rest); consumed = consumed' },
        got (take k (c ∷ rest)) consumed',
      )
]
