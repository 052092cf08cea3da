-- ===== src/Remote/Outbox.antt =====
-- remote/buffer.go, `outbox`: the sending half of one direction of a stream. A method returns the
-- new state beside its result; the mutex makes each one atomic. Offsets are `uint64` and wrap.
pub mod Stream
pub mod Acks
pub mod Chunks
use acpp.Prelude.{
  Bytes, newline, ℕ, ◌+◌, ◌-◌, Bool, true, false, ◌&&◌, ◌||◌, Option, none, some, ◌++◌, [], ltb,
  leb, ◌==◌, if◌then◌else◌, length, take, drop, Result, ok, err, add64, sub64, u64_mod, i64_sign,
}
use acpp.Remote.Bytes.{last_index_byte}

pub record Outbox : Type 0 where
  pub base : ℕ
  pub buf : Bytes
  pub sent : ℕ
  pub limit : ℕ
  pub eof : Bool

pub data Error : Type 0 where
  closed_pipe overflow cannot_resume : Error

unfoldable pub new_outbox : ℕ → ℕ → Outbox
new_outbox start limit = record { base = start; buf = []; sent = start; limit = limit; eof = false }

pub write : Outbox → Bytes → Outbox × Result Error ℕ
write o p =
    if o.eof
    then (o, err closed_pipe)
    else if ltb o.limit (length o.buf + length p)
    then (o, err overflow)
    else (record o { buf = o.buf ++ p }, ok (length p))

pub close_write : Outbox → Outbox
close_write o = record o { eof = true }

-- The slice of the buffer that `next` copies out; `none` is a panic on a negative index. As an
-- `int` a start at or above 2^63 is negative: the difference is then a sum, which may itself wrap
-- to a negative number.
chunk_at : Bytes → ℕ → ℕ → Option Bytes
chunk_at buf start max =
    if leb i64_sign start
    then (if max == 0 || leb i64_sign (length buf + (u64_mod - start)) then some [] else none)
    else (let left = length buf - start in
        some (take (if ltb max left then max else left) (drop start buf)))

-- `next`: the offset and the chunk; an empty chunk is the source's nil.
pub next : Outbox → ℕ → Option (Outbox × ℕ × Bytes)
unfolding chunk_at
next o max = elim (chunk_at o.buf (sub64 o.sent o.base) max) [
  | none ↦ none
  | some chunk ↦ some (
    (if length chunk == 0 then o else record o { sent = add64 o.sent (length chunk) }),
    o.sent,
    chunk,
  )
]

pub drained : Outbox → Bool
drained o = o.eof && o.sent == add64 o.base (length o.buf)

-- The end of `ack`, after the last line boundary before `off` was looked for.
trim : Outbox → Option ℕ → Outbox
trim o none = o
trim o (some cut) = record o { buf = drop (cut + 1) o.buf; base = add64 o.base (cut + 1) }

pub ack : Outbox → ℕ → Outbox
unfolding trim
ack o off =
    if leb off o.base || ltb (add64 o.base (length o.buf)) off
    then o
    else trim (record o { sent = if ltb o.sent off then off else o.sent })
        (last_index_byte (take (off - o.base) o.buf) newline)

pub unsend : Outbox → ℕ → Outbox
unsend o off = if leb o.base off && ltb off o.sent then record o { sent = off } else o

pub rewind : Outbox → ℕ → Outbox × Result Error (Unit {0})
rewind o off =
    if ltb off o.base || ltb (add64 o.base (length o.buf)) off
    then (o, err cannot_resume)
    else (record (ack o off) { sent = off }, ok tt)

pub sent_offset : Outbox → ℕ
sent_offset o = o.sent

pub acked : Outbox → ℕ
acked o = o.base
